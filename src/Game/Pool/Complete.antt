-- ===== src/Game/Pool/Complete.antt =====
-- Which pairs `buildPairPool` of features/games/played-for-both/played-for-both.engine.ts finds.
use scoutpulse.Base.{
  ℕ, zero, suc, ◌≡◌, ◌≢◌, refl, sym, ◌∙◌, inl, inr, Bool, true, false, not, ◌&&◌, Option, none,
  some, List, [], ◌∷◌, arith, get_elem?, filter, find, ◌==◌, Bool-cases,
}
use mathlib.Core.Option.{some-injective}
use scoutpulse.Game.Index.{GameIndex, Player, contains}
use scoutpulse.Game.Index.Rows.{contains-append}
use scoutpulse.Game.Pairs.{pair_key, pair_key_comm, is_club, enabled_clubs}
use scoutpulse.Game.Pairs.Answers.{contains-filter}
use scoutpulse.Game.Pool.{
  PoolOptions, add, add_pairs, add_nation, add_clubs, pool_from, build_pair_pool,
}

contains-add : (x key : ℕ) (set : List ℕ) → contains x set ≡ true → contains x (add key set) ≡ true
contains-add x key set h = ground (arith, contains-append x key set)

contains-add_self : (key : ℕ) (set : List ℕ) → contains key (add key set) ≡ true
contains-add_self key set = ground (arith, contains-append key key set)

module _ (key : ℕ) where
  contains-add_pairs :
      (a : ℕ) (bs set : List ℕ) → contains key set ≡ true → contains key (add_pairs a bs set) ≡ true
  unfolding add_pairs
  contains-add_pairs a [] set h = h
  contains-add_pairs a (b ∷ bs) set h =
      contains-add_pairs a bs _ (ground (arith, contains-add key (pair_key a b) set h))

  contains-add_nation :
      (allow : Bool) (nation : Option ℕ) (a : ℕ) (set : List ℕ)
      → contains key set ≡ true
      → contains key (add_nation allow nation a set) ≡ true
  contains-add_nation true (some b) a set h = contains-add key (pair_key a b) set h
  contains-add_nation true none a set h = h
  contains-add_nation false nation a set h = h

  contains-add_clubs :
      (allow : Bool) (nation : Option ℕ) (clubs set : List ℕ)
      → contains key set ≡ true
      → contains key (add_clubs allow nation clubs set) ≡ true
  unfolding add_clubs
  contains-add_clubs allow nation [] set h = h
  contains-add_clubs allow nation (a ∷ clubs) set h =
      contains-add_clubs allow nation clubs _
        (contains-add_nation allow nation a _ (contains-add_pairs a clubs set h))

  contains-pool_from :
      (ix : GameIndex) (opts : PoolOptions) (on : List ℕ) (players : List Player) (set : List ℕ)
      → contains key set ≡ true
      → contains key (pool_from ix opts on players set) ≡ true
  unfolding pool_from
  contains-pool_from ix opts on [] set h = h
  contains-pool_from ix opts on (p ∷ players) set h =
      contains-pool_from ix opts on players _
        (elim (Bool-cases (opts.famous_only && not p.famous)) [
          | inl e ↦ rw e h
          | inr e ↦ rw e (
              contains-add_clubs opts.allow_nations (find (λ e. not (is_club ix e)) p.entities)
                (filter (λ e. contains e on) p.entities) set h)
        ])

add_pairs_adds :
    (a b : ℕ) (bs set : List ℕ)
    → contains b bs ≡ true
    → a ≢ b
    → contains (pair_key a b) (add_pairs a bs set) ≡ true
unfolding add_pairs
add_pairs_adds a b [] set h d = cc
add_pairs_adds a b (c ∷ bs) set h d = elim (Bool-cases (c == b)) [
  | inr e ↦ add_pairs_adds a b bs _ (ground arith) d
  | inl e ↦
      let same : c ≡ b = ground arith in
      let other : (a == b) ≡ false = ground arith in
      rw same
        (rw other (contains-add_pairs (pair_key a b) a bs _ (contains-add_self (pair_key a b) set)))
]

add_clubs_adds :
    (allow : Bool) (nation : Option ℕ) (a b : ℕ) (clubs set : List ℕ)
    → contains a clubs ≡ true
    → contains b clubs ≡ true
    → a ≢ b
    → contains (pair_key a b) (add_clubs allow nation clubs set) ≡ true
unfolding add_clubs
add_clubs_adds allow nation a b [] set ha hb d = cc
add_clubs_adds allow nation a b (c ∷ clubs) set ha hb d = elim (Bool-cases (c == a)) [
  | inl e ↦
      let same : c ≡ a = ground arith in
      rw same (
        contains-add_clubs (pair_key a b) allow nation clubs _ (
          contains-add_nation (pair_key a b) allow nation a _
            (add_pairs_adds a b clubs set (ground arith) d)))
  | inr e ↦ elim (Bool-cases (c == b)) [
    | inl f ↦
        let same : c ≡ b = ground arith in
        rw same (
          contains-add_clubs (pair_key a b) allow nation clubs _ (
            contains-add_nation (pair_key a b) allow nation b _ (
              rw (pair_key_comm a b)
                (add_pairs_adds b a clubs set (ground arith) (λ k. d (sym k))))))
    | inr f ↦ add_clubs_adds allow nation a b clubs _ (ground arith) (ground arith) d
  ]
]

pool_from_adds :
    (ix : GameIndex) (opts : PoolOptions) (on : List ℕ) (players : List Player) (set : List ℕ)
    (i : ℕ) (p : Player) (a b : ℕ)
    → get_elem? players i ≡ some p
    → (opts.famous_only && not p.famous) ≡ false
    → contains a (filter (λ e. contains e on) p.entities) ≡ true
    → contains b (filter (λ e. contains e on) p.entities) ≡ true
    → a ≢ b
    → contains (pair_key a b) (pool_from ix opts on players set) ≡ true
unfolding pool_from
pool_from_adds ix opts on [] set i p a b g f ha hb d = cc
pool_from_adds ix opts on (q ∷ players) set zero p a b g f ha hb d =
    let same : q ≡ p = some-injective _ _ g in
    rw same (
      rw f (
        contains-pool_from (pair_key a b) ix opts on players _ (
          add_clubs_adds opts.allow_nations (find (λ e. not (is_club ix e)) p.entities) a b
            (filter (λ e. contains e on) p.entities) set ha hb d)))
pool_from_adds ix opts on (q ∷ players) set (suc i) p a b g f ha hb d =
    pool_from_adds ix opts on players _ i p a b g f ha hb d

-- Two different enabled clubs of a player who may count are a pair of the pool.
pub contains-build_pair_pool :
    (ix : GameIndex) (opts : PoolOptions) (i : ℕ) (p : Player) (a b : ℕ)
    → get_elem? ix.players i ≡ some p
    → (opts.famous_only && not p.famous) ≡ false
    → contains a p.entities ≡ true
    → contains b p.entities ≡ true
    → contains a (enabled_clubs ix opts.leagues) ≡ true
    → contains b (enabled_clubs ix opts.leagues) ≡ true
    → a ≢ b
    → contains (pair_key a b) (build_pair_pool ix opts) ≡ true
unfolding build_pair_pool
contains-build_pair_pool ix opts i p a b g f ha hb oa ob d =
    pool_from_adds ix opts (enabled_clubs ix opts.leagues) ix.players [] i p a b g f
      (contains-filter (λ e. contains e (enabled_clubs ix opts.leagues)) a p.entities
        ∙ rw (ha, oa) refl)
      (contains-filter (λ e. contains e (enabled_clubs ix opts.leagues)) b p.entities
        ∙ rw (hb, ob) refl)
      d
