-- ===== src/Game/Pool.antt =====
-- The pool of pairs with a known answer: `buildPairPool` of
-- features/games/played-for-both/played-for-both.engine.ts. A set is a list without repeats, in
-- order of insertion.
use scoutpulse.Base.{
  ℕ, suc, ◌<◌, ◌≡◌, ◌≢◌, refl, sym, ◌∙◌, ◌⊎◌, inl, inr, String, Bool, true, false, not, ◌&&◌,
  Option, none, some, List, [], ◌∷◌, ◌++◌, arith, length, get_elem?, filter, find, All, All-append,
  ◌==◌, if◌then◌else◌, Bool-cases,
}
use mathlib.Core.Option.{some-injective}
use scoutpulse.Game.Index.{GameIndex, Player, PlayedForBothWire, build_index, contains}
use scoutpulse.Game.Index.Rows.{club_count-build_index}
use scoutpulse.Game.Pairs.{pair_key, is_club, enabled_clubs, lt_of_enabled}
use scoutpulse.Game.Pairs.Answers.{contains-filter}
pub mod Complete

pub record PoolOptions : Type 0 where
  pub leagues : List String
  pub famous_only : Bool
  pub allow_nations : Bool

abbrev add : ℕ → List ℕ → List ℕ
add key set = if contains key set then set else set ++ key ∷ []

-- the inner loop: one club against those behind it
add_pairs : ℕ → List ℕ → List ℕ → List ℕ
add_pairs a [] set = set
add_pairs a (b ∷ bs) set = add_pairs a bs (if a == b then set else add (pair_key a b) set)

abbrev add_nation : Bool → Option ℕ → ℕ → List ℕ → List ℕ
add_nation true (some nation) a set = add (pair_key a nation) set
add_nation true none a set = set
add_nation false nation a set = set

-- the outer loop over a player's enabled clubs
add_clubs : Bool → Option ℕ → List ℕ → List ℕ → List ℕ
unfolding add_pairs
add_clubs allow nation [] set = set
add_clubs allow nation (a ∷ clubs) set =
    add_clubs allow nation clubs (add_nation allow nation a (add_pairs a clubs set))

-- the loop over the players
pool_from : GameIndex → PoolOptions → List ℕ → List Player → List ℕ → List ℕ
unfolding add_clubs
pool_from ix opts on [] set = set
pool_from ix opts on (p ∷ players) set = pool_from ix opts on players (
    if opts.famous_only && not p.famous
    then set
    else add_clubs opts.allow_nations (find (λ e. not (is_club ix e)) p.entities)
        (filter (λ e. contains e on) p.entities) set)

unfoldable pub build_pair_pool : GameIndex → PoolOptions → List ℕ
unfolding pool_from
build_pair_pool ix opts = pool_from ix opts (enabled_clubs ix opts.leagues) ix.players []

-- A key is that of an enabled club and either another enabled club or, where nations are allowed, a
-- nation, and a player who may count has both.
pub record IsAnswered (ix : GameIndex) (opts : PoolOptions) (key : ℕ) : Type 0 where
  pub a : ℕ
  pub b : ℕ
  pub is_key : key ≡ pair_key a b
  pub differ : a ≢ b
  pub enabled : contains a (enabled_clubs ix opts.leagues) ≡ true
  pub other :
      (contains b (enabled_clubs ix opts.leagues) ≡ true)
      ⊎ ((opts.allow_nations ≡ true) × (is_club ix b ≡ false))
  pub place : ℕ
  pub player : Player
  pub listed : get_elem? ix.players place ≡ some player
  pub has_a : contains a player.entities ≡ true
  pub has_b : contains b player.entities ≡ true
  pub counts : opts.famous_only ≡ true → player.famous ≡ true

module _ (P : ℕ → Type 0) where
  add-All : (key : ℕ) (set : List ℕ) → P key → All P set → All P (add key set)
  add-All key set k h = elim (Bool-cases (contains key set)) [
    | inl e ↦ rw e h
    | inr e ↦ rw e (All-append P set (key ∷ []) h (k, tt))
  ]

  add_pairs-All :
      (a : ℕ) (bs set : List ℕ)
      → ((b : ℕ) → contains b bs ≡ true → a ≢ b → P (pair_key a b))
      → All P set
      → All P (add_pairs a bs set)
  unfolding add_pairs
  add_pairs-All a [] set k h = h
  add_pairs-All a (b ∷ bs) set k h =
      add_pairs-All a bs _ (λ c m. k c (ground arith))
        (elim (Bool-cases (a == b)) [
          | inl e ↦ rw e h
          | inr e ↦ rw e (add-All (pair_key a b) set (k b (ground arith) (ground arith)) h)
        ])

  add_nation-All :
      (allow : Bool) (nation : Option ℕ) (a : ℕ) (set : List ℕ)
      → ((b : ℕ) → allow ≡ true → nation ≡ some b → P (pair_key a b))
      → All P set
      → All P (add_nation allow nation a set)
  add_nation-All true (some b) a set k h = add-All (pair_key a b) set (k b refl refl) h
  add_nation-All true none a set k h = h
  add_nation-All false nation a set k h = h

  add_clubs-All :
      (allow : Bool) (nation : Option ℕ) (clubs set : List ℕ)
      → ((a b : ℕ) → contains a clubs ≡ true → contains b clubs ≡ true → a ≢ b → P (pair_key a b))
      → ((a b : ℕ) → contains a clubs ≡ true → allow ≡ true → nation ≡ some b → P (pair_key a b))
      → All P set
      → All P (add_clubs allow nation clubs set)
  unfolding add_clubs
  add_clubs-All allow nation [] set k l h = h
  add_clubs-All allow nation (a ∷ clubs) set k l h =
      add_clubs-All allow nation clubs _ (λ c d m o. k c d (ground arith) (ground arith))
        (λ c d m. l c d (ground arith))
        (add_nation-All allow nation a _ (λ b. l a b (ground arith))
          (add_pairs-All a clubs set (λ b m. k a b (ground arith) (ground arith)) h))

find_holds :
    (q : ℕ → Bool) (l : List ℕ) (b : ℕ) → find q l ≡ some b → (contains b l ≡ true) × (q b ≡ true)
unfolding find
find_holds q [] b h = cc
find_holds q (x ∷ l) b h = elim (Bool-cases (q x)) [
  | inl e ↦ let same : x ≡ b = some-injective _ _ (rw e at h) in (ground arith, rw same at e)
  | inr e ↦ let (c, k) = find_holds q l b (rw e at h) in (ground arith, k)
]

module _ (wire : PlayedForBothWire) (ix : GameIndex) (h : build_index wire ≡ some ix)
    (opts : PoolOptions) where
  enabled_of_filter :
      (on l : List ℕ) (a : ℕ)
      → contains a (filter (λ e. contains e on) l) ≡ true
      → (contains a l ≡ true) × (contains a on ≡ true)
  enabled_of_filter on l a c =
      let both : (contains a l && contains a on) ≡ true =
        sym (contains-filter (λ e. contains e on) a l) ∙ c in
      (ground arith, ground arith)

  differ_of_nation :
      (a b : ℕ) → contains a (enabled_clubs ix opts.leagues) ≡ true → is_club ix b ≡ false → a ≢ b
  unfolding is_club
  differ_of_nation a b on out =
      let below : a < length ix.clubs = lt_of_enabled ix opts.leagues a on in
      let count = (club_count-build_index wire ix h).0 in ground (arith, below, count)

  add_clubs-IsAnswered :
      (place : ℕ) (p : Player)
      → get_elem? ix.players place ≡ some p
      → (opts.famous_only ≡ true → p.famous ≡ true)
      → (set : List ℕ) → All (IsAnswered ix opts) set
      → All (IsAnswered ix opts) (
          add_clubs opts.allow_nations
            (find (λ e. not (is_club ix e)) p.entities)
            (filter (λ e. contains e (enabled_clubs ix opts.leagues)) p.entities)
            set)
  add_clubs-IsAnswered place p g counts set k =
      add_clubs-All (IsAnswered ix opts) opts.allow_nations _ _ set
        (λ a b ma mb differ.
          let (ha, on) = enabled_of_filter (enabled_clubs ix opts.leagues) p.entities a ma in
          let (hb, on') = enabled_of_filter (enabled_clubs ix opts.leagues) p.entities b mb in
          record {
            a = a;
            b = b;
            is_key = refl;
            differ = differ;
            enabled = on;
            other = inl on';
            place = place;
            player = p;
            listed = g;
            has_a = ha;
            has_b = hb;
            counts = counts;
          })
        (λ a b ma allow found.
          let (ha, on) = enabled_of_filter (enabled_clubs ix opts.leagues) p.entities a ma in
          let (hb, out) = find_holds (λ e. not (is_club ix e)) p.entities b found in
          let nation : is_club ix b ≡ false = ground arith in
          record {
            a = a;
            b = b;
            is_key = refl;
            differ = differ_of_nation a b on nation;
            enabled = on;
            other = inr (allow, nation);
            place = place;
            player = p;
            listed = g;
            has_a = ha;
            has_b = hb;
            counts = counts;
          })
        k

  pool_from-All :
      (players : List Player) (set : List ℕ)
      → ((i : ℕ) (p : Player)
          → get_elem? players i ≡ some p
          → (place : ℕ) × (get_elem? ix.players place ≡ some p))
      → All (IsAnswered ix opts) set
      → All (IsAnswered ix opts) (pool_from ix opts (enabled_clubs ix opts.leagues) players set)
  unfolding pool_from
  pool_from-All [] set l k = k
  pool_from-All (p ∷ players) set l k =
      let (place, g) = l 0 p refl in
      pool_from-All players _ (λ i. l (suc i))
        (elim (Bool-cases (opts.famous_only && not p.famous)) [
          | inl e ↦ rw e k
          | inr e ↦ rw e (add_clubs-IsAnswered place p g (λ f. ground arith) set k)
        ])

-- Every pair in the pool of an index built from a dataset joins an enabled club to another entity,
-- which is an enabled club or, where nations are allowed, a nation, and a player who may count has
-- played for both.
pub build_pair_pool-IsAnswered :
    (wire : PlayedForBothWire) (ix : GameIndex) (opts : PoolOptions)
    → build_index wire ≡ some ix
    → All (IsAnswered ix opts) (build_pair_pool ix opts)
unfolding build_pair_pool
build_pair_pool-IsAnswered wire ix opts h =
    pool_from-All wire ix h opts ix.players [] (λ i p g. (i, g)) tt
