-- ===== src/Game/Random.antt =====
-- What a draw of `drawPair` gives: features/games/played-for-both/played-for-both.engine.ts.
use scoutpulse.Base.{
  ℕ, zero, suc, ◌+◌, ◌*◌, ◌%◌, ◌<◌, ◌≤◌, ◌≡◌, ◌≢◌, refl, ap, ◌⊎◌, inl, inr, Bool, true, false, ◌&&◌,
  Option, some, List, [], ◌∷◌, arith, length, get_elem?, get_elem?_of_lt, ltb, leb, ◌==◌,
  if◌then◌else◌, Bool-cases,
}
use mathlib.Core.Option.{some-injective}
use native.Mathlib.Nat.{mul-le-mul_right}
use scoutpulse.Game.Index.{GameIndex, contains}
use scoutpulse.Game.Pairs.{pair_key, split_key, nation_entity}
use scoutpulse.Game.Draw.{
  max_tries, resolution, scaled, chance, pick, DrawOptions, Draw, pool_key, redraw, shown, drawn,
  draw_pair, against_nation, against_club, against, other_club, random_key, next_key,
}
pub mod NoPool

contains_of_get_elem? : (l : List ℕ) (i : ℕ) {x : ℕ} → get_elem? l i ≡ some x → contains x l ≡ true
contains_of_get_elem? [] i h = cc
contains_of_get_elem? (y ∷ l) zero {x} h = let same : y ≡ x = some-injective _ _ h in ground arith
contains_of_get_elem? (y ∷ l) (suc i) h = ground (arith, contains_of_get_elem? l i h)

product_bound : (m k c : ℕ) → m < k → m * c + c ≤ k * c
product_bound m k c h = omega (arith, mul-le-mul_right {m = suc m} {n = k} c (omega arith))

scaled-lt : (r count : ℕ) → 0 < count → scaled r count < count
scaled-lt r count h = omega (arith, product_bound (r % resolution) resolution count (omega arith))

-- a random place in a list that is not empty holds an element of it
pick_in :
    (list : List ℕ) (r : ℕ)
    → 0 < length list
    → (x : ℕ) × (pick list r ≡ some x) × (contains x list ≡ true)
pick_in list r h =
    let (x, e) = get_elem?_of_lt list (scaled r (length list)) (scaled-lt r (length list) h) in
    (x, e, contains_of_get_elem? list (scaled r (length list)) e)

module _ (rng : ℕ → ℕ) (opts : DrawOptions) (some_pair : 0 < length opts.pool) where
  -- the tries all drew a pair of the window
  abbrev pub AllRecent : ℕ → ℕ → Type 0
  AllRecent tries at =
      (i : ℕ)
      → i < tries
      → (key : ℕ) × (pick opts.pool (rng (at + i)) ≡ some key) × (contains key opts.recent ≡ true)

  AllRecent-suc :
      (tries at key : ℕ)
      → pick opts.pool (rng at) ≡ some key
      → contains key opts.recent ≡ true
      → AllRecent tries (suc at)
      → AllRecent (suc tries) at
  AllRecent-suc tries at key e c all zero h =
      (key, let same : at ≡ at + 0 = omega arith in rw (← same) e, c)
  AllRecent-suc tries at key e c all (suc i) h =
      let (k, f, d) = all i (omega arith) in
      let same : suc at + i ≡ at + suc i = omega arith in (k, rw same at f, d)

  redraw_pool :
      (tries key at : ℕ)
      → (k : ℕ) × (later : ℕ) × (redraw (pool_key rng opts) opts.recent tries key at
          ≡ some (k, later))
        × ((contains k opts.pool ≡ true) ⊎ ((k ≡ key) × (tries ≡ 0)))
        × ((contains k opts.recent ≡ false) ⊎ AllRecent tries at)
  unfolding redraw
  redraw_pool zero key at = (key, at, refl, inr (refl, refl), inr (λ i h. absurd (omega arith)))
  redraw_pool (suc tries) key at =
      let (found, e, c) = pick_in opts.pool (rng at) some_pair in
      let (k, later, run, known, fresh) = redraw_pool tries found (suc at) in
      elim (Bool-cases (contains found opts.recent)) [
        | inl old ↦ (
          k,
          later,
          rw (e, old) run,
          inl (ground arith),
          elim fresh [ inl f ↦ inl f | inr all ↦ inr (AllRecent-suc tries at found e old all) ],
        )
        | inr new ↦ (found, suc at, rw (e, new) refl, inl c, inl new)
      ]

-- With known answers only, and a pool and a club to draw from, every draw gives a pair: a key of
-- the pool, shown as its two entities in either order. It is none of the recent pairs unless the
-- fifty tries all drew one of these.
pub draw_pair-known :
    (rng : ℕ → ℕ) (fuel : ℕ) (ix : GameIndex) (opts : DrawOptions) (at : ℕ)
    → 0 < length opts.clubs
    → 0 < length opts.pool
    → opts.known_only ≡ true
    → (draw : Draw) × (later : ℕ) × (draw_pair rng fuel ix opts at ≡ some (some draw, later))
      × (contains draw.key opts.pool ≡ true)
      × (((draw.left, draw.right) ≡ split_key draw.key)
          ⊎ ((draw.right, draw.left) ≡ split_key draw.key))
      × ((contains draw.key opts.recent ≡ false)
          ⊎ ((i : ℕ)
              → i < max_tries
              → (key : ℕ) × (pick opts.pool (rng (at + i)) ≡ some key)
                × (contains key opts.recent ≡ true)))
unfolding draw_pair next_key
draw_pair-known rng fuel ix opts at club some_pair known =
    let clubs : leb (length opts.clubs) 0 ≡ false = ground arith in
    let pool : ltb 0 (length opts.pool) ≡ true = ground arith in
    let (k, later, run, inside, fresh) = redraw_pool rng opts some_pair max_tries 0 at in
    (
      shown k (chance 50 (rng later)) (split_key k),
      suc later,
      rw clubs (ap (drawn rng) (next opts.known_only known pool run)),
      elim inside [ inl c ↦ c | inr (e, f) ↦ absurd (omega arith) ],
      elim (Bool-cases (chance 50 (rng later))) [
        | inl e ↦ inr (rw e refl)
        | inr e ↦ inl (rw e refl)
      ],
      fresh,
    )
  where
    next :
        (b : Bool)
        → b ≡ true
        → ltb 0 (length opts.pool) ≡ true
        → {found : Option (ℕ × ℕ)} → redraw (pool_key rng opts) opts.recent max_tries 0 at ≡ found
        → redraw
            (if b && ltb 0 (length opts.pool)
              then pool_key rng opts
              else random_key rng fuel ix opts)
            opts.recent
            max_tries
            0
            at
          ≡ found
    next b e f g = rw (e, f) g
