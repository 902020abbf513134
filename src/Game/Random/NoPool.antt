-- ===== src/Game/Random/NoPool.antt =====
-- What a draw without the pool gives: features/games/played-for-both/played-for-both.engine.ts.
use scoutpulse.Base.{
  ℕ, zero, suc, ◌+◌, ◌<◌, ◌≤◌, ◌≡◌, ◌≢◌, refl, ap, ◌⊎◌, inl, inr, Bool, true, false, ◌&&◌, Option,
  some, List, arith, length, ltb, leb, ◌==◌, if◌then◌else◌, Bool-cases,
}
use scoutpulse.Game.Index.{GameIndex, contains}
use scoutpulse.Game.Pairs.{pair_key, split_key, nation_entity}
use scoutpulse.Game.Draw.{
  max_tries, scaled, chance, pick, DrawOptions, Draw, pool_key, redraw, shown, drawn, draw_pair,
  against_nation, against_club, against, other_club, random_key, next_key,
}
use scoutpulse.Game.Random.{contains_of_get_elem?, scaled-lt, pick_in}

module _ (Q : ℕ → Type 0) (draw : ℕ → Option (ℕ × ℕ)) (recent : List ℕ) where
  redraw_holds :
      ((at : ℕ) → (key : ℕ) × (later : ℕ) × (draw at ≡ some (key, later)) × Q key)
      → (tries key at : ℕ) → (tries ≡ 0 → Q key)
      → (k : ℕ) × (later : ℕ) × (redraw draw recent tries key at ≡ some (k, later)) × Q k
  unfolding redraw
  redraw_holds each zero key at h = (key, at, refl, h refl)
  redraw_holds each (suc tries) key at h =
      let (found, after, e, q) = each at in
      let (k, later, run, q') = redraw_holds each tries found after (λ z. q) in
      elim (Bool-cases (contains found recent)) [
        | inl old ↦ (k, later, rw (e, old) run, q')
        | inr new ↦ (found, after, rw (e, new) refl, q)
      ]

-- A key of an enabled club and of another one, or of a nation.
pub record IsPlayable (ix : GameIndex) (clubs : List ℕ) (key : ℕ) : Type 0 where
  pub a : ℕ
  pub b : ℕ
  pub is_key : key ≡ pair_key a b
  pub differ : a ≢ b
  pub enabled : contains a clubs ≡ true
  pub other :
      (contains b clubs ≡ true) ⊎ ((ix.club_count ≤ b) × (b < ix.club_count + length ix.nations))

module _ (rng : ℕ → ℕ) (fuel : ℕ) (ix : GameIndex) (clubs : List ℕ) (a : ℕ) where
  other_club_ends :
      (fuel at k b : ℕ)
      → 0 < length clubs
      → k < fuel
      → pick clubs (rng (at + k)) ≡ some b
      → a ≢ b
      → (c : ℕ) × (later : ℕ) × (other_club rng clubs a fuel at ≡ some (c, later))
        × (a ≢ c)
        × (contains c clubs ≡ true)
  unfolding other_club
  other_club_ends zero at k b some_club h e differ = absurd (omega arith)
  other_club_ends (suc fuel) at zero b some_club h e differ =
      let same : at + 0 ≡ at = omega arith in
      let f : pick clubs (rng at) ≡ some b = rw same at e in
      let new : (a == b) ≡ false = ground arith in
      (
        b,
        suc at,
        rw (f, new) refl,
        differ,
        contains_of_get_elem? clubs (scaled (rng at) (length clubs)) f,
      )
  other_club_ends (suc fuel) at (suc k) b some_club h e differ =
      let (c, f, inside) = pick_in clubs (rng at) some_club in
      let same : at + suc k ≡ suc at + k = omega arith in
      let (d, after, run, differ', inside') =
        other_club_ends fuel (suc at) k b some_club (omega arith) (rw same at e) differ in
      elim (Bool-cases (a == c)) [
        | inr new ↦ (c, suc at, rw (f, new) refl, ground arith, inside)
        | inl old ↦ (d, after, rw (f, old) run, differ', inside')
      ]

module _ (rng : ℕ → ℕ) (fuel : ℕ) (ix : GameIndex) (opts : DrawOptions)
    (below : (e : ℕ) → contains e opts.clubs ≡ true → e < ix.club_count)
    (some_club : 0 < length opts.clubs) (alone : length opts.clubs < 2 → 0 < length ix.nations)
    (varied : 1 < length opts.clubs
      → (a at : ℕ)
      → (k : ℕ) × (k < fuel) × (b : ℕ) × (pick opts.clubs (rng (at + k)) ≡ some b) × (a ≢ b)) where
  against_nation-IsPlayable :
      (a at : ℕ)
      → contains a opts.clubs ≡ true
      → 0 < length ix.nations
      → (key : ℕ) × (later : ℕ) × (against_nation rng ix a at ≡ some (key, later))
        × IsPlayable ix opts.clubs key
  unfolding nation_entity
  against_nation-IsPlayable a at inside h =
      let nation = scaled (rng at) (length ix.nations) in
      (
        pair_key a (ix.club_count + nation),
        suc at,
        refl,
        record {
          a = a;
          b = ix.club_count + nation;
          is_key = refl;
          differ = omega (arith, below a inside);
          enabled = inside;
          other = inr (omega arith, omega (arith, scaled-lt (rng at) (length ix.nations) h));
        },
      )

  against_club-IsPlayable :
      (a at : ℕ)
      → contains a opts.clubs ≡ true
      → (key : ℕ) × (later : ℕ) × (against_club rng fuel ix opts.clubs a at ≡ some (key, later))
        × IsPlayable ix opts.clubs key
  unfolding against_club
  against_club-IsPlayable a at inside = elim (Bool-cases (ltb (length opts.clubs) 2)) [
    | inl e ↦
        let (key, later, run, q) = against_nation-IsPlayable a at inside (alone (ground arith)) in
        (key, later, rw e run, q)
    | inr e ↦
        let (k, h, b, f, differ) = varied (ground arith) a at in
        let (c, later, run, differ', inside') =
          other_club_ends rng fuel ix opts.clubs a fuel at k b some_club h f differ in
        (
          pair_key a c,
          later,
          rw (e, run) refl,
          record {
            a = a;
            b = c;
            is_key = refl;
            differ = differ';
            enabled = inside;
            other = inl inside';
          },
        )
  ]

  random_key-IsPlayable :
      (at : ℕ)
      → (key : ℕ) × (later : ℕ) × (random_key rng fuel ix opts at ≡ some (key, later))
        × IsPlayable ix opts.clubs key
  unfolding random_key against
  random_key-IsPlayable at =
      let (a, e, inside) = pick_in opts.clubs (rng at) some_club in
      elim (Bool-cases (opts.allow_nations && ltb 0 (length ix.nations))) [
        | inr off ↦
            let (key, later, run, q) = against_club-IsPlayable a (suc at) inside in
            (key, later, rw (e, off) run, q)
        | inl on ↦ elim (Bool-cases (chance 35 (rng (suc at)))) [
          | inl f ↦
              let (key, later, run, q) =
                against_nation-IsPlayable a (suc (suc at)) inside (ground arith) in
              (key, later, rw (e, on, f) run, q)
          | inr f ↦
              let (key, later, run, q) = against_club-IsPlayable a (suc (suc at)) inside in
              (key, later, rw (e, on, f) run, q)
        ]
      ]

-- Where the pool is not asked for or is empty, the draw ends and gives a club that is enabled
-- against another one that is, or against a nation that exists, if some club is enabled, the clubs
-- come before the nations, there is a nation where fewer than two clubs are enabled, and among any
-- `fuel` random numbers in a row there is for each club, where there are two, one that picks
-- another.
pub draw_pair-random :
    (rng : ℕ → ℕ) (fuel : ℕ) (ix : GameIndex) (opts : DrawOptions) (at : ℕ)
    → (opts.known_only && ltb 0 (length opts.pool)) ≡ false
    → ((e : ℕ) → contains e opts.clubs ≡ true → e < ix.club_count)
    → 0 < length opts.clubs
    → (length opts.clubs < 2 → 0 < length ix.nations)
    → (1 < length opts.clubs
        → (a at : ℕ)
        → (k : ℕ) × (k < fuel) × (b : ℕ) × (pick opts.clubs (rng (at + k)) ≡ some b) × (a ≢ b))
    → (draw : Draw) × (later : ℕ) × (draw_pair rng fuel ix opts at ≡ some (some draw, later))
      × IsPlayable ix opts.clubs draw.key
unfolding draw_pair next_key
draw_pair-random rng fuel ix opts at hard below some_club alone varied =
    let clubs : leb (length opts.clubs) 0 ≡ false = ground arith in
    let each = random_key-IsPlayable rng fuel ix opts below some_club alone varied in
    let (k, later, run, q) =
      redraw_holds (IsPlayable ix opts.clubs) (random_key rng fuel ix opts) opts.recent each
        max_tries 0 at (λ z. absurd (omega arith)) in
    (
      shown k (chance 50 (rng later)) (split_key k),
      suc later,
      rw clubs (ap (drawn rng) (next (opts.known_only && ltb 0 (length opts.pool)) hard run)),
      q,
    )
  where
    next :
        (b : Bool)
        → b ≡ false
        → {found : Option (ℕ × ℕ)}
        → redraw (random_key rng fuel ix opts) opts.recent max_tries 0 at ≡ found
        → redraw
            (if b then pool_key rng opts else random_key rng fuel ix opts)
            opts.recent
            max_tries
            0
            at
          ≡ found
    next b e g = rw e g
