-- ===== src/Game/Pairs/Answers.antt =====
-- What `matches` of features/games/played-for-both/played-for-both.engine.ts gives.
use scoutpulse.Base.{
  ℕ, ◌≡◌, ◌↔◌, refl, ◌⊎◌, inl, inr, String, Bool, true, ◌&&◌, some, List, [], ◌∷◌, arith, get_elem?,
  filter, All, ◌==◌, Bool-cases, Option-cases, ap, sym, ◌∙◌,
}
use mathlib.Core.Path.{subst}
use scoutpulse.Game.Index.{GameIndex, Player, PlayedForBothWire, build_index, contains, row}
use scoutpulse.Game.Index.Rows.{build_index-row}
use scoutpulse.Game.Pairs.{
  players_at, Member, IsFamousFirst, linked, in_order, insert_sorted, sorted, matches,
}

module _ (name_le : String → String → Bool) where
  All-insert_sorted :
      (P : Player → Type 0) (x : Player) (ys : List Player)
      → P x
      → All P ys
      → All P (insert_sorted name_le x ys)
  unfolding insert_sorted
  All-insert_sorted P x [] h k = (h, tt)
  All-insert_sorted P x (y ∷ ys) h k = elim (Bool-cases (in_order name_le x y)) [
    | inl e ↦ rw e (h, k)
    | inr e ↦ rw e (k.0, All-insert_sorted P x ys h k.1)
  ]

  insert_sorted-IsFamousFirst :
      (x : Player) (ys : List Player)
      → IsFamousFirst ys
      → IsFamousFirst (insert_sorted name_le x ys)
  unfolding insert_sorted
  insert_sorted-IsFamousFirst x [] h = (λ e. tt, tt)
  insert_sorted-IsFamousFirst x (y ∷ ys) (f, h) = elim (Bool-cases (in_order name_le x y)) [
    | inl e ↦ rw e (λ n. (ground arith, f (ground arith)), (f, h))
    | inr e ↦
        rw e
          (λ n. All-insert_sorted _ x ys (ground arith) (f n), insert_sorted-IsFamousFirst x ys h)
  ]

  sorted-IsFamousFirst : (xs : List Player) → IsFamousFirst (sorted name_le xs)
  unfolding sorted
  sorted-IsFamousFirst [] = tt
  sorted-IsFamousFirst (x ∷ xs) =
      insert_sorted-IsFamousFirst x (sorted name_le xs) (sorted-IsFamousFirst xs)

  All-sorted : (P : Player → Type 0) (xs : List Player) → All P xs → All P (sorted name_le xs)
  unfolding sorted
  All-sorted P [] h = tt
  All-sorted P (x ∷ xs) (h, k) = All-insert_sorted P x (sorted name_le xs) h (All-sorted P xs k)

  Member-insert_sorted :
      (p x : Player) (ys : List Player)
      → (x ≡ p) ⊎ Member p ys
      → Member p (insert_sorted name_le x ys)
  unfolding insert_sorted
  Member-insert_sorted p x [] m = m
  Member-insert_sorted p x (y ∷ ys) m = elim (Bool-cases (in_order name_le x y)) [
    | inl e ↦ rw e m
    | inr e ↦ rw e (swapped (Member-insert_sorted p x ys) m)
  ]
    where
      swapped :
          ((x ≡ p) ⊎ Member p ys → Member p (insert_sorted name_le x ys))
          → (x ≡ p) ⊎ Member p (y ∷ ys)
          → (y ≡ p) ⊎ Member p (insert_sorted name_le x ys)
      swapped ih (inl s) = inr (ih (inl s))
      swapped ih (inr (inl s)) = inl s
      swapped ih (inr (inr s)) = inr (ih (inr s))

  Member-sorted : (p : Player) (xs : List Player) → Member p xs → Member p (sorted name_le xs)
  unfolding sorted
  Member-sorted p [] m = elim m [ ]
  Member-sorted p (x ∷ xs) (inl s) = Member-insert_sorted p x (sorted name_le xs) (inl s)
  Member-sorted p (x ∷ xs) (inr s) =
      Member-insert_sorted p x (sorted name_le xs) (inr (Member-sorted p xs s))

pub contains-filter :
    (p : ℕ → Bool) (i : ℕ) (l : List ℕ) → contains i (filter p l) ≡ (contains i l && p i)
unfolding filter
contains-filter p i [] = refl
contains-filter p i (x ∷ l) = elim (Bool-cases (x == i)) [
  | inl e ↦ let same : x ≡ i = ground arith in ground (arith, contains-filter p i l, ap p same)
  | inr e ↦ ground (arith, contains-filter p i l)
]

All-players_at :
    (P : Player → Type 0) (players : List Player) (l : List ℕ)
    → ((i : ℕ) (p : Player) → contains i l ≡ true → get_elem? players i ≡ some p → P p)
    → All P (players_at players l)
unfolding players_at
All-players_at P players [] h = tt
All-players_at P players (i ∷ l) h =
    let rest = All-players_at P players l (λ j p c g. h j p (ground arith) g) in
    elim (Option-cases (get_elem? players i)) [
      | inl e ↦ rw (e, players_at) rest
      | inr (p, e) ↦ rw (e, players_at) (h i p (ground arith) e, rest)
    ]

Member-players_at :
    (p : Player) (players : List Player) (l : List ℕ) (i : ℕ)
    → contains i l ≡ true
    → get_elem? players i ≡ some p
    → Member p (players_at players l)
unfolding players_at
Member-players_at p players [] i h g = cc
Member-players_at p players (x ∷ l) i h g = elim (Bool-cases (x == i)) [
  | inl e ↦
      let same : x ≡ i = ground arith in
      let g' : get_elem? players x ≡ some p = rw same g in rw (g', players_at) (inl refl)
  | inr e ↦
      let ih = Member-players_at p players l i (ground arith) g in
      elim (Option-cases (get_elem? players x)) [
        | inl n ↦ rw (n, players_at) ih
        | inr (q, n) ↦ rw (n, players_at) (inr ih)
      ]
]

module _ (wire : PlayedForBothWire) (ix : GameIndex) (h : build_index wire ≡ some ix)
    (a b : ℕ) where
  has_of_row :
      (e i : ℕ) (p : Player)
      → contains i (row ix.by_entity e) ≡ true
      → get_elem? ix.players i ≡ some p
      → contains e p.entities ≡ true
  has_of_row e i p c g =
      let (q, g', has) = (build_index-row wire ix e i h).0 c in
      let same : p ≡ q = ground arith in rw same has

  has_both :
      (i : ℕ) (p : Player)
      → contains i (linked ix a b) ≡ true
      → get_elem? ix.players i ≡ some p
      → (contains a p.entities ≡ true) × (contains b p.entities ≡ true)
  has_both i p c g =
      let e = contains-filter (λ j. contains j (row ix.by_entity b)) i (row ix.by_entity a) in
      let both : (contains i (row ix.by_entity a) && contains i (row ix.by_entity b)) ≡ true =
        sym e ∙ c in
      (has_of_row a i p (ground arith) g, has_of_row b i p (ground arith) g)

  in_linked :
      (i : ℕ) (p : Player)
      → get_elem? ix.players i ≡ some p
      → contains a p.entities ≡ true
      → contains b p.entities ≡ true
      → contains i (linked ix a b) ≡ true
  in_linked i p g ha hb =
      let ra = (build_index-row wire ix a i h).1 (p, g, ha) in
      let rb = (build_index-row wire ix b i h).1 (p, g, hb) in
      contains-filter (λ j. contains j (row ix.by_entity b)) i (row ix.by_entity a)
      ∙ rw (ra, rb) refl

Member-All : (P : Player → Type 0) (p : Player) (l : List Player) → All P l → Member p l → P p
Member-All P p [] h m = elim m [ ]
Member-All P p (x ∷ l) (h, k) (inl e) = subst P e h
Member-All P p (x ∷ l) (h, k) (inr m) = Member-All P p l k m

-- The answers to a pair are just the players that have both entities, in an index built from a
-- dataset.
pub matches-linked :
    (name_le : String → String → Bool) (wire : PlayedForBothWire) (ix : GameIndex) (a b : ℕ)
    (p : Player)
    → build_index wire ≡ some ix
    → Member p (matches name_le ix a b) ↔ (
        (i : ℕ) × (get_elem? ix.players i ≡ some p)
        × (contains a p.entities ≡ true)
        × (contains b p.entities ≡ true))
unfolding matches
matches-linked name_le wire ix a b p h = (
  Member-All _ p _ (
      All-sorted name_le
        (λ q.
          (i : ℕ) × (get_elem? ix.players i ≡ some q)
          × (contains a q.entities ≡ true)
          × (contains b q.entities ≡ true))
        (players_at ix.players (linked ix a b))
        (All-players_at _ ix.players (linked ix a b)
          (λ i q c g. let (ha, hb) = has_both wire ix h a b i q c g in (i, g, ha, hb)))),
  λ (i, g, ha, hb).
      Member-sorted name_le p (players_at ix.players (linked ix a b))
        (Member-players_at p ix.players (linked ix a b) i (in_linked wire ix h a b i p g ha hb) g),
)

-- The famous answers come first: no answer who is not famous stands before one who is.
pub matches-IsFamousFirst :
    (name_le : String → String → Bool) (ix : GameIndex) (a b : ℕ)
    → IsFamousFirst (matches name_le ix a b)
unfolding matches
matches-IsFamousFirst name_le ix a b =
    sorted-IsFamousFirst name_le (players_at ix.players (linked ix a b))
