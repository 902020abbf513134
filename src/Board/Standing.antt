-- ===== src/Board/Standing.antt =====
-- What a list of steps says of one thing, and how edits of the list change it. This is the reading
-- of a board's steps that features/tactics/board/model.ts describes: a step that says nothing of an
-- object leaves it where it stood.
use scoutpulse.Base.{
  ℕ, zero, suc, ◌+◌, ◌≤◌, ◌<◌, ◌≡◌, refl, ◌≢◌, ◌⊎◌, inl, inr, Bool, false, Option, none, some, List,
  [], ◌∷◌, arith, length, get_elem?, modify, insert_at, erase_at, All, if◌then◌else◌, leb, ltb,
  ltb→lt, leb→le, leb-false, Bool-cases, ◌-◌,
}

-- What one step after the other says of a thing, `none` where a step says nothing: the value that
-- stands after the first `k` of them.
module _ {ℓ} {V : Type ℓ} where
  abbrev pub over : Option V → Option V → Option V
  over none before = before
  over (some v) before = some v

  abbrev pub standing : Option V → List (Option V) → ℕ → Option V
  standing acc os zero = acc
  standing acc [] (suc k) = acc
  standing acc (o ∷ os) (suc k) = standing (over o acc) os k

  pub standing-suc :
      (acc : Option V) (os : List (Option V)) (k : ℕ) {o : Option V}
      → get_elem? os k ≡ some o
      → standing acc os (suc k) ≡ over o (standing acc os k)
  standing-suc acc [] k h = cc
  standing-suc acc (o ∷ os) zero h = ground arith
  standing-suc acc (o ∷ os) (suc k) h = standing-suc (over o acc) os k h

  pub standing_past :
      (acc : Option V) (os : List (Option V)) (k : ℕ)
      → length os ≤ k
      → standing acc os k ≡ standing acc os (length os)
  standing_past acc [] zero h = refl
  standing_past acc [] (suc k) h = refl
  standing_past acc (o ∷ os) zero h = absurd (omega arith)
  standing_past acc (o ∷ os) (suc k) h = standing_past (over o acc) os k (omega arith)

  pub over-none : (o : Option V) → over o none ≡ o
  over-none none = refl
  over-none (some v) = refl

  standing-nil : (acc : Option V) (k : ℕ) → standing acc [] k ≡ acc
  standing-nil acc zero = refl
  standing-nil acc (suc k) = refl

  over_assoc : (a b c : Option V) → over (over a b) c ≡ over a (over b c)
  over_assoc none b c = refl
  over_assoc (some v) b c = refl

  -- a step that says nothing, put in at `i`
  pub standing-insert_none_before :
      (acc : Option V) (os : List (Option V)) (i k : ℕ)
      → k ≤ i
      → standing acc (insert_at os i none) k ≡ standing acc os k
  standing-insert_none_before acc os i zero h = refl
  standing-insert_none_before acc os zero (suc k) h = absurd (omega arith)
  standing-insert_none_before acc [] (suc i) (suc k) h = standing-nil acc k
  standing-insert_none_before acc (o ∷ os) (suc i) (suc k) h =
      standing-insert_none_before (over o acc) os i k (omega arith)

  pub standing-insert_none :
      (acc : Option V) (os : List (Option V)) (i k : ℕ)
      → i ≤ k
      → i ≤ length os
      → standing acc (insert_at os i none) (suc k) ≡ standing acc os k
  standing-insert_none acc os zero k h l = refl
  standing-insert_none acc [] (suc i) k h l = absurd (omega arith)
  standing-insert_none acc (o ∷ os) (suc i) zero h l = absurd (omega arith)
  standing-insert_none acc (o ∷ os) (suc i) (suc k) h l =
      standing-insert_none (over o acc) os i k (omega arith) (omega arith)

  -- Such a step put in behind step `i`: up to `i` nothing changes, and the later ones shift by one.
  pub standing-inserted :
      (os : List (Option V)) (i j : ℕ)
      → i < length os
      → standing none (insert_at os (i + 1) none) (suc j)
        ≡ standing none os (suc (if leb j i then j else j - 1))
  standing-inserted os i j h = elim (Bool-cases (leb j i)) [
    | inl e ↦
        rw e (standing-insert_none_before none os (i + 1) (suc j) (omega (arith, leb→le j i e)))
    | inr e ↦
        let lt = leb-false j i e in
        let same : suc (j - 1) ≡ j = omega arith in
        rw (e, same) (standing-insert_none none os (i + 1) j (omega arith) (omega arith))
  ]

  -- the step at `i` taken out, and what it says left to the next one
  abbrev pub carry : Option V → ℕ → List (Option V) → List (Option V)
  carry r i os = modify (λ o. over o r) i (erase_at i os)

  pub standing-carry_before :
      (acc : Option V) (r : Option V) (os : List (Option V)) (i k : ℕ)
      → k ≤ i
      → standing acc (carry r i os) k ≡ standing acc os k
  standing-carry_before acc r os i zero h = refl
  standing-carry_before acc r os zero (suc k) h = absurd (omega arith)
  standing-carry_before acc r [] (suc i) (suc k) h = refl
  standing-carry_before acc r (o ∷ os) (suc i) (suc k) h =
      standing-carry_before (over o acc) r os i k (omega arith)

  pub standing-carry :
      (acc : Option V) (r : Option V) (os : List (Option V)) (i k : ℕ)
      → get_elem? os i ≡ some r
      → i < k
      → suc k ≤ length os
      → standing acc (carry r i os) k ≡ standing acc os (suc k)
  standing-carry acc r [] i k e h l = absurd (omega arith)
  standing-carry acc r os zero zero e h l = absurd (omega arith)
  standing-carry acc r (q ∷ []) zero (suc k) e h l = absurd (omega arith)
  standing-carry acc r (q ∷ o ∷ os) zero (suc k) e h l =
      let same : q ≡ r = cc in rw (same, over_assoc o r acc)
  standing-carry acc r (o ∷ os) (suc i) zero e h l = absurd (omega arith)
  standing-carry acc r (o ∷ os) (suc i) (suc k) e h l =
      standing-carry (over o acc) r os i k e (omega arith) (omega arith)

  pub standing-carried :
      (os : List (Option V)) (r : Option V) (i j : ℕ)
      → get_elem? os i ≡ some r
      → suc j < length os
      → standing none (carry r i os) (suc j) ≡ standing none os (suc (if ltb j i then j else j + 1))
  standing-carried os r i j e h = elim (Bool-cases (ltb j i)) [
    | inl b ↦ rw b (standing-carry_before none r os i (suc j) (ltb→lt j i b))
    | inr b ↦
        let le : i ≤ j = ground arith in
        let same : j + 1 ≡ suc j = omega arith in
        rw (b, same) (standing-carry none r os i (suc j) e (omega arith) (omega arith))
  ]

  -- What a step says, if it differs from what was shown before.
  abbrev pub kept : (Option V → V → Bool) → Option V → Option V → Option V
  kept differs q none = none
  kept differs q (some p) = if differs q p then some p else none

  abbrev pub diffs : (Option V → V → Bool) → Option V → List (Option V) → List (Option V)
  diffs differs q [] = []
  diffs differs q (o ∷ os) = kept differs q o ∷ diffs differs o os

  module _ (differs : Option V → V → Bool)
      (same : (q : Option V) (p : V) → differs q p ≡ false → q ≡ some p) where
    pub standing-diffs :
        (acc q : Option V) (os : List (Option V)) (k : ℕ)
        → (q ≡ none) ⊎ (q ≡ acc)
        → standing acc (diffs differs q os) k ≡ standing acc os k
    standing-diffs acc q os zero h = refl
    standing-diffs acc q [] (suc k) h = refl
    standing-diffs acc q (none ∷ os) (suc k) h = standing-diffs acc none os k (inl refl)
    standing-diffs acc q (some p ∷ os) (suc k) h =
        ground (arith, same q p, standing-diffs (over (kept differs q (some p)) acc) (some p) os k)

  -- Where every step says something, the last of the first `k + 1` counts.
  pub standing_of_full :
      (acc : Option V) (os : List (Option V)) (k : ℕ) {v : V}
      → get_elem? os k ≡ some (some v)
      → standing acc os (suc k) ≡ some v
  standing_of_full acc os k {v} h = rw (standing-suc acc os k h)

  -- what is shown stays shown
  pub standing-some :
      (acc : Option V) (os : List (Option V)) (k : ℕ) → acc ≢ none → standing acc os k ≢ none
  standing-some acc os zero h = h
  standing-some acc [] (suc k) h = h
  standing-some acc (none ∷ os) (suc k) h = standing-some acc os k h
  standing-some acc (some v ∷ os) (suc k) h = standing-some (some v) os k (λ e. cc)

  pub standing_later :
      (os : List (Option V)) (k : ℕ) → standing none os 1 ≢ none → standing none os (suc k) ≢ none
  standing_later [] k h = h
  standing_later (o ∷ os) k h = standing-some (over o none) os k h

  -- another value said at step `i`
  pub standing-modify_before :
      (acc : Option V) (os : List (Option V)) (f : Option V → Option V) (i k : ℕ)
      → k ≤ i
      → standing acc (modify f i os) k ≡ standing acc os k
  standing-modify_before acc os f i zero h = refl
  standing-modify_before acc [] f i (suc k) h = refl
  standing-modify_before acc (o ∷ os) f zero (suc k) h = absurd (omega arith)
  standing-modify_before acc (o ∷ os) f (suc i) (suc k) h =
      standing-modify_before (over o acc) os f i k (omega arith)

  pub standing-modify_self :
      (acc : Option V) (os : List (Option V)) (v : V) (i : ℕ)
      → i < length os
      → standing acc (modify (λ o. some v) i os) (suc i) ≡ some v
  standing-modify_self acc [] v i h = absurd (omega arith)
  standing-modify_self acc (o ∷ os) v zero h = refl
  standing-modify_self acc (o ∷ os) v (suc i) h =
      standing-modify_self (over o acc) os v i (omega arith)

  pub standing-none :
      (os : List (Option V)) (k : ℕ) → All (λ o. o ≡ none) os → standing none os k ≡ none
  standing-none os zero h = refl
  standing-none [] (suc k) h = refl
  standing-none (o ∷ os) (suc k) (e, h) = rw e (standing-none os k h)
