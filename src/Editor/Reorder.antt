-- ===== src/Editor/Reorder.antt =====
-- Moving a step to another place in the order: what the steps show afterwards.
use scoutpulse.Base.{
  ℕ, zero, suc, ◌-◌, ◌<◌, String, ◌≡◌, ◌≢◌, refl, ap, ◌∙◌, inl, inr, Option-cases, true, false,
  Option, none, some, List, [], ◌∷◌, map, arith, Number, DecidesEq, Dict, lookup, HasUniqueKeys,
  length, get_elem?, insert_at, erase_at, ℤ, pos, eq_iff, clamp_to, leb, ◌==◌,
}
use scoutpulse.Board.Doc.{Vec2, Step, TacticDoc}
use scoutpulse.Board.Standing.{
  standing, kept, diffs, standing-diffs, standing_of_full, standing_later,
}
use scoutpulse.Board.Position.{
  moves, position_at-standing, lookup-positions_at, positions_at-HasUniqueKeys,
}
use scoutpulse.Editor.Store.{EditorStore, has_object}
use scoutpulse.Editor.Steps.{
  move_step, moved_steps, resolved_from, stored_again, reordered, put_back, differences, is_moved,
  at_new_step,
}
use scoutpulse.Editor.Shows.{shows, shows-at_new_step}

module _ {ℓ κ} {A : Type ℓ} {B : Type κ} (f : A → B) where
  map-insert_at :
      (xs : List A) (i : ℕ) (x : A) → map f (insert_at xs i x) ≡ insert_at (map f xs) i (f x)
  map-insert_at xs zero x = refl
  map-insert_at [] (suc i) x = refl
  map-insert_at (y ∷ xs) (suc i) x = ap (f y ∷◌) (map-insert_at xs i x)

  map-erase_at : (i : ℕ) (xs : List A) → map f (erase_at i xs) ≡ erase_at i (map f xs)
  map-erase_at i [] = refl
  map-erase_at zero (y ∷ xs) = refl
  map-erase_at (suc i) (y ∷ xs) = ap (f y ∷◌) (map-erase_at i xs)

  get_elem?-map :
      (xs : List A) (i : ℕ) {x : A} → get_elem? xs i ≡ some x → get_elem? (map f xs) i ≡ some (f x)
  get_elem?-map [] i h = cc
  get_elem?-map (y ∷ xs) zero h = cc
  get_elem?-map (y ∷ xs) (suc i) h = get_elem?-map xs i h

  get_elem?-map_none : (xs : List A) (i : ℕ) → get_elem? xs i ≡ none → get_elem? (map f xs) i ≡ none
  get_elem?-map_none [] i h = refl
  get_elem?-map_none (y ∷ xs) zero h = cc
  get_elem?-map_none (y ∷ xs) (suc i) h = get_elem?-map_none xs i h

  map-put_back :
      (o : Option A) (from to : ℕ) (xs : List A)
      → get_elem? xs from ≡ o
      → map f (put_back o to (erase_at from xs)) ≡ reordered from to (map f xs)
  unfolding reordered
  map-put_back none from to xs h = rw (get_elem?-map_none xs from h, map-erase_at from xs) refl
  map-put_back (some x) from to xs h =
      rw (get_elem?-map xs from h, map-insert_at (erase_at from xs) to x, map-erase_at from xs) refl

  -- Reordering and mapping commute.
  map-reordered :
      (from to : ℕ) (xs : List A) → map f (reordered from to xs) ≡ reordered from to (map f xs)
  unfolding reordered
  map-reordered from to xs = map-put_back (get_elem? xs from) from to xs refl

-- the numbers from `k` on, one for each element
abbrev pub indices {ℓ} : {A : Type ℓ} → ℕ → List A → List ℕ
indices k [] = []
indices k (x ∷ xs) = k ∷ indices (suc k) xs

-- the order in which the steps play once one of them has moved
abbrev pub new_order : {F : Type 0} → ℕ → ℕ → TacticDoc F → List ℕ
new_order from to doc = reordered from to (indices 0 doc.steps)

second_first :
    {F : Type 0} (steps : List (Step F))
    → 1 < length steps
    → (r : List ℕ) × (reordered 1 0 (indices 0 steps) ≡ 1 ∷ 0 ∷ r)
unfolding reordered
second_first [] h = absurd (omega arith)
second_first (a ∷ []) h = absurd (omega arith)
second_first (a ∷ b ∷ steps) h = (indices 2 steps, refl)

module _ {F : Type 0} ⦃n : Number F⦄ (id : String) where
  abbrev look : Step F × Dict (Vec2 F) → Option (Vec2 F)
  look x = lookup id x.1

  lookup-differences :
      (before here : Dict (Vec2 F))
      → HasUniqueKeys here
      → lookup id (differences before here) ≡ kept is_moved (lookup id before) (lookup id here)
  unfolding differences lookup
  lookup-differences before [] u = refl
  lookup-differences before ((k, p) ∷ here) (fresh, u) =
      ground (arith, eq_iff k id, lookup-differences before here u)

  -- no key twice in any of the resolved positions
  abbrev AreUnique : List (Step F × Dict (Vec2 F)) → Type 0
  AreUnique [] = Unit
  AreUnique (x ∷ l) = HasUniqueKeys x.1 × AreUnique l

  moves-stored_again :
      (before : Dict (Vec2 F)) (l : List (Step F × Dict (Vec2 F)))
      → AreUnique l
      → moves id (stored_again before l) ≡ diffs is_moved (lookup id before) (map look l)
  unfolding stored_again
  moves-stored_again before [] u = refl
  moves-stored_again before (x ∷ l) (u, us) =
      cc (lookup-differences before x.1 u, moves-stored_again x.1 l us)

  AreUnique-insert_at :
      (l : List (Step F × Dict (Vec2 F))) (i : ℕ) (x : Step F × Dict (Vec2 F))
      → HasUniqueKeys x.1
      → AreUnique l
      → AreUnique (insert_at l i x)
  AreUnique-insert_at l zero x h u = (h, u)
  AreUnique-insert_at [] (suc i) x h u = (h, tt)
  AreUnique-insert_at (y ∷ l) (suc i) x h u = (u.0, AreUnique-insert_at l i x h u.1)

  AreUnique-erase_at :
      (i : ℕ) (l : List (Step F × Dict (Vec2 F))) → AreUnique l → AreUnique (erase_at i l)
  AreUnique-erase_at i [] u = tt
  AreUnique-erase_at zero (y ∷ l) u = u.1
  AreUnique-erase_at (suc i) (y ∷ l) u = (u.0, AreUnique-erase_at i l u.1)

  AreUnique-get_elem? :
      (l : List (Step F × Dict (Vec2 F))) (i : ℕ) {x : Step F × Dict (Vec2 F)}
      → get_elem? l i ≡ some x
      → AreUnique l
      → HasUniqueKeys x.1
  AreUnique-get_elem? [] i h u = absurd (cc)
  AreUnique-get_elem? (y ∷ l) zero {x} h u = let e : y ≡ x = cc in rw (← e) u.0
  AreUnique-get_elem? (y ∷ l) (suc i) h u = AreUnique-get_elem? l i h u.1

  AreUnique-put_back :
      (o : Option (Step F × Dict (Vec2 F))) (from to : ℕ) (l : List (Step F × Dict (Vec2 F)))
      → get_elem? l from ≡ o
      → AreUnique l
      → AreUnique (put_back o to (erase_at from l))
  AreUnique-put_back none from to l h u = AreUnique-erase_at from l u
  AreUnique-put_back (some x) from to l h u =
      AreUnique-insert_at (erase_at from l) to x (AreUnique-get_elem? l from h u)
        (AreUnique-erase_at from l u)

  AreUnique-resolved_from :
      (doc : TacticDoc F) (k : ℕ) (steps : List (Step F)) → AreUnique (resolved_from doc k steps)
  unfolding resolved_from
  AreUnique-resolved_from doc k [] = tt
  AreUnique-resolved_from doc k (st ∷ steps) =
      (positions_at-HasUniqueKeys doc (pos k), AreUnique-resolved_from doc (suc k) steps)

  map-resolved_from :
      (doc : TacticDoc F) (k : ℕ) (steps : List (Step F))
      → has_object id doc ≡ true
      → map look (resolved_from doc k steps) ≡ map (λ j. shows doc j id) (indices k steps)
  unfolding resolved_from
  map-resolved_from doc k [] h = refl
  map-resolved_from doc k (st ∷ steps) h =
      cc (lookup-positions_at doc (pos k) id h, map-resolved_from doc (suc k) steps h)

  is_moved-false :
      DecidesEq n → (q : Option (Vec2 F)) (p : Vec2 F) → is_moved q p ≡ false → q ≡ some p
  is_moved-false d none p h = cc
  is_moved-false d (some q) p h =
      let ex : q.x ≡ p.x = ground (arith, d.eq_iff q.x p.x) in
      let ey : q.y ≡ p.y = ground (arith, d.eq_iff q.y p.y) in
      λ i. some (record { x = ex i; y = ey i })

  moves-moved_steps :
      (from to : ℕ) (doc : TacticDoc F)
      → has_object id doc ≡ true
      → moves id (moved_steps from to doc)
        ≡ diffs is_moved none (map (λ k. shows doc k id) (new_order from to doc))
  unfolding moved_steps lookup
  moves-moved_steps from to doc h =
      let l = resolved_from doc 0 doc.steps in
      let u : AreUnique (reordered from to l) =
        unfold reordered in
        AreUnique-put_back (get_elem? l from) from to l refl
          (AreUnique-resolved_from doc 0 doc.steps) in
      rw
        (
          moves-stored_again [] (reordered from to l) u,
          map-reordered look from to l,
          map-resolved_from doc 0 doc.steps h,
          ← map-reordered (λ k. shows doc k id) from to (indices 0 doc.steps),
        )
        refl

  -- After a step has moved, a step shows of an object of the board what the latest step before it
  -- in the new order showed of it, itself included, if any of them showed it.
  pub shows-moved_steps :
      (from to : ℕ) (doc : TacticDoc F) (j : ℕ)
      → DecidesEq n
      → has_object id doc ≡ true
      → standing none (moves id (moved_steps from to doc)) (suc j)
        ≡ standing none (map (λ k. shows doc k id) (new_order from to doc)) (suc j)
  shows-moved_steps from to doc j d h =
      rw (moves-moved_steps from to doc h)
        (standing-diffs is_moved (is_moved-false d) none none _ (suc j) (inl refl))

  move_step_lem :
      (from : ℕ) (to : ℤ) (s : EditorStore F) (at : ℕ)
      → clamp_to (length s.doc.steps - 1) to ≡ at
      → from < length s.doc.steps
      → from ≢ at
      → move_step (pos from) to s ≡ at_new_step at (moved_steps from at s.doc) s
  unfolding move_step
  move_step_lem from to s at e l ne =
      let a : (from == at) ≡ false = ground arith in
      let b : leb (length s.doc.steps) from ≡ false = ground arith in rw (e, a, b)

  shown_later : (doc : TacticDoc F) (k : ℕ) → shows doc 0 id ≢ none → shows doc k id ≢ none
  shown_later doc k h =
      rw (position_at-standing doc k id)
        (standing_later (moves id doc.steps) k (rw (← position_at-standing doc 0 id) h))

  -- Moving a step changes the order in which the steps play and nothing else, for an object of the
  -- board that stands somewhere from the first step on: the step that was at place k and is now at
  -- place j shows it where it did. The place moved to is held inside the list and differs from the
  -- one moved from.
  pub shows-move_step :
      (from : ℕ) (to : ℤ) (s : EditorStore F) (at j k : ℕ)
      → DecidesEq n
      → has_object id s.doc ≡ true
      → shows s.doc 0 id ≢ none
      → clamp_to (length s.doc.steps - 1) to ≡ at
      → from < length s.doc.steps
      → from ≢ at
      → get_elem? (new_order from at s.doc) j ≡ some k
      → shows (move_step (pos from) to s).doc j id ≡ shows s.doc k id
  shows-move_step from to s at j k d h first e l ne o = elim (Option-cases (shows s.doc k id)) [
    | inl absent ↦ absurd (shown_later s.doc k first absent)
    | inr (v, shown) ↦
        rw
          (
            move_step_lem from to s at e l ne,
            shows-at_new_step at (moved_steps from at s.doc) s j id,
            shows-moved_steps from at s.doc j d h,
            shown,
          )
          (standing_of_full none _ j
            (get_elem?-map (λ i. shows s.doc i id) (new_order from at s.doc) j o ∙ ap some shown))
  ]

  -- An object of the board that first appears at the second step is shown by the first step too
  -- once the second is moved in front of it, although the first step did not show it before.
  pub shows-move_step_late :
      (s : EditorStore F) (p : Vec2 F)
      → DecidesEq n
      → has_object id s.doc ≡ true
      → 1 < length s.doc.steps
      → shows s.doc 0 id ≡ none
      → shows s.doc 1 id ≡ some p
      → (get_elem? (new_order 1 0 s.doc) 1 ≡ some 0)
        × (shows (move_step (pos 1) (pos 0) s).doc 1 id ≡ some p)
  shows-move_step_late s p d h l absent shown =
      let (r, order) = second_first s.doc.steps l in
      (
        rw order,
        rw
            (
              move_step_lem 1 (pos 0) s 0 (omega arith) l (omega arith),
              shows-at_new_step 0 (moved_steps 1 0 s.doc) s 1 id,
              shows-moved_steps 1 0 s.doc 1 d h,
              order,
              absent,
              shown,
            )
            refl,
      )
