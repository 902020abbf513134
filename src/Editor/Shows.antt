-- ===== src/Editor/Shows.antt =====
-- What an edit of the steps does to where the objects stand at each step.
use scoutpulse.Base.{
  ℕ, zero, suc, ◌+◌, ◌-◌, ◌<◌, String, ◌≡◌, refl, ap, ◌∙◌, Option, none, some, List, [], ◌∷◌, arith,
  Number, Dict, lookup, merge, lookup-merge, length, get_elem?, modify, insert_at, erase_at,
  if◌then◌else◌, pos, leb, ltb, get_elem?_of_lt,
}
use scoutpulse.Board.Doc.{Vec2, Step, TacticDoc}
use scoutpulse.Board.Defaults.{new_step}
use scoutpulse.Board.Standing.{over, standing, standing-inserted, standing-carried, carry}
use scoutpulse.Board.Position.{
  position_at, moves, length-moves, position_at-standing, get_elem?-moves, pos_in,
}
use scoutpulse.Editor.Store.{EditorStore, apply}
use scoutpulse.Editor.Steps.{
  add_step, duplicate_step, duplicate, copied_step, at_new_step, delete_step, carried,
}

module _ {F : Type 0} (id : String) where
  moves-insert_at :
      (steps : List (Step F)) (i : ℕ) (st : Step F)
      → st.pos ≡ []
      → moves id (insert_at steps i st) ≡ insert_at (moves id steps) i none
  unfolding lookup
  moves-insert_at steps zero st h = rw h
  moves-insert_at [] (suc i) st h = rw h
  moves-insert_at (s ∷ steps) (suc i) st h = ap (lookup id s.pos ∷◌) (moves-insert_at steps i st h)

  moves-erase_at :
      (steps : List (Step F)) (i : ℕ) → moves id (erase_at i steps) ≡ erase_at i (moves id steps)
  moves-erase_at [] i = refl
  moves-erase_at (s ∷ steps) zero = refl
  moves-erase_at (s ∷ steps) (suc i) = ap (lookup id s.pos ∷◌) (moves-erase_at steps i)

  moves-merge :
      (before : Dict (Vec2 F)) (i : ℕ) (steps : List (Step F))
      → moves id (modify (λ st. record st { pos = merge before st.pos }) i steps)
        ≡ modify (λ o. over o (lookup id before)) i (moves id steps)
  moves-merge before i [] = refl
  moves-merge before zero (s ∷ steps) = ground (arith, lookup-merge id before s.pos)
  moves-merge before (suc i) (s ∷ steps) = ap (lookup id s.pos ∷◌) (moves-merge before i steps)

  moves-carried :
      (r : Step F) (i : ℕ) (steps : List (Step F))
      → moves id (carried (some r) i steps) ≡ carry (lookup id r.pos) i (moves id steps)
  moves-carried r i steps = rw (moves-merge r.pos i (erase_at i steps), moves-erase_at steps i)

-- what a document shows of an object at each step
abbrev pub shows : {F : Type 0} → TacticDoc F → ℕ → String → Option (Vec2 F)
shows doc j id = position_at doc (pos j) id

module _ {F : Type 0} where
  doc-at_new_step :
      (at : ℕ) (steps : List (Step F)) (s : EditorStore F)
      → (at_new_step at steps s).doc.steps ≡ steps
  unfolding apply
  doc-at_new_step at steps s = refl

  pub shows-at_new_step :
      (at : ℕ) (steps : List (Step F)) (s : EditorStore F) (j : ℕ) (id : String)
      → shows (at_new_step at steps s).doc j id ≡ standing none (moves id steps) (suc j)
  unfolding apply
  shows-at_new_step at steps s j id = position_at-standing _ j id

  -- a new step that places nothing, behind the current one
  shows-inserted :
      (st : Step F) (s : EditorStore F) (id : String) (j : ℕ)
      → st.pos ≡ []
      → s.step_index < length s.doc.steps
      → shows
          (at_new_step (s.step_index + 1) (insert_at s.doc.steps (s.step_index + 1) st) s).doc
          j
          id
        ≡ shows s.doc (if leb j s.step_index then j else j - 1) id
  shows-inserted st s id j h l =
      rw
        (
          shows-at_new_step (s.step_index + 1) (insert_at s.doc.steps (s.step_index + 1) st) s j id,
          moves-insert_at id s.doc.steps (s.step_index + 1) st h,
          position_at-standing s.doc (if leb j s.step_index then j else j - 1) id,
        )
        (standing-inserted (moves id s.doc.steps) s.step_index j
          (omega (arith, length-moves id s.doc.steps)))

  -- A new step shows what the one before it shows, and nothing else changes: the steps up to the
  -- current one show what they did, and each later one what the step before it did.
  pub shows-add_step :
      ⦃n : Number F⦄ (fresh : String) (s : EditorStore F) (id : String) (j : ℕ)
      → s.step_index < length s.doc.steps
      → shows (add_step fresh s).doc j id ≡ shows s.doc (if leb j s.step_index then j else j - 1) id
  unfolding add_step
  shows-add_step fresh s id j = shows-inserted (new_step fresh) s id j refl

  shows-duplicate :
      (o : Option (Step F)) (fresh : ℕ → String) (s : EditorStore F) (id : String) (j : ℕ)
      → get_elem? s.doc.steps s.step_index ≡ o
      → s.step_index < length s.doc.steps
      → shows (duplicate o fresh s).doc j id
        ≡ shows s.doc (if leb j s.step_index then j else j - 1) id
  unfolding copied_step
  shows-duplicate (some st) fresh s id j e h = shows-inserted (copied_step fresh st) s id j refl h
  shows-duplicate none fresh s id j e h =
      let (st, e') = get_elem?_of_lt s.doc.steps s.step_index h in cc

  -- A copy of the current step moves nothing: the steps up to the current one show what they did,
  -- and each later one what the step before it did.
  pub shows-duplicate_step :
      (fresh : ℕ → String) (s : EditorStore F) (id : String) (j : ℕ)
      → s.step_index < length s.doc.steps
      → shows (duplicate_step fresh s).doc j id
        ≡ shows s.doc (if leb j s.step_index then j else j - 1) id
  unfolding duplicate_step
  shows-duplicate_step fresh s id j =
      shows-duplicate (get_elem? s.doc.steps s.step_index) fresh s id j refl

  steps-delete_step :
      (s : EditorStore F) (r : Step F)
      → 1 < length s.doc.steps
      → get_elem? s.doc.steps s.step_index ≡ some r
      → (delete_step s).doc.steps ≡ carried (some r) s.step_index s.doc.steps
  unfolding delete_step apply
  steps-delete_step s r h e = ground arith

  -- Deleting a step that is not the only one: the steps before it show what they did, and each
  -- later one, now one place further up, shows what it did.
  pub shows-delete_step :
      (s : EditorStore F) (id : String) (j : ℕ)
      → s.step_index < length s.doc.steps
      → suc j < length s.doc.steps
      → shows (delete_step s).doc j id ≡ shows s.doc (if ltb j s.step_index then j else j + 1) id
  shows-delete_step s id j h l =
      let (r, e) = get_elem?_of_lt s.doc.steps s.step_index h in
      let os = moves id s.doc.steps in
      rw
        (
          position_at-standing (delete_step s).doc j id,
          steps-delete_step s r (omega arith) e,
          moves-carried id r s.step_index s.doc.steps,
          position_at-standing s.doc (if ltb j s.step_index then j else j + 1) id,
        )
        (standing-carried os (lookup id r.pos) s.step_index j
          (get_elem?-moves id s.doc.steps s.step_index h ∙ ap (λ o. some (pos_in id o)) e)
          (omega (arith, length-moves id s.doc.steps)))
