-- ===== src/Editor/Valid.antt =====
-- The invariant of the editor: the current step exists, and the two stacks together hold at most
-- `history_limit` documents, each with a step.
use scoutpulse.Base.{
  ℕ, zero, suc, ◌+◌, ◌-◌, ◌≤◌, ◌<◌, String, ◌≡◌, refl, Bool, true, false, Option, none, some, List,
  [], ◌∷◌, arith, Number, Dict, length, take, length-modify, length-map, All, if◌then◌else◌, ℤ,
  erase_at, length-insert_at, length-erase_at, inl, inr, Bool-cases, leb, get_elem?, pos, negsuc,
  lt-length_of_get_elem?, length-erase_at_past, clamp_to, clamp_to-le, leb-false, merge, ◌==◌, ◌||◌,
}
use scoutpulse.Board.Doc.{Vec2, Step, TacticDoc}
use scoutpulse.Editor.Store.{
  EditorStore, Phase, once, history_limit, new_store, load, apply, undo, redo, after_history,
  with_step, with_current_step, selected_object,
}
use scoutpulse.Editor.Objects.{
  place, move_object, bend, straighten, update_object, toggle_in_air, toggle_in_highlight,
  duplicate_selection, delete_selection, remove_team, without_ids, without_object, duplicate_at,
  duplicate_object, bend_between, delete_target, remove_ids,
}
use scoutpulse.Editor.Drawings.{stroke, is_drawn, place_text, edit_drawing, update_drawing}
use scoutpulse.Editor.Steps.{
  go_to_step, add_step, duplicate_step, move_step, moved_steps, resolved_from, stored_again,
  reordered, put_back, copied_step, duplicate, carried, delete_step, update_step, set_pitch,
  set_kit, clear_board, add_formation,
}
use scoutpulse.Editor.Action.{Action, act, run}
use scoutpulse.Editor.Store
use scoutpulse.Editor.Store.{Target}
use scoutpulse.Board.Doc.{BoardObject, DrawingKind}
use scoutpulse.Board.Defaults.{new_step}
pub mod Operations

module _ {F : Type 0} where
  abbrev pub HasSteps : TacticDoc F → Type 0
  HasSteps doc = 0 < length doc.steps

  pub record Consistent (doc : TacticDoc F) (i : ℕ) (undos redos : List (TacticDoc F))
      : Type 0 where
    pub in_range : i < length doc.steps
    pub bounded : length undos + length redos ≤ history_limit
    pub undone : All HasSteps undos
    pub redone : All HasSteps redos

  abbrev pub IsValid : EditorStore F → Type 0
  IsValid s = Consistent s.doc s.step_index s.undo_stack s.redo_stack

  length-take : (k : ℕ) (docs : List (TacticDoc F)) → length (take k docs) ≤ k
  length-take zero docs = omega arith
  length-take (suc k) [] = omega arith
  length-take (suc k) (d ∷ docs) = omega (arith, length-take k docs)

  All-take : (k : ℕ) (docs : List (TacticDoc F)) → All HasSteps docs → All HasSteps (take k docs)
  All-take zero docs h = tt
  All-take (suc k) [] h = tt
  All-take (suc k) (d ∷ docs) h = (h.0, All-take k docs h.1)

  -- what `apply` leaves in the stacks, wherever the operation then puts the index
  pub apply_keeps :
      (next : TacticDoc F) (phase : Phase) (s : EditorStore F)
      → IsValid s
      → (length (apply next phase s).undo_stack + length (apply next phase s).redo_stack
          ≤ history_limit)
        × All HasSteps (apply next phase s).undo_stack
        × All HasSteps (apply next phase s).redo_stack
  unfolding apply
  apply_keeps next phase s v = elim (Bool-cases s.gesture_open) [
    | inl opened ↦ rw opened (v.bounded, v.undone, v.redone)
    | inr closed ↦ rw closed (
      omega (arith, length-take 99 s.undo_stack),
      (omega (arith, v.in_range), All-take 99 s.undo_stack v.undone),
      tt,
    )
  ]

  -- the same index in a document with as many steps
  pub apply-IsValid :
      (next : TacticDoc F) (phase : Phase) (s : EditorStore F)
      → IsValid s
      → length next.steps ≡ length s.doc.steps
      → IsValid (apply next phase s)
  unfolding apply
  apply-IsValid next phase s v e =
      let (a, b, c) = apply_keeps next phase s v in
      record { in_range = omega (arith, v.in_range); bounded = a; undone = b; redone = c }

  pub undo-IsValid : (s : EditorStore F) → IsValid s → IsValid (undo s)
  unfolding undo
  undo-IsValid s v = ground arith

  pub redo-IsValid : (s : EditorStore F) → IsValid s → IsValid (redo s)
  unfolding redo
  redo-IsValid s v = ground arith

  length-with_step :
      (doc : TacticDoc F) (i : ℕ) (f : Step F → Step F)
      → length (with_step doc i f).steps ≡ length doc.steps
  unfolding with_step
  length-with_step doc i f = length-modify f i doc.steps

  length-with_current_step :
      (f : Step F → Step F) (s : EditorStore F)
      → length (with_current_step f s).steps ≡ length s.doc.steps
  unfolding with_current_step
  length-with_current_step f s = length-modify f s.step_index s.doc.steps

  -- an edit of the current step
  edit-IsValid :
      (f : Step F → Step F) (phase : Phase) (s : EditorStore F)
      → IsValid s
      → IsValid (apply (with_current_step f s) phase s)
  edit-IsValid f phase s v = apply-IsValid _ phase s v (length-with_current_step f s)

  -- an operation that puts the index at `i` of a document that has such a step
  pub at-IsValid :
      (next : TacticDoc F) (phase : Phase) (i : ℕ) (s : EditorStore F)
      → IsValid s
      → i < length next.steps
      → IsValid (record (apply next phase s) { step_index = i })
  unfolding apply
  at-IsValid next phase i s v h =
      let (a, b, c) = apply_keeps next phase s v in
      record { in_range = h; bounded = a; undone = b; redone = c }

  length-stored_again :
      ⦃n : Number F⦄ (before : Dict (Vec2 F)) (l : List (Step F × Dict (Vec2 F)))
      → length (stored_again before l) ≡ length l
  unfolding stored_again
  length-stored_again before [] = refl
  length-stored_again before (x ∷ l) = omega (arith, length-stored_again x.1 l)

  length-resolved_from :
      ⦃n : Number F⦄ (doc : TacticDoc F) (k : ℕ) (steps : List (Step F))
      → length (resolved_from doc k steps) ≡ length steps
  unfolding resolved_from
  length-resolved_from doc k [] = refl
  length-resolved_from doc k (x ∷ l) = omega (arith, length-resolved_from doc (suc k) l)

module _ {ℓ} {A : Type ℓ} where
  length-put_back :
      (o : Option A) (from to : ℕ) (xs : List A)
      → get_elem? xs from ≡ o
      → length (put_back o to (erase_at from xs)) ≡ length xs
  length-put_back none from to xs h = length-erase_at_past from xs h
  length-put_back (some x) from to xs h = omega (
    arith,
    length-insert_at (erase_at from xs) to x,
    length-erase_at from xs (lt-length_of_get_elem? xs from h),
  )

  pub length-reordered : (from to : ℕ) (xs : List A) → length (reordered from to xs) ≡ length xs
  unfolding reordered
  length-reordered from to xs = length-put_back (get_elem? xs from) from to xs refl

module _ {F : Type 0} ⦃n : Number F⦄ where
  pub length-moved_steps :
      (from to : ℕ) (doc : TacticDoc F) → length (moved_steps from to doc) ≡ length doc.steps
  unfolding moved_steps
  length-moved_steps from to doc = omega (
    arith,
    length-stored_again [] (reordered from to (resolved_from doc 0 doc.steps)),
    length-reordered from to (resolved_from doc 0 doc.steps),
    length-resolved_from doc 0 doc.steps,
  )
