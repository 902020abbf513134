-- ===== src/Editor/Valid/Operations.antt =====
-- What the operations of features/tactics/editor/editor-store.ts do to the validity of its state.
use scoutpulse.Base.{
  ℕ, ◌+◌, ◌-◌, ◌≤◌, ◌<◌, String, refl, Bool, true, false, Option, none, some, List, [], ◌∷◌, arith,
  Number, length, length-modify, length-map, if◌then◌else◌, ℤ, erase_at, length-insert_at,
  length-erase_at, inl, inr, Bool-cases, leb, get_elem?, pos, negsuc, clamp_to, clamp_to-le,
  leb-false, merge, ◌==◌, ◌||◌,
}
use scoutpulse.Board.Doc.{Vec2, Step, TacticDoc}
use scoutpulse.Editor.Store.{
  EditorStore, Phase, once, history_limit, new_store, load, apply, undo, redo, after_history,
  with_step, with_current_step, selected_object,
}
use scoutpulse.Editor.Objects.{
  place, move_object, bend, straighten, update_object, toggle_in_air, toggle_in_highlight,
  duplicate_selection, delete_selection, remove_team, without_ids, without_object, duplicate_at,
  duplicate_object, bend_between, delete_target, remove_ids,
}
use scoutpulse.Editor.Drawings.{stroke, is_drawn, place_text, edit_drawing, update_drawing}
use scoutpulse.Editor.Steps.{
  go_to_step, add_step, duplicate_step, move_step, copied_step, duplicate, carried, delete_step,
  update_step, set_pitch, set_kit, clear_board, add_formation,
}
use scoutpulse.Editor.Action.{Action, act, run}
use scoutpulse.Editor.Store
use scoutpulse.Editor.Store.{Target}
use scoutpulse.Board.Doc.{BoardObject, DrawingKind}
use scoutpulse.Board.Defaults.{new_step}
use scoutpulse.Editor.Valid.{
  HasSteps, IsValid, apply-IsValid, undo-IsValid, redo-IsValid, length-with_step, edit-IsValid,
  at-IsValid, length-moved_steps,
}

module _ {F : Type 0} ⦃n : Number F⦄ where
  if-IsValid :
      (b : Bool) (s t : EditorStore F) → IsValid s → IsValid t → IsValid (if b then s else t)
  if-IsValid true s t v w = v
  if-IsValid false s t v w = w

  place-IsValid :
      (at : Vec2 F) (id : String) (s : EditorStore F) → IsValid s → IsValid (place at id s)
  unfolding place with_step
  place-IsValid at id s v = apply-IsValid _ once s v (length-modify _ _ s.doc.steps)

  duplicate_at-IsValid :
      (at : Option (Vec2 F)) (obj : BoardObject F) (id : String) (s : EditorStore F)
      → IsValid s
      → IsValid (duplicate_at at obj id s)
  duplicate_at-IsValid none obj id s v = v
  duplicate_at-IsValid (some at) obj id s v = apply-IsValid _ once s v (length-with_step _ _ _)

  duplicate_object-IsValid :
      (o : Option (BoardObject F)) (id : String) (s : EditorStore F)
      → IsValid s
      → IsValid (duplicate_object o id s)
  duplicate_object-IsValid none id s v = v
  duplicate_object-IsValid (some obj) id s v = duplicate_at-IsValid _ obj id s v

  bend_between-IsValid :
      (from to : Option (Vec2 F)) (id : String) (mid : Vec2 F) (done : Bool) (s : EditorStore F)
      → IsValid s
      → IsValid (bend_between from to id mid done s)
  bend_between-IsValid (some from) (some to) id mid done s v = edit-IsValid _ _ s v
  bend_between-IsValid (some from) none id mid done s v = v
  bend_between-IsValid none to id mid done s v = v

  stroke-IsValid :
      (kind : DrawingKind) (points : List (Vec2 F)) (done : Bool) (id : String) (s : EditorStore F)
      → IsValid s
      → IsValid (stroke kind points done id s)
  unfolding stroke
  stroke-IsValid kind points false id s v = v
  stroke-IsValid kind points true id s v =
      if-IsValid (is_drawn kind points) _ (record s { preview = none })
        (edit-IsValid _ once (record s { preview = none }) v) v

  move_step-IsValid : (from to : ℤ) (s : EditorStore F) → IsValid s → IsValid (move_step from to s)
  unfolding move_step
  move_step-IsValid (negsuc from) to s v = v
  move_step-IsValid (pos from) to s v =
      let at = clamp_to (length s.doc.steps - 1) to in
      if-IsValid (from == at || leb (length s.doc.steps) from) s _ v (
        at-IsValid _ once at s v (
          omega (
            arith,
            v.in_range,
            clamp_to-le (length s.doc.steps - 1) to,
            length-moved_steps from at s.doc,
          )))

  duplicate-IsValid :
      (o : Option (Step F)) (fresh : ℕ → String) (s : EditorStore F)
      → IsValid s
      → IsValid (duplicate o fresh s)
  duplicate-IsValid none fresh s v = v
  duplicate-IsValid (some st) fresh s v = at-IsValid _ once _ s v (
      omega
        (arith, v.in_range, length-insert_at s.doc.steps (s.step_index + 1) (copied_step fresh st)))

  length-carried :
      (o : Option (Step F)) (i : ℕ) (steps : List (Step F))
      → i < length steps
      → length steps ≤ length (carried o i steps) + 1
  length-carried none i steps h = omega arith
  length-carried (some st) i steps h = omega (
    arith,
    length-erase_at i steps h,
    length-modify (λ (s : Step F). record s { pos = merge st.pos s.pos }) i (erase_at i steps),
  )

  delete_step-IsValid : (s : EditorStore F) → IsValid s → IsValid (delete_step s)
  unfolding delete_step
  delete_step-IsValid s v = elim (Bool-cases (leb (length s.doc.steps) 1)) [
    | inl e ↦ rw (e, delete_step) v
    | inr e ↦
        rw (e, delete_step)
          (at-IsValid _ once _ s v (
            omega (
              arith,
              leb-false _ _ e,
              length-carried (get_elem? s.doc.steps s.step_index) s.step_index s.doc.steps
                  v.in_range,
            )))
  ]

  delete_target-IsValid :
      (t : Option Target) (s : EditorStore F) → IsValid s → IsValid (delete_target t s)
  unfolding without_object
  delete_target-IsValid none s v = v
  delete_target-IsValid (some (Target.object id)) s v =
      apply-IsValid _ once s v (length-map _ s.doc.steps)
  delete_target-IsValid (some (Target.drawing id)) s v = edit-IsValid _ once s v

  remove_ids-IsValid :
      (ids : List String) (s : EditorStore F) → IsValid s → IsValid (remove_ids ids s)
  unfolding without_ids
  remove_ids-IsValid [] s v = v
  remove_ids-IsValid (id ∷ ids) s v = apply-IsValid _ once s v (length-map _ s.doc.steps)

  go_to_step-IsValid : (i : ℤ) (s : EditorStore F) → IsValid s → IsValid (go_to_step i s)
  unfolding go_to_step
  go_to_step-IsValid i s v = record {
    in_range = omega (arith, v.in_range, clamp_to-le (length s.doc.steps - 1) i);
    bounded = v.bounded;
    undone = v.undone;
    redone = v.redone;
  }

  edits-IsValid : (s : EditorStore F) (a : Action F) → IsValid s → IsValid (act s a)
  unfolding act move_object straighten update_object toggle_in_air toggle_in_highlight
  edits-IsValid s Action.undo v = undo-IsValid s v
  edits-IsValid s Action.redo v = redo-IsValid s v
  edits-IsValid s (Action.place at id) v = place-IsValid at id s v
  edits-IsValid s (Action.move_object id at done) v = edit-IsValid _ _ s v
  edits-IsValid s (Action.bend id mid done) v =
      unfold bend in bend_between-IsValid _ _ id mid done s v
  edits-IsValid s (Action.straighten id) v = edit-IsValid _ _ s v
  edits-IsValid s (Action.update_object id patch) v = apply-IsValid _ once s v refl
  edits-IsValid s (Action.toggle_in_air id) v = edit-IsValid _ once s v
  edits-IsValid s (Action.toggle_in_highlight id) v = edit-IsValid _ once s v
  edits-IsValid s (Action.duplicate_selection id) v =
      unfold duplicate_selection in duplicate_object-IsValid _ id s v
  edits-IsValid s Action.delete_selection v =
      unfold delete_selection in delete_target-IsValid s.selection s v
  edits-IsValid s (Action.add_formation name team side fresh) v =
      unfold add_formation in apply-IsValid _ once s v (length-with_step _ _ _)
  edits-IsValid s (Action.remove_team team) v = unfold remove_team in remove_ids-IsValid _ s v
  edits-IsValid s (Action.stroke kind points done id) v = stroke-IsValid kind points done id s v
  edits-IsValid s (Action.place_text at id) v = unfold place_text in edit-IsValid _ once s v
  edits-IsValid s (Action.edit_drawing id change done) v =
      unfold edit_drawing in edit-IsValid _ _ s v
  edits-IsValid s (Action.update_drawing id patch) v =
      unfold update_drawing in edit-IsValid _ once s v
  edits-IsValid s (Action.go_to_step i) v = go_to_step-IsValid i s v
  edits-IsValid s (Action.add_step id) v =
      unfold add_step in
      at-IsValid _ once _ s v
        (omega (arith, v.in_range, length-insert_at s.doc.steps (s.step_index + 1) (new_step id)))
  edits-IsValid s (Action.duplicate_step fresh) v =
      unfold duplicate_step in duplicate-IsValid _ fresh s v
  edits-IsValid s (Action.move_step from to) v = move_step-IsValid from to s v
  edits-IsValid s Action.delete_step v = delete_step-IsValid s v
  edits-IsValid s (Action.update_step patch) v = unfold update_step in edit-IsValid _ once s v
  edits-IsValid s (Action.set_pitch patch) v = unfold set_pitch in apply-IsValid _ once s v refl
  edits-IsValid s (Action.set_kit team patch) v = unfold set_kit in apply-IsValid _ once s v refl
  edits-IsValid s (Action.clear_board id) v =
      unfold clear_board in at-IsValid _ once 0 s v (omega arith)
  edits-IsValid s Action.mark_saved v = unfold Store.mark_saved in v
  edits-IsValid s (Action.select target) v = v
  edits-IsValid s (Action.pick_tool tool) v = v
  edits-IsValid s (Action.pick_placing what) v = v
  edits-IsValid s (Action.pick_pen pen) v = v

  pub run-IsValid :
      (s : EditorStore F) (actions : List (Action F)) → IsValid s → IsValid (run s actions)
  run-IsValid s [] v = v
  run-IsValid s (a ∷ actions) v = run-IsValid (act s a) actions (edits-IsValid s a v)

  load-IsValid : (doc : TacticDoc F) (s : EditorStore F) → HasSteps doc → IsValid (load doc s)
  unfolding load
  load-IsValid doc s h = record { in_range = h; bounded = omega arith; undone = tt; redone = tt }

  -- After a document that has a step is loaded, whatever the operations, the current step exists,
  -- undo and redo together hold at most 100 documents, and each of these has a step.
  pub run-load-IsValid :
      (doc : TacticDoc F) (s : EditorStore F) (actions : List (Action F))
      → HasSteps doc
      → IsValid (run (load doc s) actions)
  run-load-IsValid doc s actions h = run-IsValid (load doc s) actions (load-IsValid doc s h)
