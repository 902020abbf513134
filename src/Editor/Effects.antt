-- ===== src/Editor/Effects.antt =====
-- What each operation of features/tactics/editor/editor-store.ts does to the flags of the store: an
-- operation that changes the document marks it unsaved, and only an edit that is not over opens a
-- gesture.
use scoutpulse.Base.{
  ℕ, ◌-◌, ◌≡◌, refl, String, Bool, true, false, not, Option, none, some, List, [], ◌∷◌, Number,
  length, if◌then◌else◌, ℤ, inl, inr, Bool-cases, leb, pos, negsuc, clamp_to, ◌==◌, ◌||◌,
}
use scoutpulse.Board.Doc.{Vec2, BoardObject, DrawingKind, Step, TacticDoc}
use scoutpulse.Editor.Store.{
  EditorStore, Target, Phase, once, apply, undo, redo, with_step, with_current_step,
}
use scoutpulse.Editor.Store
use scoutpulse.Editor.Objects.{
  place, move_object, bend, straighten, update_object, toggle_in_air, toggle_in_highlight,
  duplicate_selection, delete_selection, remove_team, duplicate_at, duplicate_object, bend_between,
  delete_target, remove_ids,
}
use scoutpulse.Editor.Drawings.{stroke, is_drawn, place_text, edit_drawing, update_drawing}
use scoutpulse.Editor.Steps.{
  go_to_step, add_step, duplicate_step, move_step, duplicate, delete_step, update_step, set_pitch,
  set_kit, clear_board, add_formation,
}
use scoutpulse.Editor.Action.{Action, act}

-- What an operation did: it left the document and the flags, or it edited the document, and then a
-- gesture is open if the edit was not the last one of its gesture.
pub data Did {F : Type 0} (moving : Bool) (s t : EditorStore F) : Type 0 where
  kept : t.doc ≡ s.doc → t.dirty ≡ s.dirty → t.gesture_open ≡ s.gesture_open → Did moving s t
  edited : t.dirty ≡ true → t.gesture_open ≡ moving → Did moving s t

-- an edit of a gesture that is not its last
abbrev pub is_moving : {F : Type 0} → Action F → Bool
is_moving (Action.move_object id at done) = not done
is_moving (Action.bend id mid done) = not done
is_moving (Action.edit_drawing id change done) = not done
is_moving _ = false

abbrev pub is_mark_saved : {F : Type 0} → Action F → Bool
is_mark_saved Action.mark_saved = true
is_mark_saved _ = false

module _ {F : Type 0} ⦃n : Number F⦄ where
  if-Did :
      (b moving : Bool) (s t u : EditorStore F)
      → Did moving s t
      → Did moving s u
      → Did moving s (if b then t else u)
  if-Did true moving s t u h k = h
  if-Did false moving s t u h k = k

  phase-Did :
      (doc : TacticDoc F) (done : Bool) (s : EditorStore F)
      → Did (not done) s (apply doc (Store.phase_of done) s)
  unfolding apply
  phase-Did doc true s = Did.edited refl refl
  phase-Did doc false s = Did.edited refl refl

  undo-Did : (l : List (TacticDoc F)) (s : EditorStore F) → s.undo_stack ≡ l → Did false s (undo s)
  unfolding undo
  undo-Did [] s e = rw e (Did.kept refl refl refl)
  undo-Did (doc ∷ rest) s e = rw e (Did.edited refl refl)

  redo-Did : (l : List (TacticDoc F)) (s : EditorStore F) → s.redo_stack ≡ l → Did false s (redo s)
  unfolding redo
  redo-Did [] s e = rw e (Did.kept refl refl refl)
  redo-Did (doc ∷ rest) s e = rw e (Did.edited refl refl)

  duplicate_at-Did :
      (at : Option (Vec2 F)) (obj : BoardObject F) (id : String) (s : EditorStore F)
      → Did false s (duplicate_at at obj id s)
  unfolding apply
  duplicate_at-Did none obj id s = Did.kept refl refl refl
  duplicate_at-Did (some at) obj id s = Did.edited refl refl

  duplicate_object-Did :
      (o : Option (BoardObject F)) (id : String) (s : EditorStore F)
      → Did false s (duplicate_object o id s)
  duplicate_object-Did none id s = Did.kept refl refl refl
  duplicate_object-Did (some obj) id s = duplicate_at-Did _ obj id s

  bend_between-Did :
      (from to : Option (Vec2 F)) (id : String) (mid : Vec2 F) (done : Bool) (s : EditorStore F)
      → Did (not done) s (bend_between from to id mid done s)
  bend_between-Did (some from) (some to) id mid done s = phase-Did _ done s
  bend_between-Did (some from) none id mid done s = Did.kept refl refl refl
  bend_between-Did none to id mid done s = Did.kept refl refl refl

  stroke-Did :
      (kind : DrawingKind) (points : List (Vec2 F)) (done : Bool) (id : String) (s : EditorStore F)
      → Did false s (stroke kind points done id s)
  unfolding stroke apply
  stroke-Did kind points false id s = Did.kept refl refl refl
  stroke-Did kind points true id s =
      if-Did (is_drawn kind points) false s _ _ (Did.edited refl refl) (Did.kept refl refl refl)

  move_step-Did : (from to : ℤ) (s : EditorStore F) → Did false s (move_step from to s)
  unfolding move_step apply
  move_step-Did (negsuc from) to s = Did.kept refl refl refl
  move_step-Did (pos from) to s =
      let at = clamp_to (length s.doc.steps - 1) to in
      elim (Bool-cases (from == at || leb (length s.doc.steps) from)) [
        | inl stays ↦ rw (stays, move_step) (Did.kept refl refl refl)
        | inr moves ↦ rw (moves, move_step) (Did.edited refl refl)
      ]

  duplicate-Did :
      (o : Option (Step F)) (fresh : ℕ → String) (s : EditorStore F)
      → Did false s (duplicate o fresh s)
  unfolding apply
  duplicate-Did none fresh s = Did.kept refl refl refl
  duplicate-Did (some st) fresh s = Did.edited refl refl

  delete_step-Did : (s : EditorStore F) → Did false s (delete_step s)
  unfolding delete_step apply
  delete_step-Did s = elim (Bool-cases (leb (length s.doc.steps) 1)) [
    | inl last ↦ rw (last, delete_step) (Did.kept refl refl refl)
    | inr more ↦ rw (more, delete_step) (Did.edited refl refl)
  ]

  delete_target-Did : (t : Option Target) (s : EditorStore F) → Did false s (delete_target t s)
  unfolding apply
  delete_target-Did none s = Did.kept refl refl refl
  delete_target-Did (some (Target.object id)) s = Did.edited refl refl
  delete_target-Did (some (Target.drawing id)) s = Did.edited refl refl

  remove_ids-Did : (ids : List String) (s : EditorStore F) → Did false s (remove_ids ids s)
  unfolding apply
  remove_ids-Did [] s = Did.kept refl refl refl
  remove_ids-Did (id ∷ ids) s = Did.edited refl refl

  -- Every operation but the marking as saved leaves the document and the flags, or marks it unsaved.
  pub act-Did :
      (s : EditorStore F) (a : Action F) → is_mark_saved a ≡ false → Did (is_moving a) s (act s a)
  unfolding act apply place move_object bend straighten update_object toggle_in_air
      toggle_in_highlight duplicate_selection delete_selection remove_team place_text edit_drawing
      update_drawing go_to_step add_step duplicate_step update_step set_pitch set_kit clear_board
      add_formation
  act-Did s Action.mark_saved h = cc
  act-Did s Action.undo h = undo-Did s.undo_stack s refl
  act-Did s Action.redo h = redo-Did s.redo_stack s refl
  act-Did s (Action.place at id) h = Did.edited refl refl
  act-Did s (Action.move_object id at done) h = phase-Did _ done s
  act-Did s (Action.bend id mid done) h = bend_between-Did _ _ id mid done s
  act-Did s (Action.straighten id) h = Did.edited refl refl
  act-Did s (Action.update_object id patch) h = Did.edited refl refl
  act-Did s (Action.toggle_in_air id) h = Did.edited refl refl
  act-Did s (Action.toggle_in_highlight id) h = Did.edited refl refl
  act-Did s (Action.duplicate_selection id) h = duplicate_object-Did _ id s
  act-Did s Action.delete_selection h = delete_target-Did s.selection s
  act-Did s (Action.add_formation name team side fresh) h = Did.edited refl refl
  act-Did s (Action.remove_team team) h = remove_ids-Did _ s
  act-Did s (Action.stroke kind points done id) h = stroke-Did kind points done id s
  act-Did s (Action.place_text at id) h = Did.edited refl refl
  act-Did s (Action.edit_drawing id change done) h = phase-Did _ done s
  act-Did s (Action.update_drawing id patch) h = Did.edited refl refl
  act-Did s (Action.go_to_step i) h = Did.kept refl refl refl
  act-Did s (Action.add_step id) h = Did.edited refl refl
  act-Did s (Action.duplicate_step fresh) h = duplicate-Did _ fresh s
  act-Did s (Action.move_step from to) h = move_step-Did from to s
  act-Did s Action.delete_step h = delete_step-Did s
  act-Did s (Action.update_step patch) h = Did.edited refl refl
  act-Did s (Action.set_pitch patch) h = Did.edited refl refl
  act-Did s (Action.set_kit team patch) h = Did.edited refl refl
  act-Did s (Action.clear_board id) h = Did.edited refl refl
  act-Did s (Action.select target) h = Did.kept refl refl refl
  act-Did s (Action.pick_tool tool) h = Did.kept refl refl refl
  act-Did s (Action.pick_placing what) h = Did.kept refl refl refl
  act-Did s (Action.pick_pen pen) h = Did.kept refl refl refl
