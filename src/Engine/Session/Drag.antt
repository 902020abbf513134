-- ===== src/Engine/Session/Drag.antt =====
-- A whole drag of an object: what the store holds when it is over, and what one undo gives back.
use mathlib.Core.List.{foldl}
use mathlib.Core.Path.{subst}
use scoutpulse.Base.{
  ◌-◌, ◌<◌, String, ◌||◌, is_some, Option-cases, Bool-cases, ◌≡◌, ◌⊎◌, refl, ◌∙◌, Bool, true, false,
  not, none, some, List, [], ◌∷◌, arith, Number, length, length-modify, take, inl, inr,
  if◌then◌else◌,
}
use scoutpulse.Board.Doc.{Vec2}
use scoutpulse.Board.Look.{clamp_to_area}
use scoutpulse.Editor.Store.{EditorStore, history_limit, apply, undo, with_current_step}
use scoutpulse.Editor.Objects.{move_object, rounded, put_at}
use scoutpulse.Editor.History.{undo_doc}
use scoutpulse.Editor.Shows.{shows}
use scoutpulse.Editor.Placing.{shows-move_object}
use scoutpulse.Engine.Pointer.{
  Gesture, Pointer, Event, editing, plus, handle_event, on_pointer_move, on_pointer_up, released,
  drag,
}
use scoutpulse.Engine.Session.{Session, deliver, feed}

or_true : (b : Bool) → (b || true) ≡ true
or_true true = refl
or_true false = refl

module _ {F : Type 0} ⦃n : Number F⦄ where
  -- the pointer moves, one event after the other
  abbrev pub moves : String → Session F → List (Pointer F) → Session F
  moves id = foldl (λ s ev. feed (Event.move ev) id s)

  -- whether a move of the pointer met the grass
  abbrev pub meets_grass : List (Pointer F) → Bool
  meets_grass [] = false
  meets_grass (ev ∷ evs) = is_some ev.ground || meets_grass evs

  -- What a drag has left: nothing before the object has moved, and then one entry for the document
  -- from before on the undo stack.
  abbrev HasLeft : EditorStore F → EditorStore F → Bool → Type 0
  HasLeft start now false =
      (now.doc ≡ start.doc) × (now.undo_stack ≡ start.undo_stack) × (now.gesture_open ≡ false)
  HasLeft start now true =
      (now.undo_stack ≡ start.doc ∷ take (history_limit - 1) start.undo_stack)
      × (now.gesture_open ≡ true)

  -- Where a drag of an object stands, which has moved or not.
  record IsDragging (start : EditorStore F) (obj : String) (offset : Vec2 F) (moved : Bool)
      (s : Session F) : Type 0 where
    edits : editing s.engine ≡ true
    step : s.store.step_index ≡ start.step_index
    steps : length s.store.doc.steps ≡ length start.doc.steps
    held : s.engine.gesture ≡ some (Gesture.object obj offset moved)
    left : HasLeft start s.store moved

  length-steps-move_object :
      (obj : String) (at : Vec2 F) (done : Bool) (s : EditorStore F)
      → length (move_object obj at done s).doc.steps ≡ length s.doc.steps
  unfolding move_object apply with_current_step
  length-steps-move_object obj at done s =
      length-modify (put_at obj (rounded at)) s.step_index s.doc.steps

  -- an object that is held and the point that the pointer is at
  abbrev pub dropped : Vec2 F → Vec2 F → Vec2 F
  dropped at offset = clamp_to_area (plus at offset)

  feed-held :
      (s : Session F) (ev : Pointer F) (obj id : String) (offset at : Vec2 F) (moved : Bool)
      → ev.ground ≡ some at
      → editing s.engine ≡ true
      → s.engine.gesture ≡ some (Gesture.object obj offset moved)
      → feed (Event.move ev) id s ≡ record {
        engine = record s.engine {
          gesture = some (Gesture.object obj offset true);
          cursor = "grabbing";
        };
        store = move_object obj (dropped at offset) false s.store;
      }
  unfolding feed handle_event on_pointer_move drag deliver
  feed-held s ev obj id offset at moved e h g = simp (e, h, g) refl

  feed-off :
      (s : Session F) (ev : Pointer F) (id : String)
      → ev.ground ≡ none
      → editing s.engine ≡ true
      → feed (Event.move ev) id s ≡ s
  unfolding feed handle_event on_pointer_move
  feed-off s ev id e h = simp (e, h) refl

  undo_stack-move_object :
      (obj : String) (at : Vec2 F) (done : Bool) (s : EditorStore F)
      → ((move_object obj at done s).gesture_open ≡ not done)
        × ((move_object obj at done s).step_index ≡ s.step_index)
        × ((move_object obj at done s).undo_stack ≡ (
            if s.gesture_open then s.undo_stack else s.doc ∷ take (history_limit - 1) s.undo_stack))
  unfolding move_object apply
  undo_stack-move_object obj at true s = (refl, refl, refl)
  undo_stack-move_object obj at false s = (refl, refl, refl)

  -- one more edit of a drag leaves one entry on the stack
  one_entry :
      (start now : EditorStore F) (obj : String) (at : Vec2 F) (moved done : Bool)
      → HasLeft start now moved
      → (move_object obj at done now).undo_stack
        ≡ start.doc ∷ take (history_limit - 1) start.undo_stack
  one_entry start now obj at false done (doc, stack, shut) =
      (undo_stack-move_object obj at done now).2 ∙ simp (shut, doc, stack) refl
  one_entry start now obj at true done (stack, opened) =
      (undo_stack-move_object obj at done now).2 ∙ simp (opened, stack) refl

  moved_from :
      (start : EditorStore F) (obj id : String) (offset : Vec2 F) (s : Session F) (at : Vec2 F)
      (moved : Bool) (ev : Pointer F)
      → ev.ground ≡ some at
      → IsDragging start obj offset moved s
      → IsDragging start obj offset true (feed (Event.move ev) id s)
  moved_from start obj id offset s at moved ev e d =
      let p = dropped at offset in
      let (opened, index, stack) = undo_stack-move_object obj p false s.store in
      rw (feed-held s ev obj id offset at moved e d.edits d.held) (record {
        edits = d.edits;
        step = index ∙ d.step;
        steps = length-steps-move_object obj p false s.store ∙ d.steps;
        held = refl;
        left = (one_entry start s.store obj p moved false d.left, opened);
      })

  moves-IsDragging :
      (start : EditorStore F) (obj id : String) (offset : Vec2 F) (moved : Bool)
      (evs : List (Pointer F)) (s : Session F)
      → IsDragging start obj offset moved s
      → IsDragging start obj offset (moved || meets_grass evs) (moves id s evs)
  moves-IsDragging start obj id offset true [] s d = d
  moves-IsDragging start obj id offset false [] s d = d
  moves-IsDragging start obj id offset moved (ev ∷ evs) s d = elim (Option-cases ev.ground) [
    | inl off ↦
        simp (feed-off s ev id off d.edits, off)
          (moves-IsDragging start obj id offset moved evs s d)
    | inr (at, on) ↦
        simp (on, or_true moved)
          (moves-IsDragging start obj id offset true evs (feed (Event.move ev) id s)
            (moved_from start obj id offset s at moved ev on d))
  ]

  -- what a release on the grass does to the store
  store-up :
      (s : Session F) (ev : Pointer F) (obj id : String) (offset at : Vec2 F) (moved : Bool)
      → ev.ground ≡ some at
      → s.engine.gesture ≡ some (Gesture.object obj offset moved)
      → (feed (Event.up ev) id s).store
        ≡ (if moved then move_object obj (dropped at offset) true s.store else s.store)
  unfolding feed handle_event on_pointer_up released deliver
  store-up s ev obj id offset at true e g = simp (e, g) refl
  store-up s ev obj id offset at false e g = simp (e, g) refl

  kept_still :
      (s : Session F) (evs : List (Pointer F)) (last : Pointer F) (obj id : String)
      (offset at : Vec2 F)
      → last.ground ≡ some at
      → IsDragging s.store obj offset false (moves id s evs)
      → ((feed (Event.up last) id (moves id s evs)).store.doc ≡ s.store.doc)
        × ((feed (Event.up last) id (moves id s evs)).store.undo_stack ≡ s.store.undo_stack)
  kept_still s evs last obj id offset at e d =
      rw (store-up (moves id s evs) last obj id offset at false e d.held) (d.left.0, d.left.1)

  dropped_once :
      (s : Session F) (evs : List (Pointer F)) (last : Pointer F) (obj id : String)
      (offset at : Vec2 F)
      → s.store.step_index < length s.store.doc.steps
      → last.ground ≡ some at
      → IsDragging s.store obj offset true (moves id s evs)
      → (shows (feed (Event.up last) id (moves id s evs)).store.doc s.store.step_index obj
          ≡ some (rounded (dropped at offset)))
        × ((undo (feed (Event.up last) id (moves id s evs)).store).doc ≡ s.store.doc)
  dropped_once s evs last obj id offset at lt e d =
      let t = moves id s evs in
      let p = dropped at offset in
      rw (store-up t last obj id offset at true e d.held) (
        subst (λ i. shows (move_object obj p true t.store).doc i obj ≡ some (rounded p)) (d.step)
            (shows-move_object obj p true t.store (omega (arith, d.step, d.steps))).0,
        (undo_doc (move_object obj p true t.store) s.store.doc _
            (one_entry s.store t.store obj p true true d.left)).0,
      )

  -- A drag of an object at a step that exists, from where it is held, not yet moved and with no
  -- gesture open in the store, while editing is on, through any moves, to its release on the grass:
  -- when no move met the grass, the document and the undo stack are as they were; when one did, the
  -- object stands at the current step where it was dropped, and one undo gives back the document
  -- from before the drag.
  pub undo-drag_object :
      (s : Session F) (evs : List (Pointer F)) (last : Pointer F) (obj id : String)
      (offset at : Vec2 F)
      → editing s.engine ≡ true
      → s.engine.gesture ≡ some (Gesture.object obj offset false)
      → s.store.gesture_open ≡ false
      → s.store.step_index < length s.store.doc.steps
      → last.ground ≡ some at
      → ((meets_grass evs ≡ false)
          × ((feed (Event.up last) id (moves id s evs)).store.doc ≡ s.store.doc)
          × ((feed (Event.up last) id (moves id s evs)).store.undo_stack ≡ s.store.undo_stack))
        ⊎ ((meets_grass evs ≡ true)
            × (shows (feed (Event.up last) id (moves id s evs)).store.doc s.store.step_index obj
                ≡ some (rounded (dropped at offset)))
            × ((undo (feed (Event.up last) id (moves id s evs)).store).doc ≡ s.store.doc))
  undo-drag_object s evs last obj id offset at h g shut lt e =
      let start : IsDragging s.store obj offset false s = record {
        edits = h;
        step = refl;
        steps = refl;
        held = g;
        left = (refl, refl, shut);
      } in
      let dragged = moves-IsDragging s.store obj id offset false evs s start in
      elim (Bool-cases (meets_grass evs)) [
        | inl met ↦
            let (at_end, back) =
              dropped_once s evs last obj id offset at lt e (rw (← met) dragged) in
            inr (met, at_end, back)
        | inr off ↦
            let (doc, stack) = kept_still s evs last obj id offset at e (rw (← off) dragged) in
            inl (off, doc, stack)
      ]
