-- ===== src/Engine/Session/Reach.antt =====
-- What holds of the sessions of pointer events and store operations that `Next` describes: with no
-- gesture in progress the store has no gesture open, so the next edit is one that an undo takes back.
use scoutpulse.Base.{String, ◌≡◌, true, false, none, some, Number}
use scoutpulse.Board.Doc.{Vec2, TacticDoc}
use scoutpulse.Editor.Action.{Action, act as act_store}
use scoutpulse.Editor.Effects.{is_moving}
use scoutpulse.Editor.Store.{Tool, once, apply, undo as undo_store, redo as redo_store}
use scoutpulse.Engine.Pointer.{Engine, Pointer, Event, set_tool as engine_tool}
use scoutpulse.Engine.Session.{Session, feed}
use scoutpulse.Engine.Session.Closed.{Holds, ends_off_grass, opens_none}

module _ {F : Type 0} ⦃n : Number F⦄ where
  abbrev Kept : Session F → Type 0
  Kept s = Holds s.engine.gesture s.store

  -- What can happen to a board in the editor. A pointer goes down when no gesture is in progress. An
  -- object that has moved, or a handle, is released on the grass; anything else anywhere. The tool
  -- changes while the gesture in progress has opened none in the store. The rest of the page leaves
  -- the engine's gesture; in the store it makes one edit, an undo or a redo at any time, and whatever
  -- is not a gesture's edit while no gesture is in progress.
  pub data Next : Session F → Session F → Type 0 where
    down :
        (ev : Pointer F) (id : String) (s : Session F)
        → s.engine.gesture ≡ none
        → Next s (feed (Event.down ev) id s)
    move : (ev : Pointer F) (id : String) (s : Session F) → Next s (feed (Event.move ev) id s)
    up :
        (ev : Pointer F) (at : Vec2 F) (id : String) (s : Session F)
        → ev.ground ≡ some at
        → Next s (feed (Event.up ev) id s)
    up_off :
        (ev : Pointer F) (id : String) (s : Session F)
        → ev.ground ≡ none
        → ends_off_grass s.engine.gesture ≡ true
        → Next s (feed (Event.up ev) id s)
    set_tool :
        (tool : Tool) (s : Session F)
        → opens_none s.engine.gesture ≡ true
        → Next s (record s { engine = engine_tool false tool s.engine })
    act :
        (a : Action F) (s : Session F)
        → s.engine.gesture ≡ none
        → is_moving a ≡ false
        → Next s (record s { store = act_store s.store a })
    double_click :
        (id : String) (s : Session F)
        → s.engine.gesture ≡ none
        → Next s (feed Event.double_click id s)
    sync :
        (e : Engine F) (s : Session F)
        → e.gesture ≡ s.engine.gesture
        → Next s (record s { engine = e })
    edit :
        (doc : TacticDoc F) (s : Session F) → Next s (record s { store = apply doc once s.store })
    undo : (s : Session F) → Next s (record s { store = undo_store s.store })
    redo : (s : Session F) → Next s (record s { store = redo_store s.store })

  -- the sessions that follow from one where nothing is open
  pub data Reach : Session F → Type 0 where
    start : {s : Session F} → s.store.gesture_open ≡ false → Reach s
    later : {s t : Session F} → Reach s → Next s t → Reach t
