-- ===== src/Engine/Pointer.antt =====
-- The pointer gestures of the board: `onPointerDown`, `onPointerMove`, `onPointerUp`,
-- `onDoubleClick` and what they call of features/tactics/board/engine.ts. A handler that is called
-- is a `Call` in the list that an operation returns. What the ray cast of three.js says of a
-- pointer event stands in the event: where it meets the grass, and the first handle and piece that
-- it meets. An id is not the empty text; pointer capture is the browser's.
use scoutpulse.Base.{
  ℕ, String, Bool, true, false, not, ◌&&◌, ◌||◌, Option, none, some, List, [], ◌∷◌, ◌++◌, Dict, ltb,
  leb, ◌==◌, length, Number, int, lt, if◌then◌else◌, or_else, is_some, pos,
}
use scoutpulse.Board.Doc.{Vec2, Drawing, DrawingKind, TacticDoc}
use scoutpulse.Board.Geometry.{vec}
use scoutpulse.Board.Look.{clamp_to_area}
use scoutpulse.Board.Position.{position_at}
use scoutpulse.Editor.Store.{Target, Tool}
use scoutpulse.Editor.Drawings.{DrawingChange}
use scoutpulse.Engine.Hits.{hit_object, hit_drawing}
use scoutpulse.Engine.Pieces.{Piece}

pub record EditState : Type 0 where
  pub editor : Bool
  pub editing : Bool
  pub step : ℕ
  pub selection : Option Target
  pub trails : Bool

pub data Handle : Type 0 where
  bend : String → Handle
  point : String → ℕ → Handle
  control : String → Handle

-- an object with its offset from the pointer, and a drawing with the last point; both with `moved`
pub data Gesture (F : Type 0) : Type 0 where
  object : String → Vec2 F → Bool → Gesture F
  handle : Handle → Gesture F
  drawing : String → Vec2 F → Bool → Gesture F
  stroke : List (Vec2 F) → Gesture F

-- the calls of `EngineHandlers`
pub data Call (F : Type 0) : Type 0 where
  select : Option Target → Call F
  move_object : String → Vec2 F → Bool → Call F
  bend : String → Vec2 F → Bool → Call F
  edit_drawing : String → DrawingChange F → Bool → Call F
  place : Vec2 F → Call F
  stroke : List (Vec2 F) → Bool → Call F

-- a pointer event
pub record Pointer (F : Type 0) : Type 0 where
  pub button : ℕ
  pub ground : Option (Vec2 F)
  pub on_handle : Option Handle
  pub on_piece : Option String

-- the fields of `BoardEngine` that the pointer reads or writes
pub record Engine (F : Type 0) : Type 0 where
  pub tool : Tool
  pub doc : Option (TacticDoc F)
  pub pieces : Dict (Piece F)
  pub drawings : List (Drawing F)
  pub edit : EditState
  pub gesture : Option (Gesture F)
  pub polygon : List (Vec2 F)
  pub preview : Option (Drawing F)
  pub cursor : String

pub data Event (F : Type 0) : Type 0 where
  down move up : Pointer F → Event F
  double_click : Event F

abbrev pub is_polygon : Tool → Bool
is_polygon (Tool.draw DrawingKind.polygon) = true
is_polygon _ = false

abbrev pub is_pen : Tool → Bool
is_pen (Tool.draw DrawingKind.pen) = true
is_pen _ = false

abbrev pub is_select : Tool → Bool
is_select Tool.select = true
is_select _ = false

-- `tool === 'place' || tool === 'text'`
abbrev pub places : Tool → Bool
places Tool.place = true
places (Tool.draw DrawingKind.text) = true
places _ = false

module _ {F : Type 0} where
  abbrev pub editing : Engine F → Bool
  editing e = e.edit.editing

  abbrev pub set_gesture : Option (Gesture F) → Engine F → Engine F
  set_gesture g e = record e { gesture = g }

  unfoldable pub cancel_gesture : Engine F → Engine F
  cancel_gesture e = record e { gesture = none; polygon = []; preview = none }

  unfoldable pub set_edit_state : EditState → Engine F → Engine F
  set_edit_state state e = record e { edit = state }

  -- the effect of board-view.ts on the tool
  unfoldable pub set_tool : Bool → Tool → Engine F → Engine F
  unfolding cancel_gesture
  set_tool same tool e = record (if same then e else cancel_gesture e) { tool = tool }

  unfoldable pub finish_polygon : Engine F → Engine F × List (Call F)
  finish_polygon e = (record e { polygon = [] }, Call.stroke e.polygon true ∷ [])

  unfoldable pub drag_handle : Handle → Vec2 F → Bool → List (Call F)
  drag_handle (Handle.bend id) at done = Call.bend id at done ∷ []
  drag_handle (Handle.point id index) at done =
      Call.edit_drawing id (DrawingChange.point index at) done ∷ []
  drag_handle (Handle.control id) at done =
      Call.edit_drawing id (DrawingChange.control at) done ∷ []

  -- `onDoubleClick`
  unfoldable pub on_double_click : Engine F → Engine F × List (Call F)
  unfolding finish_polygon
  on_double_click e =
      if is_polygon e.tool && leb 3 (length e.polygon) then finish_polygon e else (e, [])

module _ {F : Type 0} ⦃n : Number F⦄ where
  abbrev pub plus : Vec2 F → Vec2 F → Vec2 F
  plus a b = vec (n.add a.x b.x) (n.add a.y b.y)

  abbrev pub minus : Vec2 F → Vec2 F → Vec2 F
  minus a b = vec (n.sub a.x b.x) (n.sub a.y b.y)

  -- whether two points are nearer than a number
  abbrev within : F → Vec2 F → Vec2 F → Bool
  within limit a b = lt (n.hypot (n.sub a.x b.x) (n.sub a.y b.y)) limit

  abbrev pub ends_polygon : Vec2 F → List (Vec2 F) → Bool
  ends_polygon at [] = false
  ends_polygon at (first ∷ points) =
      leb 3 (length (first ∷ points)) && within (n.ratio 15 10) at first

  unfoldable pub polygon_down : Vec2 F → Engine F → Engine F × List (Call F)
  unfolding finish_polygon
  polygon_down at e = if ends_polygon at e.polygon then finish_polygon e else (
    record e { polygon = e.polygon ++ clamp_to_area at ∷ [] },
    Call.stroke (e.polygon ++ clamp_to_area at ∷ []) false ∷ [],
  )

  abbrev pub drawing_down : Option String → Vec2 F → Engine F → Engine F × List (Call F)
  drawing_down none at e = (e, Call.select none ∷ [])
  drawing_down (some id) at e = (
    set_gesture (some (Gesture.drawing id at false)) e,
    Call.select (some (Target.drawing id)) ∷ [],
  )

  abbrev pub object_down :
      Option String → Option (TacticDoc F) → Vec2 F → Engine F → Engine F × List (Call F)
  object_down (some id) (some doc) at e =
      let p = or_else (position_at doc (pos e.edit.step) id) at in
      (
        set_gesture (some (Gesture.object id (minus p at) false)) e,
        Call.select (some (Target.object id)) ∷ [],
      )
  object_down (some id) none at e = drawing_down (hit_drawing at e.drawings) at e
  object_down none doc at e = drawing_down (hit_drawing at e.drawings) at e

  abbrev pub handle_down :
      Option Handle → Option String → Vec2 F → Engine F → Engine F × List (Call F)
  handle_down (some h) piece at e = (set_gesture (some (Gesture.handle h)) e, [])
  handle_down none piece at e = object_down (hit_object piece (some at) e.pieces) e.doc at e

  unfoldable pub down_at : Pointer F → Vec2 F → Engine F → Engine F × List (Call F)
  unfolding polygon_down
  down_at ev at e =
      if places e.tool
      then (e, Call.place (clamp_to_area at) ∷ [])
      else if is_polygon e.tool
      then polygon_down at e
      else if is_select e.tool
      then handle_down ev.on_handle ev.on_piece at e
      else (
        set_gesture (some (Gesture.stroke (clamp_to_area at ∷ []))) e,
        Call.stroke (clamp_to_area at ∷ []) false ∷ [],
      )

  abbrev pub down_on : Option (Vec2 F) → Pointer F → Engine F → Engine F × List (Call F)
  down_on none ev e = (e, [])
  down_on (some at) ev e = down_at ev at e

  unfoldable pub on_pointer_down : Pointer F → Engine F → Engine F × List (Call F)
  unfolding down_at
  on_pointer_down ev e =
      if not (editing e) || not (ev.button == 0) then (e, []) else down_on ev.ground ev e

  -- with no gesture: the cursor, and the line of a polygon to the pointer
  unfoldable pub hover : Pointer F → Vec2 F → Engine F → Engine F × List (Call F)
  hover ev at e =
      if is_select e.tool
      then (
        record e {
          cursor =
              if is_some ev.on_handle
                || is_some (hit_object ev.on_piece (some at) e.pieces)
                || is_some (hit_drawing at e.drawings)
              then "grab"
              else "default";
        },
        [],
      )
      else (
        record e { cursor = "crosshair" },
        if is_polygon e.tool && ltb 0 (length e.polygon)
            then Call.stroke (e.polygon ++ clamp_to_area at ∷ []) false ∷ []
            else [],
      )

  abbrev pub is_apart : Vec2 F → Vec2 F → Bool
  is_apart last p = lt (n.ratio 25 100) (n.hypot (n.sub p.x last.x) (n.sub p.y last.y))

  abbrev pub last_of : Vec2 F → List (Vec2 F) → Vec2 F
  last_of d [] = d
  last_of d (p ∷ points) = last_of p points

  -- a pen takes a point that is far enough from the last one
  abbrev pub pen_moved : Vec2 F → List (Vec2 F) → List (Vec2 F)
  pen_moved p [] = []
  pen_moved p (q ∷ points) =
      if is_apart (last_of q points) p then (q ∷ points) ++ p ∷ [] else q ∷ points

  abbrev pub ends_moved : Vec2 F → List (Vec2 F) → List (Vec2 F)
  ends_moved p [] = p ∷ []
  ends_moved p (q ∷ points) = q ∷ p ∷ []

  -- A stroke has at least one point.
  unfoldable pub stroke_moved : Bool → Vec2 F → List (Vec2 F) → List (Vec2 F)
  stroke_moved pen p points = if pen then pen_moved p points else ends_moved p points

  unfoldable pub drag : Gesture F → Vec2 F → Engine F → Engine F × List (Call F)
  unfolding drag_handle stroke_moved
  drag (Gesture.object id offset moved) at e = (
    set_gesture (some (Gesture.object id offset true)) e,
    Call.move_object id (clamp_to_area (plus at offset)) false ∷ [],
  )
  drag (Gesture.handle h) at e = (e, drag_handle h (clamp_to_area at) false)
  drag (Gesture.drawing id last moved) at e = (
    set_gesture (some (Gesture.drawing id at true)) e,
    Call.edit_drawing id (DrawingChange.offset (minus at last)) false ∷ [],
  )
  drag (Gesture.stroke points) at e =
      let moved = stroke_moved (is_pen e.tool) (clamp_to_area at) points in
      (set_gesture (some (Gesture.stroke moved)) e, Call.stroke moved false ∷ [])

  abbrev pub grip : Gesture F → String
  grip (Gesture.stroke points) = "crosshair"
  grip (Gesture.object id offset moved) = "grabbing"
  grip (Gesture.handle h) = "grabbing"
  grip (Gesture.drawing id last moved) = "grabbing"

  abbrev pub move_with :
      Option (Gesture F) → Pointer F → Vec2 F → Engine F → Engine F × List (Call F)
  move_with none ev at e = hover ev at e
  move_with (some g) ev at e = drag g at (record e { cursor = grip g })

  abbrev pub move_on : Option (Vec2 F) → Pointer F → Engine F → Engine F × List (Call F)
  move_on none ev e = (e, [])
  move_on (some at) ev e = move_with e.gesture ev at e

  unfoldable pub on_pointer_move : Pointer F → Engine F → Engine F × List (Call F)
  unfolding hover drag
  on_pointer_move ev e = if not (editing e) then (e, []) else move_on ev.ground ev e

  -- what the release of a gesture calls
  unfoldable pub released : Option (Gesture F) → Option (Vec2 F) → List (Call F)
  unfolding drag_handle
  released none at = []
  released (some (Gesture.object id offset moved)) none = []
  released (some (Gesture.object id offset moved)) (some at) =
      if moved then Call.move_object id (clamp_to_area (plus at offset)) true ∷ [] else []
  released (some (Gesture.handle h)) none = []
  released (some (Gesture.handle h)) (some at) = drag_handle h (clamp_to_area at) true
  released (some (Gesture.drawing id last moved)) at =
      if moved
      then Call.edit_drawing id (DrawingChange.offset (vec (int 0) (int 0))) true ∷ []
      else []
  released (some (Gesture.stroke points)) at = Call.stroke points true ∷ []

  -- `onPointerUp`, also for a cancelled pointer
  unfoldable pub on_pointer_up : Pointer F → Engine F → Engine F × List (Call F)
  unfolding released
  on_pointer_up ev e = (set_gesture none e, released e.gesture ev.ground)

  unfoldable pub handle_event : Event F → Engine F → Engine F × List (Call F)
  unfolding on_pointer_down on_pointer_move on_pointer_up
  handle_event (Event.down ev) e = on_pointer_down ev e
  handle_event (Event.move ev) e = on_pointer_move ev e
  handle_event (Event.up ev) e = on_pointer_up ev e
  handle_event Event.double_click e = on_double_click e
