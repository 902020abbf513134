-- ===== src/Engine/Area.antt =====
-- No handler is called with a point outside the area where things may stand, but for a drawing that
-- is dragged as a whole, whose call says only by how much.
use scoutpulse.Base.{
  String, ◌≡◌, Bool, true, false, not, ◌&&◌, ◌||◌, ◌==◌, Option, none, some, List, [], ◌∷◌, ◌++◌,
  All, All-append, arith, Number, IsOrdered, int, neg, min_of, max_of, ltb, leb, length,
  if◌then◌else◌,
}
use scoutpulse.Board.Doc.{Vec2, TacticDoc}
use scoutpulse.Board.Defaults.{pitch_length, pitch_width, runoff}
use scoutpulse.Board.Look.{clamp_to_area}
use scoutpulse.Editor.Drawings.{DrawingChange}
use scoutpulse.Engine.Hits.{hit_object, hit_drawing}
use scoutpulse.Engine.Pointer.{
  Engine, Gesture, Handle, Call, Pointer, Event, handle_event, on_pointer_down, on_pointer_move,
  on_pointer_up, on_double_click, released, drag_handle, drag, hover, down_at, polygon_down,
  finish_polygon, drawing_down, object_down, handle_down, down_on, places, is_polygon, is_select,
  is_pen, ends_polygon, editing, move_on, move_with, grip, stroke_moved, is_apart, last_of, plus,
}

module _ {F : Type 0} ⦃n : Number F⦄ where
  abbrev pub far_x : F
  far_x = n.add (n.ratio pitch_length 2) (int runoff)

  abbrev pub far_y : F
  far_y = n.add (n.ratio pitch_width 2) (int runoff)

  pub record InArea (v : Vec2 F) : Type 0 where
    pub left : n.le (neg far_x) v.x ≡ true
    pub right : n.le v.x far_x ≡ true
    pub top : n.le (neg far_y) v.y ≡ true
    pub bottom : n.le v.y far_y ≡ true

-- The area is not empty.
pub record HasArea {F : Type 0} (n : Number F) : Type 0 where
  pub wide : n.le (neg ⦃n = n⦄ (far_x ⦃n = n⦄)) (far_x ⦃n = n⦄) ≡ true
  pub high : n.le (neg ⦃n = n⦄ (far_y ⦃n = n⦄)) (far_y ⦃n = n⦄) ≡ true

module _ {F : Type 0} ⦃n : Number F⦄ where
  abbrev pub CallInArea : Call F → Type 0
  CallInArea (Call.select target) = Unit
  CallInArea (Call.move_object id at done) = InArea at
  CallInArea (Call.bend id mid done) = InArea mid
  CallInArea (Call.edit_drawing id (DrawingChange.point i at) done) = InArea at
  CallInArea (Call.edit_drawing id (DrawingChange.control mid) done) = InArea mid
  CallInArea (Call.edit_drawing id (DrawingChange.offset by) done) = Unit
  CallInArea (Call.place at) = InArea at
  CallInArea (Call.stroke points done) = All InArea points

  abbrev GestureInArea : Option (Gesture F) → Type 0
  GestureInArea (some (Gesture.stroke points)) = All InArea points
  GestureInArea _ = Unit

  -- the points that the engine keeps between events
  abbrev pub PointsInArea : Engine F → Type 0
  PointsInArea e = All InArea e.polygon × GestureInArea e.gesture

  abbrev Good : Engine F × List (Call F) → Type 0
  Good r = PointsInArea r.0 × All CallInArea r.1

either-All :
    {A : Type 0} (P : A → Type 0) (b : Bool) (x y : List A)
    → All P x
    → All P y
    → All P (if b then x else y)
either-All P true x y h k = h
either-All P false x y h k = k

module _ {F : Type 0} ⦃n : Number F⦄ (ord : IsOrdered n) (area : HasArea n) where
  open ord use {le_refl, le_total}
  open area use {wide, high}

  clamped :
      (m x : F)
      → n.le (neg m) m ≡ true
      → (n.le (neg m) (max_of (neg m) (min_of m x)) ≡ true)
        × (n.le (max_of (neg m) (min_of m x)) m ≡ true)
  clamped m x h =
      (ground (arith, le_refl (neg m)), ground (arith, le_refl m, le_total m x, le_total x m))

  clamp_to_area-InArea : (v : Vec2 F) → InArea (clamp_to_area v)
  unfolding clamp_to_area
  clamp_to_area-InArea v =
      let (l, r) = clamped far_x v.x wide in
      let (t, b) = clamped far_y v.y high in record { left = l; right = r; top = t; bottom = b }

  either-Good :
      (b : Bool) (x y : Engine F × List (Call F)) → Good x → Good y → Good (if b then x else y)
  either-Good true x y h k = h
  either-Good false x y h k = k

  drag_handle-InArea :
      (h : Handle) (at : Vec2 F) (done : Bool) → InArea at → All CallInArea (drag_handle h at done)
  unfolding drag_handle
  drag_handle-InArea (Handle.bend id) at done a = (a, tt)
  drag_handle-InArea (Handle.point id i) at done a = (a, tt)
  drag_handle-InArea (Handle.control id) at done a = (a, tt)

  with_point :
      (points : List (Vec2 F)) (at : Vec2 F)
      → All InArea points
      → All InArea (points ++ clamp_to_area at ∷ [])
  with_point points at h = All-append InArea points _ h (clamp_to_area-InArea at, tt)

  stroke_moved-InArea :
      (pen : Bool) (at : Vec2 F) (points : List (Vec2 F))
      → All InArea points
      → All InArea (stroke_moved pen (clamp_to_area at) points)
  unfolding stroke_moved
  stroke_moved-InArea true at [] h = tt
  stroke_moved-InArea true at (q ∷ points) h =
      either-All InArea (is_apart (last_of q points) (clamp_to_area at))
        ((q ∷ points) ++ clamp_to_area at ∷ []) (q ∷ points) (with_point (q ∷ points) at h) h
  stroke_moved-InArea false at [] h = (clamp_to_area-InArea at, tt)
  stroke_moved-InArea false at (q ∷ points) (h, _) = (h, (clamp_to_area-InArea at, tt))

  drawing_down-Good :
      (d : Option String) (at : Vec2 F) (e : Engine F) → PointsInArea e → Good (drawing_down d at e)
  drawing_down-Good none at e h = (h, (tt, tt))
  drawing_down-Good (some d) at e h = ((h.0, tt), (tt, tt))

  object_down-Good :
      (o : Option String) (doc : Option (TacticDoc F)) (at : Vec2 F) (e : Engine F)
      → PointsInArea e
      → Good (object_down o doc at e)
  object_down-Good (some o) (some doc) at e h = ((h.0, tt), (tt, tt))
  object_down-Good (some o) none at e h = drawing_down-Good (hit_drawing at e.drawings) at e h
  object_down-Good none doc at e h = drawing_down-Good (hit_drawing at e.drawings) at e h

  handle_down-Good :
      (g : Option Handle) (piece : Option String) (at : Vec2 F) (e : Engine F)
      → PointsInArea e
      → Good (handle_down g piece at e)
  handle_down-Good (some g) piece at e h = ((h.0, tt), tt)
  handle_down-Good none piece at e h =
      object_down-Good (hit_object piece (some at) e.pieces) e.doc at e h

  down_at-Good :
      (ev : Pointer F) (at : Vec2 F) (e : Engine F) → PointsInArea e → Good (down_at ev at e)
  unfolding down_at polygon_down finish_polygon
  down_at-Good ev at e h =
      let here = clamp_to_area-InArea at in
      let longer = with_point e.polygon at h.0 in
      either-Good (places e.tool) _ _ (h, (here, tt))
        (either-Good (is_polygon e.tool) _ _
          (either-Good (ends_polygon at e.polygon) _ _ ((tt, h.1), (h.0, tt))
            ((longer, h.1), (longer, tt)))
          (either-Good (is_select e.tool) _ _ (handle_down-Good ev.on_handle ev.on_piece at e h)
            ((h.0, (here, tt)), ((here, tt), tt))))

  down_on-Good :
      (at : Option (Vec2 F)) (ev : Pointer F) (e : Engine F)
      → PointsInArea e
      → Good (down_on at ev e)
  down_on-Good none ev e h = (h, tt)
  down_on-Good (some at) ev e h = down_at-Good ev at e h

  hover-Good : (ev : Pointer F) (at : Vec2 F) (e : Engine F) → PointsInArea e → Good (hover ev at e)
  unfolding hover
  hover-Good ev at e h =
      either-Good (is_select e.tool) _ _ (h, tt)
        (
          h,
          either-All CallInArea (is_polygon e.tool && ltb 0 (length e.polygon))
              (Call.stroke (e.polygon ++ clamp_to_area at ∷ []) false ∷ []) []
              (with_point e.polygon at h.0, tt) tt,
        )

  drag-Good :
      (g : Gesture F) (at : Vec2 F) (e : Engine F)
      → All InArea e.polygon
      → GestureInArea (some g)
      → GestureInArea e.gesture
      → Good (drag g at e)
  unfolding drag
  drag-Good (Gesture.object id offset moved) at e h k same =
      ((h, tt), (clamp_to_area-InArea (plus at offset), tt))
  drag-Good (Gesture.handle g) at e h k same =
      ((h, same), drag_handle-InArea g (clamp_to_area at) false (clamp_to_area-InArea at))
  drag-Good (Gesture.drawing id last moved) at e h k same = ((h, tt), (tt, tt))
  drag-Good (Gesture.stroke points) at e h k same =
      let moved = stroke_moved-InArea (is_pen e.tool) at points k in ((h, moved), (moved, tt))

  move_with-Good :
      (g : Option (Gesture F)) (ev : Pointer F) (at : Vec2 F) (e : Engine F)
      → PointsInArea e
      → GestureInArea g
      → Good (move_with g ev at e)
  move_with-Good none ev at e h k = hover-Good ev at e h
  move_with-Good (some g) ev at e h k = drag-Good g at (record e { cursor = grip g }) h.0 k h.1

  move_on-Good :
      (at : Option (Vec2 F)) (ev : Pointer F) (e : Engine F)
      → PointsInArea e
      → Good (move_on at ev e)
  move_on-Good none ev e h = (h, tt)
  move_on-Good (some at) ev e h = move_with-Good e.gesture ev at e h h.1

  released-InArea :
      (g : Option (Gesture F)) (at : Option (Vec2 F))
      → GestureInArea g
      → All CallInArea (released g at)
  unfolding released
  released-InArea none at h = tt
  released-InArea (some (Gesture.object id offset moved)) none h = tt
  released-InArea (some (Gesture.object id offset true)) (some at) h =
      (clamp_to_area-InArea (plus at offset), tt)
  released-InArea (some (Gesture.object id offset false)) (some at) h = tt
  released-InArea (some (Gesture.handle g)) none h = tt
  released-InArea (some (Gesture.handle g)) (some at) h =
      drag_handle-InArea g (clamp_to_area at) true (clamp_to_area-InArea at)
  released-InArea (some (Gesture.drawing id last true)) at h = (tt, tt)
  released-InArea (some (Gesture.drawing id last false)) at h = tt
  released-InArea (some (Gesture.stroke points)) at h = (h, tt)

  -- For ordered numbers, and an area that is not empty: where the points of the polygon that is
  -- half drawn and of the stroke that is being drawn are in the area where things may stand, no
  -- pointer event calls a handler with a point outside it (a drawing that is dragged as a whole is
  -- given by how far, not by a point), and the points of that polygon and that stroke are in it
  -- afterwards.
  pub handle_event-InArea :
      (event : Event F) (e : Engine F)
      → PointsInArea e
      → PointsInArea (handle_event event e).0 × All CallInArea (handle_event event e).1
  unfolding handle_event on_pointer_down on_pointer_move on_pointer_up on_double_click
      finish_polygon
  handle_event-InArea (Event.down ev) e h =
      either-Good (not (editing e) || not (ev.button == 0)) _ _ (h, tt)
        (down_on-Good ev.ground ev e h)
  handle_event-InArea (Event.move ev) e h =
      either-Good (not (editing e)) _ _ (h, tt) (move_on-Good ev.ground ev e h)
  handle_event-InArea (Event.up ev) e h = ((h.0, tt), released-InArea e.gesture ev.ground h.1)
  handle_event-InArea Event.double_click e h =
      either-Good (is_polygon e.tool && leb 3 (length e.polygon)) _ _ ((tt, h.1), (h.0, tt)) (h, tt)
