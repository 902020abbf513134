-- ===== src/Engine/Tests.antt =====
-- Runs of the pointer on a small board, and the theorems at inputs that meet their hypotheses.
use scoutpulse.Base.{
  ℕ, String, ◌≡◌, ◌⊎◌, refl, true, false, ◌&&◌, none, some, List, [], ◌∷◌, All, arith, lookup,
  filter_keys, insert, any, find, is_some,
}
use scoutpulse.Base.Naturals.{whole, whole-IsOrdered}
use scoutpulse.Board.Doc.{Vec2, DrawingKind, BoardObject, ObjectKind, TacticDoc, TeamId}
use scoutpulse.Board.Geometry.{vec}
use scoutpulse.Board.Defaults.{empty_doc, new_step}
use scoutpulse.Board.Position.{position_at}
use scoutpulse.Board.Playback.{Frame, still}
use scoutpulse.Editor.Store.{Tool, EditorStore, new_store, undo, has_object}
use scoutpulse.Editor.Objects.{rounded}
use scoutpulse.Editor.Shows.{shows}
use scoutpulse.Engine.Pieces.{Piece, set_doc, set_frame}
use scoutpulse.Engine.Shown.{is_seen, is_seen-set_doc}
use scoutpulse.Engine.Hits.{hit_object, hit_object-IsNearest, IsNearest, IsClear}
use scoutpulse.Engine.Pointer.{Engine, Pointer, Event, Gesture, handle_event}
use scoutpulse.Engine.Area.{HasArea, PointsInArea, CallInArea, handle_event-InArea}
use scoutpulse.Engine.Session.{Session, feed}
use scoutpulse.Engine.Session.Reach.{Reach}
use scoutpulse.Engine.Session.Drag.{moves, meets_grass, dropped, undo-drag_object}

abbrev cone : String → BoardObject ℕ
cone id = record {
  id = id;
  kind = ObjectKind.player;
  team = some TeamId.home;
  keeper = none;
  number = some "9";
  name = none;
  bib = none;
  color = none;
  color2 = none;
  pattern = none;
  size = none;
  rotation = none;
}

-- `a` stands at (10, 10).
abbrev sample : TacticDoc ℕ
sample = record (empty_doc "z") {
  objects = cone "a" ∷ [];
  steps = record (new_step "s") { pos = ("a", vec 10 10) ∷ [] } ∷ [];
}

abbrev piece : Vec2 ℕ → Piece ℕ
piece at = record {
  key = "k";
  rotation = 0;
  visible = true;
  at = at;
  height = 0;
  scale = 1;
  last = none;
}

abbrev engine : Engine ℕ
engine = record {
  tool = Tool.select;
  doc = some sample;
  pieces = ("a", piece (vec 10 10)) ∷ [];
  drawings = [];
  edit = record { editor = true; editing = true; step = 0; selection = none; trails = true };
  gesture = none;
  polygon = [];
  preview = none;
  cursor = "default";
}

abbrev store : EditorStore ℕ
store = record (new_store "z") { doc = sample }

abbrev session : Session ℕ
session = record { engine = engine; store = store }

abbrev event_at : Vec2 ℕ → Pointer ℕ
event_at at = record { button = 0; ground = some at; on_handle = none; on_piece = none }

abbrev off : Pointer ℕ
off = record { button = 0; ground = none; on_handle = none; on_piece = none }

-- the session after the piece `a` is taken
abbrev held : Session ℕ
held = record {
  engine = record engine { gesture = some (Gesture.object "a" (vec 0 0) false) };
  store = store;
}

down_takes :
    (feed (Event.down (event_at (vec 10 10))) "n" session).engine.gesture
    ≡ some (Gesture.object "a" (vec 0 0) false)
unfolding feed handle_event hit_object position_at lookup
down_takes = refl

hit_object-IsNearest_example :
    ((hit_object none (some (vec 10 11)) engine.pieces ≡ none)
      × IsClear (vec 10 11) (whole.ratio 16 10) engine.pieces)
    ⊎ ((id : String) × (hit_object none (some (vec 10 11)) engine.pieces ≡ some id)
        × IsNearest (vec 10 11) (whole.ratio 16 10) engine.pieces id)
hit_object-IsNearest_example = hit_object-IsNearest whole-IsOrdered (vec 10 11) engine.pieces

whole-HasArea : HasArea whole
whole-HasArea = record { wide = refl; high = refl }

-- a polygon of one point, and a click that adds another
abbrev half_drawn : Engine ℕ
half_drawn = record engine { tool = Tool.draw DrawingKind.polygon; polygon = vec 10 10 ∷ [] }

half_drawn-PointsInArea : PointsInArea half_drawn
half_drawn-PointsInArea =
    ((record { left = refl; right = refl; top = refl; bottom = refl }, tt), tt)

handle_event-InArea_example :
    PointsInArea (handle_event (Event.down (event_at (vec 90 20))) half_drawn).0
    × All CallInArea (handle_event (Event.down (event_at (vec 90 20))) half_drawn).1
handle_event-InArea_example =
    handle_event-InArea whole-IsOrdered whole-HasArea (Event.down (event_at (vec 90 20))) half_drawn
      half_drawn-PointsInArea

-- A piece is taken, moved, and released.
abbrev after_drag : Session ℕ
after_drag = feed (Event.up (event_at (vec 20 20))) "n" (
    feed (Event.move (event_at (vec 15 15))) "n"
      (feed (Event.down (event_at (vec 10 10))) "n" session))

-- in the middle of a drag
abbrev dragging : Session ℕ
dragging = record {
  engine = record engine { gesture = some (Gesture.object "a" (vec 0 0) true) };
  store = record store { gesture_open = true };
}

abbrev drag_events : List (Pointer ℕ)
drag_events = event_at (vec 15 15) ∷ off ∷ event_at (vec 30 30) ∷ []

undo-drag_object_example :
    ((meets_grass drag_events ≡ false)
      × ((feed (Event.up (event_at (vec 40 40))) "n" (moves "n" held drag_events)).store.doc
          ≡ held.store.doc)
      × ((feed (Event.up (event_at (vec 40 40))) "n" (moves "n" held drag_events)).store.undo_stack
          ≡ held.store.undo_stack))
    ⊎ ((meets_grass drag_events ≡ true)
        × (shows
              (feed (Event.up (event_at (vec 40 40))) "n" (moves "n" held drag_events)).store.doc
              0
              "a"
            ≡ some (rounded (dropped (vec 40 40) (vec 0 0))))
        × ((undo
              (feed (Event.up (event_at (vec 40 40))) "n" (moves "n" held drag_events)).store).doc
            ≡ held.store.doc))
undo-drag_object_example =
    undo-drag_object held drag_events (event_at (vec 40 40)) "a" "n" (vec 0 0) (vec 40 40) refl refl
      refl (omega arith) refl

-- a polygon half drawn when the board starts to play
abbrev drawing_polygon : Session ℕ
drawing_polygon = record {
  engine = record engine {
    tool = Tool.draw DrawingKind.polygon;
    edit = record engine.edit { editing = false };
    polygon = vec 0 0 ∷ vec 9 0 ∷ vec 9 9 ∷ [];
  };
  store = record store { tool = Tool.draw DrawingKind.polygon };
}

abbrev show : ℕ → String
show n = "1"

abbrev frame : Frame ℕ
frame = record {
  step = 0;
  placements = still sample 0;
  drawings = [];
  drawing_opacity = 1;
  highlights = [];
  note = "";
}

is_seen-set_doc_example :
    is_seen "a" (set_frame sample.objects frame (set_doc show (λ d. d) false sample []))
    ≡ has_object "a" sample && is_some (lookup "a" frame.placements)
is_seen-set_doc_example = is_seen-set_doc show (λ d. d) false sample frame [] "a"

a_is_seen :
    is_seen "a" (set_frame sample.objects frame (set_doc show (λ d. d) false sample [])) ≡ true
unfolding still position_at lookup set_doc set_frame filter_keys insert any find
a_is_seen = refl
