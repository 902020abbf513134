-- ===== src/Engine/Session/Quiet.antt =====
-- The calls that open no gesture in the store, and that a click, a hover and a double click make
-- only such calls.
use mathlib.Core.List.{foldl}
use scoutpulse.Base.{
  String, ◌≡◌, Bool, true, false, not, ◌||◌, ◌==◌, Option, none, some, List, [], ◌∷◌, All, arith,
  Number, if◌then◌else◌,
}
use scoutpulse.Board.Doc.{Vec2, TacticDoc}
use scoutpulse.Editor.Store.{EditorStore, apply}
use scoutpulse.Editor.Objects.{place}
use scoutpulse.Editor.Drawings.{place_text}
use scoutpulse.Engine.Hits.{hit_object, hit_drawing}
use scoutpulse.Engine.Pointer.{
  Engine, Handle, Call, Pointer, on_pointer_down, on_double_click, hover, down_at, polygon_down,
  finish_polygon, drawing_down, object_down, handle_down, down_on, places, is_polygon, is_select,
  ends_polygon, editing,
}
use scoutpulse.Engine.Session.{deliver}
use scoutpulse.Engine.Session.Closed.{stroke_closed}

-- A call that opens no gesture in the store.
abbrev pub IsQuiet : {F : Type 0} → Call F → Type 0
IsQuiet (Call.select target) = Unit
IsQuiet (Call.place at) = Unit
IsQuiet (Call.stroke points done) = Unit
IsQuiet _ = ⊥

module _ {F : Type 0} ⦃n : Number F⦄ where
  quiet_closed :
      (id : String) (s : EditorStore F) (c : Call F)
      → IsQuiet c
      → s.gesture_open ≡ false
      → (deliver id s c).gesture_open ≡ false
  unfolding deliver place place_text apply
  quiet_closed id s (Call.select target) q h = h
  quiet_closed id s (Call.place at) q h = ground arith
  quiet_closed id s (Call.stroke points done) q h = stroke_closed id s.tool points done s h
  quiet_closed id s (Call.move_object _ _ _) q h = elim q [ ]
  quiet_closed id s (Call.bend _ _ _) q h = elim q [ ]
  quiet_closed id s (Call.edit_drawing _ _ _) q h = elim q [ ]

  pub quiet_calls_closed :
      (id : String) (calls : List (Call F)) (s : EditorStore F)
      → All IsQuiet calls
      → s.gesture_open ≡ false
      → (foldl (deliver id) s calls).gesture_open ≡ false
  quiet_calls_closed id [] s q h = h
  quiet_calls_closed id (c ∷ calls) s (q, qs) h =
      quiet_calls_closed id calls (deliver id s c) qs (quiet_closed id s c q h)

  either-IsQuiet :
      (b : Bool) (x y : Engine F × List (Call F))
      → All IsQuiet x.1
      → All IsQuiet y.1
      → All IsQuiet (if b then x else y).1
  either-IsQuiet true x y h k = h
  either-IsQuiet false x y h k = k

  drawing_down-IsQuiet :
      (d : Option String) (at : Vec2 F) (e : Engine F) → All IsQuiet (drawing_down d at e).1
  drawing_down-IsQuiet none at e = (tt, tt)
  drawing_down-IsQuiet (some d) at e = (tt, tt)

  object_down-IsQuiet :
      (o : Option String) (doc : Option (TacticDoc F)) (at : Vec2 F) (e : Engine F)
      → All IsQuiet (object_down o doc at e).1
  object_down-IsQuiet (some o) (some doc) at e = (tt, tt)
  object_down-IsQuiet (some o) none at e = drawing_down-IsQuiet (hit_drawing at e.drawings) at e
  object_down-IsQuiet none doc at e = drawing_down-IsQuiet (hit_drawing at e.drawings) at e

  handle_down-IsQuiet :
      (h : Option Handle) (piece : Option String) (at : Vec2 F) (e : Engine F)
      → All IsQuiet (handle_down h piece at e).1
  handle_down-IsQuiet (some h) piece at e = tt
  handle_down-IsQuiet none piece at e =
      object_down-IsQuiet (hit_object piece (some at) e.pieces) e.doc at e

  down_at-IsQuiet : (ev : Pointer F) (at : Vec2 F) (e : Engine F) → All IsQuiet (down_at ev at e).1
  unfolding down_at polygon_down finish_polygon
  down_at-IsQuiet ev at e =
      either-IsQuiet (places e.tool) _ _ (tt, tt)
        (either-IsQuiet (is_polygon e.tool) _ _
          (either-IsQuiet (ends_polygon at e.polygon) _ _ (tt, tt) (tt, tt))
          (either-IsQuiet (is_select e.tool) _ _ (handle_down-IsQuiet ev.on_handle ev.on_piece at e)
            (tt, tt)))

  down_on-IsQuiet :
      (at : Option (Vec2 F)) (ev : Pointer F) (e : Engine F) → All IsQuiet (down_on at ev e).1
  down_on-IsQuiet none ev e = tt
  down_on-IsQuiet (some at) ev e = down_at-IsQuiet ev at e

  pub down-IsQuiet : (ev : Pointer F) (e : Engine F) → All IsQuiet (on_pointer_down ev e).1
  unfolding on_pointer_down
  down-IsQuiet ev e =
      either-IsQuiet (not (editing e) || not (ev.button == 0)) _ _ tt
        (down_on-IsQuiet ev.ground ev e)

  pub hover-IsQuiet : (ev : Pointer F) (at : Vec2 F) (e : Engine F) → All IsQuiet (hover ev at e).1
  unfolding hover
  hover-IsQuiet ev at e = ground arith

  pub double_click-IsQuiet : (e : Engine F) → All IsQuiet (on_double_click e).1
  unfolding on_double_click finish_polygon
  double_click-IsQuiet e = ground arith
