-- ===== src/Editor/Drawings.antt =====
-- The operations of `EditorStore` on drawings: features/tactics/editor/editor-store.ts, from
-- `addFormation` on to `updateDrawing`.
use scoutpulse.Base.{
  ℕ, ltb, leb, String, Bool, true, false, ◌||◌, Option, none, some, List, [], ◌∷◌, ◌++◌, map,
  Number, str_eq, if◌then◌else◌, length, modify,
}
use mathlib.Core.Option
use scoutpulse.Board.Doc.{Vec2, Drawing, DrawingKind, StrokeStyle, Step}
use scoutpulse.Board.Defaults.{default_stroke}
use scoutpulse.Board.Geometry.{vec, control_through, thin}
use scoutpulse.Editor.Store.{
  Target, Tool, Pen, EditorStore, once, phase_of, apply, with_current_step,
}
use scoutpulse.Editor.Objects.{clean_text}

-- Of features/tactics/board/engine.ts.
pub data DrawingChange (F : Type 0) : Type 0 where
  point : ℕ → Vec2 F → DrawingChange F
  control : Vec2 F → DrawingChange F
  offset : Vec2 F → DrawingChange F

abbrev is_styled : DrawingKind → Bool
is_styled DrawingKind.arrow = true
is_styled DrawingKind.line = true
is_styled DrawingKind.pen = true
is_styled _ = false

abbrev is_polygon : DrawingKind → Bool
is_polygon DrawingKind.polygon = true
is_polygon _ = false

abbrev is_pen : DrawingKind → Bool
is_pen DrawingKind.pen = true
is_pen _ = false

abbrev is_zone : DrawingKind → Bool
is_zone DrawingKind.rect = true
is_zone DrawingKind.ellipse = true
is_zone DrawingKind.polygon = true
is_zone _ = false

module _ {F : Type 0} where
  -- the last element, and a default for no element
  abbrev pub last_or : Vec2 F → List (Vec2 F) → Vec2 F
  last_or d [] = d
  last_or d (p ∷ points) = last_or p points

  abbrev pub add_drawing : Drawing F → Step F → Step F
  add_drawing d st = record st { drawings = st.drawings ++ d ∷ [] }

  abbrev pub map_drawing : String → (Drawing F → Drawing F) → Step F → Step F
  map_drawing id f st = record st {
    drawings = map {A = Drawing F} (λ d. if str_eq d.id id then f d else d) st.drawings;
  }

  -- `clean` on a drawing, which keeps its color: a patch gives it one that is not ''
  unfoldable pub clean_drawing : Drawing F → Drawing F
  clean_drawing d = record d { text = clean_text d.text }

  unfoldable pub update_drawing : String → (Drawing F → Drawing F) → EditorStore F → EditorStore F
  update_drawing id patch s =
      apply (with_current_step (map_drawing id (λ d. clean_drawing (patch d))) s) once s

module _ {F : Type 0} ⦃n : Number F⦄ where
  abbrev draft : DrawingKind → List (Vec2 F) → Pen F → Drawing F
  draft kind points pen = record {
    id = "preview";
    kind = kind;
    points = points;
    control = none;
    style = some (if is_styled kind then pen.style else StrokeStyle.solid);
    color = pen.color;
    width = some pen.width;
    text = none;
    fill = none;
  }

  -- the distance between the ends of a stroke
  abbrev span : Vec2 F → List (Vec2 F) → F
  span first rest =
      let last = last_or first rest in n.hypot (n.sub last.x first.x) (n.sub last.y first.y)

  -- whether the points make a drawing of the kind
  abbrev pub is_drawn : DrawingKind → List (Vec2 F) → Bool
  is_drawn kind [] = false
  is_drawn kind (p ∷ points) =
      if is_polygon kind then leb 3 (length (p ∷ points)) else n.le (n.ratio 8 10) (span p points)

  unfoldable pub committed : DrawingKind → List (Vec2 F) → Pen F → String → Drawing F
  committed kind points pen id = record (draft kind points pen) {
    id = id;
    points = if is_pen kind then thin points (n.ratio 25 100) else points;
    fill = if is_zone kind then some (n.ratio 22 100) else none;
  }

  -- `kind` is the tool, one of the drawing tools; a stroke has at least one point.
  unfoldable pub stroke :
      DrawingKind → List (Vec2 F) → Bool → String → EditorStore F → EditorStore F
  unfolding committed
  stroke kind points false id s = record s {
    preview =
        if ltb 1 (length points) || is_polygon kind then some (draft kind points s.pen) else none;
  }
  stroke kind points true id s =
      let s' : EditorStore F = record s { preview = none } in
      if is_drawn kind points
      then record (apply (with_current_step (add_drawing (committed kind points s.pen id)) s') once
          s') { selection = some (Target.drawing id) }
      else s'

  abbrev text_drawing : Vec2 F → Pen F → String → Drawing F
  text_drawing at pen id = record {
    id = id;
    kind = DrawingKind.text;
    points = at ∷ [];
    control = none;
    style = none;
    color = pen.color;
    width = some default_stroke;
    text = some "Text";
    fill = none;
  }

  unfoldable pub place_text : Vec2 F → String → EditorStore F → EditorStore F
  place_text at id s =
      record (apply (with_current_step (add_drawing (text_drawing at s.pen id)) s) once s) {
        selection = some (Target.drawing id);
        tool = Tool.select;
        focus_text = some id;
      }

  abbrev shift : Vec2 F → Vec2 F → Vec2 F
  shift by p = vec (n.add p.x by.x) (n.add p.y by.y)

  -- the curve of a drawing bent through a point; the ends of no points are not read
  abbrev bent : List (Vec2 F) → Vec2 F → Option (Vec2 F) → Option (Vec2 F)
  bent [] mid old = old
  bent (p ∷ points) mid old = some (control_through p mid (last_or p points))

  unfoldable pub changed : DrawingChange F → Drawing F → Drawing F
  changed (offset by) d = record d {
    points = map (shift by) d.points;
    control = Option.map (shift by) d.control;
  }
  changed (control mid) d = record d { control = bent d.points mid d.control }
  changed (point i at) d = record d { points = modify (λ p. at) i d.points }

  unfoldable pub edit_drawing : String → DrawingChange F → Bool → EditorStore F → EditorStore F
  unfolding changed
  edit_drawing id change done s =
      apply (with_current_step (map_drawing id (changed change)) s) (phase_of done) s
