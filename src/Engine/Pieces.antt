-- ===== src/Engine/Pieces.antt =====
-- The pieces that stand on the board, and what of them is rebuilt: `setDoc` and `setFrame` of
-- features/tactics/board/engine.ts, with `appearanceKey` and `baseScale` of
-- features/tactics/board/pieces.ts. A piece is the part of its group that the engine reads; how a
-- number is written, and the radians of a number of degrees, are parameters.
use scoutpulse.Base.{
  String, Bool, true, false, Option, none, some, List, [], ◌∷◌, Dict, lookup, insert, filter_keys,
  find, any, Number, int, max_of, str_eq, if◌then◌else◌, or_else, lt, abs,
}
use Prim.Native.String
use scoutpulse.Board.Doc.{
  Vec2, BoardObject, Drawing, EquipmentKind, KitPattern, ObjectKind, TacticDoc,
}
use scoutpulse.Board.Geometry.{vec}
use scoutpulse.Board.Look.{player_look}
use scoutpulse.Board.Playback.{Frame, Placement}
use scoutpulse.Engine.Camera.{turn}

pub record Piece (F : Type 0) : Type 0 where
  pub key : String
  pub rotation : F
  pub visible : Bool
  pub at : Vec2 F
  pub height : F
  pub scale : F
  pub last : Option (Vec2 F)

abbrev pattern_name : KitPattern → String
pattern_name KitPattern.solid = "solid"
pattern_name KitPattern.stripes = "stripes"
pattern_name KitPattern.hoops = "hoops"
pattern_name KitPattern.halves = "halves"
pattern_name KitPattern.sash = "sash"

abbrev kind_name : EquipmentKind → String
kind_name EquipmentKind.ball = "ball"
kind_name EquipmentKind.cone = "cone"
kind_name EquipmentKind.disc = "disc"
kind_name EquipmentKind.pole = "pole"
kind_name EquipmentKind.mannequin = "mannequin"
kind_name EquipmentKind.hurdle = "hurdle"
kind_name EquipmentKind.ladder = "ladder"
kind_name EquipmentKind.ring = "ring"
kind_name EquipmentKind.minigoal = "minigoal"
kind_name EquipmentKind.goal = "goal"
kind_name EquipmentKind.popup = "popup"
kind_name EquipmentKind.flag = "flag"

-- `parts.join('|')`
unfoldable pub barred : List String → String
barred [] = ""
barred (s ∷ []) = s
barred (s ∷ t ∷ parts) = String.◌++◌ s (String.◌++◌ "|" (barred (t ∷ parts)))

module _ {F : Type 0} ⦃n : Number F⦄ (show : F → String) where
  unfoldable pub appearance_key : TacticDoc F → BoardObject F → Bool → String
  unfolding barred player_look
  appearance_key doc obj flat = elim obj.kind [
    | ObjectKind.player ↦
        let look = player_look doc obj in
        barred (
          (if flat then "token" else "player")
          ∷ look.primary
          ∷ look.secondary
          ∷ pattern_name look.pattern
          ∷ look.numbers
          ∷ or_else obj.number ""
          ∷ or_else obj.name ""
          ∷ or_else obj.bib ""
          ∷ show (or_else obj.size (int 1))
          ∷ (if or_else obj.keeper false then "gk" else "")
          ∷ [])
    | ObjectKind.equipment kind ↦
        barred (kind_name kind ∷ or_else obj.color "" ∷ show (or_else obj.size (int 1)) ∷ [])
  ]

module _ {F : Type 0} ⦃n : Number F⦄ where
  abbrev pub base_scale : ObjectKind → F
  base_scale ObjectKind.player = n.ratio 13 10
  base_scale (ObjectKind.equipment EquipmentKind.ball) = n.ratio 22 10
  base_scale (ObjectKind.equipment EquipmentKind.goal) = int 1
  base_scale (ObjectKind.equipment _) = n.ratio 125 100

  abbrev pub object_scale : Option (BoardObject F) → F
  object_scale none = n.mul (base_scale (ObjectKind.equipment EquipmentKind.cone)) (int 1)
  object_scale (some obj) = n.mul (base_scale obj.kind) (or_else obj.size (int 1))

  -- `buildPiece`, hidden until a frame places it
  abbrev built : String → F → F → Option (Vec2 F) → Piece F
  built key rotation scale last = record {
    key = key;
    rotation = rotation;
    visible = false;
    at = vec (int 0) (int 0);
    height = int 0;
    scale = scale;
    last = last;
  }

  -- a piece that still looks right is turned, and another one rebuilt
  abbrev pub kept_or_built : String → F → F → Option (Piece F) → Piece F
  kept_or_built key rotation scale none = built key rotation scale none
  kept_or_built key rotation scale (some p) =
      if str_eq p.key key then record p { rotation = rotation } else built key rotation scale p.last

  unfoldable pub set_pieces :
      (BoardObject F → String)
      → (BoardObject F → F)
      → List (BoardObject F)
      → Dict (Piece F)
      → Dict (Piece F)
  set_pieces key rotation [] pieces = pieces
  set_pieces key rotation (obj ∷ objects) pieces = set_pieces key rotation objects (
      insert obj.id
        (kept_or_built (key obj) (rotation obj) (object_scale (some obj)) (lookup obj.id pieces))
        pieces)

  -- `setDoc` on the pieces
  unfoldable pub set_doc :
      (F → String) → (F → F) → Bool → TacticDoc F → Dict (Piece F) → Dict (Piece F)
  unfolding set_pieces appearance_key
  set_doc show radians flat doc pieces =
      filter_keys (λ id. any (λ o. str_eq o.id id) doc.objects)
        (set_pieces (λ obj. appearance_key show doc obj flat) (λ obj. turn radians flat obj)
          doc.objects pieces)

  unfoldable pub place_piece : Option (BoardObject F) → Option (Placement F) → Piece F → Piece F
  place_piece obj none p = record p { visible = false }
  place_piece obj (some to) p = record p {
    visible = true;
    at = vec to.x to.y;
    height = to.h;
    scale = n.mul (object_scale obj) (max_of (n.ratio 1 1000) to.appear);
    last = some (vec to.x to.y);
  }

  -- `setFrame` on the pieces; a board without a document has no objects
  unfoldable pub set_frame : List (BoardObject F) → Frame F → Dict (Piece F) → Dict (Piece F)
  unfolding place_piece
  set_frame objects frame [] = []
  set_frame objects frame ((id, p) ∷ pieces) =
      (id, place_piece (find (λ o. str_eq o.id id) objects) (lookup id frame.placements) p)
      ∷ set_frame objects frame pieces

-- what is drawn on the grass, and how opaque
pub record Drawn (F : Type 0) : Type 0 where
  pub drawings : List (Drawing F)
  pub opacity : F

-- `setFrame` on the drawings; `same` is the test that the frame hands over the array drawn last
unfoldable pub set_drawn : {F : Type 0} ⦃n : Number F⦄ → Bool → Frame F → Drawn F → Drawn F
set_drawn ⦃n⦄ same frame d =
    if same
    then if lt (n.ratio 1 1000) (abs (n.sub frame.drawing_opacity d.opacity))
      then record d { opacity = frame.drawing_opacity }
      else d
    else record { drawings = frame.drawings; opacity = frame.drawing_opacity }
