-- ===== src/Board/Doc.antt =====
-- The board document: the types of features/tactics/board/model.ts. `F` is the type of the numbers
-- that carry a fraction. An optional property is an `Option`.
use scoutpulse.Base.{String, Bool, Option, List, Dict}

pub record Vec2 (F : Type 0) : Type 0 where
  pub x : F
  pub y : F

pub data TeamId : Type 0 where
  home away third : TeamId

pub data KitPattern : Type 0 where
  solid stripes hoops halves sash : KitPattern

pub record Kit : Type 0 where
  pub name : String
  pub primary : String
  pub secondary : String
  pub pattern : KitPattern
  pub numbers : String
  pub keeper : String

pub data EquipmentKind : Type 0 where
  ball cone disc pole mannequin hurdle ladder ring minigoal goal popup flag : EquipmentKind

pub data ObjectKind : Type 0 where
  player : ObjectKind
  equipment : EquipmentKind → ObjectKind

pub record BoardObject (F : Type 0) : Type 0 where
  pub id : String
  pub kind : ObjectKind
  pub team : Option TeamId
  pub keeper : Option Bool
  pub number : Option String
  pub name : Option String
  pub bib : Option String
  pub color : Option String
  pub color2 : Option String
  pub pattern : Option KitPattern
  pub size : Option F
  pub rotation : Option F

pub data DrawingKind : Type 0 where
  arrow line pen rect ellipse polygon text : DrawingKind

pub data StrokeStyle : Type 0 where
  solid dashed wavy : StrokeStyle

pub record Drawing (F : Type 0) : Type 0 where
  pub id : String
  pub kind : DrawingKind
  pub points : List (Vec2 F)
  pub control : Option (Vec2 F)
  pub style : Option StrokeStyle
  pub color : String
  pub width : Option F
  pub text : Option String
  pub fill : Option F

pub record Step (F : Type 0) : Type 0 where
  pub id : String
  pub duration : F
  pub hold : F
  pub note : String
  pub pos : Dict (Vec2 F)
  pub bend : Option (Dict (Vec2 F))
  pub air : Option (List String)
  pub highlight : Option (List String)
  pub drawings : List (Drawing F)

pub data PitchLayout : Type 0 where
  full half third box drill : PitchLayout

pub data PitchMarkings : Type 0 where
  standard none grid : PitchMarkings

pub data PitchStyle : Type 0 where
  day night board : PitchStyle

pub record PitchSettings : Type 0 where
  pub layout : PitchLayout
  pub markings : PitchMarkings
  pub style : PitchStyle
  pub stadium : Bool

-- `Record<TeamId, Kit>`
pub record Teams : Type 0 where
  pub home : Kit
  pub away : Kit
  pub third : Kit

-- The version, always 1, is left out.
pub record TacticDoc (F : Type 0) : Type 0 where
  pub pitch : PitchSettings
  pub teams : Teams
  pub objects : List (BoardObject F)
  pub steps : List (Step F)

abbrev pub kit_of : Teams → TeamId → Kit
kit_of t TeamId.home = t.home
kit_of t TeamId.away = t.away
kit_of t TeamId.third = t.third

abbrev pub is_player : ObjectKind → Bool
is_player ObjectKind.player = Bool.true
is_player (ObjectKind.equipment k) = Bool.false

abbrev pub same_team : TeamId → TeamId → Bool
same_team TeamId.home TeamId.home = Bool.true
same_team TeamId.away TeamId.away = Bool.true
same_team TeamId.third TeamId.third = Bool.true
same_team _ _ = Bool.false
