-- ===== src/Board/Defaults.antt =====
-- The constants and the empty board of features/tactics/board/model.ts. The id that `newId()`
-- draws is an argument.
use scoutpulse.Base.{ℕ, String, true, none, [], ◌∷◌, Number}
use scoutpulse.Board.Doc.{
  Kit, KitPattern, EquipmentKind, Teams, TacticDoc, Step, PitchLayout, PitchMarkings, PitchStyle,
}
use scoutpulse.Board.Doc.EquipmentKind.{
  ball, cone, disc, pole, mannequin, hurdle, ladder, ring, minigoal, goal, popup, flag,
}

abbrev pub pitch_length : ℕ
pitch_length = 105

abbrev pub pitch_width : ℕ
pitch_width = 68

abbrev pub runoff : ℕ
runoff = 6

abbrev kit : String → String → String → KitPattern → String → String → Kit
kit name primary secondary pattern numbers keeper = record {
  name = name;
  primary = primary;
  secondary = secondary;
  pattern = pattern;
  numbers = numbers;
  keeper = keeper;
}

abbrev pub default_kits : Teams
default_kits = record {
  home = kit "Home" "#c8102e" "#ffffff" KitPattern.solid "#ffffff" "#1f9d55";
  away = kit "Away" "#1d4ed8" "#0b1f4d" KitPattern.solid "#ffffff" "#f59e0b";
  third = kit "Neutral" "#facc15" "#111827" KitPattern.solid "#111827" "#a855f7";
}

abbrev pub equipment_colors : EquipmentKind → String
equipment_colors ball = "#ffffff"
equipment_colors cone = "#ff7a1a"
equipment_colors disc = "#facc15"
equipment_colors pole = "#f43f5e"
equipment_colors mannequin = "#2563eb"
equipment_colors hurdle = "#f97316"
equipment_colors ladder = "#fde047"
equipment_colors ring = "#22d3ee"
equipment_colors minigoal = "#f8fafc"
equipment_colors goal = "#f8fafc"
equipment_colors popup = "#f97316"
equipment_colors flag = "#facc15"

module _ {F : Type 0} ⦃n : Number F⦄ where
  abbrev pub default_stroke : F
  default_stroke = n.ratio 32 100

  abbrev pub new_step : String → Step F
  new_step id = record {
    id = id;
    duration = n.ratio 16 10;
    hold = n.ratio 6 10;
    note = "";
    pos = [];
    bend = none;
    air = none;
    highlight = none;
    drawings = [];
  }

  abbrev pub empty_doc : String → TacticDoc F
  empty_doc id = record {
    pitch = record {
      layout = PitchLayout.full;
      markings = PitchMarkings.standard;
      style = PitchStyle.day;
      stadium = true;
    };
    teams = default_kits;
    objects = [];
    steps = new_step id ∷ [];
  }
