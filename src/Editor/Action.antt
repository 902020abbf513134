-- ===== src/Editor/Action.antt =====
-- Every operation of `EditorStore` as a value, and a session as a list of them.
use mathlib.Core.List.{foldl}
use scoutpulse.Base.{ℕ, String, Bool, Option, List, Number, ℤ}
use scoutpulse.Board.Doc.{Vec2, BoardObject, Drawing, DrawingKind, Step, TeamId, PitchSettings, Kit}
use scoutpulse.Board.Formation.{Side}
use scoutpulse.Editor.Store
use scoutpulse.Editor.Store.{Target, Tool, Placeable, Pen, EditorStore}
use scoutpulse.Editor.Objects
use scoutpulse.Editor.Drawings
use scoutpulse.Editor.Drawings.{DrawingChange}
use scoutpulse.Editor.Steps

pub data Action (F : Type 0) : Type 0 where
  mark_saved undo redo : Action F
  select : Option Target → Action F
  pick_tool : Tool → Action F
  pick_placing : Placeable → Action F
  pick_pen : Pen F → Action F
  place : Vec2 F → String → Action F
  move_object : String → Vec2 F → Bool → Action F
  bend : String → Vec2 F → Bool → Action F
  straighten : String → Action F
  update_object : String → (BoardObject F → BoardObject F) → Action F
  toggle_in_air toggle_in_highlight : String → Action F
  duplicate_selection : String → Action F
  delete_selection : Action F
  add_formation : String → TeamId → Side → (ℕ → String) → Action F
  remove_team : TeamId → Action F
  stroke : DrawingKind → List (Vec2 F) → Bool → String → Action F
  place_text : Vec2 F → String → Action F
  edit_drawing : String → DrawingChange F → Bool → Action F
  update_drawing : String → (Drawing F → Drawing F) → Action F
  go_to_step : ℤ → Action F
  add_step : String → Action F
  duplicate_step : (ℕ → String) → Action F
  move_step : ℤ → ℤ → Action F
  delete_step : Action F
  update_step : (Step F → Step F) → Action F
  set_pitch : (PitchSettings → PitchSettings) → Action F
  set_kit : TeamId → (Kit → Kit) → Action F
  clear_board : String → Action F

module _ {F : Type 0} ⦃n : Number F⦄ where
  unfoldable pub act : EditorStore F → Action F → EditorStore F
  act s mark_saved = Store.mark_saved s
  act s undo = Store.undo s
  act s redo = Store.redo s
  act s (select target) = record s { selection = target }
  act s (pick_tool tool) = record s { tool = tool }
  act s (pick_placing what) = record s { placing = what }
  act s (pick_pen pen) = record s { pen = pen }
  act s (place at id) = Objects.place at id s
  act s (move_object id at done) = Objects.move_object id at done s
  act s (bend id mid done) = Objects.bend id mid done s
  act s (straighten id) = Objects.straighten id s
  act s (update_object id patch) = Objects.update_object id patch s
  act s (toggle_in_air id) = Objects.toggle_in_air id s
  act s (toggle_in_highlight id) = Objects.toggle_in_highlight id s
  act s (duplicate_selection id) = Objects.duplicate_selection id s
  act s delete_selection = Objects.delete_selection s
  act s (add_formation name team side fresh) = Steps.add_formation name team side fresh s
  act s (remove_team team) = Objects.remove_team team s
  act s (stroke kind points done id) = Drawings.stroke kind points done id s
  act s (place_text at id) = Drawings.place_text at id s
  act s (edit_drawing id change done) = Drawings.edit_drawing id change done s
  act s (update_drawing id patch) = Drawings.update_drawing id patch s
  act s (go_to_step i) = Steps.go_to_step i s
  act s (add_step id) = Steps.add_step id s
  act s (duplicate_step fresh) = Steps.duplicate_step fresh s
  act s (move_step from to) = Steps.move_step from to s
  act s delete_step = Steps.delete_step s
  act s (update_step patch) = Steps.update_step patch s
  act s (set_pitch patch) = Steps.set_pitch patch s
  act s (set_kit team patch) = Steps.set_kit team patch s
  act s (clear_board id) = Steps.clear_board id s

  abbrev pub run : EditorStore F → List (Action F) → EditorStore F
  run = foldl act
