-- ===== src/Engine/Session.antt =====
-- The board in the editor: the events of the pointer, and what they do to the editor's store.
-- features/tactics/board/board-view.ts hands each call of the engine on, and the bindings of
-- features/tactics/editor/tactics-editor.html hand it to `EditorStore`.
pub mod Closed
pub mod Quiet
pub mod Reach
pub mod Drag
pub mod Paused
use mathlib.Core.List.{foldl}
use scoutpulse.Base.{String, Bool, true, false, List, Number, if◌then◌else◌}
use scoutpulse.Board.Doc.{Vec2, DrawingKind}
use scoutpulse.Editor.Store.{Tool, EditorStore}
use scoutpulse.Editor.Objects
use scoutpulse.Editor.Drawings
use scoutpulse.Engine.Pointer.{Engine, Call, Event, handle_event}

pub record Session (F : Type 0) : Type 0 where
  pub engine : Engine F
  pub store : EditorStore F

-- `store.tool() === 'text' ? store.placeText($event) : store.place($event)`
abbrev is_text : Tool → Bool
is_text (Tool.draw DrawingKind.text) = true
is_text _ = false

module _ {F : Type 0} ⦃n : Number F⦄ where
  abbrev stroke_with : Tool → List (Vec2 F) → Bool → String → EditorStore F → EditorStore F
  stroke_with (Tool.draw kind) points done id s = Drawings.stroke kind points done id s
  stroke_with Tool.select points done id s = s
  stroke_with Tool.place points done id s = s

  -- what the store does on a call; `id` is the id that it draws. A stroke comes only with a drawing
  -- tool.
  unfoldable pub deliver : String → EditorStore F → Call F → EditorStore F
  deliver id s (Call.select target) = record s { selection = target }
  deliver id s (Call.move_object obj at done) = Objects.move_object obj at done s
  deliver id s (Call.bend obj mid done) = Objects.bend obj mid done s
  deliver id s (Call.edit_drawing d change done) = Drawings.edit_drawing d change done s
  deliver id s (Call.place at) =
      if is_text s.tool then Drawings.place_text at id s else Objects.place at id s
  deliver id s (Call.stroke points done) = stroke_with s.tool points done id s

  abbrev pub delivered : String → EditorStore F → Engine F × List (Call F) → Session F
  delivered id s (e, calls) = record { engine = e; store = foldl (deliver id) s calls }

  unfoldable pub feed : Event F → String → Session F → Session F
  unfolding deliver
  feed event id s = delivered id s.store (handle_event event s.engine)
