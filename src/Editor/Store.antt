-- ===== src/Editor/Store.antt =====
-- The state of the editor and its history: the fields of `EditorStore`, `load`, `apply`, `undo` and
-- `redo` of features/tactics/editor/editor-store.ts. Both stacks have their top at the head. A
-- signal is a field; the id that `newId()` draws is an argument of the operation that draws it.
use scoutpulse.Base.{
  ℕ, ◌-◌, min, String, Bool, true, false, Option, none, some, List, [], ◌∷◌, Number, length, take,
  get_elem?, modify, any, find, str_eq, if◌then◌else◌,
}
use scoutpulse.Board.Doc.{
  BoardObject, Drawing, DrawingKind, EquipmentKind, StrokeStyle, Step, TacticDoc, TeamId,
}
use scoutpulse.Board.Defaults.{default_stroke, empty_doc}

-- Of features/tactics/board/engine.ts.
pub data Target : Type 0 where
  object drawing : String → Target

pub data Tool : Type 0 where
  select place : Tool
  draw : DrawingKind → Tool

pub data Placeable : Type 0 where
  player : TeamId → Option Bool → Placeable
  equipment : EquipmentKind → Placeable

pub record Pen (F : Type 0) : Type 0 where
  pub color : String
  pub style : StrokeStyle
  pub width : F

abbrev pub history_limit : ℕ
history_limit = 100

pub record EditorStore (F : Type 0) : Type 0 where
  pub doc : TacticDoc F
  pub step_index : ℕ
  pub selection : Option Target
  pub tool : Tool
  pub placing : Placeable
  pub pen : Pen F
  pub preview : Option (Drawing F)
  pub dirty : Bool
  pub undo_stack : List (TacticDoc F)
  pub redo_stack : List (TacticDoc F)
  pub gesture_open : Bool
  pub focus_text : Option String

-- 'once', 'move' and 'end'
pub data Phase : Type 0 where
  once move end : Phase

abbrev pub is_move : Phase → Bool
is_move move = true
is_move once = false
is_move end = false

-- `if (this.selection()?.type === 'drawing') this.selection.set(null)`
abbrev pub drop_drawing : Option Target → Option Target
drop_drawing (some (drawing id)) = none
drop_drawing (some (object id)) = some (object id)
drop_drawing none = none

-- `done ? 'end' : 'move'`
abbrev pub phase_of : Bool → Phase
phase_of true = end
phase_of false = move

module _ {F : Type 0} ⦃n : Number F⦄ where
  abbrev pub new_store : String → EditorStore F
  new_store id = record {
    doc = empty_doc id;
    step_index = 0;
    selection = none;
    tool = select;
    placing = player TeamId.home none;
    pen = record { color = "#ffffff"; style = StrokeStyle.solid; width = default_stroke };
    preview = none;
    dirty = false;
    undo_stack = [];
    redo_stack = [];
    gesture_open = false;
    focus_text = none;
  }

module _ {F : Type 0} where
  unfoldable pub load : TacticDoc F → EditorStore F → EditorStore F
  load doc s = record s {
    doc = doc;
    step_index = 0;
    selection = none;
    undo_stack = [];
    redo_stack = [];
    dirty = false;
  }

  unfoldable pub mark_saved : EditorStore F → EditorStore F
  mark_saved s = record s { dirty = false }

  -- The stack is cut to its newest 99 before the document goes on top.
  unfoldable pub apply : TacticDoc F → Phase → EditorStore F → EditorStore F
  apply next phase s = record s {
    doc = next;
    undo_stack =
        if s.gesture_open then s.undo_stack else s.doc ∷ take (history_limit - 1) s.undo_stack;
    redo_stack = if s.gesture_open then s.redo_stack else [];
    gesture_open = is_move phase;
    dirty = true;
  }

  abbrev pub has_object : String → TacticDoc F → Bool
  has_object id doc = any (λ o. str_eq o.id id) doc.objects

  abbrev or_first : Option (Step F) → List (Step F) → Option (Step F)
  or_first (some step) steps = some step
  or_first none steps = get_elem? steps 0

  -- `this.step()`, `none` for a document without steps
  abbrev pub step_of : TacticDoc F → ℕ → Option (Step F)
  step_of doc i = or_first (get_elem? doc.steps i) doc.steps

  abbrev pub drawings_of : Option (Step F) → List (Drawing F)
  drawings_of none = []
  drawings_of (some step) = step.drawings

  abbrev pub has_drawing : String → TacticDoc F → ℕ → Bool
  has_drawing id doc i = any (λ d. str_eq d.id id) (drawings_of (step_of doc i))

  -- the selection, where what it names is still there
  abbrev keep_selection : Option Target → TacticDoc F → ℕ → Option Target
  keep_selection none doc i = none
  keep_selection (some (object id)) doc i = if has_object id doc then some (object id) else none
  keep_selection (some (drawing id)) doc i =
      if has_drawing id doc i then some (drawing id) else none

  unfoldable pub after_history : EditorStore F → EditorStore F
  after_history s =
      let i = min s.step_index (length s.doc.steps - 1) in
      record s {
        gesture_open = false;
        dirty = true;
        step_index = i;
        selection = keep_selection s.selection s.doc i;
      }

  unfoldable pub undo : EditorStore F → EditorStore F
  unfolding after_history
  undo s = elim s.undo_stack [
    | [] ↦ s
    | doc ∷ rest ↦
        after_history (record s { redo_stack = s.doc ∷ s.redo_stack; doc = doc; undo_stack = rest })
  ]

  unfoldable pub redo : EditorStore F → EditorStore F
  unfolding after_history
  redo s = elim s.redo_stack [
    | [] ↦ s
    | doc ∷ rest ↦
        after_history (record s { undo_stack = s.doc ∷ s.undo_stack; doc = doc; redo_stack = rest })
  ]

  unfoldable pub with_step : TacticDoc F → ℕ → (Step F → Step F) → TacticDoc F
  with_step doc i f = record doc { steps = modify f i doc.steps }

  unfoldable pub with_current_step : (Step F → Step F) → EditorStore F → TacticDoc F
  unfolding with_step
  with_current_step f s = with_step s.doc s.step_index f

  unfoldable pub selected_object : EditorStore F → Option (BoardObject F)
  selected_object s = elim s.selection [
    | some (object id) ↦ find (λ o. str_eq o.id id) s.doc.objects
    | some (drawing id) ↦ none
    | none ↦ none
  ]

  unfoldable pub selected_drawing : EditorStore F → Option (Drawing F)
  selected_drawing s = elim s.selection [
    | some (drawing id) ↦ find (λ d. str_eq d.id id) (drawings_of (step_of s.doc s.step_index))
    | some (object id) ↦ none
    | none ↦ none
  ]
