-- ===== src/Editor/Tests.antt =====
-- Runs of the editor on small boards, and the theorems at inputs that meet their hypotheses.
use scoutpulse.Base.{
  ℕ, String, true, false, ◌≡◌, ◌≢◌, refl, none, some, [], ◌∷◌, arith, get_elem?, lookup, any, pos,
}
use scoutpulse.Base.Naturals.{whole, whole-DecidesEq}
use scoutpulse.Board.Doc.{BoardObject, ObjectKind, TeamId, TacticDoc}
use scoutpulse.Board.Geometry.{vec}
use scoutpulse.Board.Defaults.{new_step, empty_doc}
use scoutpulse.Board.Position.{position_at}
use scoutpulse.Editor.Store.{Target, EditorStore, new_store, load, undo}
use scoutpulse.Editor.Steps.{delete_step, move_step, reordered}
use scoutpulse.Editor.Action.{Action, run}
use scoutpulse.Editor.Valid.{IsValid}
use scoutpulse.Editor.Valid.Operations.{run-load-IsValid}
use scoutpulse.Editor.History.{drag, undo-drag}
use scoutpulse.Editor.Saving.{
  TacticsEditor, TacticBoard, Request, Reply, save, settle, end_load, can_leave, edit, request_of,
  input_of,
}
use scoutpulse.Editor.Saving.Lost.{
  World, Next, Reach, IsSafe, opens, sends, answers, works, Reach-can_leave, can_leave-answers,
}
use scoutpulse.Forms.Dates.{text_eq}
use scoutpulse.Editor.Store.{mark_saved}
use scoutpulse.Editor.Shows.{shows, shows-delete_step}
use scoutpulse.Editor.Reorder.{new_order, shows-move_step, shows-move_step_late}

abbrev player_of : String → String → BoardObject ℕ
player_of id number = record {
  id = id;
  kind = ObjectKind.player;
  team = some TeamId.home;
  keeper = none;
  number = some number;
  name = none;
  bib = none;
  color = none;
  color2 = none;
  pattern = none;
  size = none;
  rotation = none;
}

-- `a` stands from the first step on and moves into the second; `b` appears at the second.
abbrev sample : TacticDoc ℕ
sample = record (empty_doc "z") {
  objects = player_of "a" "1" ∷ player_of "b" "2" ∷ [];
  steps =
      record (new_step "s") { pos = ("a", vec 1 1) ∷ [] }
      ∷ record (new_step "t") { pos = ("a", vec 5 5) ∷ ("b", vec 7 7) ∷ [] }
      ∷ [];
}

abbrev store : EditorStore ℕ
store = record (new_store "z") { doc = sample; selection = some (Target.object "b") }

shown_first : shows sample 0 "a" ≢ none
unfolding position_at lookup
shown_first e = cc

undo-drag_example :
    ((undo (drag store (sample ∷ sample ∷ []) (empty_doc "y"))).doc ≡ sample)
    × ((undo (drag store (sample ∷ sample ∷ []) (empty_doc "y"))).undo_stack ≡ [])
undo-drag_example = undo-drag store (sample ∷ sample ∷ []) (empty_doc "y") refl

run-load-IsValid_example :
    IsValid (run (load sample store) (Action.delete_step ∷ Action.add_step "n" ∷ Action.undo ∷ []))
run-load-IsValid_example =
    run-load-IsValid sample store (Action.delete_step ∷ Action.add_step "n" ∷ Action.undo ∷ [])
      (omega arith)

shows-delete_step_example : shows (delete_step store).doc 0 "b" ≡ some (vec 7 7)
unfolding position_at lookup
shows-delete_step_example = shows-delete_step store "b" 0 (omega arith) (omega arith)

shows-move_step_example : shows (move_step (pos 1) (pos 0) store).doc 0 "a" ≡ some (vec 5 5)
unfolding position_at lookup any reordered
shows-move_step_example =
    shows-move_step "a" 1 (pos 0) store 0 0 1 whole-DecidesEq refl shown_first refl (omega arith)
      (omega arith) refl

shows-move_step_late_example :
    (get_elem? (new_order 1 0 sample) 1 ≡ some 0)
    × (shows (move_step (pos 1) (pos 0) store).doc 1 "b" ≡ some (vec 7 7))
unfolding position_at lookup any
shows-move_step_late_example =
    shows-move_step_late "b" store (vec 7 7) whole-DecidesEq refl (omega arith) refl refl

-- a new board that is being edited, and what the desk would answer
abbrev page : TacticsEditor ℕ
page = record {
  store = record store { dirty = true };
  title = [];
  description = [];
  saved_slug = none;
  loading = false;
  load_error = none;
  saving = false;
  save_error = none;
  draft = none;
}

abbrev stored_board : TacticBoard ℕ
stored_board = record {
  slug = b'x' ∷ [];
  owner_id = b'1' ∷ [];
  title = b'T' ∷ [];
  description = [];
  content = sample;
}

-- the board is opened by its owner, a step is deleted, and the board is saved
abbrev opened_world : World ℕ
opened_world = opens (some (b'1' ∷ [])) stored_board page

abbrev edited_world : World ℕ
edited_world = record opened_world { page = edit Action.delete_step opened_world.page }

abbrev saved_world : World ℕ
saved_world =
    answers (request_of (some (b'x' ∷ [])) (input_of edited_world.page)) (Reply.board stored_board)
      (sends edited_world)

saved_world-Reach : Reach sample saved_world
unfolding end_load text_eq save
saved_world-Reach =
    Reach.later
      (Reach.later
        (Reach.later (Reach.opened (some (b'1' ∷ [])) stored_board page refl)
          (Next.edits Action.delete_step opened_world refl refl))
        (Next.saves edited_world refl))
      (Next.answered (request_of (some (b'x' ∷ [])) (input_of edited_world.page))
        (Reply.board stored_board) (sends edited_world) refl)

Reach-can_leave_example : IsSafe sample saved_world
unfolding can_leave settle mark_saved
Reach-can_leave_example = Reach-can_leave saved_world saved_world-Reach refl

abbrev new_world : World ℕ
new_world = record { page = page; stored = none; flight = none }

can_leave-answers_example :
    (r : Request ℕ) × ((sends new_world).flight ≡ some r)
    × ((answers r
          (Reply.board stored_board)
          (works (Action.delete_step ∷ []) (sends new_world))).stored
        ≡ some sample)
    × ((answers r
          (Reply.board stored_board)
          (works (Action.delete_step ∷ []) (sends new_world))).page.store.doc
        ≡ (run page.store (Action.delete_step ∷ [])).doc)
    × (can_leave false
          (answers r
            (Reply.board stored_board)
            (works (Action.delete_step ∷ []) (sends new_world))).page
        ≡ true)
can_leave-answers_example = can_leave-answers new_world (Action.delete_step ∷ []) stored_board refl
