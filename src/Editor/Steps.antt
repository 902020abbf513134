-- ===== src/Editor/Steps.antt =====
-- The operations of `EditorStore` on steps and on the board as a whole:
-- features/tactics/editor/editor-store.ts, from `goToStep` to the end, and `addFormation`.
use scoutpulse.Base.{
  ℕ, suc, ◌+◌, ◌-◌, min, String, Bool, true, not, ◌||◌, Option, none, some, List, [], ◌∷◌, ◌++◌,
  Number, Dict, lookup, merge, length, get_elem?, modify, insert_at, erase_at, leb, ◌==◌,
  if◌then◌else◌, ℤ, pos, negsuc, clamp_to,
}
use scoutpulse.Board.Doc.{Vec2, Drawing, Step, TacticDoc, TeamId, PitchSettings, Kit, Teams}
use scoutpulse.Board.Defaults.{new_step}
use scoutpulse.Board.Formation.{Side, formation}
use scoutpulse.Board.Position.{positions_at}
use scoutpulse.Editor.Store.{EditorStore, once, apply, with_step, with_current_step, drop_drawing}

abbrev with_kit : TeamId → (Kit → Kit) → Teams → Teams
with_kit TeamId.home patch t = record t { home = patch t.home }
with_kit TeamId.away patch t = record t { away = patch t.away }
with_kit TeamId.third patch t = record t { third = patch t.third }

abbrev pub put_back {ℓ} : {A : Type ℓ} → Option A → ℕ → List A → List A
put_back none to xs = xs
put_back (some x) to xs = insert_at xs to x

-- `order.splice(to, 0, ...order.splice(from, 1))`
unfoldable pub reordered {ℓ} : {A : Type ℓ} → ℕ → ℕ → List A → List A
reordered from to xs = put_back (get_elem? xs from) to (erase_at from xs)

module _ {F : Type 0} where
  unfoldable pub go_to_step : ℤ → EditorStore F → EditorStore F
  go_to_step i s = record s {
    step_index = clamp_to (length s.doc.steps - 1) i;
    selection = drop_drawing s.selection;
  }

  -- the drawings again, under the ids that `newId()` gives for them
  renamed : (ℕ → String) → ℕ → List (Drawing F) → List (Drawing F)
  renamed fresh k [] = []
  renamed fresh k (d ∷ drawings) = record d { id = fresh k } ∷ renamed fresh (suc k) drawings

  unfoldable pub copied_step : (ℕ → String) → Step F → Step F
  unfolding renamed
  copied_step fresh source = record source {
    id = fresh 0;
    pos = [];
    bend = none;
    air = none;
    drawings = renamed fresh 1 source.drawings;
  }

  -- the rest of an operation that has put a step at `at`
  abbrev pub at_new_step : ℕ → List (Step F) → EditorStore F → EditorStore F
  at_new_step at steps s =
      let s' = apply (record s.doc { steps = steps }) once s in
      record s' { step_index = at; selection = drop_drawing s'.selection }

  abbrev pub duplicate : Option (Step F) → (ℕ → String) → EditorStore F → EditorStore F
  duplicate none fresh s = s
  duplicate (some source) fresh s =
      at_new_step (s.step_index + 1)
        (insert_at s.doc.steps (s.step_index + 1) (copied_step fresh source)) s

  -- The index is in range: out of it the source throws.
  unfoldable pub duplicate_step : (ℕ → String) → EditorStore F → EditorStore F
  duplicate_step fresh s = duplicate (get_elem? s.doc.steps s.step_index) fresh s

  -- the removed step's positions, under those of the step that is now at its place
  abbrev pub carried : Option (Step F) → ℕ → List (Step F) → List (Step F)
  carried none i steps = steps
  carried (some removed) i steps =
      modify (λ st. record st { pos = merge removed.pos st.pos }) i (erase_at i steps)

  unfoldable pub delete_step : EditorStore F → EditorStore F
  delete_step s =
      if leb (length s.doc.steps) 1
      then s
      else (let i = s.step_index in
          let steps = carried (get_elem? s.doc.steps i) i s.doc.steps in
          record (apply (record s.doc { steps = steps }) once s) {
            step_index = min i (length steps - 1);
            selection = none;
          })

  unfoldable pub update_step : (Step F → Step F) → EditorStore F → EditorStore F
  update_step patch s = apply (with_current_step patch s) once s

  unfoldable pub set_pitch : (PitchSettings → PitchSettings) → EditorStore F → EditorStore F
  set_pitch patch s = apply (record s.doc { pitch = patch s.doc.pitch }) once s

  unfoldable pub set_kit : TeamId → (Kit → Kit) → EditorStore F → EditorStore F
  set_kit team patch s = apply (record s.doc { teams = with_kit team patch s.doc.teams }) once s

module _ {F : Type 0} ⦃n : Number F⦄ where
  unfoldable pub add_step : String → EditorStore F → EditorStore F
  add_step id s =
      at_new_step (s.step_index + 1) (insert_at s.doc.steps (s.step_index + 1) (new_step id)) s

  unfoldable pub clear_board : String → EditorStore F → EditorStore F
  clear_board id s =
      record (apply (record s.doc { objects = []; steps = new_step id ∷ [] }) once s) {
        step_index = 0;
        selection = none;
      }

  unfoldable pub add_formation :
      String → TeamId → Side → (ℕ → String) → EditorStore F → EditorStore F
  add_formation name team side fresh s =
      let laid = formation name team side fresh in
      apply
        (with_step (record s.doc { objects = s.doc.objects ++ laid.objects }) s.step_index
          (λ st. record st { pos = merge st.pos laid.pos }))
        once s

  -- whether an object stands elsewhere than it did
  abbrev pub is_moved : Option (Vec2 F) → Vec2 F → Bool
  is_moved none p = true
  is_moved (some q) p = not (n.eq q.x p.x) || not (n.eq q.y p.y)

  -- The inner loop of `moveStep`: what is not where it stood before. The ids are distinct.
  unfoldable pub differences : Dict (Vec2 F) → Dict (Vec2 F) → Dict (Vec2 F)
  differences before [] = []
  differences before ((id, p) ∷ here) =
      let rest = differences before here in
      if is_moved (lookup id before) p then (id, p) ∷ rest else rest

  -- Each step with where everything stands at it: `steps`, from index `k` on, and `resolved`.
  unfoldable pub resolved_from : TacticDoc F → ℕ → List (Step F) → List (Step F × Dict (Vec2 F))
  resolved_from doc k [] = []
  resolved_from doc k (st ∷ steps) =
      (st, positions_at doc (pos k)) ∷ resolved_from doc (suc k) steps

  -- The positions stored again, as differences from the step that now comes before.
  unfoldable pub stored_again : Dict (Vec2 F) → List (Step F × Dict (Vec2 F)) → List (Step F)
  unfolding differences
  stored_again before [] = []
  stored_again before ((st, here) ∷ rest) =
      record st { pos = differences before here } ∷ stored_again here rest

  unfoldable pub moved_steps : ℕ → ℕ → TacticDoc F → List (Step F)
  unfolding resolved_from stored_again reordered
  moved_steps from to doc = stored_again [] (reordered from to (resolved_from doc 0 doc.steps))

  unfoldable pub move_step : ℤ → ℤ → EditorStore F → EditorStore F
  unfolding moved_steps
  move_step (negsuc from) to s = s
  move_step (pos from) to s =
      let at = clamp_to (length s.doc.steps - 1) to in
      if from == at || leb (length s.doc.steps) from
      then s
      else at_new_step at (moved_steps from at s.doc) s
