-- ===== src/Editor/Objects.antt =====
-- The operations of `EditorStore` on objects: features/tactics/editor/editor-store.ts, from `place`
-- to `removeTeam`. A patch is the function that overwrites the fields it names.
use scoutpulse.Base.{
  ℕ, String, Bool, true, false, not, Option, none, some, List, [], ◌∷◌, ◌++◌, map, Number, int,
  insert, erase, filter_keys, filter, any, str_eq, if◌then◌else◌, or_else, get_elem?, ℤ, pos,
  negsuc, zero, suc,
}
use mathlib.Core.Option
use scoutpulse.Board.Doc.{
  Vec2, BoardObject, EquipmentKind, ObjectKind, Step, TacticDoc, TeamId, is_player,
}
use scoutpulse.Board.Defaults.{equipment_colors}
use scoutpulse.Board.Geometry.{vec, control_through}
use scoutpulse.Board.Look.{next_number, plays_for}
use scoutpulse.Board.Position.{position_at, pos_in}
use scoutpulse.Editor.Store.{
  Target, Placeable, player, equipment, EditorStore, once, phase_of, apply, with_step,
  with_current_step, selected_object,
}

module _ {F : Type 0} where
  -- an object of a kind, with no optional property
  abbrev bare : String → ObjectKind → BoardObject F
  bare id kind = record {
    id = id;
    kind = kind;
    team = none;
    keeper = none;
    number = none;
    name = none;
    bib = none;
    color = none;
    color2 = none;
    pattern = none;
    size = none;
    rotation = none;
  }

  -- `pos: { ...s.pos, [id]: at }`
  abbrev pub put_at : String → Vec2 F → Step F → Step F
  put_at id at s = record s { pos = insert id at s.pos }

  abbrev pub add_object : BoardObject F → TacticDoc F → TacticDoc F
  add_object obj doc = record doc { objects = doc.objects ++ obj ∷ [] }

-- `clean`: a property set to the empty text is dropped
abbrev pub clean_text : Option String → Option String
clean_text none = none
clean_text (some t) = if str_eq t "" then none else some t

-- in the list: taken out; not in it: put at the end
unfoldable pub toggled : String → Option (List String) → List String
toggled id list =
    let current = or_else list [] in
    if any (λ x. str_eq x id) current
    then filter (λ x. not (str_eq x id)) current
    else current ++ id ∷ []

abbrev pub among : List String → String → Bool
among ids id = any (λ x. str_eq x id) ids

-- `i - 1`, as the argument of `positionAt`
abbrev pub before : ℕ → ℤ
before zero = negsuc 0
before (suc i) = pos i

abbrev faces_centre : EquipmentKind → Bool
faces_centre EquipmentKind.goal = true
faces_centre EquipmentKind.minigoal = true
faces_centre EquipmentKind.popup = true
faces_centre _ = false

abbrev color_of : EquipmentKind → Option String
color_of EquipmentKind.ball = none
color_of kind = some (equipment_colors kind)

-- `if (what.keeper) obj.keeper = true`
abbrev set_keeper : Bool → Option Bool
set_keeper true = some true
set_keeper false = none

module _ {F : Type 0} ⦃n : Number F⦄ where
  unfoldable pub placed_object : TacticDoc F → Placeable → Vec2 F → String → BoardObject F
  placed_object doc (player team keeper) at id =
      let is_keeper = or_else keeper false in
      record (bare id ObjectKind.player) {
        team = some team;
        keeper = set_keeper is_keeper;
        number = some (if is_keeper then "1" else next_number doc team);
      }
  placed_object doc (equipment kind) at id = record (bare id (ObjectKind.equipment kind)) {
    color = color_of kind;
    rotation =
        if faces_centre kind then some (if n.le at.x (int 0) then int 180 else int 0) else none;
  }

  unfoldable pub place : Vec2 F → String → EditorStore F → EditorStore F
  unfolding placed_object
  place at id s =
      let obj = placed_object s.doc s.placing at id in
      let next = with_step (add_object obj s.doc) s.step_index (put_at obj.id at) in
      record (apply next once s) { selection = some (Target.object obj.id) }

  -- to a hundredth of a metre
  unfoldable pub rounded : Vec2 F → Vec2 F
  rounded at =
      vec (n.div (n.round (n.mul at.x (int 100))) (int 100))
        (n.div (n.round (n.mul at.y (int 100))) (int 100))

  unfoldable pub move_object : String → Vec2 F → Bool → EditorStore F → EditorStore F
  move_object id at done s = apply (with_current_step (put_at id (rounded at)) s) (phase_of done) s

  abbrev pub set_bend : String → Vec2 F → Step F → Step F
  set_bend id control s = record s { bend = some (insert id control (or_else s.bend [])) }

  abbrev pub bend_between :
      Option (Vec2 F) → Option (Vec2 F) → String → Vec2 F → Bool → EditorStore F → EditorStore F
  bend_between (some from) (some to) id mid done s =
      apply (with_current_step (set_bend id (control_through from mid to)) s) (phase_of done) s
  bend_between _ _ id mid done s = s

  unfoldable pub bend : String → Vec2 F → Bool → EditorStore F → EditorStore F
  bend id mid done s =
      bend_between (position_at s.doc (before s.step_index) id)
        (pos_in id (get_elem? s.doc.steps s.step_index)) id mid done s

  abbrev copied : String → TacticDoc F → BoardObject F → BoardObject F
  copied id doc obj = record obj {
    id = id;
    number = elim obj.team [
      | some team ↦ if is_player obj.kind then some (next_number doc team) else obj.number
      | none ↦ obj.number
    ];
  }

  abbrev pub duplicate_at : Option (Vec2 F) → BoardObject F → String → EditorStore F → EditorStore F
  duplicate_at none obj id s = s
  duplicate_at (some at) obj id s =
      let copy = copied id s.doc obj in
      let next =
        with_step (add_object copy s.doc) s.step_index
          (put_at copy.id (vec (n.add at.x (int 3)) (n.add at.y (int 2)))) in
      record (apply next once s) { selection = some (Target.object copy.id) }

  abbrev pub duplicate_object : Option (BoardObject F) → String → EditorStore F → EditorStore F
  duplicate_object none id s = s
  duplicate_object (some obj) id s =
      duplicate_at (position_at s.doc (pos s.step_index) obj.id) obj id s

  unfoldable pub duplicate_selection : String → EditorStore F → EditorStore F
  duplicate_selection id s = duplicate_object (selected_object s) id s

module _ {F : Type 0} where
  unfoldable pub straighten : String → EditorStore F → EditorStore F
  straighten id s =
      apply (with_current_step (λ st. record st { bend = some (erase id (or_else st.bend [])) }) s)
        once s

  unfoldable pub clean_object : BoardObject F → BoardObject F
  clean_object o = record o {
    number = clean_text o.number;
    name = clean_text o.name;
    bib = clean_text o.bib;
    color = clean_text o.color;
    color2 = clean_text o.color2;
  }

  unfoldable pub update_object :
      String → (BoardObject F → BoardObject F) → EditorStore F → EditorStore F
  update_object id patch s =
      apply
        (record s.doc {
          objects = map (λ o. if str_eq o.id id then clean_object (patch o) else o) s.doc.objects;
        })
        once s

  unfoldable pub toggle_in_air : String → EditorStore F → EditorStore F
  toggle_in_air id s =
      apply (with_current_step (λ st. record st { air = some (toggled id st.air) }) s) once s

  unfoldable pub toggle_in_highlight : String → EditorStore F → EditorStore F
  toggle_in_highlight id s =
      apply (with_current_step (λ st. record st { highlight = some (toggled id st.highlight) }) s)
        once s

  -- a step with nothing left of an object
  abbrev pub strip_step : String → Step F → Step F
  strip_step id st = record st {
    pos = erase id st.pos;
    bend = Option.map (erase id) st.bend;
    air = Option.map (filter (λ x. not (str_eq x id))) st.air;
    highlight = Option.map (filter (λ x. not (str_eq x id))) st.highlight;
  }

  unfoldable pub without_object : String → TacticDoc F → TacticDoc F
  without_object id doc = record doc {
    objects = filter (λ o. not (str_eq o.id id)) doc.objects;
    steps = map (strip_step id) doc.steps;
  }

  abbrev pub delete_target : Option Target → EditorStore F → EditorStore F
  delete_target none s = s
  delete_target (some (Target.object id)) s = record (apply (without_object id s.doc) once s) {
    selection = none;
  }
  delete_target (some (Target.drawing id)) s =
      record (apply
        (with_current_step
          (λ st. record st { drawings = filter (λ d. not (str_eq d.id id)) st.drawings }) s)
        once s) { selection = none }

  unfoldable pub delete_selection : EditorStore F → EditorStore F
  unfolding without_object
  delete_selection s = delete_target s.selection s

  -- the ids of a team's players
  unfoldable pub team_ids : TeamId → TacticDoc F → List String
  team_ids team doc = map (λ o. o.id) (filter (plays_for team) doc.objects)

  unfoldable pub without_ids : List String → TacticDoc F → TacticDoc F
  without_ids gone doc = record doc {
    objects = filter (λ o. not (among gone o.id)) doc.objects;
    steps =
        map {A = Step F} (λ st. record st { pos = filter_keys (λ id. not (among gone id)) st.pos })
          doc.steps;
  }

  abbrev pub remove_ids : List String → EditorStore F → EditorStore F
  remove_ids [] s = s
  remove_ids (id ∷ gone) s = record (apply (without_ids (id ∷ gone) s.doc) once s) {
    selection = none;
  }

  unfoldable pub remove_team : TeamId → EditorStore F → EditorStore F
  unfolding without_ids team_ids
  remove_team team s = remove_ids (team_ids team s.doc) s
