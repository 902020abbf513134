-- ===== src/Forms/Player.antt =====
-- The form for a player, new or known: `PlayerForm` of features/players/player-form.ts. A signal is a
-- field; `today` is the day on which the form was opened. What a number input holds is a number of any
-- instance of `Number`.
pub mod RoundTrip
pub mod Checked
use scoutpulse.Base.{
  ℕ, String, Bool, true, false, not, ◌&&◌, ◌||◌, Option, none, some, or_else, List, [], ◌∷◌, ◌++◌,
  if◌then◌else◌, Dict, lookup, Number, int, lt, Text, trim, is_empty, items, join,
}
use scoutpulse.Forms.Money.{Money, undisclosed, amount, bad, parse_money}
use scoutpulse.Forms.Dates.{to_api_date, to_date_input, text_lt}
use scoutpulse.Forms.Fields.{is_filled, error_if, money_error, money_value, when_none}
use scoutpulse.Forms.Submit.{Caught, message_for, request_id_for}

-- what the form reads of a player
pub record Player (F : Type 0) : Type 0 where
  pub id : Text
  pub team_id : Option Text
  pub name : Text
  pub first_name : Option Text
  pub last_name : Option Text
  pub date_of_birth : Option Text
  pub nationalities : List Text
  pub height_cm : Option F
  pub preferred_foot : Option Text
  pub agent : Option Text
  pub squad_number : Option F
  pub position : Text
  pub secondary_positions : List Text
  pub contract_start : Option Text
  pub contract_until : Option Text
  pub duels_won_pct : Option F
  pub pass_completion_pct : Option F
  pub shots_on_target_pct : Option F
  pub aerial_duels_won_pct : Option F
  pub strengths : List Text
  pub weaknesses : List Text

-- `Partial<Player>` as the form sends it: `team_id` may be absent, null or a club
pub record Body (F : Type 0) : Type 0 where
  pub name : Text
  pub position : Text
  pub first_name : Option Text
  pub last_name : Option Text
  pub date_of_birth : Option Text
  pub nationalities : List Text
  pub secondary_positions : List Text
  pub strengths : List Text
  pub weaknesses : List Text
  pub duels_won_pct : Option F
  pub pass_completion_pct : Option F
  pub shots_on_target_pct : Option F
  pub aerial_duels_won_pct : Option F
  pub height_cm : Option F
  pub preferred_foot : Option Text
  pub agent : Option Text
  pub squad_number : Option F
  pub contract_start : Option Text
  pub contract_until : Option Text
  pub team_id : Option (Option Text)
  pub market_value_minor : Option ℕ

pub record PlayerForm (F : Type 0) : Type 0 where
  pub id : Option Text
  pub today : Text
  pub name : Text
  pub position : Text
  pub team_id : Option Text
  pub market_value : Text
  pub first_name : Text
  pub last_name : Text
  pub date_of_birth : Text
  pub nationalities : Text
  pub secondary_positions : Text
  pub strengths : Text
  pub weaknesses : Text
  pub duels_won_pct : Option F
  pub pass_completion_pct : Option F
  pub shots_on_target_pct : Option F
  pub aerial_duels_won_pct : Option F
  pub height_cm : Option F
  pub preferred_foot : Text
  pub agent : Text
  pub squad_number : Option F
  pub contract_start : Text
  pub contract_until : Text
  pub busy : Bool
  pub save_error : Option String
  pub save_request_id : Option String
  pub errors : Dict String

abbrev pub new_form : {F : Type 0} → Option Text → Text → PlayerForm F
new_form id today = record {
  id = id;
  today = today;
  name = [];
  position = [];
  team_id = none;
  market_value = [];
  first_name = [];
  last_name = [];
  date_of_birth = [];
  nationalities = [];
  secondary_positions = [];
  strengths = [];
  weaknesses = [];
  duels_won_pct = none;
  pass_completion_pct = none;
  shots_on_target_pct = none;
  aerial_duels_won_pct = none;
  height_cm = none;
  preferred_foot = [];
  agent = [];
  squad_number = none;
  contract_start = [];
  contract_until = [];
  busy = false;
  save_error = none;
  save_request_id = none;
  errors = [];
}

unfoldable pub blank_to_undefined : Text → Option Text
blank_to_undefined value =
    let trimmed = trim value in if is_empty trimmed then none else some trimmed

abbrev pub split_list : Text → List Text
split_list = items b','

abbrev pub split_lines : Text → List Text
split_lines = items 10

module _ {F : Type 0} where
  abbrev pub is_edit : PlayerForm F → Bool
  is_edit f = is_filled f.id

  unfoldable pub fill : Player F → PlayerForm F → PlayerForm F
  unfolding join to_date_input
  fill p f = record f {
    name = p.name;
    position = p.position;
    first_name = or_else p.first_name [];
    last_name = or_else p.last_name [];
    date_of_birth = to_date_input p.date_of_birth;
    nationalities = join (b',' ∷ 32 ∷ []) p.nationalities;
    secondary_positions = join (b',' ∷ 32 ∷ []) p.secondary_positions;
    strengths = join (10 ∷ []) p.strengths;
    weaknesses = join (10 ∷ []) p.weaknesses;
    duels_won_pct = p.duels_won_pct;
    pass_completion_pct = p.pass_completion_pct;
    shots_on_target_pct = p.shots_on_target_pct;
    aerial_duels_won_pct = p.aerial_duels_won_pct;
    height_cm = p.height_cm;
    preferred_foot = or_else p.preferred_foot [];
    agent = or_else p.agent [];
    squad_number = p.squad_number;
    contract_start = to_date_input p.contract_start;
    contract_until = to_date_input p.contract_until;
  }

  -- the text of the value is read for a new player only, and when it is not blank
  unfoldable pub value_of : PlayerForm F → Money
  unfolding parse_money
  value_of f =
      let read = parse_money f.market_value in
      if not (is_edit f) && not (is_empty (trim f.market_value)) then read else undisclosed

abbrev pub in_future : Text → Text → Bool
in_future today date = not (is_empty date) && text_lt today date

abbrev pub ends_early : Text → Text → Bool
ends_early start until = not (is_empty start) && not (is_empty until) && text_lt until start

module _ {F : Type 0} ⦃n : Number F⦄ where
  -- a number outside its bounds
  abbrev pub outside : ℕ → ℕ → Option F → Bool
  outside low high none = false
  outside low high (some x) = lt x (int low) || lt (int high) x

  -- the errors of `build`, in the order in which it finds them
  unfoldable pub errors_of : PlayerForm F → Dict String
  unfolding value_of
  errors_of f =
      error_if (is_empty (trim f.name)) "name" "A name is required."
      ++ (error_if (is_empty (trim f.position)) "position" "A position is required."
          ++ (error_if (outside 100 250 f.height_cm) "height_cm" "Between 100 and 250 cm."
              ++ (error_if (outside 1 99 f.squad_number) "squad_number" "Between 1 and 99."
                  ++ (error_if (in_future f.today f.date_of_birth) "date_of_birth"
                        "Cannot be in the future."
                      ++ (error_if (ends_early f.contract_start f.contract_until) "contract_until"
                            "Must be on or after the contract start."
                          ++ money_error "market_value_minor" (value_of f))))))

  unfoldable pub body_of : PlayerForm F → Body F
  unfolding blank_to_undefined to_api_date value_of
  body_of f = record {
    name = trim f.name;
    position = trim f.position;
    first_name = blank_to_undefined f.first_name;
    last_name = blank_to_undefined f.last_name;
    date_of_birth = to_api_date f.date_of_birth;
    nationalities = split_list f.nationalities;
    secondary_positions = split_list f.secondary_positions;
    strengths = split_lines f.strengths;
    weaknesses = split_lines f.weaknesses;
    duels_won_pct = f.duels_won_pct;
    pass_completion_pct = f.pass_completion_pct;
    shots_on_target_pct = f.shots_on_target_pct;
    aerial_duels_won_pct = f.aerial_duels_won_pct;
    height_cm = f.height_cm;
    preferred_foot = blank_to_undefined f.preferred_foot;
    agent = blank_to_undefined f.agent;
    squad_number = f.squad_number;
    contract_start = to_api_date f.contract_start;
    contract_until = to_api_date f.contract_until;
    team_id = if is_edit f then none else some f.team_id;
    market_value_minor = if is_edit f then none else money_value (value_of f);
  }

  unfoldable pub build : PlayerForm F → PlayerForm F × Option (Body F)
  unfolding errors_of body_of
  build f = let errors = errors_of f in (record f { errors = errors }, when_none errors (body_of f))

abbrev pub field_error : {F : Type 0} → String → PlayerForm F → Option String
field_error field f = lookup field f.errors

-- what a save asks of the writer
pub data Request (F : Type 0) : Type 0 where
  update : Text → Body F → Request F
  create : Body F → Request F

abbrev request_for : {F : Type 0} → Option Text → Body F → Request F
request_for none body = Request.create body
request_for (some id) body = if is_empty id then Request.create body else Request.update id body

module _ {F : Type 0} ⦃n : Number F⦄ where
  abbrev send : PlayerForm F × Option (Body F) → PlayerForm F × Option (Request F)
  send (f, none) = (f, none)
  send (f, some body) = (
    record f { busy = true; save_error = none; save_request_id = none },
    some (request_for f.id body),
  )

  -- `save`, up to the answer
  unfoldable pub save : PlayerForm F → PlayerForm F × Option (Request F)
  unfolding build
  save f = let sent = send (build f) in if f.busy then (f, none) else sent

-- the answer: the player that was saved, whose page is opened, or what was thrown
pub data Reply : Type 0 where
  saved : Text → Reply
  thrown : Caught → Reply

-- the rest of `save`: the form, and the player whose page is opened
unfoldable pub settle : {F : Type 0} → Reply → PlayerForm F → PlayerForm F × Option Text
unfolding message_for request_id_for
settle (Reply.saved id) f = (record f { busy = false }, some id)
settle (Reply.thrown e) f = (
  record f {
    busy = false;
    save_error = some (message_for "Could not save. Please try again." e);
    save_request_id = request_id_for e;
  },
  none,
)
