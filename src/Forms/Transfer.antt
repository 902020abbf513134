-- ===== src/Forms/Transfer.antt =====
-- Recording a transfer, and correcting one: `TransferForm` and `TransferEdit` of
-- features/transfers/transfer-form.ts.
pub mod Recorded
pub mod Corrected
use scoutpulse.Base.{
  ℕ, String, Bool, true, false, not, ◌&&◌, ◌||◌, ◌++◌, Option, none, some, List, [], ◌∷◌,
  if◌then◌else◌, Dict, insert, Text, trim, is_empty, ℤ, ◌==◌, or_else,
}
use scoutpulse.Forms.Money.{Money, undisclosed, amount, bad, parse_money, format_money_input}
use scoutpulse.Forms.Dates.{text_eq, to_api_date, text_lt}
use scoutpulse.Forms.Submit.{Caught, message_for, request_id_for}
use scoutpulse.Forms.Fields.{is_filled, when_none, money_error, money_value, error_if}

pub data TransferType : Type 0 where
  permanent loan loan_return free youth_promotion released retired : TransferType

pub record Transfer : Type 0 where
  pub id : Text
  pub player_id : Text
  pub from_team_id : Option Text
  pub to_team_id : Option Text
  pub season_id : Option Text
  pub transfer_date : Text
  pub transfer_type : TransferType
  pub fee_minor : Option ℤ
  pub currency : Text

-- `ENDS_CAREER_AT_CLUB.has(type)`
abbrev pub ends_career_at_club : TransferType → Bool
ends_career_at_club TransferType.released = true
ends_career_at_club TransferType.retired = true
ends_career_at_club _ = false

abbrev pub is_free : TransferType → Bool
is_free TransferType.free = true
is_free _ = false

-- the fee that a save sends: it is read unless the transfer is free or the text blank
unfoldable pub fee_of : TransferType → Text → Money
unfolding parse_money
fee_of type text =
    let read = parse_money text in
    if not (is_free type) && not (is_empty (trim text)) then read else undisclosed

-- the form for a new transfer of a player
pub record TransferForm : Type 0 where
  pub id : Text
  pub latest_date : Text
  pub type : TransferType
  pub date : Text
  pub to_team_id : Option Text
  pub fee : Text
  pub season_id : Text
  pub busy : Bool
  pub save_error : Option String
  pub save_request_id : Option String
  pub errors : Dict String

-- the type is chosen: `typeChanged`, and the effect that empties the fee of a free transfer
unfoldable pub choose_type : TransferType → TransferForm → TransferForm
choose_type type f = record f {
  type = type;
  to_team_id = if ends_career_at_club type then none else f.to_team_id;
  fee = if is_free type then [] else f.fee;
}

pub record NewTransfer : Type 0 where
  pub player_id : Text
  pub from_team_id : Option Text
  pub to_team_id : Option Text
  pub transfer_date : Option Text
  pub transfer_type : TransferType
  pub fee_minor : Option ℕ
  pub season_id : Option Text

-- `a === b` for a text that may be null
unfoldable pub same_team : Option Text → Option Text → Bool
unfolding text_eq
same_team none none = true
same_team none (some t) = false
same_team (some s) none = false
same_team (some s) (some t) = text_eq s t

abbrev pub date_errors : Text → Text → Dict String
date_errors latest date =
    if is_empty date
    then ("transfer_date", "A date is required.") ∷ []
    else error_if (text_lt latest date) "transfer_date" "No more than a year ahead."

unfoldable pub team_errors : Option Text → Option Text → Dict String
unfolding same_team
team_errors from to =
    error_if (not (is_filled from) && not (is_filled to)) "to_team_id"
      "A free agent must be joining someone."
    ++ error_if (is_filled from && same_team to from) "to_team_id" "The two clubs must differ."

unfoldable pub transfer_errors : Option Text → TransferForm → Dict String
unfolding team_errors fee_of
transfer_errors current f =
    date_errors f.latest_date f.date
    ++ (team_errors current f.to_team_id ++ money_error "fee_minor" (fee_of f.type f.fee))

unfoldable pub transfer_of : Option Text → TransferForm → NewTransfer
unfolding to_api_date fee_of
transfer_of current f = record {
  player_id = f.id;
  from_team_id = current;
  to_team_id = f.to_team_id;
  transfer_date = to_api_date f.date;
  transfer_type = f.type;
  fee_minor = money_value (fee_of f.type f.fee);
  season_id = if is_empty f.season_id then none else some f.season_id;
}

unfoldable pub build : Option Text → TransferForm → TransferForm × Option NewTransfer
unfolding transfer_errors transfer_of
build current f =
    let errors = transfer_errors current f in
    (record f { errors = errors }, when_none errors (transfer_of current f))

abbrev send : TransferForm × Option NewTransfer → TransferForm × Option NewTransfer
send (f, none) = (f, none)
send (f, some body) =
    (record f { busy = true; save_error = none; save_request_id = none }, some body)

-- `save` up to the answer; the player is none until loaded, and then has a club or none
unfoldable pub save : Option (Option Text) → TransferForm → TransferForm × Option NewTransfer
unfolding build
save none f = (f, none)
save (some current) f = let sent = send (build current f) in if f.busy then (f, none) else sent

-- the rest of `save`: none when the transfer is recorded
unfoldable pub settle : Option Caught → TransferForm → TransferForm
unfolding message_for request_id_for
settle none f = record f { busy = false }
settle (some e) f = record f {
  busy = false;
  save_error = some (message_for "Could not record the transfer." e);
  save_request_id = request_id_for e;
}

-- the form that corrects a recorded transfer
pub record TransferEdit : Type 0 where
  pub transfer : Option Transfer
  pub type : TransferType
  pub fee : Text
  pub busy : Bool
  pub save_error : Option String
  pub save_request_id : Option String
  pub fee_error : Option String

abbrev pub new_edit : TransferEdit
new_edit = record {
  transfer = none;
  type = TransferType.permanent;
  fee = [];
  busy = false;
  save_error = none;
  save_request_id = none;
  fee_error = none;
}

-- the transfer lands
unfoldable pub loaded : Transfer → TransferEdit → TransferEdit
unfolding format_money_input
loaded t e = record e {
  transfer = some t;
  type = t.transfer_type;
  fee = format_money_input t.fee_minor;
}

pub record Correction : Type 0 where
  pub id : Text
  pub transfer_type : TransferType
  pub fee_minor : Option ℕ
  pub currency : Text
  pub season_id : Option Text

abbrev correct : Transfer → TransferEdit → Money → TransferEdit × Option Correction
correct t e (bad message) = (record e { fee_error = some message }, none)
correct t e fee = (
  record e { fee_error = none; busy = true; save_error = none; save_request_id = none },
  some (record {
    id = t.id;
    transfer_type = e.type;
    fee_minor = money_value fee;
    currency = t.currency;
    season_id = t.season_id;
  }),
)

abbrev correct_loaded : Option Transfer → TransferEdit → TransferEdit × Option Correction
correct_loaded none e = (e, none)
correct_loaded (some t) e = correct t e (unfold fee_of in fee_of e.type e.fee)

-- `save` up to the answer
unfoldable pub save_correction : TransferEdit → TransferEdit × Option Correction
unfolding fee_of
save_correction e = let sent = correct_loaded e.transfer e in if e.busy then (e, none) else sent

-- the rest of `save`: none when the correction is stored
unfoldable pub settle_correction : Option Caught → TransferEdit → TransferEdit
unfolding message_for request_id_for
settle_correction none e = record e { busy = false }
settle_correction (some c) e = record e {
  busy = false;
  save_error = some (message_for "Could not save the correction." c);
  save_request_id = request_id_for c;
}
