-- ===== src/Forms/Tests.antt =====
-- Runs of the forms, and the theorems at inputs that meet their hypotheses.
use scoutpulse.Base.{
  ℕ, ◌≡◌, refl, false, none, some, [], ◌∷◌, ◌++◌, pos, negsuc, Text, trim, trim_start, trim_end,
  filter, arith,
}
use scoutpulse.Base.Naturals.{whole}
use scoutpulse.Forms.Money.{
  amount, bad, parse_money, format_money_input, without_gaps, span_digits, value_from, digits,
  digits_with, pointed,
}
use scoutpulse.Forms.Money.RoundTrip.{parse_money-format_money_input}
use scoutpulse.Forms.Dates.{text_eq, midnight, today_input, to_date_input, text_lt, IsApiDate}
use scoutpulse.Forms.Player
use scoutpulse.Forms.Player.{PlayerForm, new_form, fill}
use scoutpulse.Forms.Player.RoundTrip.{IsTidy, update_of, build-fill}
use scoutpulse.Forms.Transfer
use scoutpulse.Forms.Transfer.{
  TransferType, Transfer, TransferForm, new_edit, loaded, save_correction,
}
use scoutpulse.Forms.Transfer.Corrected.{with_fee, save_correction-loaded, save_correction-free}

-- "1 250,5" and "12.5", and a text with two points
parse_point : parse_money (32 ∷ b'1' ∷ b'2' ∷ b'.' ∷ b'5' ∷ 32 ∷ []) ≡ amount 1250
unfolding parse_money without_gaps span_digits value_from trim trim_start trim_end filter
parse_point = refl

parse_gaps : parse_money (b'1' ∷ 32 ∷ b'2' ∷ b'5' ∷ b',' ∷ b'5' ∷ []) ≡ amount 125500
unfolding parse_money without_gaps span_digits value_from trim trim_start trim_end filter
parse_gaps = refl

parse_minus : parse_money (b'-' ∷ b'5' ∷ []) ≡ bad "An amount cannot be negative."
unfolding parse_money without_gaps span_digits value_from trim trim_start trim_end filter
parse_minus = refl

parse_thousandths :
    parse_money (b'5' ∷ b'.' ∷ b'0' ∷ b'0' ∷ b'0' ∷ []) ≡ bad "At most two decimal places."
unfolding parse_money without_gaps span_digits value_from trim trim_start trim_end filter
parse_thousandths = refl

format_cents : format_money_input (some (pos 5)) ≡ b'0' ∷ b'.' ∷ b'0' ∷ b'5' ∷ []
unfolding format_money_input pointed digits digits_with
format_cents = refl

format_minus : format_money_input (some (negsuc 249)) ≡ b'-' ∷ b'2' ∷ b'.' ∷ b'5' ∷ b'0' ∷ []
unfolding format_money_input pointed digits digits_with
format_minus = refl

parse_money-format_money_input_example :
    parse_money (format_money_input (some (pos 2550))) ≡ amount 2550
parse_money-format_money_input_example = parse_money-format_money_input 2550 (omega arith)

-- 1998-03-05
abbrev birthday : Text
birthday = b'1' ∷ b'9' ∷ b'9' ∷ b'8' ∷ b'-' ∷ b'0' ∷ b'3' ∷ b'-' ∷ b'0' ∷ b'5' ∷ []

abbrev today : Text
today = b'2' ∷ b'0' ∷ b'2' ∷ b'6' ∷ b'-' ∷ b'0' ∷ b'1' ∷ b'-' ∷ b'0' ∷ b'1' ∷ []

today_march : today_input (record { year = 1998; month = 2; day = 5 }) ≡ birthday
unfolding today_input digits digits_with
today_march = refl

birthday-IsApiDate : IsApiDate (birthday ++ midnight)
unfolding trim trim_start trim_end
birthday-IsApiDate = record { day = birthday; split = refl; trimmed = refl; long = refl }

abbrev player : Player.Player ℕ
player = record {
  id = b'7' ∷ [];
  team_id = some (b'1' ∷ []);
  name = b'A' ∷ b'l' ∷ b' ' ∷ b'B' ∷ [];
  first_name = some (b'A' ∷ b'l' ∷ []);
  last_name = none;
  date_of_birth = some (birthday ++ midnight);
  nationalities = (b'N' ∷ b'o' ∷ []) ∷ (b'S' ∷ b'e' ∷ []) ∷ [];
  height_cm = some 180;
  preferred_foot = none;
  agent = none;
  squad_number = some 9;
  position = b'G' ∷ b'k' ∷ [];
  secondary_positions = [];
  contract_start = none;
  contract_until = none;
  duels_won_pct = some 55;
  pass_completion_pct = none;
  shots_on_target_pct = none;
  aerial_duels_won_pct = none;
  strengths = (b'F' ∷ b',' ∷ b's' ∷ []) ∷ (b'T' ∷ []) ∷ [];
  weaknesses = [];
}

abbrev form : PlayerForm ℕ
form = new_form (some (b'7' ∷ [])) today

player-IsTidy : IsTidy today player
unfolding trim trim_start trim_end text_lt to_date_input
player-IsTidy = record {
  name = record { full = refl; trimmed = refl };
  position = record { full = refl; trimmed = refl };
  first_name = record { full = refl; trimmed = refl };
  last_name = tt;
  preferred_foot = tt;
  agent = tt;
  date_of_birth = birthday-IsApiDate;
  contract_start = tt;
  contract_until = tt;
  nationalities = (
    record { full = refl; trimmed = refl; plain = (refl, (refl, tt)) },
    (record { full = refl; trimmed = refl; plain = (refl, (refl, tt)) }, tt),
  );
  secondary_positions = tt;
  strengths = (
    record { full = refl; trimmed = refl; plain = (refl, (refl, (refl, tt))) },
    (record { full = refl; trimmed = refl; plain = (refl, tt) }, tt),
  );
  weaknesses = tt;
  height = refl;
  squad = refl;
  birth = refl;
  contract = refl;
}

build-fill_example : (Player.build (fill player form)).1 ≡ some (update_of player)
build-fill_example = build-fill player form player-IsTidy refl

abbrev loan : TransferForm
loan = record {
  id = b'7' ∷ [];
  latest_date = today;
  type = TransferType.loan;
  date = birthday;
  to_team_id = some (b'2' ∷ []);
  fee = [];
  season_id = [];
  busy = false;
  save_error = none;
  save_request_id = none;
  errors = [];
}

-- a transfer to the club that the player is at
build_same :
    (Transfer.build (some (b'2' ∷ [])) loan).0.errors
    ≡ ("to_team_id", "The two clubs must differ.") ∷ []
unfolding Transfer.build Transfer.transfer_errors Transfer.team_errors Transfer.same_team text_eq
    Transfer.fee_of text_lt trim trim_start trim_end
build_same = refl

abbrev recorded : Transfer
recorded = record {
  id = b'3' ∷ [];
  player_id = b'7' ∷ [];
  from_team_id = some (b'1' ∷ []);
  to_team_id = some (b'2' ∷ []);
  season_id = none;
  transfer_date = birthday ++ midnight;
  transfer_type = TransferType.permanent;
  fee_minor = some (pos 2550);
  currency = b'E' ∷ b'U' ∷ b'R' ∷ [];
}

save_correction-loaded_example :
    (save_correction (loaded recorded new_edit)).1 ≡ some (with_fee (some 2550) recorded)
save_correction-loaded_example =
    save_correction-loaded recorded new_edit 2550 refl (omega arith) refl refl

abbrev gratis : Transfer
gratis = record recorded { transfer_type = TransferType.free; fee_minor = some (pos 0) }

save_correction-free_example :
    (save_correction (loaded gratis new_edit)).1 ≡ some (with_fee none gratis)
save_correction-free_example = save_correction-free gratis new_edit refl refl
