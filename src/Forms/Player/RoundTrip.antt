-- ===== src/Forms/Player/RoundTrip.antt =====
-- A tidy player that is opened in the form and saved untouched is sent as it was.
use scoutpulse.Base.{
  ◌≡◌, refl, ap, true, false, Option, none, some, or_else, [], All, Number, Text, trim, trim_start,
  trim_end, is_empty, IsItem, items-join, items-join_lines,
}
use scoutpulse.Forms.Dates.{to_api_date, to_date_input, IsApiDate, to_api_date-to_date_input}
use scoutpulse.Forms.Player.{
  Player, PlayerForm, Body, is_edit, fill, blank_to_undefined, outside, in_future, ends_early,
  errors_of, body_of, build, value_of,
}

-- a text that is neither blank nor padded
pub record IsText (s : Text) : Type 0 where
  pub full : is_empty s ≡ false
  pub trimmed : trim s ≡ s

abbrev pub WhenSet : (Text → Type 0) → Option Text → Type 0
WhenSet P none = Unit
WhenSet P (some s) = P s

-- A player whose texts and list items are trimmed and not empty, no item holding the separator of its
-- field, whose dates are days at midnight, and whose numbers and dates pass the form's checks.
pub record IsTidy {F : Type 0} ⦃n : Number F⦄ (today : Text) (p : Player F) : Type 0 where
  pub name : IsText p.name
  pub position : IsText p.position
  pub first_name : WhenSet IsText p.first_name
  pub last_name : WhenSet IsText p.last_name
  pub preferred_foot : WhenSet IsText p.preferred_foot
  pub agent : WhenSet IsText p.agent
  pub date_of_birth : WhenSet IsApiDate p.date_of_birth
  pub contract_start : WhenSet IsApiDate p.contract_start
  pub contract_until : WhenSet IsApiDate p.contract_until
  pub nationalities : All (IsItem b',') p.nationalities
  pub secondary_positions : All (IsItem b',') p.secondary_positions
  pub strengths : All (IsItem 10) p.strengths
  pub weaknesses : All (IsItem 10) p.weaknesses
  pub height : outside 100 250 p.height_cm ≡ false
  pub squad : outside 1 99 p.squad_number ≡ false
  pub birth : in_future today (to_date_input p.date_of_birth) ≡ false
  pub contract :
      ends_early (to_date_input p.contract_start) (to_date_input p.contract_until) ≡ false

blank_to_undefined-or_else :
    (o : Option Text) → WhenSet IsText o → blank_to_undefined (or_else o []) ≡ o
unfolding blank_to_undefined
blank_to_undefined-or_else none h = unfold trim trim_start trim_end in refl
blank_to_undefined-or_else (some s) h = rw (h.trimmed, h.full) refl

api_date_again : (o : Option Text) → WhenSet IsApiDate o → to_api_date (to_date_input o) ≡ o
unfolding to_api_date to_date_input
api_date_again none h = unfold trim trim_start trim_end in refl
api_date_again (some iso) h = to_api_date-to_date_input iso h

-- what an update says of a player
abbrev pub update_of : {F : Type 0} → Player F → Body F
update_of p = record {
  name = p.name;
  position = p.position;
  first_name = p.first_name;
  last_name = p.last_name;
  date_of_birth = p.date_of_birth;
  nationalities = p.nationalities;
  secondary_positions = p.secondary_positions;
  strengths = p.strengths;
  weaknesses = p.weaknesses;
  duels_won_pct = p.duels_won_pct;
  pass_completion_pct = p.pass_completion_pct;
  shots_on_target_pct = p.shots_on_target_pct;
  aerial_duels_won_pct = p.aerial_duels_won_pct;
  height_cm = p.height_cm;
  preferred_foot = p.preferred_foot;
  agent = p.agent;
  squad_number = p.squad_number;
  contract_start = p.contract_start;
  contract_until = p.contract_until;
  team_id = none;
  market_value_minor = none;
}

module _ {F : Type 0} ⦃n : Number F⦄ where
  errors_of-fill :
      (p : Player F) (f : PlayerForm F)
      → IsTidy f.today p
      → is_edit f ≡ true
      → errors_of (fill p f) ≡ []
  unfolding errors_of fill value_of
  errors_of-fill p f h edit =
      rw
        (
          h.name.trimmed, h.name.full, h.position.trimmed, h.position.full, h.height, h.squad,
          h.birth, h.contract, edit,
        )
        refl

  body_of-fill :
      (p : Player F) (f : PlayerForm F)
      → IsTidy f.today p
      → is_edit f ≡ true
      → body_of (fill p f) ≡ update_of p
  unfolding body_of fill
  body_of-fill p f h edit =
      rw
        (
          h.name.trimmed,
          h.position.trimmed,
          blank_to_undefined-or_else p.first_name h.first_name,
          blank_to_undefined-or_else p.last_name h.last_name,
          blank_to_undefined-or_else p.preferred_foot h.preferred_foot,
          blank_to_undefined-or_else p.agent h.agent,
          api_date_again p.date_of_birth h.date_of_birth,
          api_date_again p.contract_start h.contract_start,
          api_date_again p.contract_until h.contract_until,
          items-join b',' 32 p.nationalities refl refl h.nationalities,
          items-join b',' 32 p.secondary_positions refl refl h.secondary_positions,
          items-join_lines 10 p.strengths h.strengths,
          items-join_lines 10 p.weaknesses h.weaknesses,
          edit,
        )
        refl

  -- A player whose name, position and optional texts are trimmed and not empty, whose dates are ten
  -- characters, with no space around them, and midnight, whose list items are trimmed, not empty
  -- and without the separator of their field (a comma for nationalities and positions, a line break
  -- for strengths and weaknesses), and whose height, squad number, birth and contract pass the
  -- form's checks, opened in the form for editing and saved untouched, is sent as it was, with no
  -- club and no value.
  pub build-fill :
      (p : Player F) (f : PlayerForm F)
      → IsTidy f.today p
      → is_edit f ≡ true
      → (build (fill p f)).1 ≡ some (update_of p)
  unfolding build
  build-fill p f h edit = rw (errors_of-fill p f h edit) (ap some (body_of-fill p f h edit))
