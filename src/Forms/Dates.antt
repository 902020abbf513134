-- ===== src/Forms/Dates.antt =====
-- Dates in an input and dates in the API: shared/util/dates.ts. Both are texts.
use scoutpulse.Base.{
  ℕ, ◌+◌, ◌≡◌, refl, ap, sym, ◌∙◌, Option, none, some, [], ◌∷◌, ◌++◌, if◌then◌else◌, length, take,
  ltb, ◌==◌, ◌&&◌, true, false, Bool, Text, trim, is_empty, arith,
}
use scoutpulse.Forms.Money.{digits}

-- `T00:00:00Z`
abbrev pub midnight : Text
midnight = b'T' ∷ b'0' ∷ b'0' ∷ b':' ∷ b'0' ∷ b'0' ∷ b':' ∷ b'0' ∷ b'0' ∷ b'Z' ∷ []

unfoldable pub to_api_date : Text → Option Text
to_api_date input =
    let value = trim input in if is_empty value then none else some (value ++ midnight)

unfoldable pub to_date_input : Option Text → Text
to_date_input none = []
to_date_input (some iso) = take 10 iso

-- `padStart(2, '0')` of at least one digit
abbrev pub pad_two : Text → Text
pad_two [] = b'0' ∷ b'0' ∷ []
pad_two (c ∷ []) = b'0' ∷ c ∷ []
pad_two (c ∷ d ∷ s) = c ∷ d ∷ s

-- a day of the calendar as `Date` gives it: months count from 0
pub record LocalDate : Type 0 where
  pub year : ℕ
  pub month : ℕ
  pub day : ℕ

unfoldable pub today_input : LocalDate → Text
unfolding digits
today_input now =
    digits now.year ++ b'-' ∷ (pad_two (digits (now.month + 1)) ++ b'-' ∷ pad_two (digits now.day))

-- `s < t`, by code units
unfoldable pub text_lt : Text → Text → Bool
text_lt [] [] = false
text_lt [] (d ∷ t) = true
text_lt (c ∷ s) [] = false
text_lt (c ∷ s) (d ∷ t) = let rest = text_lt s t in if ltb c d then true else (c == d) && rest

-- `s === t`
unfoldable pub text_eq : Text → Text → Bool
text_eq [] [] = true
text_eq [] (d ∷ t) = false
text_eq (c ∷ s) [] = false
text_eq (c ∷ s) (d ∷ t) = let rest = text_eq s t in (c == d) && rest

-- a date as the API writes it: ten characters, and midnight
pub record IsApiDate (iso : Text) : Type 0 where
  pub day : Text
  pub split : iso ≡ day ++ midnight
  pub trimmed : trim day ≡ day
  pub long : length day ≡ 10

take-append : (s t : Text) → take (length s) (s ++ t) ≡ s
take-append [] [] = refl
take-append [] (c ∷ t) = refl
take-append (c ∷ s) t = ap (c ∷◌) (take-append s t)

full-length : (s : Text) → length s ≡ 10 → is_empty s ≡ false
full-length [] h = ground arith
full-length (c ∷ s) h = refl

to_date_input-day : (iso : Text) (h : IsApiDate iso) → to_date_input (some iso) ≡ h.day
unfolding to_date_input
to_date_input-day iso h =
    ap (take 10) h.split
    ∙ ap (λ k. take k (h.day ++ midnight)) (sym h.long)
    ∙ take-append h.day midnight

-- A date of the API that is put into an input is read back from it.
pub to_api_date-to_date_input :
    (iso : Text) → IsApiDate iso → to_api_date (to_date_input (some iso)) ≡ some iso
unfolding to_api_date
to_api_date-to_date_input iso h =
    rw (to_date_input-day iso h, h.trimmed, full-length h.day h.long) (ap some (sym h.split))
