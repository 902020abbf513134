-- ===== src/Forms/Money.antt =====
-- Money in and out of an input: shared/util/money-input.ts. A text is the list of its code units,
-- and an amount of money a number of cents.
pub mod RoundTrip
use scoutpulse.Base.{
  ℕ, zero, suc, ◌+◌, ◌-◌, ◌*◌, ◌/◌, ◌%◌, ◌^◌, ◌≤◌, ◌<◌, ◌≡◌, refl, Bool, true, false, not, ◌&&◌,
  ◌||◌, Option, none, some, List, [], ◌∷◌, ◌++◌, arith, ltb, leb, ◌==◌, if◌then◌else◌, length,
  filter, ℤ, pos, negsuc, Text, is_space, is_empty, trim, String,
}

-- `parseMoney` returns null or an amount, or throws a MoneyParseError
pub data Money : Type 0 where
  undisclosed : Money
  amount : ℕ → Money
  bad : String → Money

abbrev pub is_digit : ℕ → Bool
is_digit c = leb b'0' c && leb c b'9'

abbrev pub digit_of : ℕ → ℕ
digit_of c = c - b'0'

-- the digits at the start of a text, and the rest
unfoldable pub span_digits : Text → Text × Text
span_digits [] = ([], [])
span_digits (c ∷ s) =
    let rest = span_digits s in if is_digit c then (c ∷ rest.0, rest.1) else ([], c ∷ s)

-- the number that digits write
unfoldable pub value_from : ℕ → Text → ℕ
value_from n [] = n
value_from n (c ∷ s) = value_from (n * 10 + digit_of c) s

-- what follows the whole part: nothing, or a point and at least one digit
abbrev pub fraction_of : Text → Option Text
fraction_of [] = some []
fraction_of (c ∷ s) =
    let read = span_digits s in
    if c == b'.' && not (is_empty read.0) && is_empty read.1 then some read.0 else none

abbrev pub with_fraction : Bool → Text → Option Text → Option (Bool × Text × Text)
with_fraction sign whole none = none
with_fraction sign whole (some fraction) = some (sign, whole, fraction)

-- `/^(-?)(\d+)(?:\.(\d+))?$/`: the sign, the whole part and the fraction
abbrev pub matched : Bool → Text → Option (Bool × Text × Text)
matched sign s =
    let read = span_digits s in
    if is_empty read.0 then none else with_fraction sign read.0 (fraction_of read.1)

abbrev pub match_amount : Text → Option (Bool × Text × Text)
match_amount [] = none
match_amount (c ∷ s) = if c == b'-' then matched true s else matched false (c ∷ s)

-- `fraction.padEnd(2, '0')`
abbrev pub pad_end : Text → Text
pad_end [] = b'0' ∷ b'0' ∷ []
pad_end (c ∷ []) = c ∷ b'0' ∷ []
pad_end (c ∷ d ∷ s) = c ∷ d ∷ s

-- 2 ^ 53
abbrev pub safe_limit : ℕ
safe_limit = 9007199254740992

abbrev pub checked : ℕ → Money
checked n = if ltb n safe_limit then amount n else bad "That amount is too large."

abbrev pub read_match : Option (Bool × Text × Text) → Money
read_match none = bad "Enter an amount, like 2500000 or 2500000.50"
read_match (some (true, whole, fraction)) = bad "An amount cannot be negative."
read_match (some (false, whole, fraction)) =
    if ltb 2 (length fraction)
    then bad "At most two decimal places."
    else checked (value_from 0 (whole ++ pad_end fraction))

-- `text.trim().replace(/[\s,]/g, '')`
unfoldable pub without_gaps : Text → Text
unfolding filter trim
without_gaps s = filter (λ c. not (is_space c || c == b',')) (trim s)

unfoldable pub parse_money : Text → Money
unfolding without_gaps span_digits value_from
parse_money text =
    let raw = without_gaps text in
    if is_empty raw then undisclosed else read_match (match_amount raw)

-- the decimal digits of a number, one of them at least; the fuel is at least the number
unfoldable pub digits_with : ℕ → ℕ → Text
digits_with zero n = (b'0' + n % 10) ∷ []
digits_with (suc fuel) n =
    let rest = digits_with fuel (n / 10) in
    if ltb n 10 then (b'0' + n) ∷ [] else rest ++ (b'0' + n % 10) ∷ []

unfoldable pub digits : ℕ → Text
unfolding digits_with
digits n = digits_with n n

-- `digits.padStart(3, '0')`
abbrev pub pad_start : Text → Text
pad_start [] = b'0' ∷ b'0' ∷ b'0' ∷ []
pad_start (c ∷ []) = b'0' ∷ b'0' ∷ c ∷ []
pad_start (c ∷ d ∷ []) = b'0' ∷ c ∷ d ∷ []
pad_start (c ∷ d ∷ e ∷ s) = c ∷ d ∷ e ∷ s

-- `${digits.slice(0, -2)}.${digits.slice(-2)}`, of at least two digits
unfoldable pub pointed : Text → Text
pointed [] = b'.' ∷ []
pointed (c ∷ []) = b'.' ∷ c ∷ []
pointed (c ∷ d ∷ []) = b'.' ∷ c ∷ d ∷ []
pointed (c ∷ d ∷ e ∷ s) = c ∷ pointed (d ∷ e ∷ s)

unfoldable pub format_money_input : Option ℤ → Text
unfolding pointed digits
format_money_input none = []
format_money_input (some (pos n)) = pointed (pad_start (digits n))
format_money_input (some (negsuc n)) = b'-' ∷ pointed (pad_start (digits (n + 1)))
