-- ===== src/Forms/Money/RoundTrip.antt =====
-- An amount that is written into an input is read back from it.
use scoutpulse.Base.{
  ℕ, zero, suc, ◌+◌, ◌*◌, ◌/◌, ◌%◌, ◌≤◌, ◌<◌, ◌≡◌, refl, sym, ap, ◌∙◌, Bool, true, false, not, ◌||◌,
  some, [], ◌∷◌, ◌++◌, arith, ltb, ◌==◌, filter, All, pos, Text, is_space, is_empty, trim,
  trim_start, trim_end, Bool-cases, inl, inr,
}
use scoutpulse.Forms.Money.{
  amount, is_digit, digit_of, span_digits, value_from, match_amount, without_gaps, parse_money,
  digits_with, digits, pad_start, pointed, format_money_input, safe_limit,
}

abbrev IsDigits : Text → Type 0
IsDigits = All (λ c. is_digit c ≡ true)

digits-append : (s t : Text) → IsDigits s → IsDigits t → IsDigits (s ++ t)
digits-append [] t h k = k
digits-append (c ∷ s) t (h, hs) k = (h, digits-append s t hs k)

digit-IsDigit : (n : ℕ) → n < 10 → is_digit (b'0' + n) ≡ true
digit-IsDigit n h = ground arith

digits_with-IsDigits : (fuel n : ℕ) → IsDigits (digits_with fuel n)
unfolding digits_with
digits_with-IsDigits zero n = (digit-IsDigit (n % 10) (omega arith), tt)
digits_with-IsDigits (suc fuel) n = elim (Bool-cases (ltb n 10)) [
  | inl small ↦ rw small (digit-IsDigit n (ground arith), tt)
  | inr large ↦ rw large (
      digits-append (digits_with fuel (n / 10)) _ (digits_with-IsDigits fuel (n / 10))
        (digit-IsDigit (n % 10) (omega arith), tt))
]

value_from-append :
    (n : ℕ) (s : Text) (c : ℕ) → value_from n (s ++ c ∷ []) ≡ value_from n s * 10 + digit_of c
unfolding value_from
value_from-append n [] c = refl
value_from-append n (d ∷ s) c = value_from-append (n * 10 + digit_of d) s c

value_from-digits_with : (fuel n : ℕ) → n ≤ fuel → value_from 0 (digits_with fuel n) ≡ n
unfolding digits_with value_from
value_from-digits_with zero n h = omega arith
value_from-digits_with (suc fuel) n h = elim (Bool-cases (ltb n 10)) [
  | inl small ↦ rw small (omega arith)
  | inr large ↦
      rw
        (
          large,
          value_from-append 0 (digits_with fuel (n / 10)) (b'0' + n % 10),
          value_from-digits_with fuel (n / 10) (ground arith),
        )
        (omega arith)
]

-- A text of digits with a whole part of one digit at least and two more digits.
record IsPointed (n : ℕ) (s : Text) : Type 0 where
  whole : Text
  tens : ℕ
  ones : ℕ
  split : s ≡ whole ++ tens ∷ ones ∷ []
  full : is_empty whole ≡ false
  digits : IsDigits whole
  tens_digit : is_digit tens ≡ true
  ones_digit : is_digit ones ≡ true
  value : value_from 0 (whole ++ tens ∷ ones ∷ []) ≡ n

-- the last two of three digits or more
last_two :
    (c d e : ℕ) (s : Text)
    → IsDigits (c ∷ d ∷ e ∷ s)
    → (whole : Text) × (tens : ℕ) × (ones : ℕ) × (c ∷ d ∷ e ∷ s ≡ whole ++ tens ∷ ones ∷ [])
      × (is_empty whole ≡ false)
      × IsDigits whole
      × (is_digit tens ≡ true)
      × (is_digit ones ≡ true)
last_two c d e [] (h, (k, (l, _))) = (c ∷ [], d, e, refl, refl, (h, tt), k, l)
last_two c d e (f ∷ s) (h, hs) =
    let (whole, tens, ones, split, full, all_digits, t, o) = last_two d e f s hs in
    (c ∷ whole, tens, ones, ap (c ∷◌) split, refl, (h, all_digits), t, o)

point_three :
    (n c d e : ℕ) (s : Text)
    → IsDigits (c ∷ d ∷ e ∷ s)
    → value_from 0 (c ∷ d ∷ e ∷ s) ≡ n
    → IsPointed n (c ∷ d ∷ e ∷ s)
point_three n c d e s h v =
    let (w, t, o, split, full, all_digits, td, od) = last_two c d e s h in
    record {
      whole = w;
      tens = t;
      ones = o;
      split = split;
      full = full;
      digits = all_digits;
      tens_digit = td;
      ones_digit = od;
      value = ap (value_from 0) (sym split) ∙ v;
    }

pad_start-IsPointed :
    (n : ℕ) (s : Text) → IsDigits s → value_from 0 s ≡ n → IsPointed n (pad_start s)
unfolding value_from
pad_start-IsPointed n [] h v =
    point_three n b'0' b'0' b'0' [] (refl, (refl, (refl, tt))) (unfold value_from in v)
pad_start-IsPointed n (c ∷ []) (h, _) v = point_three n b'0' b'0' c [] (refl, (refl, (h, tt))) v
pad_start-IsPointed n (c ∷ d ∷ []) (h, (k, _)) v = point_three n b'0' c d [] (refl, (h, (k, tt))) v
pad_start-IsPointed n (c ∷ d ∷ e ∷ s) h v = point_three n c d e s h v

pointed-append : (w : Text) (t o : ℕ) → pointed (w ++ t ∷ o ∷ []) ≡ w ++ b'.' ∷ t ∷ o ∷ []
unfolding pointed
pointed-append [] t o = refl
pointed-append (a ∷ []) t o = refl
pointed-append (a ∷ b ∷ []) t o = refl
pointed-append (a ∷ b ∷ c ∷ w) t o = ap (a ∷◌) (pointed-append (b ∷ c ∷ w) t o)

-- the characters of an amount
abbrev is_plain : ℕ → Bool
is_plain c = not (is_space c || c == b',')

abbrev IsPlain : Text → Type 0
IsPlain = All (λ c. is_plain c ≡ true)

digit-is_plain : (c : ℕ) → is_digit c ≡ true → is_plain c ≡ true
digit-is_plain c h = ground arith

plain-is_space : (c : ℕ) → is_plain c ≡ true → is_space c ≡ false
plain-is_space c h = elim (Bool-cases (is_space c)) [ inl space ↦ cc | inr other ↦ other ]

trim_start-IsPlain : (s : Text) → IsPlain s → trim_start s ≡ s
unfolding trim_start
trim_start-IsPlain [] h = refl
trim_start-IsPlain (c ∷ s) (h, hs) = rw (plain-is_space c h) refl

trim_end-IsPlain : (s : Text) → IsPlain s → trim_end s ≡ s
unfolding trim_end
trim_end-IsPlain [] h = refl
trim_end-IsPlain (c ∷ s) (h, hs) = rw (plain-is_space c h, trim_end-IsPlain s hs) refl

filter-IsPlain : (s : Text) → IsPlain s → filter is_plain s ≡ s
unfolding filter
filter-IsPlain [] h = refl
filter-IsPlain (c ∷ s) (h, hs) = rw (h, filter-IsPlain s hs) refl

trim-IsPlain : (s : Text) → IsPlain s → trim s ≡ s
unfolding trim
trim-IsPlain s h = rw (trim_start-IsPlain s h) (trim_end-IsPlain s h)

without_gaps-IsPlain : (s : Text) → IsPlain s → without_gaps s ≡ s
unfolding without_gaps
without_gaps-IsPlain s h = rw (trim-IsPlain s h) (filter-IsPlain s h)

point-IsPlain :
    (w : Text) (t o : ℕ)
    → IsDigits w
    → is_digit t ≡ true
    → is_digit o ≡ true
    → IsPlain (w ++ b'.' ∷ t ∷ o ∷ [])
point-IsPlain [] t o h ht ho = (refl, (digit-is_plain t ht, (digit-is_plain o ho, tt)))
point-IsPlain (c ∷ w) t o (h, hs) ht ho = (digit-is_plain c h, point-IsPlain w t o hs ht ho)

span_digits-IsDigits : (s : Text) → IsDigits s → span_digits s ≡ (s, [])
unfolding span_digits
span_digits-IsDigits [] h = refl
span_digits-IsDigits (c ∷ s) (h, hs) = rw (h, span_digits-IsDigits s hs) refl

span_digits-point : (w s : Text) → IsDigits w → span_digits (w ++ b'.' ∷ s) ≡ (w, b'.' ∷ s)
unfolding span_digits
span_digits-point [] s h = refl
span_digits-point (c ∷ w) s (h, hs) = rw (h, span_digits-point w s hs) refl

digit-sign : (c : ℕ) → is_digit c ≡ true → (c == b'-') ≡ false
digit-sign c h = ground arith

match_amount-point :
    (w : Text) (t o : ℕ)
    → is_empty w ≡ false
    → IsDigits w
    → is_digit t ≡ true
    → is_digit o ≡ true
    → match_amount (w ++ b'.' ∷ t ∷ o ∷ []) ≡ some (false, w, t ∷ o ∷ [])
match_amount-point [] t o full h ht ho = cc
match_amount-point (c ∷ w) t o full (h, hs) ht ho =
    let spanned = span_digits-point (c ∷ w) (t ∷ o ∷ []) (h, hs) in
    rw (digit-sign c h, spanned, span_digits-IsDigits (t ∷ o ∷ []) (ht, (ho, tt))) refl

full-append : (w s : Text) → is_empty w ≡ false → is_empty (w ++ s) ≡ false
full-append [] s h = cc
full-append (c ∷ w) s h = refl

pointed-IsPointed :
    (n : ℕ) (s : Text) (p : IsPointed n s) → pointed s ≡ p.whole ++ b'.' ∷ p.tens ∷ p.ones ∷ []
pointed-IsPointed n s p = ap pointed p.split ∙ pointed-append p.whole p.tens p.ones

written : (n : ℕ) → IsPointed n (pad_start (digits_with n n))
written n =
    pad_start-IsPointed n (digits_with n n) (digits_with-IsDigits n n)
      (value_from-digits_with n n (omega arith))

trim-pointed : (n : ℕ) (s : Text) (p : IsPointed n s) → is_empty (trim (pointed s)) ≡ false
trim-pointed n s p =
    rw
      (
        pointed-IsPointed n s p,
        trim-IsPlain _ (point-IsPlain p.whole p.tens p.ones p.digits p.tens_digit p.ones_digit),
      )
      (full-append p.whole _ p.full)

-- What is written for an amount is not blank.
pub trim-format_money_input : (n : ℕ) → is_empty (trim (format_money_input (some (pos n)))) ≡ false
unfolding format_money_input digits
trim-format_money_input n = trim-pointed n (pad_start (digits_with n n)) (written n)

parse_money-point :
    (n : ℕ) (s : Text) → IsPointed n s → n < safe_limit → parse_money (pointed s) ≡ amount n
unfolding parse_money
parse_money-point n s p small =
    let below : ltb n safe_limit ≡ true = ground arith in
    let plain = point-IsPlain p.whole p.tens p.ones p.digits p.tens_digit p.ones_digit in
    rw
      (
        pointed-IsPointed n s p,
        without_gaps-IsPlain _ plain,
        full-append p.whole (b'.' ∷ p.tens ∷ p.ones ∷ []) p.full,
        match_amount-point p.whole p.tens p.ones p.full p.digits p.tens_digit p.ones_digit,
        p.value,
        below,
      )
      refl

-- An amount below 2 ^ 53 cents that is written into an input is read back from it as it was.
pub parse_money-format_money_input :
    (n : ℕ) → n < safe_limit → parse_money (format_money_input (some (pos n))) ≡ amount n
unfolding format_money_input digits
parse_money-format_money_input n small =
    parse_money-point n (pad_start (digits_with n n)) (written n) small
