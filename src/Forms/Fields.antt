-- ===== src/Forms/Fields.antt =====
-- What the forms share: the tests of a field, and the errors that a form collects before it sends.
use scoutpulse.Base.{
  ℕ, ◌≡◌, refl, String, Bool, true, false, not, ◌&&◌, Option, none, some, [], ◌∷◌, ◌++◌,
  if◌then◌else◌, Dict, Text, is_empty,
}
use scoutpulse.Forms.Money.{Money, undisclosed, amount, bad}

-- a `string | undefined` that the code tests: neither undefined nor ''
abbrev pub is_filled : Option Text → Bool
is_filled none = false
is_filled (some s) = not (is_empty s)

abbrev pub error_if : Bool → String → String → Dict String
error_if wrong field message = if wrong then (field, message) ∷ [] else []

abbrev pub money_error : String → Money → Dict String
money_error field undisclosed = []
money_error field (amount n) = []
money_error field (bad message) = (field, message) ∷ []

abbrev pub money_value : Money → Option ℕ
money_value undisclosed = none
money_value (amount n) = some n
money_value (bad message) = none

-- a body is sent when there is no error
abbrev pub when_none {ℓ} : {A : Type ℓ} → Dict String → A → Option A
when_none [] body = some body
when_none (e ∷ errors) body = none

abbrev pub is_read : Money → Bool
is_read (bad message) = false
is_read undisclosed = true
is_read (amount n) = true

module _ {ℓ} {A : Type ℓ} where
  pub when_none-error_if :
      (wrong : Bool) (field message : String) (errors : Dict String) (body : A)
      → when_none (error_if wrong field message ++ errors) body
        ≡ (if not wrong then when_none errors body else none)
  when_none-error_if true field message errors body = refl
  when_none-error_if false field message errors body = refl

  pub when_none-money_error :
      (field : String) (read : Money) (body : A)
      → when_none (money_error field read) body ≡ (if is_read read then some body else none)
  when_none-money_error field undisclosed body = refl
  when_none-money_error field (amount n) body = refl
  when_none-money_error field (bad message) body = refl

  pub if-&& :
      (a b : Bool) (o : Option A)
      → (if a then (if b then o else none) else none) ≡ (if a && b then o else none)
  if-&& true b o = refl
  if-&& false b o = refl
