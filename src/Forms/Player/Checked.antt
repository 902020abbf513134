-- ===== src/Forms/Player/Checked.antt =====
-- When the form for a player sends something: the checks of `build`, and what it says otherwise.
use mathlib.Core.Bool.{and_assoc}
use scoutpulse.Base.{
  ◌≡◌, refl, Bool, not, ◌&&◌, ◌||◌, none, some, if◌then◌else◌, Number, trim, is_empty, Bool-cases,
  inl, inr,
}
use scoutpulse.Forms.Money.{parse_money}
use scoutpulse.Forms.Fields.{is_read, when_none-error_if, when_none-money_error, if-&&}
use scoutpulse.Forms.Player.{
  PlayerForm, is_edit, value_of, outside, in_future, ends_early, errors_of, body_of, build,
}

-- a market value that is asked for can be read
abbrev pub has_value : {F : Type 0} → PlayerForm F → Bool
has_value f = is_edit f || is_empty (trim f.market_value) || is_read (parse_money f.market_value)

abbrev pub is_complete : {F : Type 0} → ⦃n : Number F⦄ → PlayerForm F → Bool
is_complete f =
    not (is_empty (trim f.name))
    && not (is_empty (trim f.position))
    && not (outside 100 250 f.height_cm)
    && not (outside 1 99 f.squad_number)
    && not (in_future f.today f.date_of_birth)
    && not (ends_early f.contract_start f.contract_until)
    && has_value f

module _ {F : Type 0} where
  is_read-value_of : (f : PlayerForm F) → is_read (value_of f) ≡ has_value f
  unfolding value_of
  is_read-value_of f = elim (Bool-cases (is_edit f)) [
    | inl edit ↦ rw edit refl
    | inr new ↦ elim (Bool-cases (is_empty (trim f.market_value))) [
      | inl blank ↦ rw (new, blank) refl
      | inr typed ↦ rw (new, typed) refl
    ]
  ]

module _ {F : Type 0} ⦃n : Number F⦄ where
  -- The form sends what is typed into it exactly when the name and the position are not blank, the height
  -- and the squad number are within their bounds, the birth is not in the future, the contract does not
  -- end before it starts, and a market value that is asked for can be read; otherwise it sends nothing.
  pub build-is_complete :
      (f : PlayerForm F) → (build f).1 ≡ (if is_complete f then some (body_of f) else none)
  unfolding build errors_of
  build-is_complete f =
      simp (when_none-error_if, when_none-money_error, is_read-value_of f, if-&&, and_assoc) refl
