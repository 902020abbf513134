-- ===== src/Forms/Transfer/Corrected.antt =====
-- What the correction of a transfer sends when its form is saved untouched.
use scoutpulse.Base.{ℕ, ◌<◌, ◌≡◌, refl, true, false, Option, none, some, pos}
use scoutpulse.Forms.Money.{amount, format_money_input, safe_limit}
use scoutpulse.Forms.Money.RoundTrip.{parse_money-format_money_input, trim-format_money_input}
use scoutpulse.Forms.Transfer.{
  TransferType, Transfer, TransferEdit, Correction, is_free, fee_of, loaded, save_correction,
}

-- a correction that changes nothing but the fee
abbrev pub with_fee : Option ℕ → Transfer → Correction
with_fee fee t = record {
  id = t.id;
  transfer_type = t.transfer_type;
  fee_minor = fee;
  currency = t.currency;
  season_id = t.season_id;
}

fee_of-format_money_input :
    (type : TransferType) (n : ℕ)
    → is_free type ≡ false
    → n < safe_limit
    → fee_of type (format_money_input (some (pos n))) ≡ amount n
unfolding fee_of
fee_of-format_money_input type n paid small =
    rw (paid, trim-format_money_input n) (parse_money-format_money_input n small)

-- A transfer that is not free, whose fee is below 2 ^ 53 cents, loaded into an idle form for its
-- correction and saved untouched: the correction that is sent has the transfer's own type, fee,
-- currency and season.
pub save_correction-loaded :
    (t : Transfer) (e : TransferEdit) (n : ℕ)
    → t.fee_minor ≡ some (pos n)
    → n < safe_limit
    → is_free t.transfer_type ≡ false
    → e.busy ≡ false
    → (save_correction (loaded t e)).1 ≡ some (with_fee (some n) t)
unfolding save_correction loaded
save_correction-loaded t e n fee small paid idle =
    rw (idle, fee, fee_of-format_money_input t.transfer_type n paid small) refl

-- A free transfer that is loaded into an idle form for its correction and saved untouched is sent
-- with no fee, whatever fee was recorded.
pub save_correction-free :
    (t : Transfer) (e : TransferEdit)
    → is_free t.transfer_type ≡ true
    → e.busy ≡ false
    → (save_correction (loaded t e)).1 ≡ some (with_fee none t)
unfolding save_correction loaded fee_of
save_correction-free t e free idle = rw (idle, free) refl
