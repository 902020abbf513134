-- ===== src/Forms/Transfer/Recorded.antt =====
-- When a new transfer is sent: the checks of `build`.
use scoutpulse.Base.{Bool, not, ◌&&◌, ◌||◌, Option, Text, trim, is_empty}
use scoutpulse.Forms.Money.{parse_money}
use scoutpulse.Forms.Dates.{text_lt}
use scoutpulse.Forms.Fields.{is_filled, is_read}
use scoutpulse.Forms.Transfer.{TransferForm, is_free, same_team}

-- a fee that is asked for can be read
abbrev pub has_fee : TransferForm → Bool
has_fee f = is_free f.type || is_empty (trim f.fee) || is_read (parse_money f.fee)

abbrev pub is_accepted : Option Text → TransferForm → Bool
is_accepted current f =
    not (is_empty f.date)
    && not (text_lt f.latest_date f.date)
    && (is_filled current || is_filled f.to_team_id)
    && not (is_filled current && same_team f.to_team_id current)
    && has_fee f
