-- ===== src/Billing/Invoicing/Idle.antt =====
-- `_idle_lines` of modules/billing/invoicing.py: the fee for occupying a connector, one line for each
-- local date.
use ttcs_t926_k8s4_n1_csms.Base.{
  ℕ, zero, suc, ◌+◌, ◌-◌, ◌*◌, ◌/◌, false, ◌||◌, Option, none, some, List, [], ◌∷◌, ltb, ◌==◌,
  if◌then◌else◌,
}
use ttcs_t926_k8s4_n1_csms.Base.Int.{pos}
use ttcs_t926_k8s4_n1_csms.Base.Text.{Text}
use ttcs_t926_k8s4_n1_csms.Base.Result.{Result, ok, err, ◌>>=◌, ◌>>◌, raise_if}
use ttcs_t926_k8s4_n1_csms.Billing.IdleFee.{
  aware, int, IdleFee, fee, raised, minute_us, tinh_phi_chiem_tru,
}
use ttcs_t926_k8s4_n1_csms.Billing.Segmentation.{Zone}
use ttcs_t926_k8s4_n1_csms.Billing.Tables.{TariffVersion, InvoiceLine, idle}
use ttcs_t926_k8s4_n1_csms.Billing.Invoicing.Tariffs.{look_up}

-- `_InvalidInvoice` of the interval, a missing key, the exceptions of `tinh_phi_chiem_tru`, and a
-- loop that does not end.
pub data IdleLinesError : Type 0 where
  invalid_idle_interval no_tariff fee_error no_end : IdleLinesError

abbrev pub Lines : Type 0 → Type 0
Lines A = Result IdleLinesError A

abbrev pub fee_of : IdleFee → Lines (ℕ × ℕ)
fee_of (fee minutes amount) = ok (minutes, amount)
fee_of (raised e) = err fee_error

abbrev pub or_missing : Option TariffVersion → Lines TariffVersion
or_missing none = err no_tariff
or_missing (some v) = ok v

-- `versions[day]`
abbrev pub version_on : ℕ → List (ℕ × TariffVersion) → Lines TariffVersion
version_on day versions = or_missing (look_up day versions)

abbrev pub minimum : ℕ → ℕ → ℕ
minimum a b = if ltb b a then b else a

-- "Phí chiếm trụ"
abbrev pub idle_label : Text
idle_label = 80 ∷ 104 ∷ 237 ∷ 32 ∷ 99 ∷ 104 ∷ 105 ∷ 0x1ebf ∷ 109 ∷ 32 ∷ 116 ∷ 114 ∷ 0x1ee5 ∷ []

-- The minutes that begin before the next midnight, which is after `anchor`.
abbrev pub span_of : Zone → ℕ → ℕ → ℕ
span_of tz anchor count =
    let midnight = tz.combine (suc (tz.date_of anchor)) 0 in
    minimum count ((midnight - anchor + 59_999_999) / minute_us)

abbrev pub line_of : ℕ → ℕ → ℕ → ℕ → TariffVersion → ℕ → InvoiceLine
line_of invoice day anchor line_end v amount = record {
  invoice_id = invoice;
  line_type = idle;
  local_date = day;
  started_at = anchor;
  ended_at = line_end;
  energy_wh = pos 0;
  rate_vnd = pos v.idle_rate_vnd_per_minute;
  band_label = idle_label;
  interpolated = false;
  tariff_id = v.tariff.id;
  amount_vnd = pos amount;
}

module _ (tz : Zone) (end : ℕ) (versions : List (ℕ × TariffVersion)) (invoice_id : ℕ) where
  unfoldable pub idle_line : ℕ → ℕ → Lines InvoiceLine
  idle_line anchor span = do
    let day = tz.date_of anchor
    v ← version_on day versions
    let line_end = minimum end (anchor + span * minute_us)
    let rate = pos v.idle_rate_vnd_per_minute
    (minutes, amount) ←
        fee_of (tinh_phi_chiem_tru (some (aware anchor)) (aware line_end) (int (pos 0)) (int rate))
    ok (line_of invoice_id day anchor line_end v amount)

  -- `while count`, with one unit of fuel for each minute.
  unfoldable pub idle_loop : ℕ → ℕ → ℕ → Lines (List InvoiceLine)
  unfolding idle_line
  idle_loop fuel anchor zero = ok []
  idle_loop zero anchor (suc count) = err no_end
  idle_loop (suc fuel) anchor (suc count) = do
    let span = span_of tz anchor (suc count)
    let rest = idle_loop fuel (anchor + span * minute_us) (suc count - span)
    line ← idle_line anchor span
    lines ← rest
    ok (line ∷ lines)

  -- From `initial = versions[…]`.
  unfoldable pub idle_lines_from : ℕ → Lines (List InvoiceLine)
  unfolding idle_loop
  idle_lines_from start = do
    initial ← version_on (tz.date_of start) versions
    (count, once) ← fee_of (
        tinh_phi_chiem_tru (some (aware start)) (aware end) (int (pos initial.grace_minutes))
          (int (pos 1)))
    idle_loop count (start + initial.grace_minutes * minute_us) count

  -- `_idle_lines`; `start` is `idle_start` or the session's `idle_since`.
  unfoldable pub idle_lines : ℕ → Option ℕ → Lines (List InvoiceLine)
  unfolding idle_lines_from
  idle_lines started_at none = ok []
  idle_lines started_at (some start) = do
    raise_if (ltb start started_at || ltb end start) invalid_idle_interval
    if start == end then ok [] else idle_lines_from start
