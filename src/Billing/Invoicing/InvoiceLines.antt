-- ===== src/Billing/Invoicing/InvoiceLines.antt =====
-- The lines of an invoice in modules/billing/invoicing.py, their sum, and the insert with the
-- constraints of the tables.
use ttcs_t926_k8s4_n1_csms.Base.{
  ℕ, ◌-◌, ◌^◌, Bool, true, false, not, ◌&&◌, ◌||◌, Option, none, some, List, [], ◌∷◌, ◌++◌, leb,
  ◌==◌,
}
use ttcs_t926_k8s4_n1_csms.Base.Int.{ℤ, pos, ◌+ℤ◌, ◌-ℤ◌, ltb_ℤ, eqb_ℤ}
use ttcs_t926_k8s4_n1_csms.Base.Text.{Text}
use ttcs_t926_k8s4_n1_csms.Billing.Segmentation.{Segment}
use ttcs_t926_k8s4_n1_csms.Billing.Segmentation.Interpolation.{MeterValue, last_of}
use ttcs_t926_k8s4_n1_csms.Billing.Tables.{Invoice, LineType, energy, idle, InvoiceLine}
use ttcs_t926_k8s4_n1_csms.Wallet.Uuid.{hex_value}
use ttcs_t926_k8s4_n1_csms.Wallet.Debit.{find_invoice}
use ttcs_t926_k8s4_n1_csms.Wallet.Tx.{
  integrity_error, Tx, pure, gets, modify, raise_if, ◌>>=◌, ◌>>◌,
}

abbrev pub max_vnd : ℤ
max_vnd = pos (2 ^ 63 - 1)

abbrev pub energy_line : ℕ → Segment → InvoiceLine
energy_line invoice s = record {
  invoice_id = invoice;
  line_type = energy;
  local_date = s.local_date;
  started_at = s.start_time;
  ended_at = s.end_time;
  energy_wh = s.energy_consumed_wh;
  rate_vnd = s.price_vnd_per_kwh;
  band_label = s.frame_label;
  interpolated = s.start_interpolated || s.end_interpolated;
  tariff_id = hex_value 0 s.tariff_version;
  amount_vnd = s.amount_vnd;
}

-- `sum(line.amount_vnd for line in lines)`
abbrev pub lines_total : List InvoiceLine → ℤ
lines_total [] = pos 0
lines_total (l ∷ lines) = l.amount_vnd +ℤ lines_total lines

abbrev pub any_overflow : List InvoiceLine → Bool
any_overflow [] = false
any_overflow (l ∷ lines) = ltb_ℤ max_vnd l.amount_vnd || any_overflow lines

abbrev pub breaks_idle_energy : LineType → ℤ → Bool
breaks_idle_energy energy wh = false
breaks_idle_energy idle wh = not (eqb_ℤ wh (pos 0))

-- `btrim(band_label) = ''`
abbrev pub all_spaces : Text → Bool
all_spaces [] = true
all_spaces (c ∷ label) = c == 32 && all_spaces label

-- The constraints of `invoice_lines` that a line breaks.
abbrev pub any_broken : List InvoiceLine → Bool
any_broken [] = false
any_broken (l ∷ lines) =
    leb l.ended_at l.started_at
    || ltb_ℤ l.energy_wh (pos 0)
    || ltb_ℤ l.rate_vnd (pos 0)
    || ltb_ℤ l.amount_vnd (pos 0)
    || breaks_idle_energy l.line_type l.energy_wh
    || all_spaces l.band_label
    || any_broken lines

-- `readings[-1].energy_wh - readings[0].energy_wh`
abbrev pub used_energy : List MeterValue → ℤ
used_energy [] = pos 0
used_energy (first ∷ rest) = (last_of first rest).energy_wh -ℤ first.energy_wh

abbrev pub is_some {ℓ} : {A : Type ℓ} → Option A → Bool
is_some none = false
is_some (some a) = true

-- `db.add(invoice)`, `db.add_all(lines)` and the flushes, with the constraints of the tables.
unfoldable pub insert_invoice : Invoice → List InvoiceLine → Tx Invoice
insert_invoice v lines = do
  existing ← gets (λ db. find_invoice v.session_id db.invoices)
  raise_if (is_some existing || ltb_ℤ v.total_vnd (pos 0)) integrity_error
  raise_if (any_broken lines) integrity_error
  modify (λ db. record db { invoices = v ∷ db.invoices; invoice_lines = lines ++ db.invoice_lines })
  pure v
