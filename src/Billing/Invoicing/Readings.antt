-- ===== src/Billing/Invoicing/Readings.antt =====
-- `_meter_values` of modules/billing/invoicing.py: the readings of a session in order of time.
use ttcs_t926_k8s4_n1_csms.Base.{
  ℕ, Bool, false, not, ◌&&◌, ◌||◌, Option, none, some, List, [], ◌∷◌, keep, ltb, leb, ◌==◌,
  if◌then◌else◌,
}
use ttcs_t926_k8s4_n1_csms.Base.Int.{ℤ, pos, ltb_ℤ, leb_ℤ, eqb_ℤ}
use ttcs_t926_k8s4_n1_csms.Base.Text.{codes, text_eq}
use ttcs_t926_k8s4_n1_csms.Billing.Segmentation.Interpolation.{MeterValue}
use ttcs_t926_k8s4_n1_csms.Billing.Tables.{
  Decimal, finite, not_finite, ChargingSession, MeterSample,
}
use ttcs_t926_k8s4_n1_csms.Wallet.Tx.{
  invalid_invoice, Tx, pure, gets, or_raise, raise_if, ◌>>=◌, ◌>>◌,
}

-- `_valid_reading`, with the number that passed.
abbrev pub valid_reading : Option Decimal → Option ℤ
valid_reading none = none
valid_reading (some not_finite) = none
valid_reading (some (finite v)) = if leb_ℤ (pos 0) v then some v else none

abbrev pub is_register_sample : ChargingSession → ℕ → MeterSample → Bool
is_register_sample c end s =
    s.session_id == c.id
    && leb c.started_at s.timestamp
    && leb s.timestamp end
    && text_eq s.measurand (codes "Energy.Active.Import.Register")
    && text_eq s.phase (codes "")
    && text_eq s.location (codes "Outlet")

-- `order_by(MeterSample.timestamp, MeterSample.id)`: the newest row of the table stands first.
abbrev pub put_sample : MeterSample → List MeterSample → List MeterSample
put_sample s [] = s ∷ []
put_sample s (t ∷ ts) = if ltb s.timestamp t.timestamp then s ∷ t ∷ ts else t ∷ put_sample s ts

abbrev pub order_samples : List MeterSample → List MeterSample
order_samples [] = []
order_samples (s ∷ ss) = put_sample s (order_samples ss)

-- `readings[stamp]`; the dict is kept in the order of `sorted(readings.items())`.
abbrev pub reading_at : ℕ → List MeterValue → Option ℤ
reading_at stamp [] = none
reading_at stamp (mv ∷ readings) =
    if mv.timestamp == stamp then some mv.energy_wh else reading_at stamp readings

abbrev pub put_reading : ℕ → ℤ → List MeterValue → List MeterValue
put_reading stamp v [] = record { timestamp = stamp; energy_wh = v } ∷ []
put_reading stamp v (mv ∷ readings) =
    if ltb stamp mv.timestamp
    then record { timestamp = stamp; energy_wh = v } ∷ mv ∷ readings
    else if mv.timestamp == stamp
    then record { timestamp = stamp; energy_wh = v } ∷ readings
    else mv ∷ put_reading stamp v readings

abbrev pub conflicts : Option ℤ → ℤ → Bool
conflicts none v = false
conflicts (some w) v = not (eqb_ℤ w v)

unfoldable pub add_sample : MeterSample → List MeterValue → Tx (List MeterValue)
add_sample s readings = do
  raise_if (not (text_eq s.unit (codes "Wh"))) (invalid_invoice (codes "invoice_invalid_meter"))
  v ← or_raise (valid_reading (some s.value)) (invalid_invoice (codes "invoice_invalid_meter"))
  raise_if (conflicts (reading_at s.timestamp readings) v)
      (invalid_invoice (codes "invoice_conflicting_meter"))
  pure (put_reading s.timestamp v readings)

unfoldable pub add_samples : List MeterSample → List MeterValue → Tx (List MeterValue)
unfolding add_sample
add_samples [] readings = pure readings
add_samples (s ∷ samples) readings = do grown ← add_sample s readings; add_samples samples grown

-- `any(right[1] < left[1] for left, right in pairwise(ordered))`
abbrev pub decreases : List MeterValue → Bool
decreases [] = false
decreases (left ∷ []) = false
decreases (left ∷ right ∷ rest) = ltb_ℤ right.energy_wh left.energy_wh || decreases (right ∷ rest)

-- `_meter_values`
unfoldable pub meter_values : ChargingSession → ℕ → Tx (List MeterValue)
unfolding add_samples
meter_values c end = do
  start_wh ←
      or_raise (valid_reading (some c.meter_start_wh))
        (invalid_invoice (codes "invoice_invalid_meter"))
  stop_wh ←
      or_raise (valid_reading c.meter_stop_wh) (invalid_invoice (codes "invoice_invalid_meter"))
  samples ← gets (λ db. order_samples (keep (is_register_sample c end) db.samples))
  ordered ← add_samples samples (put_reading end stop_wh (put_reading c.started_at start_wh []))
  raise_if (decreases ordered) (invalid_invoice (codes "invoice_meter_decreased"))
  pure ordered
