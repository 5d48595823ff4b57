-- ===== src/Billing/Invoicing.antt =====
-- modules/billing/invoicing.py: one immutable invoice for a session, in the caller's transaction. The
-- id that `uuid4` draws for it and the time are parameters; the notice that `notify_event` leaves
-- to the driver is left out.
pub mod Occupation
pub mod InvoiceLines
pub mod Readings
pub mod Tariffs
pub mod Idle
pub mod Minutes
pub mod Drafts
pub mod Created
pub mod Owned
pub mod Lapped
pub mod Booked
pub mod Tests
use ttcs_t926_k8s4_n1_csms.Base.{
  ℕ, zero, suc, ◌-◌, ◌^◌, Bool, true, false, not, ◌&&◌, ◌||◌, Option, none, some, List, [], ◌∷◌,
  ◌++◌, map, keep, length, is_empty, ltb, leb, ◌==◌, if◌then◌else◌,
}
use ttcs_t926_k8s4_n1_csms.Base.Int.{ℤ, pos, ◌+ℤ◌, ◌-ℤ◌, ltb_ℤ, eqb_ℤ}
use ttcs_t926_k8s4_n1_csms.Base.Result.{handle}
use ttcs_t926_k8s4_n1_csms.Base.Text.{Text, codes, text_eq}
use ttcs_t926_k8s4_n1_csms.Billing.Segmentation.{Zone, Raises, Segment, chia_doan}
use ttcs_t926_k8s4_n1_csms.Billing.Segmentation.Interpolation.{MeterValue, last_of}
use ttcs_t926_k8s4_n1_csms.Billing.Segmentation.Clock.{TariffFrame}
use ttcs_t926_k8s4_n1_csms.Billing.Segmentation.Days.{energy_total}
use ttcs_t926_k8s4_n1_csms.Billing.Tables.{
  ChargingSession, RoundingRule, rounding_rule, legacy_rounding_rule, Invoice, energy, InvoiceLine,
  OccupationInterval, TariffVersion, Station, ChargePoint, Connector, find_session, put_session,
}
use ttcs_t926_k8s4_n1_csms.Wallet.Tables.{Db}
use ttcs_t926_k8s4_n1_csms.Wallet.Uuid.{hex_value}
use ttcs_t926_k8s4_n1_csms.Wallet.Debit.{find_invoice}
use ttcs_t926_k8s4_n1_csms.Wallet.Tx.{
  Error, value_error, integrity_error, session_not_found, key_error, assertion_error, unending,
  invalid_invoice, Result, ok, err, Tx, pure, raise, gets, modify, or_raise, raise_if, ◌>>=◌, ◌>>◌,
}
pub use ttcs_t926_k8s4_n1_csms.Billing.Invoicing.Occupation.{
  find_station, find_point, find_connector, station_and_point, is_confirmed_of, put_interval,
  order_intervals, same_instant, same_text, any_unreleased, or_zero, billing_end_of,
}
unfoldable pub use ttcs_t926_k8s4_n1_csms.Billing.Invoicing.Occupation.{occupation, occupation_if}
pub use ttcs_t926_k8s4_n1_csms.Billing.Invoicing.InvoiceLines.{
  max_vnd, energy_line, lines_total, any_overflow, any_broken, used_energy, is_some,
}
unfoldable pub use ttcs_t926_k8s4_n1_csms.Billing.Invoicing.InvoiceLines.{insert_invoice}
use ttcs_t926_k8s4_n1_csms.Billing.Invoicing.Readings.{meter_values}
use ttcs_t926_k8s4_n1_csms.Billing.Invoicing.Tariffs.{Daily, look_up, daily_tariffs}
use ttcs_t926_k8s4_n1_csms.Billing.Invoicing.Idle.{
  IdleLinesError, invalid_idle_interval, no_tariff, fee_error, no_end, Lines, idle_lines,
}

-- `InvoiceResult` by its status.
pub data InvoiceResult : Type 0 where
  ready : Invoice → InvoiceResult
  pending needs_review : Text → InvoiceResult

-- The exceptions of `chia_doan` are not those of an invoice.
abbrev pub from_segments : Raises (List Segment) → Tx (List Segment)
from_segments r db = handle (λ e. err value_error) (λ segments. ok (segments, db)) r

abbrev pub idle_error : IdleLinesError → Error
idle_error invalid_idle_interval = invalid_invoice (codes "invoice_invalid_idle_interval")
idle_error no_tariff = key_error
idle_error fee_error = value_error
idle_error no_end = unending

abbrev pub from_idle : Lines (List InvoiceLine) → Tx (List InvoiceLine)
from_idle r db = handle (λ e. err (idle_error e)) (λ lines. ok (lines, db)) r

abbrev pub frames_on : Daily → ℕ → List TariffFrame
frames_on d day = elim (look_up day d.frames) [ none ↦ [] | some fs ↦ fs ]

abbrev pub invalid_reason : Error → Option Text
invalid_reason (invalid_invoice reason) = some reason
invalid_reason _ = none

module _ (now fresh : ℕ) where
  -- The lines of every occupation interval of a session of version 1.
  unfoldable pub interval_lines :
      ChargingSession
      → Station
      → List (ℕ × TariffVersion)
      → List OccupationInterval
      → Tx (List InvoiceLine)
  interval_lines c station versions [] = pure []
  interval_lines c station versions (i ∷ intervals) = do
    ended_at ← or_raise i.ended_at assertion_error
    first ←
        from_idle
          (idle_lines station.timezone ended_at versions fresh c.started_at (some i.started_at))
    rest ← interval_lines c station versions intervals
    pure (first ++ rest)

  abbrev pub all_idle_lines :
      Bool
      → ChargingSession
      → Station
      → ℕ
      → List (ℕ × TariffVersion)
      → List OccupationInterval
      → Tx (List InvoiceLine)
  all_idle_lines true c station end versions intervals = interval_lines c station versions intervals
  all_idle_lines false c station end versions intervals =
      from_idle (idle_lines station.timezone end versions fresh c.started_at c.idle_since)

  abbrev pub rule_of : Bool → RoundingRule
  rule_of true = rounding_rule
  rule_of false = legacy_rounding_rule

  -- Below the lines.
  unfoldable pub total_lines : ChargingSession → ℕ → ℕ → List InvoiceLine → Tx Invoice
  unfolding insert_invoice
  total_lines c driver station lines = do
    let total = lines_total lines
    raise_if (ltb_ℤ max_vnd total || any_overflow lines)
        (invalid_invoice (codes "invoice_amount_overflow"))
    insert_invoice
        record {
          id = fresh;
          session_id = c.id;
          driver_id = driver;
          station_id = station;
          total_vnd = total;
          rule = rule_of (c.billing_lifecycle_version == 1);
        }
        lines

  -- From `readings = …`.
  unfoldable pub invoice_session : ChargingSession → ℕ → ℕ → Station → Tx Invoice
  unfolding total_lines interval_lines occupation_if
  invoice_session c end driver station = do
    let current = c.billing_lifecycle_version == 1
    readings ← meter_values c end
    intervals ← occupation_if current c
    daily ← daily_tariffs now true station c.started_at (billing_end_of c end intervals)
    segments ←
        from_segments (chia_doan station.timezone c.started_at end readings (frames_on daily))
    raise_if (not (eqb_ℤ (energy_total segments) (used_energy readings)))
        (invalid_invoice (codes "invoice_energy_mismatch"))
    idle ←
        all_idle_lines (not (c.billing_lifecycle_version == 0)) c station end daily.versions
          intervals
    total_lines c driver station.id (map (energy_line fresh) segments ++ idle)

  -- `_create_invoice`
  unfoldable pub create_invoice : ChargingSession → ℕ → Tx Invoice
  unfolding invoice_session
  create_invoice c end = do
    (station_id, point) ←
        or_raise (← gets (station_and_point c)) (invalid_invoice (codes "invoice_session_mismatch"))
    raise_if (not (point == c.charge_point_id)) (invalid_invoice (codes "invoice_session_mismatch"))
    driver ← or_raise c.driver_id (invalid_invoice (codes "invoice_missing_driver"))
    raise_if (not (text_eq c.authorization_status (codes "Accepted")))
        (invalid_invoice (codes "invoice_unauthorized_session"))
    station ← or_raise (← gets (λ db. find_station station_id db.stations)) assertion_error
    raise_if (leb end c.started_at) (invalid_invoice (codes "invoice_invalid_interval"))
    invoice_session c end driver station

  -- `charging.review_reasons = [*charging.review_reasons, reason]`
  abbrev pub add_reason : Text → ChargingSession → ChargingSession
  add_reason reason c = record c { review_reasons = c.review_reasons ++ reason ∷ [] }

  unfoldable pub needs_review_for : Text → ChargingSession → Tx InvoiceResult
  needs_review_for reason c = do
    modify (λ db. record db { sessions = put_session (add_reason reason c) db.sessions })
    pure (needs_review reason)

  abbrev pub review_or_raise : Option Text → Error → ChargingSession → Tx InvoiceResult
  review_or_raise none e c db = err e
  review_or_raise (some reason) e c db = needs_review_for reason c db

  -- The savepoint and its `except _InvalidInvoice`.
  abbrev pub caught_invoice :
      ChargingSession → Db → Result (Invoice × Db) → Result (InvoiceResult × Db)
  caught_invoice c db (ok (v, db')) = ok (ready v, db')
  caught_invoice c db (err e) = review_or_raise (invalid_reason e) e c db

  abbrev pub awaits_unplug : ChargingSession → Bool
  awaits_unplug c = c.billing_lifecycle_version == 1 && not (is_some c.connector_released_at)

  -- From `if charging.billing_lifecycle_version == 1`.
  unfoldable pub invoice_new : ChargingSession → ℕ → Tx InvoiceResult
  unfolding create_invoice needs_review_for
  invoice_new c end db =
      if awaits_unplug c
      then ok (pending (codes "invoice_awaiting_unplug"), db)
      else caught_invoice c db (create_invoice c end db)

  abbrev pub reuse_or_new : Option Invoice → ChargingSession → ℕ → Tx InvoiceResult
  reuse_or_new (some v) c end = pure (ready v)
  reuse_or_new none c end = invoice_new c end

  -- From `if charging.ended_at is None`.
  unfoldable pub invoice_ended : Option ℕ → ChargingSession → Tx InvoiceResult
  unfolding invoice_new
  invoice_ended none c = pure (pending (codes "invoice_session_in_progress"))
  invoice_ended (some end) c = do
    existing ← gets (λ db. find_invoice c.id db.invoices)
    reuse_or_new existing c end

  unfoldable pub lap_hoa_don : ℕ → Tx InvoiceResult
  unfolding invoice_ended
  lap_hoa_don session = do
    c ← or_raise (← gets (λ db. find_session session db.sessions)) session_not_found
    if is_empty c.review_reasons
        then invoice_ended c.ended_at c
        else pure (needs_review (codes "invoice_session_needs_review"))
