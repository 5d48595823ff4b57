-- ===== src/Billing/Tables.antt =====
-- The rows that invoicing reads and writes: modules/billing/models.py, modules/charging/models.py,
-- modules/pricing/models.py and modules/stations/models.py. Instants, dates and energies are those of
-- Billing/Segmentation, ids are numbers.
use ttcs_t926_k8s4_n1_csms.Base.{ℕ, Bool, Option, none, some, List, [], ◌∷◌, ◌==◌, if◌then◌else◌}
use ttcs_t926_k8s4_n1_csms.Base.Int.{ℤ}
use ttcs_t926_k8s4_n1_csms.Base.Text.{Text}
use ttcs_t926_k8s4_n1_csms.Billing.Segmentation.{Zone}
use ttcs_t926_k8s4_n1_csms.Pricing.Bands.{Band, Rate}
use ttcs_t926_k8s4_n1_csms.Pricing.Tariffs.{Tariff}

-- A `Numeric(24, 6)` value, in millionths; the column can hold a NaN.
pub data Decimal : Type 0 where
  finite : ℤ → Decimal
  not_finite : Decimal

-- `ChargingSession`, its tag and the notes of a manual closing apart.
pub record ChargingSession : Type 0 where
  pub id : ℕ
  pub charge_point_id : ℕ
  pub connector_id : ℕ
  pub driver_id : Option ℕ
  pub authorization_status : Text
  pub started_at : ℕ
  pub ended_at : Option ℕ
  pub idle_since : Option ℕ
  pub billing_lifecycle_version : ℕ
  pub release_detection : Text
  pub connector_released_at : Option ℕ
  pub settlement_completed_at : Option ℕ
  pub settlement_reason : Option Text
  pub meter_start_wh : Decimal
  pub meter_stop_wh : Option Decimal
  pub stop_reason : Option Text
  pub review_reasons : List Text

-- `ROUNDING_RULE` and `LEGACY_ROUNDING_RULE`, two texts in words.
pub data RoundingRule : Type 0 where
  rounding_rule legacy_rounding_rule : RoundingRule

pub record Invoice : Type 0 where
  pub id : ℕ
  pub session_id : ℕ
  pub driver_id : ℕ
  pub station_id : ℕ
  pub total_vnd : ℤ
  pub rule : RoundingRule

pub data LineType : Type 0 where
  energy idle : LineType

pub record InvoiceLine : Type 0 where
  pub invoice_id : ℕ
  pub line_type : LineType
  pub local_date : ℕ
  pub started_at : ℕ
  pub ended_at : ℕ
  pub energy_wh : ℤ
  pub rate_vnd : ℤ
  pub band_label : Text
  pub interpolated : Bool
  pub tariff_id : ℕ
  pub amount_vnd : ℤ

pub record MeterSample : Type 0 where
  pub session_id : ℕ
  pub timestamp : ℕ
  pub measurand : Text
  pub phase : Text
  pub location : Text
  pub value : Decimal
  pub unit : Text

pub record OccupationInterval : Type 0 where
  pub id : ℕ
  pub session_id : ℕ
  pub started_at : ℕ
  pub ended_at : Option ℕ
  pub confirmed : Bool
  pub end_reason : Option Text

-- A row of `tariffs` with its bands; `tariff` holds the columns that the lookup by date reads, and
-- the prices of the bands.
pub record TariffVersion : Type 0 where
  pub tariff : Tariff
  pub used_at : Option ℕ
  pub idle_rate_vnd_per_minute : ℕ
  pub grace_minutes : ℕ
  pub bands : List (Band Rate)

pub record Station : Type 0 where
  pub id : ℕ
  pub owner_id : ℕ
  pub timezone : Zone

pub record ChargePoint : Type 0 where
  pub id : ℕ
  pub station_id : ℕ

pub record Connector : Type 0 where
  pub id : ℕ
  pub charge_point_id : ℕ

abbrev pub find_session : ℕ → List ChargingSession → Option ChargingSession
find_session i [] = none
find_session i (c ∷ cs) = if c.id == i then some c else find_session i cs

-- The row of a session with its new values.
abbrev pub put_session : ChargingSession → List ChargingSession → List ChargingSession
put_session c [] = []
put_session c (d ∷ ds) = (if d.id == c.id then c else d) ∷ put_session c ds
