-- ===== src/Billing/Invoicing/Occupation.antt =====
-- What modules/billing/invoicing.py reads for an invoice: the station of a session, and the confirmed
-- occupation of its connector.
use ttcs_t926_k8s4_n1_csms.Base.{
  ℕ, Bool, true, false, not, ◌&&◌, ◌||◌, Option, none, some, List, [], ◌∷◌, keep, length, ltb, leb,
  ◌==◌, if◌then◌else◌,
}
use ttcs_t926_k8s4_n1_csms.Base.Text.{Text, codes, text_eq}
use ttcs_t926_k8s4_n1_csms.Billing.Tables.{
  ChargingSession, OccupationInterval, Station, ChargePoint, Connector,
}
use ttcs_t926_k8s4_n1_csms.Wallet.Tables.{Db}
use ttcs_t926_k8s4_n1_csms.Wallet.Tx.{
  assertion_error, invalid_invoice, Tx, pure, gets, or_raise, raise_if, ◌>>=◌, ◌>>◌,
}

abbrev pub find_station : ℕ → List Station → Option Station
find_station i [] = none
find_station i (s ∷ ss) = if s.id == i then some s else find_station i ss

abbrev pub find_point : ℕ → List ChargePoint → Option ChargePoint
find_point i [] = none
find_point i (p ∷ ps) = if p.id == i then some p else find_point i ps

abbrev pub find_connector : ℕ → List Connector → Option Connector
find_connector i [] = none
find_connector i (c ∷ cs) = if c.id == i then some c else find_connector i cs

-- `row`: the station of the session's charge point, and its connector's charge point.
abbrev pub station_and_point : ChargingSession → Db → Option (ℕ × ℕ)
station_and_point c db = elim (find_point c.charge_point_id db.charge_points) [
  | none ↦ none
  | some p ↦ elim (find_connector c.connector_id db.connectors) [
    | none ↦ none
    | some k ↦ some (p.station_id, k.charge_point_id)
  ]
]

abbrev pub is_confirmed_of : ChargingSession → OccupationInterval → Bool
is_confirmed_of c i = i.session_id == c.id && i.confirmed

-- `order_by(OccupationInterval.started_at)`
abbrev pub put_interval : OccupationInterval → List OccupationInterval → List OccupationInterval
put_interval i [] = i ∷ []
put_interval i (j ∷ js) =
    if leb i.started_at j.started_at then i ∷ j ∷ js else j ∷ put_interval i js

abbrev pub order_intervals : List OccupationInterval → List OccupationInterval
order_intervals [] = []
order_intervals (i ∷ is) = put_interval i (order_intervals is)

abbrev pub same_instant : Option ℕ → ℕ → Bool
same_instant none t = false
same_instant (some s) t = s == t

abbrev pub same_text : Option Text → Text → Bool
same_text none t = false
same_text (some s) t = text_eq s t

abbrev pub any_unreleased : ℕ → List OccupationInterval → Bool
any_unreleased released [] = false
any_unreleased released (i ∷ is) =
    not (same_instant i.ended_at released)
    || not (same_text i.end_reason (codes "released"))
    || any_unreleased released is

-- The block under `if charging.billing_lifecycle_version == 1`, with the release that it asserts.
unfoldable pub occupation : ChargingSession → ℕ → Tx (List OccupationInterval)
occupation c released = do
  intervals ← gets (λ db. order_intervals (keep (is_confirmed_of c) db.intervals))
  raise_if (ltb 1 (length intervals) || any_unreleased released intervals)
      (invalid_invoice (codes "invoice_invalid_occupation_history"))
  pure intervals

unfoldable pub occupation_if : Bool → ChargingSession → Tx (List OccupationInterval)
unfolding occupation
occupation_if false c = pure []
occupation_if true c = do
  released ← or_raise c.connector_released_at assertion_error
  occupation c released

abbrev pub or_zero : Option ℕ → ℕ
or_zero none = 0
or_zero (some t) = t

-- `billing_end`
abbrev pub billing_end_of : ChargingSession → ℕ → List OccupationInterval → ℕ
billing_end_of c end [] = end
billing_end_of c end (i ∷ is) =
    let r = or_zero c.connector_released_at in if ltb end r then r else end
