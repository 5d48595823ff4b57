-- ===== src/Pricing/Versions.antt =====
-- The versions of a station's tariff: modules/pricing/service.py, tao_bieu_gia of
-- modules/pricing/creation.py and edit_tariff of modules/pricing/router.py. A date is a number of days,
-- a request has the types of its schema, and each reading of the clock is an argument. The station's row
-- is locked until the transaction ends, so the check of the date rules out a clash of the unique key.
pub mod Guards
mod Tests
pub mod Rows
pub mod InForce
pub mod Stored
pub mod Reread
pub mod Made
pub mod Found
pub mod Begun
pub mod History
pub mod Used
use ttcs_t926_k8s4_n1_csms.Base.{
  ℕ, zero, suc, Bool, true, false, not, ◌&&◌, ◌||◌, Option, none, some, List, [], ◌∷◌, map, keep,
  ltb, leb, ◌==◌, if◌then◌else◌,
}
use ttcs_t926_k8s4_n1_csms.Base.Int.{ℤ, pos, pos_part}
use ttcs_t926_k8s4_n1_csms.Pricing.Bands.{
  Band, Span, Rate, BandIssue, Checked, valid_bands, bands_error, kiem_khung_gio,
}
use ttcs_t926_k8s4_n1_csms.Pricing.Tariffs.{Tariff}
use ttcs_t926_k8s4_n1_csms.Billing.Segmentation.{Zone}
use ttcs_t926_k8s4_n1_csms.Billing.Tables.{TariffVersion, Station}
use ttcs_t926_k8s4_n1_csms.Billing.Invoicing.Occupation.{find_station}
use ttcs_t926_k8s4_n1_csms.Billing.Invoicing.Tariffs.{is_version, find_version}
use ttcs_t926_k8s4_n1_csms.Wallet.Tables.{Db}
use ttcs_t926_k8s4_n1_csms.Wallet.Tx.{
  Error, tariff_not_found, tariff_effective_date, tariff_duplicate_date, tariff_immutable,
  tariff_bands, station_ownership, ok, err, Tx, pure, raise, gets, modify, or_raise, raise_if,
  ◌>>=◌, ◌>>◌,
}

pub record ActorScope : Type 0 where
  pub actor_id : ℕ
  pub owner_id : Option ℕ

abbrev pub if_owned : Bool → Station → Tx (Option Station)
if_owned true s = pure (some s)
if_owned false s = raise station_ownership

-- A row of the station, by the owner that the scope asks for.
abbrev pub owned_station : Option ℕ → Option Station → Tx (Option Station)
owned_station owner none = pure none
owned_station none (some s) = pure (some s)
owned_station (some owner) (some s) = if_owned (s.owner_id == owner) s

unfoldable pub get_station_by_id : ℕ → ActorScope → Tx (Option Station)
get_station_by_id station scope = do
  row ← gets (λ db. find_station station db.stations)
  owned_station scope.owner_id row

-- `_station`
abbrev pub station_row : ℕ → Tx Station
station_row station db = or_raise (find_station station db.stations) tariff_not_found db

abbrev pub is_used : TariffVersion → Bool
is_used v = elim v.used_at [ none ↦ false | some t ↦ true ]

unfoldable pub kiem_bieu_gia_co_the_sua : ℕ → ℕ → ℕ → Tx TariffVersion
kiem_bieu_gia_co_the_sua now station tariff = do
  s ← station_row station
  v ← or_raise (← gets (λ db. find_version station tariff db.tariffs)) tariff_not_found
  raise_if (leb v.tariff.effective_from (s.timezone.date_of now) || is_used v) tariff_immutable
  pure v

abbrev pub is_excluded : Option ℕ → TariffVersion → Bool
is_excluded none v = false
is_excluded (some tariff) v = v.tariff.id == tariff

-- `versions`
abbrev pub versions_of : ℕ → Option ℕ → List TariffVersion → List TariffVersion
versions_of station exclude vs =
    keep (λ (v : TariffVersion). v.tariff.station_id == station && not (is_excluded exclude v)) vs

-- The first version starts today, a later one tomorrow or later.
abbrev pub bad_date : ℕ → ℕ → List TariffVersion → Bool
bad_date today effective_from [] = not (effective_from == today)
bad_date today effective_from (v ∷ vs) = ltb effective_from (suc today)

abbrev pub has_date : ℕ → List TariffVersion → Bool
has_date effective_from [] = false
has_date effective_from (v ∷ vs) =
    v.tariff.effective_from == effective_from || has_date effective_from vs

unfoldable pub editable_if : ℕ → ℕ → Option ℕ → Tx (Unit {0})
unfolding kiem_bieu_gia_co_the_sua
editable_if again station none = pure tt
editable_if again station (some tariff) = do
  v ← kiem_bieu_gia_co_the_sua again station tariff
  pure tt

-- `now` is the clock of `today`, and `again` that of the check before an edit.
unfoldable pub kiem_ngay_hieu_luc : ℕ → ℕ → ℕ → ℕ → Option ℕ → Tx Station
unfolding editable_if
kiem_ngay_hieu_luc now again station effective_from exclude = do
  s ← station_row station
  editable_if again station exclude
  versions ← gets (λ db. versions_of station exclude db.tariffs)
  raise_if (bad_date (s.timezone.date_of now) effective_from versions) tariff_effective_date
  raise_if (has_date effective_from versions) tariff_duplicate_date
  pure s

abbrev pub checked_bands : Checked (List (Span Rate)) → Tx (List (Span Rate))
checked_bands (valid_bands normalized) db = ok (normalized, db)
checked_bands (bands_error issues) db = err (tariff_bands issues)

-- `TariffCreateRequest`, with the bands of `band_inputs`.
pub record TariffRequest : Type 0 where
  pub effective_from : ℕ
  pub idle_rate_vnd_per_minute : ℕ
  pub grace_minutes : ℕ
  pub bands : List (Band Rate)

-- `TariffBand(…)`
abbrev pub band_row : Span Rate → Band Rate
band_row s = record { start_min = pos s.start; end_min = pos s.stop; payload = s.payload }

abbrev pub rates_of : List (Span Rate) → List ℕ
rates_of normalized = map (λ (s : Span Rate). pos_part s.payload.energy_rate_vnd_per_kwh) normalized

abbrev pub version_row : ℕ → ℕ → Option ℕ → TariffRequest → List (Span Rate) → TariffVersion
version_row id station used request normalized = record {
  tariff = record {
    id = id;
    station_id = station;
    effective_from = request.effective_from;
    rates = rates_of normalized;
  };
  used_at = used;
  idle_rate_vnd_per_minute = request.idle_rate_vnd_per_minute;
  grace_minutes = request.grace_minutes;
  bands = map band_row normalized;
}

-- The row of a version with its new values.
abbrev pub put_version : ℕ → ℕ → TariffVersion → List TariffVersion → List TariffVersion
put_version station tariff v [] = []
put_version station tariff v (u ∷ us) =
    (if is_version station tariff u then v else u) ∷ put_version station tariff v us

-- `fresh` is the id that the insert draws.
unfoldable pub tao_bieu_gia : ℕ → ℕ → ActorScope → ℕ → TariffRequest → Tx TariffVersion
unfolding get_station_by_id kiem_ngay_hieu_luc
tao_bieu_gia now fresh scope station request = do
  s ← or_raise (← get_station_by_id station scope) tariff_not_found
  normalized ← checked_bands (kiem_khung_gio request.bands)
  dated ← kiem_ngay_hieu_luc now now station request.effective_from none
  let v = version_row fresh station none request normalized
  modify (λ db. record db { tariffs = v ∷ db.tariffs })
  pure v

-- `now`, `dated` and `again` are the three readings of the clock.
unfoldable pub edit_tariff : ℕ → ℕ → ℕ → ActorScope → ℕ → ℕ → TariffRequest → Tx TariffVersion
unfolding get_station_by_id kiem_bieu_gia_co_the_sua kiem_ngay_hieu_luc
edit_tariff now dated again scope station tariff request = do
  s ← or_raise (← get_station_by_id station scope) tariff_not_found
  old ← kiem_bieu_gia_co_the_sua now station tariff
  normalized ← checked_bands (kiem_khung_gio request.bands)
  checked ← kiem_ngay_hieu_luc dated again station request.effective_from (some tariff)
  let v = version_row tariff station old.used_at request normalized
  modify (λ db. record db { tariffs = put_version station tariff v db.tariffs })
  pure v
