-- ===== src/Wallet/Eligibility.antt =====
-- modules/wallet/eligibility.py: whether a driver's balance allows a session, with the tariff in force
-- by `lay_bieu_gia_hieu_luc` of modules/pricing/service.py. `day` is the station's local date, which
-- the time zone data gives, as a number of days.
pub mod Affords
mod Tests
use ttcs_t926_k8s4_n1_csms.Base.{
  ℕ, ◌*◌, Bool, true, false, not, ◌&&◌, ◌||◌, Option, none, some, List, [], ◌∷◌, ltb, leb, ◌==◌,
  if◌then◌else◌,
}
use ttcs_t926_k8s4_n1_csms.Base.Int.{ℤ, pos, leb_ℤ}
use ttcs_t926_k8s4_n1_csms.Wallet.Tables.{Wallet, Db, find_driver_wallet}
use ttcs_t926_k8s4_n1_csms.Wallet.Service.{is_locked}
pub use ttcs_t926_k8s4_n1_csms.Pricing.Tariffs.{Tariff, in_force, newer}
unfoldable pub use ttcs_t926_k8s4_n1_csms.Pricing.Tariffs.{lay_bieu_gia_hieu_luc}

-- `func.max`
abbrev pub highest : List ℕ → Option ℕ
highest [] = none
highest (r ∷ rs) = elim (highest rs) [ none ↦ some r | some h ↦ some (if ltb r h then h else r) ]

pub data EligibilityReason : Type 0 where
  wallet_low wallet_missing wallet_locked tariff_unavailable : EligibilityReason

pub record ChargingEligibility : Type 0 where
  pub allowed : Bool
  pub reason : Option EligibilityReason
  pub balance_vnd : Option ℤ
  pub minimum_balance_vnd : Option ℕ
  pub tariff_id : Option ℕ

abbrev pub balance_of : Option Wallet → Option ℤ
balance_of none = none
balance_of (some w) = some w.balance_vnd

abbrev pub enough : Wallet → ℕ → Bool
enough w minimum = leb_ℤ (pos 0) w.balance_vnd && leb_ℤ (pos minimum) w.balance_vnd

-- From `if wallet is None`.
unfoldable pub judge : Option Wallet → ℕ → Option ℕ → ChargingEligibility
judge none minimum tariff = record {
  allowed = false;
  reason = some wallet_missing;
  balance_vnd = none;
  minimum_balance_vnd = some minimum;
  tariff_id = tariff;
}
judge (some w) minimum tariff =
    if is_locked w.status
    then record {
      allowed = false;
      reason = some wallet_locked;
      balance_vnd = some w.balance_vnd;
      minimum_balance_vnd = some minimum;
      tariff_id = tariff;
    }
    else record {
      allowed = enough w minimum;
      reason = if enough w minimum then none else some wallet_low;
      balance_vnd = some w.balance_vnd;
      minimum_balance_vnd = some minimum;
      tariff_id = tariff;
    }

-- `highest_rate is None`, and the minimum of a tariff.
unfoldable pub with_rate : Option ℕ → ℕ → ℕ → Option Wallet → ChargingEligibility
with_rate none kwh tariff wallet = record {
  allowed = false;
  reason = some tariff_unavailable;
  balance_vnd = balance_of wallet;
  minimum_balance_vnd = none;
  tariff_id = some tariff;
}
with_rate (some rate) kwh tariff wallet = judge wallet (kwh * rate) (some tariff)

unfoldable pub with_tariff : Option Tariff → ℕ → ℕ → Option Wallet → ChargingEligibility
with_tariff none reserve kwh wallet = judge wallet reserve none
with_tariff (some t) reserve kwh wallet = with_rate (highest t.rates) kwh t.id wallet

-- `reserve` is `wallet_reserve_vnd` and `kwh` is `charging_minimum_kwh` of the settings.
unfoldable pub du_so_du_de_sac : ℕ → ℕ → List Tariff → ℕ → ℕ → ℕ → Db → ChargingEligibility
du_so_du_de_sac reserve kwh tariffs driver station day db =
    with_tariff (lay_bieu_gia_hieu_luc station day tariffs) reserve kwh
      (find_driver_wallet driver db.wallets)
