-- ===== src/Pricing/Tariffs.antt =====
-- The tariff in force on a local date: `lay_bieu_gia_hieu_luc` of modules/pricing/service.py. A date is
-- a number of days.
use ttcs_t926_k8s4_n1_csms.Base.{
  ℕ, Bool, ◌&&◌, Option, none, some, List, [], ◌∷◌, ltb, leb, ◌==◌, if◌then◌else◌,
}

-- A tariff with the energy rates of its bands.
pub record Tariff : Type 0 where
  pub id : ℕ
  pub station_id : ℕ
  pub effective_from : ℕ
  pub rates : List ℕ

abbrev pub in_force : ℕ → ℕ → Tariff → Bool
in_force station day t = t.station_id == station && leb t.effective_from day

-- `order_by(effective_from.desc()).limit(1)`
abbrev pub newer : Tariff → Option Tariff → Option Tariff
newer t none = some t
newer t (some u) = if ltb t.effective_from u.effective_from then some u else some t

unfoldable pub lay_bieu_gia_hieu_luc : ℕ → ℕ → List Tariff → Option Tariff
lay_bieu_gia_hieu_luc station day [] = none
lay_bieu_gia_hieu_luc station day (t ∷ ts) =
    let rest = lay_bieu_gia_hieu_luc station day ts in
    if in_force station day t then newer t rest else rest
