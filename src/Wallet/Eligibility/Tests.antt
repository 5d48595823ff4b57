-- ===== src/Wallet/Eligibility/Tests.antt =====
-- Eligibility at concrete inputs: station 4 has a new tariff from day 100.
use ttcs_t926_k8s4_n1_csms.Base.{◌≡◌, refl, true, false, some, List, [], ◌∷◌}
use ttcs_t926_k8s4_n1_csms.Base.Int.{pos, ◌≤ℤ◌}
use ttcs_t926_k8s4_n1_csms.Wallet.Tables.{Wallet, find_driver_wallet}
use ttcs_t926_k8s4_n1_csms.Wallet.Service.{is_locked}
use ttcs_t926_k8s4_n1_csms.Wallet.Tests.{topped_up}
use ttcs_t926_k8s4_n1_csms.Wallet.Eligibility.{
  Tariff, lay_bieu_gia_hieu_luc, judge, with_rate, with_tariff, du_so_du_de_sac,
}
use ttcs_t926_k8s4_n1_csms.Wallet.Eligibility.Affords.{
  Affords, Latest, lay_bieu_gia_hieu_luc-Latest, du_so_du_de_sac-Affords,
}

abbrev tariffs : List Tariff
tariffs =
    record { id = 1; station_id = 4; effective_from = 10; rates = 3000 ∷ [] }
    ∷ record { id = 2; station_id = 4; effective_from = 100; rates = 2500 ∷ 4000 ∷ [] }
    ∷ []

eligible : (du_so_du_de_sac 10000 5 tariffs 7 4 120 topped_up).allowed ≡ true
unfolding du_so_du_de_sac lay_bieu_gia_hieu_luc with_tariff with_rate judge
eligible = refl

lay_bieu_gia_hieu_luc-Latest_example : Latest 4 120 (lay_bieu_gia_hieu_luc 4 120 tariffs) tariffs
lay_bieu_gia_hieu_luc-Latest_example = lay_bieu_gia_hieu_luc-Latest 4 120 tariffs

du_so_du_de_sac-Affords_example :
    (w : Wallet) × (find_driver_wallet 7 topped_up.wallets ≡ some w)
    × (is_locked w.status ≡ false)
    × (pos 0 ≤ℤ w.balance_vnd)
    × Affords 10000 5 (lay_bieu_gia_hieu_luc 4 120 tariffs) w
du_so_du_de_sac-Affords_example = du_so_du_de_sac-Affords 10000 5 tariffs 7 4 120 topped_up eligible
