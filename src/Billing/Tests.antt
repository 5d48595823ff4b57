-- ===== src/Billing/Tests.antt =====
-- The charges and the idle fee at concrete inputs.
use ttcs_t926_k8s4_n1_csms.Base.{ℕ, ◌+◌, ◌*◌, ◌≤◌, ◌<◌, ◌≡◌, refl, some, arith}
use ttcs_t926_k8s4_n1_csms.Base.Int.{ℤ, pos, negsuc, ◌*ℤ◌, ◌≤ℤ◌, abs, neg}
use ttcs_t926_k8s4_n1_csms.Billing.Money.{
  tien_dong, charge_ratio, round_half, ratio, whole, rate, amount,
}
use ttcs_t926_k8s4_n1_csms.Billing.Money.Rounding.{tien_dong_nearest}
use ttcs_t926_k8s4_n1_csms.Billing.IdleFee.{
  aware, int, fee, minute_us, tinh_phi_chiem_tru, fee_between, billable,
}
use ttcs_t926_k8s4_n1_csms.Billing.IdleFee.Minutes.{fee_least}

-- 1234.5 Wh at 3456 VND per kWh, and a tie that goes away from zero.
charges :
    (tien_dong (ratio (pos 2469) 2) (rate (pos 3456)) ≡ amount (pos 4266))
    × (tien_dong (whole (negsuc 0)) (rate (pos 500)) ≡ amount (negsuc 0))
unfolding tien_dong charge_ratio round_half ◌*ℤ◌ neg
charges = (refl, refl)

tien_dong_nearest_example :
    (a : ℤ) × (tien_dong (ratio (pos 2469) 2) (rate (pos 3456)) ≡ amount a)
    × (2 * (2 * 1000) * abs a ≤ 2 * abs (pos 2469 *ℤ pos 3456) + 2 * 1000)
    × (2 * abs (pos 2469 *ℤ pos 3456) + 2 * 1000 < 2 * (2 * 1000) * abs a + 2 * (2 * 1000))
    × (pos 0 ≤ℤ pos 2469 *ℤ pos 3456 → pos 0 ≤ℤ a)
    × (pos 2469 *ℤ pos 3456 ≤ℤ pos 0 → a ≤ℤ pos 0)
tien_dong_nearest_example = tien_dong_nearest (pos 2469) 2 (pos 3456) (omega arith)

-- 10 minutes of grace; 10 minutes and one microsecond bill a minute.
fees :
    (tinh_phi_chiem_tru (some (aware 0)) (aware (10 * minute_us)) (int (pos 10)) (int (pos 500))
      ≡ fee 0 0)
    × (tinh_phi_chiem_tru (some (aware 0)) (aware 600_000_001) (int (pos 10)) (int (pos 500))
        ≡ fee 1 500)
unfolding tinh_phi_chiem_tru fee_between billable
fees = (refl, refl)

fee_least_example :
    (m : ℕ) × (tinh_phi_chiem_tru
        (some (aware 0))
        (aware 600_000_001)
        (int (pos 10))
        (int (pos 500))
      ≡ fee m (m * 500))
    × (600_000_001 ≤ 0 + (10 + m) * minute_us)
    × ((k : ℕ) → 600_000_001 ≤ 0 + (10 + k) * minute_us → m ≤ k)
fee_least_example = fee_least 0 600_000_001 10 500 (omega arith)
