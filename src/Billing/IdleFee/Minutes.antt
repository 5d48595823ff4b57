-- ===== src/Billing/IdleFee/Minutes.antt =====
-- The minutes that `tinh_phi_chiem_tru` (modules/billing/idle_fee.py) bills.
use ttcs_t926_k8s4_n1_csms.Base.{ℕ, ◌+◌, ◌-◌, ◌*◌, ◌≤◌, ◌≡◌, some, arith}
use ttcs_t926_k8s4_n1_csms.Base.Int.{pos}
use ttcs_t926_k8s4_n1_csms.Billing.IdleFee.{
  aware, int, fee, minute_us, billable, fee_between, tinh_phi_chiem_tru,
}

-- The billed minutes are the fewest that, with the grace minutes, cover the elapsed time.
pub billable_least :
    (e g : ℕ)
    → (e ≤ (g + billable e g) * minute_us) × ((m : ℕ) → e ≤ (g + m) * minute_us → billable e g ≤ m)
unfolding billable
billable_least e g = (ground arith, λ m h. ground arith)

-- Between two aware stamps in order, the fee is billed for the fewest minutes that, with the grace
-- minutes, cover the occupation, each at the rate.
pub fee_least :
    (start end g r : ℕ)
    → start ≤ end
    → (m : ℕ) × (tinh_phi_chiem_tru (some (aware start)) (aware end) (int (pos g)) (int (pos r))
        ≡ fee m (m * r))
      × (end ≤ start + (g + m) * minute_us)
      × ((k : ℕ) → end ≤ start + (g + k) * minute_us → m ≤ k)
unfolding tinh_phi_chiem_tru fee_between
fee_least start end g r h =
    let least = billable_least (end - start) g in
    (billable (end - start) g, ground arith, omega (arith, least.0), λ k c. least.1 k (omega arith))
