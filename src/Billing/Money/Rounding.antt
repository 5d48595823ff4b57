-- ===== src/Billing/Money/Rounding.antt =====
-- The rounding of `tien_dong` (modules/billing/money.py).
use native.Mathlib.Nat.{div-add-mod, mod-lt, mul-le-mul_left}
use ttcs_t926_k8s4_n1_csms.Base.{ℕ, ◌+◌, ◌*◌, ◌≤◌, ◌<◌, ◌≡◌, refl, arith, if◌then◌else◌}
use ttcs_t926_k8s4_n1_csms.Base.Int.{ℤ, pos, neg, ◌*ℤ◌, abs, ◌≤ℤ◌, ltb_ℤ}
use ttcs_t926_k8s4_n1_csms.Billing.Money.{round_half, charge_ratio, tien_dong, ratio, rate, amount}

pub round_half_bounds :
    (n d : ℕ)
    → 0 < d
    → (2 * d * round_half n d ≤ 2 * n + d) × (2 * n + d < 2 * d * round_half n d + 2 * d)
unfolding round_half
round_half_bounds n d h =
    (grind (arith, div-add-mod n d, mod-lt n h), grind (arith, div-add-mod n d, mod-lt n h))

abs-charge_ratio :
    (n : ℤ) (d : ℕ) (p : ℤ) → abs (charge_ratio n d p) ≡ round_half (abs (n *ℤ p)) (d * 1000)
unfolding charge_ratio neg
abs-charge_ratio n d p = ground arith

-- A rounded size under the sign of `x`, as `tien_dong` returns it.
signed_sign :
    (x : ℤ) (r : ℕ)
    → (abs x ≡ 0 → r ≡ 0)
    → let a = if ltb_ℤ x (pos 0) then neg (pos r) else pos r in
      (pos 0 ≤ℤ x → pos 0 ≤ℤ a) × (x ≤ℤ pos 0 → a ≤ℤ pos 0)
unfolding neg
signed_sign x r z = (λ h. ground arith, λ h. ground arith)

round_half-zero : (n d : ℕ) → 0 < d → n ≡ 0 → round_half n d ≡ 0
round_half-zero n d h z =
    grind (
      arith,
      round_half_bounds n d h,
      λ (r : ℕ). λ (q : 0 < r). mul-le-mul_left {m = 1} {n = r} d q,
    )

charge_ratio_sign :
    (n : ℤ) (d : ℕ) (p : ℤ)
    → 0 < d
    → (pos 0 ≤ℤ n *ℤ p → pos 0 ≤ℤ charge_ratio n d p)
      × (n *ℤ p ≤ℤ pos 0 → charge_ratio n d p ≤ℤ pos 0)
unfolding charge_ratio
charge_ratio_sign n d p h =
    signed_sign (n *ℤ p) (round_half (abs (n *ℤ p)) (d * 1000))
      (round_half-zero (abs (n *ℤ p)) (d * 1000) (omega arith))

-- The charge for a finite energy of n/d Wh at p VND per kWh is an amount whose size is the whole
-- number nearest to |n * p| / (1000 * d), a tie going up, and that has the sign of n * p.
pub tien_dong_nearest :
    (n : ℤ) (d : ℕ) (p : ℤ)
    → 0 < d
    → (a : ℤ) × (tien_dong (ratio n d) (rate p) ≡ amount a)
      × (2 * (d * 1000) * abs a ≤ 2 * abs (n *ℤ p) + d * 1000)
      × (2 * abs (n *ℤ p) + d * 1000 < 2 * (d * 1000) * abs a + 2 * (d * 1000))
      × (pos 0 ≤ℤ n *ℤ p → pos 0 ≤ℤ a)
      × (n *ℤ p ≤ℤ pos 0 → a ≤ℤ pos 0)
unfolding tien_dong
tien_dong_nearest n d p h =
    let b = round_half_bounds (abs (n *ℤ p)) (d * 1000) (omega arith) in
    (
      charge_ratio n d p,
      refl,
      rw abs-charge_ratio b.0,
      rw abs-charge_ratio b.1,
      (charge_ratio_sign n d p h).0,
      (charge_ratio_sign n d p h).1,
    )
