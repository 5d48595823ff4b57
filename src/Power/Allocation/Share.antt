-- ===== src/Power/Allocation/Share.antt =====
-- One round of the allocator of modules/power/allocation.py: the share of the demands that are left.
use native.Mathlib.Nat.{div-add-mod, mod-lt, mul_comm, mul-add, mul-le-mul_right}
use ttcs_t926_k8s4_n1_csms.Base.{
  ℕ, zero, suc, ◌+◌, ◌-◌, ◌*◌, ◌/◌, ◌≤◌, ◌<◌, ◌≡◌, ap, ◌⊎◌, inl, inr, true, ◌||◌, All, length, keep,
  ◌==◌, arith,
}
use ttcs_t926_k8s4_n1_csms.Power.Allocation.{settle, share_out, fits, exceeds}
use ttcs_t926_k8s4_n1_csms.Power.Allocation.Dict.{
  Watts, Demands, lookup, Distinct, watt_sum, level_sum, lookup-keep, keep-Distinct,
}
use ttcs_t926_k8s4_n1_csms.Power.Allocation.Split.{
  leveled, lookup-settle, lookup-share_out, watt_sum-capped, length-split, All-split,
  level_sum-above, level_sum-zero,
}

-- Every demand gets the smaller of itself and the level; the budget holds; and if a demand stays
-- above the level, less than a watt for each demand is left.
pub record Filled (budget low level : ℕ) (ds : Demands) (before after : Watts) : Type 0 where
  pub served : (k : ℕ) → after k ≡ leveled level (lookup k ds) (before k)
  pub within : level_sum level ds ≤ budget
  pub spent : All (λ d. d.1 ≤ level) ds ⊎ (budget < level_sum level ds + length ds)
  pub above : low ≤ level

pub served_round :
    (share level k : ℕ) (ds : Demands) (r : Watts)
    → Distinct ds
    → share ≤ level
    → leveled level (lookup k (keep (exceeds share) ds)) (settle (keep (fits share) ds) r k)
      ≡ leveled level (lookup k ds) (r k)
served_round share level k ds r distinct h = ground (
  arith,
  lookup-settle k (keep (fits share) ds) r (keep-Distinct (fits share) ds distinct),
  lookup-keep (fits share) k ds distinct,
  lookup-keep (exceeds share) k ds distinct,
)

-- The keys of the demands hold 0.
pub record Zeroed (ds : Demands) (r : Watts) : Type 0 where
  pub at_key : (k : ℕ) → r k ≡ leveled 0 (lookup k ds) (r k)

pub Zeroed-round :
    (share : ℕ) (ds : Demands) (r : Watts)
    → Distinct ds
    → Zeroed ds r
    → Zeroed (keep (exceeds share) ds) (settle (keep (fits share) ds) r)
Zeroed-round share ds r distinct z = record {
  at_key = λ k. ground (
    arith,
    z.at_key k,
    lookup-settle k (keep (fits share) ds) r (keep-Distinct (fits share) ds distinct),
    lookup-keep (fits share) k ds distinct,
    lookup-keep (exceeds share) k ds distinct,
  );
}

-- The facts of a division that the proofs use.
pub share_bounds :
    (budget n : ℕ) → 0 < n → (budget / n * n ≤ budget) × (budget < budget / n * n + n)
share_bounds budget n h = (
  omega (arith, div-add-mod budget n, mul_comm n (budget / n)),
  omega (arith, div-add-mod budget n, mul_comm n (budget / n), mod-lt budget h),
)

pub share_lower : (budget low n : ℕ) → 0 < n → low * n ≤ budget → low ≤ budget / n
share_lower budget low n h fits_low =
    grind (arith, share_bounds budget n h, λ (q : budget / n + 1 ≤ low). mul-le-mul_right n q)

pub Filled-zero :
    (budget low : ℕ) (ds : Demands) (r : Watts)
    → Zeroed ds r
    → budget < length ds
    → low * length ds ≤ budget
    → Filled budget low 0 ds r r
Filled-zero budget zero ds r z small fits_low = record {
  served = z.at_key;
  within = omega (arith, level_sum-zero ds);
  spent = inr (omega arith);
  above = omega arith;
}
Filled-zero budget (suc low) ds r z small fits_low =
    absurd (grind (arith, mul-le-mul_right {m = 1} {n = suc low} (length ds)))

pub Filled-share :
    (budget low : ℕ) (ds : Demands) (r : Watts)
    → 0 < length ds
    → low * length ds ≤ budget
    → Distinct ds
    → All (λ d. budget / length ds < d.1) ds
    → Filled budget low (budget / length ds) ds r (share_out (budget / length ds) ds r)
Filled-share budget low ds r some_demand fits_low distinct over =
    let total = level_sum-above (budget / length ds) ds over in
    let bounds = share_bounds budget (length ds) some_demand in
    record {
      served = λ k. lookup-share_out (budget / length ds) k ds r distinct over;
      within = omega (arith, total, bounds);
      spent = inr (omega (arith, total, bounds));
      above = share_lower budget low (length ds) some_demand fits_low;
    }

-- The demands within the share leave the share for each of the others.
pub capped_room :
    (share budget : ℕ) (ds : Demands)
    → share * length ds ≤ budget
    → share * length (keep (exceeds share) ds) + watt_sum (keep (fits share) ds) ≤ budget
capped_room share budget ds room =
    let split = ap (λ (n : ℕ). share * n) (length-split share ds) in
    omega (
      arith,
      split,
      mul-add share (length (keep (fits share) ds)) (length (keep (exceeds share) ds)),
      watt_sum-capped share ds,
    )

pub Filled-spent :
    (budget share level : ℕ) (ds : Demands)
    → level_sum level ds
      ≡ watt_sum (keep (fits share) ds) + level_sum level (keep (exceeds share) ds)
    → length (keep (fits share) ds) + length (keep (exceeds share) ds) ≡ length ds
    → share ≤ level
    → All (λ d. d.1 ≤ level) (keep (exceeds share) ds)
      ⊎ (budget - watt_sum (keep (fits share) ds)
          < level_sum level (keep (exceeds share) ds) + length (keep (exceeds share) ds))
    → All (λ d. d.1 ≤ level) ds ⊎ (budget < level_sum level ds + length ds)
Filled-spent budget share level ds total parts above (inl satisfied) =
    inl (All-split share level ds above satisfied)
Filled-spent budget share level ds total parts above (inr short) = inr (omega arith)

pub stopped_small : (budget n : ℕ) → 0 < n → (budget == 0 || budget / n == 0) ≡ true → budget < n
stopped_small budget n h stop = ground (arith, share_bounds budget n h)
