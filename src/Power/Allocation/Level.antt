-- ===== src/Power/Allocation/Level.antt =====
-- The allocator of modules/power/allocation.py fills to one water level.
use ttcs_t926_k8s4_n1_csms.Base.{
  ℕ, zero, suc, ◌-◌, ◌*◌, ◌/◌, ◌≤◌, ◌<◌, ◌≡◌, refl, ◌∙◌, inl, inr, false, ◌||◌, some, List, [], ◌∷◌,
  length, keep, is_empty, ◌==◌, arith, Bool-cases,
}
use ttcs_t926_k8s4_n1_csms.Power.Allocation.{settle, share_out, fits, exceeds, fill}
use ttcs_t926_k8s4_n1_csms.Power.Allocation.Dict.{Watts, Demands, Distinct, watt_sum, keep-Distinct}
use ttcs_t926_k8s4_n1_csms.Power.Allocation.Split.{
  watt_sum-capped, length-split, level_sum-split, none_capped,
}
use ttcs_t926_k8s4_n1_csms.Power.Allocation.Share.{
  Filled, served_round, Zeroed, Zeroed-round, share_bounds, share_lower, Filled-zero, Filled-share,
  capped_room, Filled-spent, stopped_small,
}

-- A filling of the demands above the share, after those within it were settled.
Filled-round :
    (budget low share level : ℕ) (ds : Demands) (r r' : Watts)
    → Distinct ds
    → low ≤ share
    → share * length ds ≤ budget
    → Filled
        (budget - watt_sum (keep (fits share) ds))
        share
        level
        (keep (exceeds share) ds)
        (settle (keep (fits share) ds) r)
        r'
    → Filled budget low level ds r r'
Filled-round budget low share level ds r r' distinct lower room f =
    let total = level_sum-split share level ds f.above in
    let capped = watt_sum-capped share ds in
    let parts = length-split share ds in
    let room' = capped_room share budget ds room in
    record {
      served = λ k. f.served k ∙ served_round share level k ds r distinct f.above;
      within = omega (arith, f.within);
      spent = Filled-spent budget share level ds total parts f.above f.spent;
      above = omega (arith, f.above);
    }

not_empty-length {ℓ} : {A : Type ℓ} (xs : List A) → is_empty xs ≡ false → 0 < length xs
not_empty-length [] h = cc
not_empty-length (x ∷ xs) h = omega arith

rest_shorter :
    (share fuel : ℕ) (ds : Demands)
    → length ds ≤ suc fuel
    → is_empty (keep (fits share) ds) ≡ false
    → length (keep (exceeds share) ds) ≤ fuel
rest_shorter share fuel ds enough capped =
    omega (arith, length-split share ds, not_empty-length (keep (fits share) ds) capped)

room_left :
    (share budget : ℕ) (ds : Demands)
    → share * length ds ≤ budget
    → share * length (keep (exceeds share) ds) ≤ budget - watt_sum (keep (fits share) ds)
room_left share budget ds room = omega (arith, capped_room share budget ds room)

-- Enough fuel is one unit for each demand, and the filling has a level.
pub fill_level :
    (fuel budget low : ℕ) (ds : Demands) (r : Watts)
    → length ds ≤ fuel
    → low * length ds ≤ budget
    → Distinct ds
    → Zeroed ds r
    → (r' : Watts) × (level : ℕ) × (fill fuel budget ds r ≡ some r')
      × Filled budget low level ds r r'
unfolding fill
fill_level fuel budget low [] r enough fits_low distinct z = (
  r,
  low,
  refl,
  record { served = λ k. refl; within = omega arith; spent = inl tt; above = omega arith },
)
fill_level zero budget low (d ∷ ds) r enough fits_low distinct z = absurd (omega arith)
fill_level (suc fuel) budget low (d ∷ ds) r enough fits_low distinct z =
    let all : Demands = d ∷ ds in
    let share = budget / length all in
    elim (Bool-cases (budget == 0 || share == 0)) [
      | inl stop ↦ (
        r,
        0,
        rw stop,
        Filled-zero budget low all r z (stopped_small budget (length all) (omega arith) stop)
            fits_low,
      )
      | inr go ↦ elim (Bool-cases (is_empty (keep (fits share) all))) [
        | inl uncapped ↦ (
          share_out share all r,
          share,
          rw (go, uncapped),
          Filled-share budget low all r (omega arith) fits_low distinct
              (none_capped share all uncapped),
        )
        | inr capped ↦
            let (r', level, done, f) =
              fill_level fuel (budget - watt_sum (keep (fits share) all)) share
                (keep (exceeds share) all) (settle (keep (fits share) all) r)
                (rest_shorter share fuel all enough capped)
                (room_left share budget all (share_bounds budget (length all) (omega arith)).0)
                (keep-Distinct (exceeds share) all distinct)
                (Zeroed-round share all r distinct z) in
            (
              r',
              level,
              rw (go, capped) done,
              Filled-round budget low share level all r r' distinct
                  (share_lower budget low (length all) (omega arith) fits_low)
                  (share_bounds budget (length all) (omega arith)).0 f,
            )
      ]
    ]
