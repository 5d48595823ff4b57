-- ===== src/Power/Engine/Stops.antt =====
-- The engine returns under every limit (modules/stations/power_allocation_engine.py), and the sessions
-- that it stops.
use ttcs_t926_k8s4_n1_csms.Base.{
  ℕ, zero, suc, ◌+◌, ◌-◌, ◌/◌, ◌≤◌, ◌≡◌, refl, ap, ◌∙◌, Bool, true, false, none, some, List, [],
  ◌∷◌, All, length, keep, is_empty, ◌==◌, if◌then◌else◌, arith,
}
use ttcs_t926_k8s4_n1_csms.Base.Int.{pos}
use ttcs_t926_k8s4_n1_csms.Power.Allocation.Dict.{Watts}
use ttcs_t926_k8s4_n1_csms.Power.Engine.{
  SessionDemand, AllocationResult, ids, min_sum, capped_at, above, nominal_sum, give_nominal,
  give_share, give_zero, distribute, classify, classified, shared, share_among, under_limit,
  phan_bo_cong_suat,
}
use ttcs_t926_k8s4_n1_csms.Power.Engine.Preempt.{
  Stopping, Newest, preempt-Stopping, min_sum-stay, Newest-stop,
}

length-above :
    (share : ℕ) (ss : List SessionDemand)
    → length (keep (capped_at share) ss) + length (keep (above share) ss) ≡ length ss
length-above share [] = refl
length-above share (s ∷ ss) = ground (arith, length-above share ss)

is_empty-length : {A : Type 0} (l : List A) → is_empty l ≡ false → 1 ≤ length l
is_empty-length [] h = cc
is_empty-length (x ∷ xs) h = omega arith

-- One unit of fuel for each session is enough.
distribute_total :
    (fuel budget : ℕ) (ss : List SessionDemand) (w : Watts)
    → length ss ≤ fuel
    → (w' : Watts) × (distribute fuel budget ss w ≡ some w')
unfolding distribute
distribute_total fuel budget [] w h = (w, refl)
distribute_total zero budget (s ∷ ss) w h = ground arith
distribute_total (suc fuel) budget (s ∷ ss) w h =
    let share = budget / length (s ∷ ss) in
    go (budget == 0) (share == 0) (is_empty (keep (capped_at share) (s ∷ ss))) refl (λ k.
      distribute_total fuel (budget - nominal_sum (keep (capped_at share) (s ∷ ss)))
        (keep (above share) (s ∷ ss)) (give_nominal (keep (capped_at share) (s ∷ ss)) w)
        (let n = is_empty-length (keep (capped_at share) (s ∷ ss)) k in
          let m = length-above share (s ∷ ss) in omega arith))
  where
    go :
        (a b c : Bool)
        → let share = budget / length (s ∷ ss) in
          let satisfied = keep (capped_at share) (s ∷ ss) in
          is_empty satisfied ≡ c
          → (is_empty satisfied ≡ false
              → (w' : Watts) × (distribute fuel
                    (budget - nominal_sum satisfied)
                    (keep (above share) (s ∷ ss))
                    (give_nominal satisfied w)
                  ≡ some w'))
          → (w' : Watts) × ((if a
                then some w
                else if b
                then some (give_zero (s ∷ ss) w)
                else if c
                then some (give_share share (s ∷ ss) w)
                else distribute fuel
                    (budget - nominal_sum satisfied)
                    (keep (above share) (s ∷ ss))
                    (give_nominal satisfied w))
              ≡ some w')
    go true b c e ih = (w, refl)
    go false true c e ih = (give_zero (s ∷ ss) w, refl)
    go false false true e ih = (give_share (budget / length (s ∷ ss)) (s ∷ ss) w, refl)
    go false false false e ih = ih e

share_among_total :
    (limit : ℕ) (stay stop : List SessionDemand)
    → (r : AllocationResult) × (share_among limit stay stop ≡ some r) × (r.to_preempt ≡ ids stop)
unfolding share_among
share_among_total limit [] stop = (_, refl, refl)
share_among_total limit (s ∷ ss) stop =
    let (w, e) = distribute_total (length (s ∷ ss)) limit (s ∷ ss) (λ k. none) (omega arith) in
    (classify (s ∷ ss) stop (give_zero (s ∷ ss) w), ap (classified (s ∷ ss) stop) e, refl)

-- Under a positive limit the engine returns. The sessions that stop are, one after another, the
-- newest of what is left, each while the minimum powers of what is left go over the limit; those that
-- stay have minimum powers within the limit, and none of them is newer than one that stops.
pub phan_bo_cong_suat-Stopping :
    (limit : ℕ) (s : SessionDemand) (ss : List SessionDemand)
    → (r : AllocationResult) × (phan_bo_cong_suat (pos (suc limit)) (s ∷ ss) ≡ some r)
      × (stay : List SessionDemand) × (stop : List SessionDemand) × (r.to_preempt ≡ ids stop)
      × Stopping (suc limit) (s ∷ ss) stay stop
      × (min_sum stay ≤ suc limit)
      × All (λ t. Newest t stay) stop
unfolding phan_bo_cong_suat under_limit
phan_bo_cong_suat-Stopping limit s ss =
    let p = preempt-Stopping (suc limit) (length (s ∷ ss)) (s ∷ ss) (omega arith) in
    let (r, e, q) = share_among_total (suc limit) p.stay p.stop in
    (
      r,
      ap (shared (suc limit)) p.is ∙ e,
      p.stay,
      p.stop,
      q,
      p.stopping,
      min_sum-stay (suc limit) (s ∷ ss) p.stay p.stop p.stopping,
      Newest-stop (suc limit) (s ∷ ss) p.stay p.stop p.stopping,
    )
