-- ===== src/Power/Engine/Tests.antt =====
-- The engine at concrete inputs: the newest of three sessions stops.
use ttcs_t926_k8s4_n1_csms.Base.{◌≤◌, ◌≡◌, refl, false, some, List, [], ◌∷◌, All}
use ttcs_t926_k8s4_n1_csms.Base.Int.{pos, pos_part}
use ttcs_t926_k8s4_n1_csms.Power.Engine.{
  SessionDemand, AllocationResult, no_reason, newest_stopped, ids, min_sum, preempt, distribute,
  share_among, under_limit, phan_bo_cong_suat,
}
use ttcs_t926_k8s4_n1_csms.Power.Engine.Preempt.{Stopping, Newest}
use ttcs_t926_k8s4_n1_csms.Power.Engine.Within.{given_out, phan_bo_cong_suat_within}
use ttcs_t926_k8s4_n1_csms.Power.Engine.Stops.{phan_bo_cong_suat-Stopping}

abbrev first : SessionDemand
first = record {
  session_id = 1;
  started_at = 100;
  current_w = 3000;
  nominal_w = 7000;
  min_w = 1380;
}

abbrev others : List SessionDemand
others =
    record { session_id = 2; started_at = 300; current_w = 0; nominal_w = 7000; min_w = 1380 }
    ∷ record { session_id = 3; started_at = 200; current_w = 2000; nominal_w = 1500; min_w = 1380 }
    ∷ []

abbrev plan : AllocationResult
plan = record {
  to_decrease = (1, 2500) ∷ (3, 1500) ∷ [];
  to_increase = [];
  unchanged = [];
  to_preempt = 2 ∷ [];
  preemption_reason = newest_stopped;
  allocated_total_w = 4000;
  is_degraded = false;
}

engine_runs : phan_bo_cong_suat (pos 4000) (first ∷ others) ≡ some plan
unfolding phan_bo_cong_suat under_limit preempt share_among distribute
engine_runs = refl

phan_bo_cong_suat-Stopping_example :
    (r : AllocationResult) × (phan_bo_cong_suat (pos 4000) (first ∷ others) ≡ some r)
    × (stay : List SessionDemand) × (stop : List SessionDemand) × (r.to_preempt ≡ ids stop)
    × Stopping 4000 (first ∷ others) stay stop
    × (min_sum stay ≤ 4000)
    × All (λ t. Newest t stay) stop
phan_bo_cong_suat-Stopping_example = phan_bo_cong_suat-Stopping 3999 first others

phan_bo_cong_suat_within_example :
    (given_out plan ≡ plan.allocated_total_w) × (plan.allocated_total_w ≤ pos_part (pos 4000))
phan_bo_cong_suat_within_example =
    phan_bo_cong_suat_within (pos 4000) (first ∷ others) plan (refl, (refl, (refl, tt))) engine_runs

abbrev two : List SessionDemand
two =
    record { session_id = 1; started_at = 100; current_w = 0; nominal_w = 7000; min_w = 3000 }
    ∷ record { session_id = 2; started_at = 200; current_w = 0; nominal_w = 7000; min_w = 1000 }
    ∷ []

-- A session that stays may get less than its minimum power: the equal share is 2000 W.
below_minimum :
    phan_bo_cong_suat (pos 4000) two
    ≡ some (record plan {
      to_decrease = [];
      to_increase = (1, 2000) ∷ (2, 2000) ∷ [];
      to_preempt = [];
      preemption_reason = no_reason;
    })
unfolding phan_bo_cong_suat under_limit preempt share_among distribute
below_minimum = refl
