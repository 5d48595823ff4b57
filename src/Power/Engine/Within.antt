-- ===== src/Power/Engine/Within.antt =====
-- The watts that the engine gives out, and the total that it reports (modules/stations/power_allocation_engine.py).
use ttcs_t926_k8s4_n1_csms.Base.{
  ℕ, zero, suc, ◌+◌, ◌≤◌, ◌≡◌, refl, sym, ap, subst, ◌∙◌, Bool, true, false, Option, none, some,
  List, [], ◌∷◌, length, keep, if◌then◌else◌, arith,
}
use ttcs_t926_k8s4_n1_csms.Base.Int.{ℤ, pos, negsuc, pos_part}
use ttcs_t926_k8s4_n1_csms.Power.Allocation.Dict.{Watts}
use ttcs_t926_k8s4_n1_csms.Power.Engine.{
  SessionDemand, AllocationResult, same_session, remove, give_zero, distribute, classified, Reason,
  no_reason, no_limit, nobody_fits, ids, newest_first, decreases, increases, stays_same, targets,
  stopped, has_id, share_among, shared, under_limit, phan_bo_cong_suat,
}
use ttcs_t926_k8s4_n1_csms.Power.Engine.Preempt.{Stopping, enough, drop, preempt-Stopping}
use ttcs_t926_k8s4_n1_csms.Power.Engine.Parts.{target_sum, total-Unique, Unique}
use ttcs_t926_k8s4_n1_csms.Power.Engine.Limit.{target_sum-give_zero, distribute_within}

has_id-remove :
    (k : ℕ) (s : SessionDemand) (ss : List SessionDemand)
    → has_id k ss ≡ false
    → has_id k (remove s ss) ≡ false
has_id-remove k s [] h = refl
has_id-remove k s (t ∷ ts) h = ground (arith, has_id-remove k s ts)

Unique-remove : (s : SessionDemand) (ss : List SessionDemand) → Unique ss → Unique (remove s ss)
Unique-remove s [] u = tt
Unique-remove s (t ∷ ts) (n, u) =
    go (same_session t s) (has_id-remove t.session_id s ts n) (Unique-remove s ts u)
  where
    go :
        (c : Bool)
        → has_id t.session_id (remove s ts) ≡ false
        → Unique (remove s ts)
        → Unique (if c then ts else t ∷ remove s ts)
    go true m v = u
    go false m v = (m, v)

Unique-stay :
    (limit : ℕ) (ss stay stop : List SessionDemand)
    → Stopping limit ss stay stop
    → Unique ss
    → Unique stay
Unique-stay limit ss stay stop (enough _ l) u = u
Unique-stay limit ss stay stop (drop _ _ rest s l h n k) u =
    Unique-stay limit (remove s ss) stay rest k (Unique-remove s ss u)

target_sum-none : (ss : List SessionDemand) → target_sum (λ k. none) ss ≡ 0
target_sum-none [] = refl
target_sum-none (s ∷ ss) = let k = target_sum-none ss in omega arith

-- The watts of a list of targets.
abbrev pub watts_of : List (ℕ × ℕ) → ℕ
watts_of [] = 0
watts_of ((i, w) ∷ l) = w + watts_of l

-- The watts that a result gives to sessions.
abbrev pub given_out : AllocationResult → ℕ
given_out r = watts_of r.to_decrease + watts_of r.to_increase + watts_of r.unchanged

-- Each session's target stands in one of the three lists.
watts_of-targets :
    (w : Watts) (ss : List SessionDemand)
    → watts_of (targets w (keep (decreases w) ss))
        + watts_of (targets w (keep (increases w) ss))
        + watts_of (targets w (keep (stays_same w) ss))
      ≡ target_sum w ss
watts_of-targets w [] = omega arith
watts_of-targets w (s ∷ ss) = ground (arith, watts_of-targets w ss)

-- What a result gives out: its total, and no more than the limit.
abbrev Sums : ℕ → AllocationResult → Type 0
Sums limit r = (given_out r ≡ r.allocated_total_w) × (r.allocated_total_w ≤ limit)

stopped-Sums : (limit : ℕ) (l : List ℕ) (x : Reason) (d : Bool) → Sums limit (stopped l x d)
stopped-Sums limit l x d = (omega arith, omega arith)

some_inj : {a b : AllocationResult} → some a ≡ some b → a ≡ b
some_inj h = cc

share_among-Sums :
    (limit : ℕ) (stay stop : List SessionDemand) (r : AllocationResult)
    → Unique stay
    → share_among limit stay stop ≡ some r
    → Sums limit r
unfolding share_among
share_among-Sums limit [] stop r u h =
    subst (Sums limit) (some_inj h) (stopped-Sums limit (ids stop) nobody_fits true)
share_among-Sums limit (s ∷ ss) stop r u h =
    go (distribute (length (s ∷ ss)) limit (s ∷ ss) (λ k. none)) refl h
  where
    go :
        (o : Option Watts)
        → distribute (length (s ∷ ss)) limit (s ∷ ss) (λ k. none) ≡ o
        → classified (s ∷ ss) stop o ≡ some r
        → Sums limit r
    go none e k = cc
    go (some w) e k =
        let v = give_zero (s ∷ ss) w in
        let all = total-Unique v (s ∷ ss) u in
        let z = target_sum-give_zero (s ∷ ss) (s ∷ ss) w in
        let l =
          distribute_within (length (s ∷ ss)) limit (s ∷ ss) (λ k. none) w u
            (target_sum-none (s ∷ ss)) e in
        subst (Sums limit) (some_inj k)
          (watts_of-targets v (s ∷ ss) ∙ sym all, rw all (omega arith))

-- Where no session id stands twice, the watts of all targets that the engine returns add up to the total
-- that it reports, and that is no more than the limit, and none where the limit is not positive.
pub phan_bo_cong_suat_within :
    (limit : ℤ) (ss : List SessionDemand) (r : AllocationResult)
    → Unique ss
    → phan_bo_cong_suat limit ss ≡ some r
    → (given_out r ≡ r.allocated_total_w) × (r.allocated_total_w ≤ pos_part limit)
unfolding phan_bo_cong_suat under_limit
phan_bo_cong_suat_within limit [] r u h =
    subst (Sums (pos_part limit)) (some_inj h) (stopped-Sums (pos_part limit) [] no_reason false)
phan_bo_cong_suat_within (negsuc n) (s ∷ ss) r u h =
    subst (Sums 0) (some_inj h) (stopped-Sums 0 (ids (newest_first (s ∷ ss))) no_limit true)
phan_bo_cong_suat_within (pos zero) (s ∷ ss) r u h =
    subst (Sums 0) (some_inj h) (stopped-Sums 0 (ids (newest_first (s ∷ ss))) no_limit true)
phan_bo_cong_suat_within (pos (suc n)) (s ∷ ss) r u h =
    let p = preempt-Stopping (suc n) (length (s ∷ ss)) (s ∷ ss) (omega arith) in
    share_among-Sums (suc n) p.stay p.stop r
      (Unique-stay (suc n) (s ∷ ss) p.stay p.stop p.stopping u) (sym (ap (shared (suc n)) p.is) ∙ h)
