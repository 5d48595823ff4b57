-- ===== src/Power/Engine.antt =====
-- modules/stations/power_allocation_engine.py: the power of a station's sessions under its limit.
-- Ids and instants are only compared, so they are numbers; watts of a session are not negative.
pub mod Preempt
pub mod Stops
pub mod Parts
pub mod Limit
pub mod Within
mod Tests
use ttcs_t926_k8s4_n1_csms.Base.{
  ℕ, zero, suc, ◌+◌, ◌-◌, ◌/◌, Bool, true, false, not, ◌&&◌, ◌||◌, Option, none, some, List, [],
  ◌∷◌, ◌++◌, length, keep, is_empty, ltb, leb, ◌==◌, if◌then◌else◌,
}
use ttcs_t926_k8s4_n1_csms.Base.Int.{ℤ, pos, negsuc}
use ttcs_t926_k8s4_n1_csms.Power.Allocation.Dict.{Watts, put}

pub record SessionDemand : Type 0 where
  pub session_id : ℕ
  pub started_at : ℕ
  pub current_w : ℕ
  pub nominal_w : ℕ
  pub min_w : ℕ

-- `preemption_reason` by its kind; the texts name the limit and the number of sessions.
pub data Reason : Type 0 where
  no_reason no_limit nobody_fits newest_stopped : Reason

pub record AllocationResult : Type 0 where
  pub to_decrease : List (ℕ × ℕ)
  pub to_increase : List (ℕ × ℕ)
  pub unchanged : List (ℕ × ℕ)
  pub to_preempt : List ℕ
  pub preemption_reason : Reason
  pub allocated_total_w : ℕ
  pub is_degraded : Bool

-- `key=lambda s: (s.started_at, s.session_id)`: the key of `a` is less than that of `b`.
abbrev pub earlier : SessionDemand → SessionDemand → Bool
earlier a b =
    ltb a.started_at b.started_at || a.started_at == b.started_at && ltb a.session_id b.session_id

-- `max`: the first of the greatest.
abbrev pub newest : SessionDemand → List SessionDemand → SessionDemand
newest s [] = s
newest s (t ∷ ts) = newest (if earlier s t then t else s) ts

abbrev pub same_session : SessionDemand → SessionDemand → Bool
same_session a b =
    a.session_id == b.session_id
    && a.started_at == b.started_at
    && a.current_w == b.current_w
    && a.nominal_w == b.nominal_w
    && a.min_w == b.min_w

-- `list.remove`: the first that is equal.
abbrev pub remove : SessionDemand → List SessionDemand → List SessionDemand
remove s [] = []
remove s (t ∷ ts) = if same_session t s then ts else t ∷ remove s ts

abbrev pub min_sum : List SessionDemand → ℕ
min_sum [] = 0
min_sum (s ∷ ss) = s.min_w + min_sum ss

abbrev pub ids : List SessionDemand → List ℕ
ids [] = []
ids (s ∷ ss) = s.session_id ∷ ids ss

-- `while active and sum(…) > limit_w`: those that stay and those that stop, in the order of the
-- stops; `none` means that the fuel ran out.
unfoldable pub preempt :
    ℕ → ℕ → List SessionDemand → Option (List SessionDemand × List SessionDemand)
preempt fuel limit [] = some ([], [])
preempt zero limit (s ∷ ss) = if ltb limit (min_sum (s ∷ ss)) then none else some (s ∷ ss, [])
preempt (suc fuel) limit (s ∷ ss) =
    let last = newest s ss in
    let rest = preempt fuel limit (remove last (s ∷ ss)) in
    if ltb limit (min_sum (s ∷ ss))
    then (elim rest [ none ↦ none | some (stay, stop) ↦ some (stay, last ∷ stop) ])
    else some (s ∷ ss, [])

-- `sorted(…, reverse=True)`: the newest first, equal keys in their order.
abbrev pub put_newest : SessionDemand → List SessionDemand → List SessionDemand
put_newest s [] = s ∷ []
put_newest s (t ∷ ts) = if earlier s t then t ∷ put_newest s ts else s ∷ t ∷ ts

abbrev pub newest_first : List SessionDemand → List SessionDemand
newest_first [] = []
newest_first (s ∷ ss) = put_newest s (newest_first ss)

abbrev pub nominal_sum : List SessionDemand → ℕ
nominal_sum [] = 0
nominal_sum (s ∷ ss) = s.nominal_w + nominal_sum ss

abbrev pub capped_at : ℕ → SessionDemand → Bool
capped_at share s = leb s.nominal_w share

abbrev pub above : ℕ → SessionDemand → Bool
above share s = not (leb s.nominal_w share)

-- `allocated[s.session_id] = s.nominal_w`
abbrev pub give_nominal : List SessionDemand → Watts → Watts
give_nominal [] w = w
give_nominal (s ∷ ss) w = give_nominal ss (put s.session_id s.nominal_w w)

-- `allocated[s.session_id] = equal_share`
abbrev pub give_share : ℕ → List SessionDemand → Watts → Watts
give_share share [] w = w
give_share share (s ∷ ss) w = give_share share ss (put s.session_id share w)

abbrev pub or_nothing : Option ℕ → ℕ
or_nothing none = 0
or_nothing (some n) = n

-- `allocated[s.session_id] = allocated.get(s.session_id, 0)`, which is also what the loop after it
-- does for the sessions that it finds missing.
abbrev pub give_zero : List SessionDemand → Watts → Watts
give_zero [] w = w
give_zero (s ∷ ss) w = give_zero ss (put s.session_id (or_nothing (w s.session_id)) w)

-- `while unassigned and remaining_budget > 0`; `none` means that the fuel ran out.
unfoldable pub distribute : ℕ → ℕ → List SessionDemand → Watts → Option Watts
distribute fuel budget [] w = some w
distribute zero budget (s ∷ ss) w = none
distribute (suc fuel) budget (s ∷ ss) w =
    let unassigned : List SessionDemand = s ∷ ss in
    let share = budget / length unassigned in
    let satisfied = keep (capped_at share) unassigned in
    let next =
      distribute fuel (budget - nominal_sum satisfied) (keep (above share) unassigned)
        (give_nominal satisfied w) in
    if budget == 0
    then some w
    else if share == 0
    then some (give_zero unassigned w)
    else if is_empty satisfied
    then some (give_share share unassigned w)
    else next

-- The classification of the sessions that stay, one dictionary at a time.
abbrev pub target : Watts → SessionDemand → ℕ
target w s = or_nothing (w s.session_id)

abbrev pub decreases : Watts → SessionDemand → Bool
decreases w s = ltb (target w s) s.current_w

abbrev pub increases : Watts → SessionDemand → Bool
increases w s = ltb s.current_w (target w s)

abbrev pub stays_same : Watts → SessionDemand → Bool
stays_same w s = target w s == s.current_w

abbrev pub targets : Watts → List SessionDemand → List (ℕ × ℕ)
targets w [] = []
targets w (s ∷ ss) = (s.session_id, target w s) ∷ targets w ss

abbrev pub has_id : ℕ → List SessionDemand → Bool
has_id k [] = false
has_id k (s ∷ ss) = k == s.session_id || has_id k ss

-- `sum(allocated.values())`: an id that stands twice is one key.
abbrev pub total : Watts → List SessionDemand → ℕ
total w [] = 0
total w (s ∷ ss) = if has_id s.session_id ss then total w ss else target w s + total w ss

-- A result without targets.
abbrev pub stopped : List ℕ → Reason → Bool → AllocationResult
stopped preempted reason degraded = record {
  to_decrease = [];
  to_increase = [];
  unchanged = [];
  to_preempt = preempted;
  preemption_reason = reason;
  allocated_total_w = 0;
  is_degraded = degraded;
}

abbrev pub classify : List SessionDemand → List SessionDemand → Watts → AllocationResult
classify stay stop w = record {
  to_decrease = targets w (keep (decreases w) stay);
  to_increase = targets w (keep (increases w) stay);
  unchanged = targets w (keep (stays_same w) stay);
  to_preempt = ids stop;
  preemption_reason = if is_empty stop then no_reason else newest_stopped;
  allocated_total_w = total w stay;
  is_degraded = false;
}

abbrev pub classified :
    List SessionDemand → List SessionDemand → Option Watts → Option AllocationResult
classified stay stop none = none
classified stay stop (some w) = some (classify stay stop (give_zero stay w))

-- From `if not active` down.
unfoldable pub share_among : ℕ → List SessionDemand → List SessionDemand → Option AllocationResult
share_among limit [] stop = some (stopped (ids stop) nobody_fits true)
share_among limit (s ∷ ss) stop =
    classified (s ∷ ss) stop (distribute (length (s ∷ ss)) limit (s ∷ ss) (λ k. none))

abbrev pub shared : ℕ → Option (List SessionDemand × List SessionDemand) → Option AllocationResult
shared limit none = none
shared limit (some (stay, stop)) = share_among limit stay stop

unfoldable pub under_limit : ℕ → List SessionDemand → Option AllocationResult
under_limit limit sessions = shared limit (preempt (length sessions) limit sessions)

-- `none` stands for a loop that its fuel cut off.
unfoldable pub phan_bo_cong_suat : ℤ → List SessionDemand → Option AllocationResult
phan_bo_cong_suat limit [] = some (stopped [] no_reason false)
phan_bo_cong_suat (negsuc n) (s ∷ ss) = some (stopped (ids (newest_first (s ∷ ss))) no_limit true)
phan_bo_cong_suat (pos zero) (s ∷ ss) = some (stopped (ids (newest_first (s ∷ ss))) no_limit true)
phan_bo_cong_suat (pos (suc n)) (s ∷ ss) = under_limit (suc n) (s ∷ ss)
