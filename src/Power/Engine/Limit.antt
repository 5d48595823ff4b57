-- ===== src/Power/Engine/Limit.antt =====
-- The engine gives out no more than the limit (modules/stations/power_allocation_engine.py).
use native.Mathlib.Nat.{div-mul-le_self}
use ttcs_t926_k8s4_n1_csms.Base.{
  ℕ, zero, suc, ◌-◌, ◌/◌, ◌≤◌, ◌≡◌, refl, sym, ap, ◌∙◌, Bool, true, false, not, some, List, [], ◌∷◌,
  length, keep, is_empty, ◌==◌, if◌then◌else◌, arith,
}
use ttcs_t926_k8s4_n1_csms.Power.Allocation.Dict.{Watts}
use ttcs_t926_k8s4_n1_csms.Power.Engine.Parts.{
  target_sum, Unique, give_nominal-out, give_share-out, target_sum-give_nominal,
  target_sum-give_share, give_zero-same, has_id-keep, Unique-keep, target_sum-split,
  nominal_sum-capped, untouched, Apart-parts,
}
use ttcs_t926_k8s4_n1_csms.Power.Engine.{
  SessionDemand, capped_at, above, nominal_sum, give_nominal, give_share, give_zero, or_nothing,
  distribute, has_id,
}

unsome : {A : Type 0} {a b : A} → some a ≡ some b → a ≡ b
unsome h = cc

not-not : (b : Bool) → b ≡ not (not b)
not-not true = refl
not-not false = refl

pub target_sum-give_zero :
    (ss l : List SessionDemand) (w : Watts) → target_sum (give_zero ss w) l ≡ target_sum w l
target_sum-give_zero ss [] w = refl
target_sum-give_zero ss (s ∷ l) w =
    let h = give_zero-same s.session_id ss w in let k = target_sum-give_zero ss l w in omega arith

distribute-out :
    (fuel budget k : ℕ) (ss : List SessionDemand) (w w' : Watts)
    → distribute fuel budget ss w ≡ some w'
    → has_id k ss ≡ false
    → or_nothing (w' k) ≡ or_nothing (w k)
unfolding distribute
distribute-out fuel budget k [] w w' h n = ap (λ (x : Watts). or_nothing (x k)) (sym (unsome h))
distribute-out zero budget k (s ∷ ss) w w' h n = cc
distribute-out (suc fuel) budget k (s ∷ ss) w w' h n =
    let share = budget / length (s ∷ ss) in
    let satisfied = keep (capped_at share) (s ∷ ss) in
    go (budget == 0) (share == 0) (is_empty satisfied)
      (λ h'.
        distribute-out fuel (budget - nominal_sum satisfied) k (keep (above share) (s ∷ ss))
          (give_nominal satisfied w) w' h' (has_id-keep k (above share) (s ∷ ss) n)
        ∙ ap or_nothing
            (give_nominal-out k satisfied w (has_id-keep k (capped_at share) (s ∷ ss) n)))
      h
  where
    go :
        (a b c : Bool)
        → let share = budget / length (s ∷ ss) in
          let satisfied = keep (capped_at share) (s ∷ ss) in
          let next =
            distribute fuel
              (budget - nominal_sum satisfied)
              (keep (above share) (s ∷ ss))
              (give_nominal satisfied w) in
          (next ≡ some w' → or_nothing (w' k) ≡ or_nothing (w k))
          → (if a
              then some w
              else if b
              then some (give_zero (s ∷ ss) w)
              else if c
              then some (give_share share (s ∷ ss) w)
              else next)
            ≡ some w'
          → or_nothing (w' k) ≡ or_nothing (w k)
    go true b c ih h = ap (λ (x : Watts). or_nothing (x k)) (sym (unsome h))
    go false true c ih h =
        ap (λ (x : Watts). or_nothing (x k)) (sym (unsome h)) ∙ give_zero-same k (s ∷ ss) w
    go false false true ih h =
        ap (λ (x : Watts). or_nothing (x k)) (sym (unsome h))
        ∙ ap or_nothing (give_share-out (budget / length (s ∷ ss)) k (s ∷ ss) w n)
    go false false false ih h = ih h

-- From sessions without watts the loop gives out no more than the budget.
pub distribute_within :
    (fuel budget : ℕ) (ss : List SessionDemand) (w w' : Watts)
    → Unique ss
    → target_sum w ss ≡ 0
    → distribute fuel budget ss w ≡ some w'
    → target_sum w' ss ≤ budget
unfolding distribute
distribute_within fuel budget [] w w' u z h = omega arith
distribute_within zero budget (s ∷ ss) w w' u z h = cc
distribute_within (suc fuel) budget (s ∷ ss) w w' u z h =
    let share = budget / length (s ∷ ss) in
    let satisfied = keep (capped_at share) (s ∷ ss) in
    let left = keep (above share) (s ∷ ss) in
    let w1 = give_nominal satisfied w in
    let used = nominal_sum-capped share (s ∷ ss) in
    let most = div-mul-le_self budget (length (s ∷ ss)) in
    let parts = target_sum-split share w (s ∷ ss) in
    go (budget == 0) (share == 0) (is_empty satisfied)
      (λ h'.
        let clear : target_sum w1 left ≡ target_sum w left =
          untouched left satisfied w1 w
            (Apart-parts (above share) (capped_at share) (λ t. not-not (capped_at share t)) (s ∷ ss)
              u)
            (λ k n. ap or_nothing (give_nominal-out k satisfied w n)) in
        let ih =
          distribute_within fuel (budget - nominal_sum satisfied) left w1 w'
            (Unique-keep (above share) (s ∷ ss) u) (omega arith) h' in
        let given : target_sum w' satisfied ≡ nominal_sum satisfied =
          untouched satisfied left w' w1
            (Apart-parts (capped_at share) (above share) (λ t. refl) (s ∷ ss) u)
            (λ k n. distribute-out fuel (budget - nominal_sum satisfied) k left w1 w' h' n)
          ∙ target_sum-give_nominal satisfied w (Unique-keep (capped_at share) (s ∷ ss) u) in
        let sum = target_sum-split share w' (s ∷ ss) in omega arith)
      (let k = target_sum-give_share share (s ∷ ss) w u in omega arith) h
  where
    go :
        (a b c : Bool)
        → let share = budget / length (s ∷ ss) in
          let satisfied = keep (capped_at share) (s ∷ ss) in
          let next =
            distribute fuel
              (budget - nominal_sum satisfied)
              (keep (above share) (s ∷ ss))
              (give_nominal satisfied w) in
          (next ≡ some w' → target_sum w' (s ∷ ss) ≤ budget)
          → target_sum (give_share share (s ∷ ss) w) (s ∷ ss) ≤ budget
          → (if a
              then some w
              else if b
              then some (give_zero (s ∷ ss) w)
              else if c
              then some (give_share share (s ∷ ss) w)
              else next)
            ≡ some w'
          → target_sum w' (s ∷ ss) ≤ budget
    go true b c ih even h =
        let e = ap (λ (x : Watts). target_sum x (s ∷ ss)) (unsome h) in omega arith
    go false true c ih even h =
        let e = ap (λ (x : Watts). target_sum x (s ∷ ss)) (unsome h) in
        let k = target_sum-give_zero (s ∷ ss) (s ∷ ss) w in omega arith
    go false false true ih even h =
        let e = ap (λ (x : Watts). target_sum x (s ∷ ss)) (unsome h) in omega arith
    go false false false ih even h = ih h
