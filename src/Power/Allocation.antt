-- ===== src/Power/Allocation.antt =====
-- modules/power/allocation.py: integer-watt, equal-share water filling.
-- Keys (UUIDs) are only compared, so they are numbers; a dict is a function from its keys.
pub mod Dict
pub mod Split
pub mod Level
pub mod Share
pub mod Fair
use ttcs_t926_k8s4_n1_csms.Base.{
  ℕ, zero, suc, ◌-◌, ◌/◌, Bool, true, false, not, ◌||◌, Option, none, some, List, [], ◌∷◌, length,
  keep, is_empty, leb, ◌==◌, if◌then◌else◌,
}
use ttcs_t926_k8s4_n1_csms.Base.Int.{ℤ, pos, negsuc, pos_part, ltb_ℤ}
use Dict.{Watts, put, Demands, watt_sum}

-- `result[key] = value` for each of the listed demands.
unfoldable pub settle : Demands → Watts → Watts
settle [] result = result
settle ((k, v) ∷ ds) result = settle ds (put k v result)

-- `result[key] = share` for each of the remaining demands.
unfoldable pub share_out : ℕ → Demands → Watts → Watts
share_out share [] result = result
share_out share ((k, v) ∷ ds) result = share_out share ds (put k share result)

abbrev pub fits : ℕ → ℕ × ℕ → Bool
fits share d = leb d.1 share

abbrev pub exceeds : ℕ → ℕ × ℕ → Bool
exceeds share d = not (leb d.1 share)

-- `while remaining and budget`; `none` means that the fuel ran out.
unfoldable pub fill : ℕ → ℕ → Demands → Watts → Option Watts
fill fuel budget [] result = some result
fill zero budget (d ∷ ds) result = none
fill (suc fuel) budget (d ∷ ds) result =
    let remaining : Demands = d ∷ ds in
    let share = budget / length remaining in
    let capped = keep (fits share) remaining in
    let next =
      fill fuel (budget - watt_sum capped) (keep (exceeds share) remaining)
        (settle capped result) in
    if budget == 0 || share == 0
    then some result
    else if is_empty capped
    then some (share_out share remaining result)
    else next

pub data Allocation : Type 0 where
  allocated : Watts → Allocation
  value_error : Allocation
  out_of_fuel : Allocation

abbrev pub from_option : Option Watts → Allocation
from_option none = out_of_fuel
from_option (some w) = allocated w

abbrev pub any_negative : List (ℕ × ℤ) → Bool
any_negative [] = false
any_negative ((k, v) ∷ ds) = ltb_ℤ v (pos 0) || any_negative ds

-- The demands as numbers, once none is negative.
abbrev pub to_demands : List (ℕ × ℤ) → Demands
to_demands [] = []
to_demands ((k, v) ∷ ds) = (k, pos_part v) ∷ to_demands ds

abbrev pub zeros : Demands → Watts
zeros [] = λ k. none
zeros ((j, v) ∷ ds) = put j 0 (zeros ds)

abbrev pub is_positive : ℕ × ℕ → Bool
is_positive d = not (d.1 == 0)

-- The body below the two checks.
unfoldable pub allocate : ℕ → Demands → Option Watts
allocate budget ds =
    let remaining = keep is_positive ds in fill (length remaining) budget remaining (zeros ds)

unfoldable pub allocate_watts : ℤ → List (ℕ × ℤ) → Allocation
unfolding allocate
allocate_watts (negsuc b) demands = value_error
allocate_watts (pos b) demands =
    if any_negative demands then value_error else from_option (allocate b (to_demands demands))
