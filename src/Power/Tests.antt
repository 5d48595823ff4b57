-- ===== src/Power/Tests.antt =====
-- The allocators at concrete inputs.
use ttcs_t926_k8s4_n1_csms.Base.{ℕ, ◌+◌, ◌≤◌, ◌<◌, ◌≡◌, refl, ◌⊎◌, none, some, [], ◌∷◌, All, length}
use ttcs_t926_k8s4_n1_csms.Base.Int.{pos}
use ttcs_t926_k8s4_n1_csms.Power.Allocation.{
  allocate_watts, fill, settle, share_out, allocated, zeros,
}
use ttcs_t926_k8s4_n1_csms.Power.Allocation.Dict.{Watts, Demands, lookup, Distinct, level_sum}
use ttcs_t926_k8s4_n1_csms.Power.Allocation.Split.{leveled}
use ttcs_t926_k8s4_n1_csms.Power.Allocation.Fair.{as_ints, allocate_watts_level}

abbrev demands : Demands
demands = (1, 2000) ∷ (2, 9000) ∷ (3, 0) ∷ (4, 7000) ∷ []

demands-Distinct : Distinct demands
demands-Distinct = (refl, (refl, (refl, (refl, tt))))

abbrev given : Watts
given = share_out 4500 ((2, 9000) ∷ (4, 7000) ∷ []) (settle ((1, 2000) ∷ []) (zeros demands))

allocate_runs : allocate_watts (pos 11001) (as_ints demands) ≡ allocated given
unfolding allocate_watts fill
allocate_runs = refl

given_at : (given 1 ≡ some 2000) × (given 2 ≡ some 4500) × (given 3 ≡ some 0) × (given 5 ≡ none)
unfolding share_out settle
given_at = (refl, refl, refl, refl)

allocate_watts_level_example :
    (w : Watts) × (level : ℕ) × (allocate_watts (pos 11001) (as_ints demands) ≡ allocated w)
    × ((k : ℕ) → w k ≡ leveled level (lookup k demands) none)
    × (level_sum level demands ≤ 11001)
    × (All (λ d. d.1 ≤ level) demands ⊎ (11001 < level_sum level demands + length demands))
allocate_watts_level_example = allocate_watts_level 11001 demands demands-Distinct
