-- ===== src/Power/Allocation/Dict.antt =====
-- Dicts of watts as functions of the key, and demands as lists of keys and watts.
use Prim.Native.Nat.{min}
use ttcs_t926_k8s4_n1_csms.Base.{
  ℕ, ◌+◌, ◌≡◌, refl, Bool, Option, none, some, List, [], ◌∷◌, keep, ◌==◌, if◌then◌else◌, arith,
}

abbrev pub Watts : Type 0
Watts = ℕ → Option ℕ

-- `d[k] = v`
abbrev pub put : ℕ → ℕ → Watts → Watts
put k v w j = if k == j then some v else w j

abbrev pub Demands : Type 0
Demands = List (ℕ × ℕ)

abbrev pub lookup : ℕ → Demands → Option ℕ
lookup k [] = none
lookup k ((j, v) ∷ ds) = if j == k then some v else lookup k ds

-- Every key is listed once, as in a mapping.
abbrev pub Distinct : Demands → Type 0
Distinct [] = Unit
Distinct ((j, v) ∷ ds) = (lookup j ds ≡ none) × Distinct ds

abbrev pub watt_sum : Demands → ℕ
watt_sum [] = 0
watt_sum ((k, v) ∷ ds) = v + watt_sum ds

-- What the demands receive at a water level, added up.
abbrev pub level_sum : ℕ → Demands → ℕ
level_sum level [] = 0
level_sum level ((k, v) ∷ ds) = min v level + level_sum level ds

abbrev pub keep_if : (ℕ × ℕ → Bool) → ℕ → Option ℕ → Option ℕ
keep_if p k none = none
keep_if p k (some v) = if p (k, v) then some v else none

module _ (p : ℕ × ℕ → Bool) where
  pub lookup-keep-none : (k : ℕ) (ds : Demands) → lookup k ds ≡ none → lookup k (keep p ds) ≡ none
  lookup-keep-none k [] h = refl
  lookup-keep-none k (d ∷ ds) h = ground (arith, lookup-keep-none k ds)

  pub lookup-keep :
      (k : ℕ) (ds : Demands) → Distinct ds → lookup k (keep p ds) ≡ keep_if p k (lookup k ds)
  lookup-keep k [] h = refl
  lookup-keep k ((j, v) ∷ ds) h = ground (arith, lookup-keep k ds h.1, lookup-keep-none k ds)

  pub keep-Distinct : (ds : Demands) → Distinct ds → Distinct (keep p ds)
  keep-Distinct [] h = h
  keep-Distinct ((j, v) ∷ ds) h = ground (arith, keep-Distinct ds h.1, lookup-keep-none j ds h.0)
