-- ===== src/Power/Allocation/Fair.antt =====
-- What `allocate_watts` (modules/power/allocation.py) promises its callers.
use ttcs_t926_k8s4_n1_csms.Base.{
  ℕ, ap, sym, ◌∙◌, ◌+◌, ◌≤◌, ◌<◌, ◌≡◌, refl, ◌↔◌, ◌⊎◌, inl, inr, true, false, Option, none, some,
  List, [], ◌∷◌, All, length, keep, length-keep, arith,
}
use ttcs_t926_k8s4_n1_csms.Base.Int.{ℤ, pos, negsuc, ◌<ℤ◌}
use ttcs_t926_k8s4_n1_csms.Power.Allocation.{
  allocated, value_error, any_negative, to_demands, zeros, is_positive, allocate_watts,
}
use ttcs_t926_k8s4_n1_csms.Power.Allocation.Dict.{
  Watts, Demands, lookup, Distinct, level_sum, lookup-keep, keep-Distinct,
}
use ttcs_t926_k8s4_n1_csms.Power.Allocation.Split.{leveled}
use ttcs_t926_k8s4_n1_csms.Power.Allocation.Level.{fill_level}
use ttcs_t926_k8s4_n1_csms.Power.Allocation.Share.{Zeroed}

-- Demands as the caller passes them.
abbrev pub as_ints : Demands → List (ℕ × ℤ)
as_ints [] = []
as_ints ((k, v) ∷ ds) = (k, pos v) ∷ as_ints ds

to_demands-as_ints : (ds : Demands) → to_demands (as_ints ds) ≡ ds
to_demands-as_ints [] = refl
to_demands-as_ints ((k, v) ∷ ds) = cc (to_demands-as_ints ds)

any_negative-as_ints : (ds : Demands) → any_negative (as_ints ds) ≡ false
any_negative-as_ints [] = refl
any_negative-as_ints ((k, v) ∷ ds) = ground (arith, any_negative-as_ints ds)

zeros_at : (k : ℕ) (ds : Demands) → zeros ds k ≡ leveled 0 (lookup k ds) none
zeros_at k [] = refl
zeros_at k ((j, v) ∷ ds) = ground (arith, zeros_at k ds)

served_positive :
    (level k : ℕ) (ds : Demands)
    → Distinct ds
    → leveled level (lookup k (keep is_positive ds)) (zeros ds k) ≡ leveled level (lookup k ds) none
served_positive level k ds distinct =
    ground (arith, zeros_at k ds, lookup-keep is_positive k ds distinct)

level_sum-positive :
    (level : ℕ) (ds : Demands) → level_sum level (keep is_positive ds) ≡ level_sum level ds
level_sum-positive level [] = refl
level_sum-positive level ((k, v) ∷ ds) = ground (arith, level_sum-positive level ds)

All-positive :
    (level : ℕ) (ds : Demands)
    → All (λ d. d.1 ≤ level) (keep is_positive ds)
    → All (λ d. d.1 ≤ level) ds
All-positive level [] h = tt
All-positive level ((k, v) ∷ ds) h = ground (arith, All-positive level ds)

Zeroed-zeros : (ds : Demands) → Distinct ds → Zeroed (keep is_positive ds) (zeros ds)
Zeroed-zeros ds distinct = record {
  at_key = λ k. ground (arith, zeros_at k ds, lookup-keep is_positive k ds distinct);
}

spent_positive :
    (budget level : ℕ) (ds : Demands)
    → All (λ d. d.1 ≤ level) (keep is_positive ds)
      ⊎ (budget < level_sum level (keep is_positive ds) + length (keep is_positive ds))
    → All (λ d. d.1 ≤ level) ds ⊎ (budget < level_sum level ds + length ds)
spent_positive budget level ds (inl satisfied) = inl (All-positive level ds satisfied)
spent_positive budget level ds (inr short) =
    inr (omega (arith, level_sum-positive level ds, length-keep is_positive ds))

-- With a nonnegative budget and nonnegative demands under distinct keys, `allocate_watts` returns,
-- and there is one level of watts such that each key gets the smaller of its demand and the level,
-- a key with no demand gets nothing, and the watts given fit the budget; and either every demand is
-- met, or fewer watts than there are demands stay unused.
pub allocate_watts_level :
    (budget : ℕ) (ds : Demands)
    → Distinct ds
    → (w : Watts) × (level : ℕ) × (allocate_watts (pos budget) (as_ints ds) ≡ allocated w)
      × ((k : ℕ) → w k ≡ leveled level (lookup k ds) none)
      × (level_sum level ds ≤ budget)
      × (All (λ d. d.1 ≤ level) ds ⊎ (budget < level_sum level ds + length ds))
unfolding allocate_watts
allocate_watts_level budget ds distinct =
    let wanted = keep is_positive ds in
    let (w, level, done, f) =
      fill_level (length wanted) budget 0 wanted (zeros ds) (omega arith) (omega arith)
        (keep-Distinct is_positive ds distinct) (Zeroed-zeros ds distinct) in
    (
      w,
      level,
      rw (any_negative-as_ints, to_demands-as_ints, done),
      λ k. f.served k ∙ served_positive level k ds distinct,
      omega (arith, level_sum-positive level ds, f.within),
      spent_positive budget level ds f.spent,
    )

fair_level :
    (level : ℕ) (o : Option ℕ) (x v y : ℕ)
    → leveled level (some v) none ≡ some x
    → x < v
    → leveled level o none ≡ some y
    → y ≤ x
fair_level level o x v y e short f = ground arith

allocated-injective : (w w' : Watts) → allocated w ≡ allocated w' → w ≡ w'
allocated-injective w w' e = cc

-- Nobody gains from another's shortage: where key `i` gets fewer watts than it asks for, no key
-- gets more watts than `i`.
pub allocate_watts_fair :
    (budget : ℕ) (ds : Demands) (w : Watts) (i j v x y : ℕ)
    → Distinct ds
    → allocate_watts (pos budget) (as_ints ds) ≡ allocated w
    → lookup i ds ≡ some v
    → w i ≡ some x
    → x < v
    → w j ≡ some y
    → y ≤ x
allocate_watts_fair budget ds w i j v x y distinct run asked got short other =
    let (w', level, done, served, _, _) = allocate_watts_level budget ds distinct in
    let same : w' ≡ w = allocated-injective w' w (sym done ∙ run) in
    let at : (k : ℕ) → w k ≡ leveled level (lookup k ds) none =
      λ k. sym (ap (λ (f : Watts). f k) same) ∙ served k in
    fair_level level (lookup j ds) x v y
      (sym (ap (λ (o : Option ℕ). leveled level o none) asked) ∙ sym (at i) ∙ got) short
      (sym (at j) ∙ other)

abbrev pub SomeNegative : List (ℕ × ℤ) → Type 0
SomeNegative [] = ⊥
SomeNegative ((k, v) ∷ ds) = (v <ℤ pos 0) ⊎ SomeNegative ds

any_negative_iff : (ds : List (ℕ × ℤ)) → (any_negative ds ≡ true) ↔ SomeNegative ds
any_negative_iff [] = (λ h. cc, λ h. absurd h)
any_negative_iff ((k, v) ∷ ds) =
    let ih = any_negative_iff ds in (λ h. ground (arith, ih), λ h. ground (arith, ih))

-- `allocate_watts` raises exactly when the budget or one of the demands is negative.
pub allocate_watts_errors :
    (budget : ℤ) (demands : List (ℕ × ℤ))
    → (allocate_watts budget demands ≡ value_error) ↔ ((budget <ℤ pos 0) ⊎ SomeNegative demands)
unfolding allocate_watts
allocate_watts_errors (pos b) demands =
    let iff = any_negative_iff demands in (λ h. ground (arith, iff), λ h. ground (arith, iff))
allocate_watts_errors (negsuc b) demands = (λ h. inl (omega arith), λ h. refl)
