-- ===== src/Power/Allocation/Split.antt =====
-- One round of water filling: the demands within the share, and those above it.
use Prim.Native.Nat.{min}
use ttcs_t926_k8s4_n1_csms.Base.{
  ℕ, ◌+◌, ◌*◌, ◌≤◌, ◌<◌, ◌≡◌, refl, Bool, true, false, Option, none, some, [], ◌∷◌, All, length,
  keep, is_empty, leb, arith, leb→le,
}
use ttcs_t926_k8s4_n1_csms.Power.Allocation.{settle, share_out, fits, exceeds}
use ttcs_t926_k8s4_n1_csms.Power.Allocation.Dict.{
  Watts, put, Demands, lookup, Distinct, watt_sum, level_sum,
}

abbrev pub or_else : Option ℕ → Option ℕ → Option ℕ
or_else none w = w
or_else (some v) w = some v

-- What a key holds after a filling at a level.
abbrev pub leveled : ℕ → Option ℕ → Option ℕ → Option ℕ
leveled level none w = w
leveled level (some v) w = some (min v level)

pub lookup-settle :
    (k : ℕ) (ds : Demands) (r : Watts) → Distinct ds → settle ds r k ≡ or_else (lookup k ds) (r k)
unfolding settle
lookup-settle k [] r h = refl
lookup-settle k ((j, v) ∷ ds) r h = ground (arith, lookup-settle k ds (put j v r) h.1)

pub lookup-share_out :
    (share k : ℕ) (ds : Demands) (r : Watts)
    → Distinct ds
    → All (λ d. share < d.1) ds
    → share_out share ds r k ≡ leveled share (lookup k ds) (r k)
unfolding share_out
lookup-share_out share k [] r distinct h = refl
lookup-share_out share k ((j, v) ∷ ds) r distinct h =
    ground (arith, lookup-share_out share k ds (put j share r) distinct.1 h.1)

module _ (share : ℕ) where
  pub watt_sum-capped :
      (ds : Demands) → watt_sum (keep (fits share) ds) ≤ share * length (keep (fits share) ds)
  watt_sum-capped [] = omega arith
  watt_sum-capped ((k, v) ∷ ds) =
      capped_round v (leb v share) refl (keep (fits share) ds) (watt_sum-capped ds)
    where
      capped_round :
          (v : ℕ) (b : Bool)
          → leb v share ≡ b
          → (xs : Demands) → watt_sum xs ≤ share * length xs
          → let ys : Demands = elim b [ true ↦ (k, v) ∷ xs | false ↦ xs ] in
            watt_sum ys ≤ share * length ys
      capped_round v true e xs h = omega (arith, leb→le v share e)
      capped_round v false e xs h = h

  pub length-split :
      (ds : Demands) → length (keep (fits share) ds) + length (keep (exceeds share) ds) ≡ length ds
  length-split [] = omega arith
  length-split ((k, v) ∷ ds) = ground (arith, length-split ds)

  pub level_sum-split :
      (level : ℕ) (ds : Demands)
      → share ≤ level
      → level_sum level ds
        ≡ watt_sum (keep (fits share) ds) + level_sum level (keep (exceeds share) ds)
  level_sum-split level [] h = omega arith
  level_sum-split level ((k, v) ∷ ds) h = ground (arith, level_sum-split level ds h)

  pub All-split :
      (level : ℕ) (ds : Demands)
      → share ≤ level
      → All (λ d. d.1 ≤ level) (keep (exceeds share) ds)
      → All (λ d. d.1 ≤ level) ds
  All-split level [] h a = tt
  All-split level ((k, v) ∷ ds) h a = ground (arith, All-split level ds h)

  pub none_capped :
      (ds : Demands) → is_empty (keep (fits share) ds) ≡ true → All (λ d. share < d.1) ds
  none_capped [] h = tt
  none_capped ((k, v) ∷ ds) h = ground (arith, none_capped ds)

  pub level_sum-above :
      (ds : Demands) → All (λ d. share < d.1) ds → level_sum share ds ≡ share * length ds
  level_sum-above [] h = omega arith
  level_sum-above ((k, v) ∷ ds) h = omega (arith, level_sum-above ds h.1, h.0)

pub level_sum-zero : (ds : Demands) → level_sum 0 ds ≡ 0
level_sum-zero [] = refl
level_sum-zero ((k, v) ∷ ds) = omega (arith, level_sum-zero ds)
