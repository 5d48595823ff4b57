-- ===== src/Power/Engine/Parts.antt =====
-- Watts by session id: what a step of the engine (modules/stations/power_allocation_engine.py) leaves
-- alone, and the sums of two parts of the sessions.
use ttcs_t926_k8s4_n1_csms.Base.{
  ℕ, ◌+◌, ◌*◌, ◌≤◌, ◌≡◌, refl, ap, ◌∙◌, Bool, true, false, not, Option, some, List, [], ◌∷◌, All,
  length, keep, ◌==◌, if◌then◌else◌, arith,
}
use ttcs_t926_k8s4_n1_csms.Power.Allocation.Dict.{Watts, put}
use ttcs_t926_k8s4_n1_csms.Power.Engine.{
  SessionDemand, capped_at, above, nominal_sum, give_nominal, give_share, give_zero, or_nothing,
  target, total, has_id,
}

-- No id stands twice.
abbrev pub Unique : List SessionDemand → Type 0
Unique [] = Unit
Unique (s ∷ ss) = (has_id s.session_id ss ≡ false) × Unique ss

-- The targets of the sessions, added up.
abbrev pub target_sum : Watts → List SessionDemand → ℕ
target_sum w [] = 0
target_sum w (s ∷ ss) = target w s + target_sum w ss

pub total-Unique : (w : Watts) (ss : List SessionDemand) → Unique ss → total w ss ≡ target_sum w ss
total-Unique w [] u = refl
total-Unique w (s ∷ ss) (n, u) = rw (n, total-Unique w ss u) refl

pub give_nominal-out :
    (k : ℕ) (ss : List SessionDemand) (w : Watts) → has_id k ss ≡ false → give_nominal ss w k ≡ w k
give_nominal-out k [] w h = refl
give_nominal-out k (s ∷ ss) w h =
    ground (arith, give_nominal-out k ss (put s.session_id s.nominal_w w))

pub give_share-out :
    (share k : ℕ) (ss : List SessionDemand) (w : Watts)
    → has_id k ss ≡ false
    → give_share share ss w k ≡ w k
give_share-out share k [] w h = refl
give_share-out share k (s ∷ ss) w h =
    ground (arith, give_share-out share k ss (put s.session_id share w))

put_self : (k v : ℕ) (w : Watts) → put k v w k ≡ some v
put_self k v w = ground arith

pub target_sum-give_nominal :
    (ss : List SessionDemand) (w : Watts)
    → Unique ss
    → target_sum (give_nominal ss w) ss ≡ nominal_sum ss
target_sum-give_nominal [] w u = refl
target_sum-give_nominal (s ∷ ss) w (n, u) =
    let w1 = put s.session_id s.nominal_w w in
    let h =
      ap or_nothing (give_nominal-out s.session_id ss w1 n ∙ put_self s.session_id s.nominal_w w) in
    let k = target_sum-give_nominal ss w1 u in omega arith

pub target_sum-give_share :
    (share : ℕ) (ss : List SessionDemand) (w : Watts)
    → Unique ss
    → target_sum (give_share share ss w) ss ≡ share * length ss
target_sum-give_share share [] w u = omega arith
target_sum-give_share share (s ∷ ss) w (n, u) =
    let w1 = put s.session_id share w in
    let h =
      ap or_nothing (give_share-out share s.session_id ss w1 n ∙ put_self s.session_id share w) in
    let k = target_sum-give_share share ss w1 u in omega arith

or_nothing-put :
    (j k : ℕ) (w : Watts) → or_nothing (put j (or_nothing (w j)) w k) ≡ or_nothing (w k)
or_nothing-put j k w = go (j == k) refl
  where
    go :
        (c : Bool)
        → (j == k) ≡ c
        → let x : Option ℕ = if c then some (or_nothing (w j)) else w k in
          or_nothing x ≡ or_nothing (w k)
    go true e = let jk : j ≡ k = ground arith in ap (λ x. or_nothing (w x)) jk
    go false e = refl

pub give_zero-same :
    (k : ℕ) (ss : List SessionDemand) (w : Watts) → or_nothing (give_zero ss w k) ≡ or_nothing (w k)
give_zero-same k [] w = refl
give_zero-same k (s ∷ ss) w =
    give_zero-same k ss (put s.session_id (or_nothing (w s.session_id)) w)
    ∙ or_nothing-put s.session_id k w

target_sum-same :
    (ss : List SessionDemand) (w v : Watts)
    → All (λ s. target w s ≡ target v s) ss
    → target_sum w ss ≡ target_sum v ss
target_sum-same [] w v a = refl
target_sum-same (s ∷ ss) w v (h, a) = let k = target_sum-same ss w v a in omega arith

pub has_id-keep :
    (k : ℕ) (p : SessionDemand → Bool) (ss : List SessionDemand)
    → has_id k ss ≡ false
    → has_id k (keep p ss) ≡ false
has_id-keep k p [] h = refl
has_id-keep k p (s ∷ ss) h = ground (arith, has_id-keep k p ss)

pub Unique-keep :
    (p : SessionDemand → Bool) (ss : List SessionDemand) → Unique ss → Unique (keep p ss)
Unique-keep p [] u = tt
Unique-keep p (s ∷ ss) (n, u) = go (p s) (has_id-keep s.session_id p ss n) (Unique-keep p ss u)
  where
    go :
        (c : Bool)
        → has_id s.session_id (keep p ss) ≡ false
        → Unique (keep p ss)
        → let l : List SessionDemand = elim c [ true ↦ s ∷ keep p ss | false ↦ keep p ss ] in
          Unique l
    go true m v = (m, v)
    go false m v = v

pub target_sum-split :
    (share : ℕ) (w : Watts) (ss : List SessionDemand)
    → target_sum w ss
      ≡ target_sum w (keep (capped_at share) ss) + target_sum w (keep (above share) ss)
target_sum-split share w [] = refl
target_sum-split share w (s ∷ ss) = ground (arith, target_sum-split share w ss)

pub nominal_sum-capped :
    (share : ℕ) (ss : List SessionDemand)
    → nominal_sum (keep (capped_at share) ss) ≤ share * length ss
nominal_sum-capped share [] = omega arith
nominal_sum-capped share (s ∷ ss) = ground (arith, nominal_sum-capped share ss)

other_ids :
    (k : ℕ) (ss : List SessionDemand)
    → has_id k ss ≡ false
    → All (λ s. (s.session_id == k) ≡ false) ss
other_ids k [] h = tt
other_ids k (s ∷ ss) h = (ground arith, other_ids k ss (ground arith))

All-keep :
    (P : SessionDemand → Type 0) (p : SessionDemand → Bool) (ss : List SessionDemand)
    → All P ss
    → All P (keep p ss)
All-keep P p [] a = tt
All-keep P p (s ∷ ss) (h, a) = go (p s) (All-keep P p ss a)
  where
    go :
        (c : Bool)
        → All P (keep p ss)
        → let l : List SessionDemand = elim c [ true ↦ s ∷ keep p ss | false ↦ keep p ss ] in
          All P l
    go true ih = (h, ih)
    go false ih = ih

-- The ids of one part are none of the other's.
abbrev pub Apart : List SessionDemand → List SessionDemand → Type 0
Apart front back = All (λ s. has_id s.session_id back ≡ false) front

Apart-cons :
    (s : SessionDemand) (front back : List SessionDemand)
    → All (λ t. (t.session_id == s.session_id) ≡ false) front
    → Apart front back
    → Apart front (s ∷ back)
Apart-cons s [] back n a = tt
Apart-cons s (t ∷ ts) back (m, n) (h, a) = (ground arith, Apart-cons s ts back n a)

module _ (p q : SessionDemand → Bool) (excl : (s : SessionDemand) → q s ≡ not (p s)) where
  pub Apart-parts : (ss : List SessionDemand) → Unique ss → Apart (keep p ss) (keep q ss)
  Apart-parts [] u = tt
  Apart-parts (s ∷ ss) (n, u) =
      go (p s) (q s) (excl s) (Apart-parts ss u) (has_id-keep s.session_id q ss n)
        (All-keep (λ t. (t.session_id == s.session_id) ≡ false) p ss (other_ids s.session_id ss n))
    where
      go :
          (c d : Bool)
          → d ≡ not c
          → Apart (keep p ss) (keep q ss)
          → has_id s.session_id (keep q ss) ≡ false
          → All (λ t. (t.session_id == s.session_id) ≡ false) (keep p ss)
          → let front : List SessionDemand = elim c [ true ↦ s ∷ keep p ss | false ↦ keep p ss ] in
            let back : List SessionDemand = elim d [ true ↦ s ∷ keep q ss | false ↦ keep q ss ] in
            Apart front back
      go true false e ih n o = (n, ih)
      go false true e ih n o = Apart-cons s (keep p ss) (keep q ss) o ih
      go true true e ih n o = cc
      go false false e ih n o = cc

-- A table that agrees with another outside `back` gives the sessions of `front` the same.
pub untouched :
    (front back : List SessionDemand) (w v : Watts)
    → Apart front back
    → ((k : ℕ) → has_id k back ≡ false → or_nothing (w k) ≡ or_nothing (v k))
    → target_sum w front ≡ target_sum v front
untouched [] back w v a f = refl
untouched (s ∷ ss) back w v (h, a) f =
    let k = untouched ss back w v a f in let e = f s.session_id h in omega arith
