-- ===== src/Billing/Closure/Counts.antt =====
-- How often a session stands in the lists of `ClosureRunner` (modules/billing/closure.py).
use ttcs_t926_k8s4_n1_csms.Base.{
  ℕ, zero, suc, ◌+◌, ◌≤◌, ◌<◌, ◌≡◌, refl, ap, subst, ◌⊎◌, inl, inr, true, false, Option, none, some,
  List, [], ◌∷◌, ◌++◌, length, ◌==◌, ==_iff, Bool-cases, if◌then◌else◌, arith,
}
use ttcs_t926_k8s4_n1_csms.Billing.Closure.Runner.{Runner, contains, discard, worker_at, put_worker}

abbrev pub same : ℕ → ℕ → ℕ
same i j = if j == i then 1 else 0

-- How often a session stands in a list, and how many workers hold it.
abbrev pub count : ℕ → List ℕ → ℕ
count i [] = 0
count i (j ∷ l) = same i j + count i l

abbrev pub holds : ℕ → Option ℕ → ℕ
holds i none = 0
holds i (some j) = same i j

abbrev pub held : ℕ → List (Option ℕ) → ℕ
held i [] = 0
held i (o ∷ ws) = holds i o + held i ws

pub count-append : (i j : ℕ) (l : List ℕ) → count i (l ++ j ∷ []) ≡ count i l + same i j
count-append i j [] = omega arith
count-append i j (k ∷ l) = omega (arith, count-append i j l)

pub length-append : (j : ℕ) (l : List ℕ) → length (l ++ j ∷ []) ≡ suc (length l)
length-append j [] = refl
length-append j (k ∷ l) = ap suc (length-append j l)

pub contains-count : (i : ℕ) (l : List ℕ) → contains i l ≡ false → count i l ≡ 0
contains-count i [] h = refl
contains-count i (j ∷ l) h = ground (arith, contains-count i l)

pub count-contains : (i : ℕ) (l : List ℕ) → contains i l ≡ true → 0 < count i l
count-contains i [] h = cc
count-contains i (j ∷ l) h = ground (arith, count-contains i l)

pub count-discard-same : (i : ℕ) (l : List ℕ) → count i (discard i l) ≡ 0
count-discard-same i [] = refl
count-discard-same i (j ∷ l) = ground (arith, count-discard-same i l)

pub count-discard : (i k : ℕ) (l : List ℕ) → (i == k) ≡ false → count k (discard i l) ≡ count k l
count-discard i k [] h = refl
count-discard i k (j ∷ l) h = ground (arith, count-discard i k l h)

-- What a discard does to one session and to the others.
abbrev pub Discarded : ℕ → ℕ → List ℕ → Type 0
Discarded i k l =
    ((same k i ≡ 1) × (count k (discard i l) ≡ 0))
    ⊎ ((same k i ≡ 0) × (count k (discard i l) ≡ count k l))

pub discard-Discarded : (i k : ℕ) (l : List ℕ) → Discarded i k l
discard-Discarded i k l = elim (Bool-cases (i == k)) [
  | inl e ↦ inl (
    rw e refl,
    subst (λ x. count x (discard i l) ≡ 0) ((==_iff i k).0 e) (count-discard-same i l),
  )
  | inr e ↦ inr (rw e refl, count-discard i k l e)
]

pub once-added :
    (i k : ℕ) (l : List ℕ) → contains i l ≡ false → count k l ≤ 1 → same k i + count k l ≤ 1
once-added i k l f h = elim (Bool-cases (i == k)) [
  | inl e ↦
      subst (λ x. same x i + count x l ≤ 1) ((==_iff i k).0 e)
        (ground (arith, contains-count i l f))
  | inr e ↦ ground arith
]

pub runner_inj : {r s : Runner} → some r ≡ some s → r ≡ s
runner_inj h = cc

pub held-put_worker :
    (i w : ℕ) (old new : Option ℕ) (ws : List (Option ℕ))
    → worker_at w ws ≡ some old
    → held i (put_worker w new ws) + holds i old ≡ held i ws + holds i new
held-put_worker i w old new [] h = cc
held-put_worker i zero old new (o ∷ ws) h =
    let e : o ≡ old = cc in
    subst (λ x. (holds i new + held i ws) + holds i x ≡ (holds i o + held i ws) + holds i new) e
      (omega arith)
held-put_worker i (suc w) old new (o ∷ ws) h = omega (arith, held-put_worker i w old new ws h)
