-- ===== src/Base/Sorted.antt =====
-- Ascending lists of numbers, as `sorted` makes them of a set.
use ttcs_t926_k8s4_n1_csms.Base.Tests.{ltb, ◌==◌, if◌then◌else◌}
use Prim.Native.Nat.{ℕ, ◌<◌}
use mathlib.Core.Path.{◌≡◌, refl}
use mathlib.Core.Bool.{Bool, true, false, ◌||◌}
use mathlib.Core.List.{List, [], ◌∷◌, ◌++◌}
use native.Mathlib.Omega.{arith}

-- `sorted` of a set: its points in order, each once.
abbrev pub put_point : ℕ → List ℕ → List ℕ
put_point p [] = p ∷ []
put_point p (q ∷ qs) = if ltb p q then p ∷ q ∷ qs else if p == q then q ∷ qs else q ∷ put_point p qs

-- A strictly ascending list above `lo`.
abbrev pub Ascends : ℕ → List ℕ → Type 0
Ascends lo [] = Unit
Ascends lo (x ∷ xs) = (lo < x) × Ascends x xs

abbrev pub has : ℕ → List ℕ → Bool
has e [] = false
has e (x ∷ xs) = e == x || has e xs

pub Ascends-put_point : (lo p : ℕ) (l : List ℕ) → lo < p → Ascends lo l → Ascends lo (put_point p l)
Ascends-put_point lo p [] h a = (h, tt)
Ascends-put_point lo p (x ∷ xs) h (b, a) =
    go (λ k. Ascends-put_point x p xs k a) (ltb p x) (p == x) refl refl
  where
    go :
        (x < p → Ascends x (put_point p xs))
        → (c d : Bool) → ltb p x ≡ c
        → (p == x) ≡ d
        → Ascends lo (if c then p ∷ x ∷ xs else if d then x ∷ xs else x ∷ put_point p xs)
    go ih true d e f = (h, (ground arith, a))
    go ih false true e f = (b, a)
    go ih false false e f = (b, ih (ground arith))

pub has-put_point_self : (p : ℕ) (l : List ℕ) → has p (put_point p l) ≡ true
has-put_point_self p [] = ground arith
has-put_point_self p (x ∷ xs) = ground (arith, has-put_point_self p xs)

pub has-put_point : (e p : ℕ) (l : List ℕ) → has e l ≡ true → has e (put_point p l) ≡ true
has-put_point e p [] h = cc
has-put_point e p (x ∷ xs) h = ground (arith, has-put_point e p xs)

pub least : (lo e : ℕ) (l : List ℕ) → Ascends lo l → has e l ≡ true → lo < e
least lo e [] a h = cc
least lo e (x ∷ xs) a h = ground (arith, least x e xs)

pub has-append : (i : ℕ) (a b : List ℕ) → has i (a ++ b) ≡ (has i a || has i b)
has-append i [] b = refl
has-append i (j ∷ js) b = ground (arith, has-append i js b)
