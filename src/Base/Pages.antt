-- ===== src/Base/Pages.antt =====
-- The pages of an ascending list of identifiers, as `limit` makes them of a query that starts after a
-- cursor, the last identifier of the page before.
use ttcs_t926_k8s4_n1_csms.Base.Tests.{ltb, ◌==◌, if◌then◌else◌}
use ttcs_t926_k8s4_n1_csms.Base.Lists.{length, keep}
use ttcs_t926_k8s4_n1_csms.Base.Sorted.{put_point, Ascends, Ascends-put_point, has, least}
use Prim.Native.Nat.{ℕ, zero, suc, ◌≤◌, ◌<◌}
use mathlib.Core.Path.{◌≡◌, refl, ap, ◌∙◌}
use mathlib.Core.Logic.{◌⊎◌, inl, inr}
use mathlib.Core.Bool.{Bool, true, false, ◌&&◌, ◌||◌}
use mathlib.Core.Option.{Option, none, some}
use mathlib.Core.List.{List, [], ◌∷◌}
use native.Mathlib.Omega.{arith}

-- `limit(n)`
abbrev pub limit : ℕ → List ℕ → List ℕ
limit zero l = []
limit (suc n) [] = []
limit (suc n) (i ∷ l) = i ∷ limit n l

abbrev pub last_id : ℕ → List ℕ → ℕ
last_id i [] = i
last_id i (j ∷ l) = last_id j l

-- Whether an identifier comes after the cursor; at first there is none.
abbrev pub is_after : Option ℕ → ℕ → Bool
is_after none i = true
is_after (some c) i = ltb c i

-- The identifiers after the cursor, in order.
abbrev pub ids_after : Option ℕ → List ℕ → List ℕ
ids_after c [] = []
ids_after c (i ∷ l) = if is_after c i then put_point i (ids_after c l) else ids_after c l

abbrev pub Rising : List ℕ → Type 0
Rising [] = Unit
Rising (x ∷ xs) = Ascends x xs

Rising-put_point : (p : ℕ) (l : List ℕ) → Rising l → Rising (put_point p l)
Rising-put_point p [] a = tt
Rising-put_point p (x ∷ xs) a = go (λ h. Ascends-put_point x p xs h a) (ltb p x) (p == x) refl refl
  where
    go :
        (x < p → Ascends x (put_point p xs))
        → (b d : Bool) → ltb p x ≡ b
        → (p == x) ≡ d
        → Rising (if b then p ∷ x ∷ xs else if d then x ∷ xs else x ∷ put_point p xs)
    go k true d e f = (ground arith, a)
    go k false true e f = a
    go k false false e f = k (ground arith)

pub ids_after-Rising : (c : Option ℕ) (l : List ℕ) → Rising (ids_after c l)
ids_after-Rising c [] = tt
ids_after-Rising c (i ∷ l) = go (is_after c i) (ids_after-Rising c l)
  where
    go :
        (b : Bool)
        → Rising (ids_after c l)
        → Rising (if b then put_point i (ids_after c l) else ids_after c l)
    go true k = Rising-put_point i (ids_after c l) k
    go false k = k

has-put_point_or : (e p : ℕ) (l : List ℕ) → has e (put_point p l) ≡ (e == p || has e l)
has-put_point_or e p [] = refl
has-put_point_or e p (x ∷ xs) = ground (arith, has-put_point_or e p xs)

pub has-ids_after :
    (e : ℕ) (c : Option ℕ) (l : List ℕ) → has e (ids_after c l) ≡ (is_after c e && has e l)
has-ids_after e none [] = refl
has-ids_after e (some c) [] = ground arith
has-ids_after e c (i ∷ l) = go (is_after c i) (e == i) refl refl (has-ids_after e c l)
  where
    go :
        (b d : Bool)
        → is_after c i ≡ b
        → (e == i) ≡ d
        → has e (ids_after c l) ≡ (is_after c e && has e l)
        → has e (if b then put_point i (ids_after c l) else ids_after c l)
          ≡ (is_after c e && (d || has e l))
    go true true p q k =
        let own : e ≡ i = ground arith in
        let after : is_after c e ≡ true = ap (is_after c) own ∙ p in
        has-put_point_or e i (ids_after c l) ∙ rw (q, after) refl
    go true false p q k = has-put_point_or e i (ids_after c l) ∙ rw q k
    go false true p q k =
        let own : e ≡ i = ground arith in
        let after : is_after c e ≡ false = ap (is_after c) own ∙ p in k ∙ rw after refl
    go false false p q k = k

pub limit-has : (n i x : ℕ) (l : List ℕ) → has x (i ∷ limit n l) ≡ true → has x (i ∷ l) ≡ true
limit-has zero i x l h = ground arith
limit-has (suc n) i x [] h = h
limit-has (suc n) i x (j ∷ l) h = ground (arith, limit-has n j x l)

pub has-last_id : (i : ℕ) (l : List ℕ) → has (last_id i l) (i ∷ l) ≡ true
has-last_id i [] = ground arith
has-last_id i (j ∷ l) = ground (arith, has-last_id j l)

-- What a page leaves out comes after its last identifier.
pub limit-rest :
    (n i x : ℕ) (l : List ℕ)
    → Ascends i l
    → has x (i ∷ l) ≡ true
    → (has x (i ∷ limit n l) ≡ true) ⊎ (last_id i (limit n l) < x)
limit-rest zero i x l a h = go (x == i) refl
  where
    go : (b : Bool) → (x == i) ≡ b → ((b || false) ≡ true) ⊎ (i < x)
    go true e = inl refl
    go false e = inr (least i x l a (ground arith))
limit-rest (suc n) i x [] a h = inl h
limit-rest (suc n) i x (j ∷ l) a h = go (x == i) refl (λ k. limit-rest n j x l a.1 k)
  where
    go :
        (b : Bool)
        → (x == i) ≡ b
        → (has x (j ∷ l) ≡ true → (has x (j ∷ limit n l) ≡ true) ⊎ (last_id j (limit n l) < x))
        → ((b || has x (j ∷ limit n l)) ≡ true) ⊎ (last_id j (limit n l) < x)
    go true e k = inl refl
    go false e k = k (ground arith)

-- The identifiers that are left after a cursor.
abbrev pub left_after : Option ℕ → List ℕ → ℕ
left_after c l = length (keep (is_after c) l)

left_after_mono :
    (c d : Option ℕ) (l : List ℕ)
    → ((x : ℕ) → is_after d x ≡ true → is_after c x ≡ true)
    → left_after d l ≤ left_after c l
left_after_mono c d [] f = omega arith
left_after_mono c d (x ∷ l) f =
    go (is_after c x) (is_after d x) (λ h. f x h) (left_after_mono c d l f)
  where
    go :
        (a b : Bool)
        → (b ≡ true → a ≡ true)
        → left_after d l ≤ left_after c l
        → length (elim b [ true ↦ x ∷ keep (is_after d) l | false ↦ keep (is_after d) l ])
          ≤ length (elim a [ true ↦ x ∷ keep (is_after c) l | false ↦ keep (is_after c) l ])
    go true true g k = omega arith
    go true false g k = omega arith
    go false true g k = cc (g refl)
    go false false g k = k

after_trans :
    (c : Option ℕ) (j x : ℕ)
    → is_after c j ≡ true
    → is_after (some j) x ≡ true
    → is_after c x ≡ true
after_trans none j x p q = refl
after_trans (some c) j x p q = ground arith

-- A cursor that moves on to an identifier leaves fewer.
pub left_after-less :
    (c : Option ℕ) (j : ℕ) (l : List ℕ)
    → is_after c j ≡ true
    → has j l ≡ true
    → left_after (some j) l < left_after c l
left_after-less c j [] p h = cc
left_after-less c j (x ∷ l) p h =
    go (j == x) (is_after c x) (ltb j x) refl refl refl (λ k. left_after-less c j l p k)
  where
    go :
        (o a b : Bool)
        → (j == x) ≡ o
        → is_after c x ≡ a
        → ltb j x ≡ b
        → (has j l ≡ true → left_after (some j) l < left_after c l)
        → length
            (elim b [ true ↦ x ∷ keep (is_after (some j)) l | false ↦ keep (is_after (some j)) l ])
          < length (elim a [ true ↦ x ∷ keep (is_after c) l | false ↦ keep (is_after c) l ])
    go o true true e f g k = let less = k (ground arith) in omega arith
    go o false true e f g k = cc (after_trans c j x p g)
    go true true false e f g k =
        let most = left_after_mono c (some j) l (λ y q. after_trans c j y p q) in omega arith
    go true false false e f g k = let own : j ≡ x = ground arith in cc (ap (is_after c) own)
    go false true false e f g k = let less = k (ground arith) in omega arith
    go false false false e f g k = k (ground arith)
