-- ===== src/Base/Result.antt =====
-- The result of code that returns or raises, for do blocks, and the reading of a success backwards.
use mathlib.Core.Path.{◌≡◌, refl, ap}
use mathlib.Core.Bool.{Bool, true, false}

module _ {ℓ κ} where
  pub data Result (E : Type ℓ) (A : Type κ) : Type (ℓ ⊔ κ) where
    ok : A → Result E A
    err : E → Result E A

module _ {ℓ} {E : Type ℓ} where
  infixl 5 ◌>>=◌ ◌>>◌
  abbrev pub ◌>>=◌ {κ μ} : {A : Type κ} {B : Type μ} → Result E A → (A → Result E B) → Result E B
  ok a >>= f = f a
  err e >>= f = err e

  abbrev pub ◌>>◌ {κ μ} : {A : Type κ} {B : Type μ} → Result E A → Result E B → Result E B
  m >> k = m >>= λ _. k

  abbrev pub raise_if : Bool → E → Result E (Unit {0})
  raise_if true e = err e
  raise_if false e = ok tt

  pub bind-ok {κ μ} :
      {A : Type κ} {B : Type μ} (m : Result E A) (f : A → Result E B) {b : B}
      → (m >>= f) ≡ ok b
      → (a : A) × (m ≡ ok a) × (f a ≡ ok b)
  bind-ok (ok a) f h = (a, refl, h)
  bind-ok (err e) f h = cc

  pub raise_if-ok {κ} :
      {A : Type κ} (c : Bool) (e : E) (k : Result E A) {a : A}
      → (raise_if c e >> k) ≡ ok a
      → (c ≡ false) × (k ≡ ok a)
  raise_if-ok true e k h = cc
  raise_if-ok false e k h = (refl, h)

  pub bind-run {κ μ} :
      {A : Type κ} {B : Type μ} (m : Result E A) (f : A → Result E B) {a : A}
      → m ≡ ok a
      → (m >>= f) ≡ f a
  bind-run m f h = ap (λ x. x >>= f) h

-- `try` and `except`: what to do with an exception and with a value.
abbrev pub handle {ℓ κ μ} :
    {E : Type ℓ} {A : Type κ} {B : Type μ} → (E → B) → (A → B) → Result E A → B
handle f g (ok a) = g a
handle f g (err e) = f e
