-- ===== src/Wallet/Tx/Invert.antt =====
-- Reading a successful action backwards, one rule for each way that an action begins.
use ttcs_t926_k8s4_n1_csms.Base.{◌≡◌, refl, ap, Bool, true, false, Option, none, some}
use ttcs_t926_k8s4_n1_csms.Wallet.Tables.{Db}
use ttcs_t926_k8s4_n1_csms.Wallet.Tx.{Error, Result, ok, err, Tx, or_raise, ◌>>=◌, raise_if}

module _ {A B : Type 0} where
  pub bind-ok :
      (m : Tx A) (f : A → Tx B) (db : Db) {r : B × Db}
      → (m >>= f) db ≡ ok r
      → (a : A) × (db' : Db) × (m db ≡ ok (a, db')) × (f a db' ≡ ok r)
  bind-ok m f db {r} h = go (m db) refl h
    where
      go :
          (x : Result (A × Db))
          → m db ≡ x
          → let y : Result (B × Db) = elim x [ err e ↦ err e | ok (a, db') ↦ f a db' ] in
            y ≡ ok r → (a : A) × (db' : Db) × (m db ≡ ok (a, db')) × (f a db' ≡ ok r)
      go (ok (a, db')) e k = (a, db', e, k)
      go (err e') e k = cc

  pub or_raise-ok :
      (o : Option A) (e : Error) (f : A → Tx B) (db : Db) {r : B × Db}
      → (or_raise o e >>= f) db ≡ ok r
      → (a : A) × (o ≡ some a) × (f a db ≡ ok r)
  or_raise-ok none e f db h = cc
  or_raise-ok (some a) e f db h = (a, refl, h)

pub raise_if-ok :
    {B : Type 0} (c : Bool) (e : Error) (f : Unit {0} → Tx B) (db : Db) {r : B × Db}
    → (raise_if c e >>= f) db ≡ ok r
    → (c ≡ false) × (f tt db ≡ ok r)
raise_if-ok true e f db h = cc
raise_if-ok false e f db h = (refl, h)

-- The same rules forwards.
module _ {A B : Type 0} where
  pub bind-run :
      (m : Tx A) (f : A → Tx B) (db : Db) {a : A} {db' : Db}
      → m db ≡ ok (a, db')
      → (m >>= f) db ≡ f a db'
  bind-run m f db h =
      ap
        (λ (x : Result (A × Db)).
          let y : Result (B × Db) = elim x [ err e ↦ err e | ok (a, db') ↦ f a db' ] in y)
        h

  pub or_raise-run :
      (o : Option A) (e : Error) (f : A → Tx B) (db : Db) {a : A}
      → o ≡ some a
      → (or_raise o e >>= f) db ≡ f a db
  or_raise-run o e f db h = bind-run (or_raise o e) f db (ap (λ (x : Option A). or_raise x e db) h)

pub raise_if-run :
    {B : Type 0} (c : Bool) (e : Error) (f : Unit {0} → Tx B) (db : Db)
    → c ≡ false
    → (raise_if c e >>= f) db ≡ f tt db
raise_if-run c e f db h = bind-run (raise_if c e) f db (ap (λ x. raise_if x e db) h)

-- The state of a success.
pub ok_state :
    {A : Type 0} {a b : A} {db db' : Db}
    → ◌≡◌ {A = Result (A × Db)} (ok (a, db)) (ok (b, db'))
    → db ≡ db'
ok_state h = cc

pub ok_value :
    {A : Type 0} {a b : A} {db db' : Db}
    → ◌≡◌ {A = Result (A × Db)} (ok (a, db)) (ok (b, db'))
    → a ≡ b
ok_value h = cc
