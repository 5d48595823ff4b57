-- ===== src/Wallet/Tx.antt =====
-- Database transactions: an action reads and writes the tables, or raises. A raise undoes what the
-- action wrote: every `except` of the program that goes on with the same transaction stands around
-- a savepoint (`begin_nested`), so the state after a caught raise is the state before.
pub mod Invert
use ttcs_t926_k8s4_n1_csms.Base.{List, Bool, true, false, Option, none, some}
use ttcs_t926_k8s4_n1_csms.Base.Text.{Text}
use ttcs_t926_k8s4_n1_csms.Pricing.Bands.{BandIssue}
use ttcs_t926_k8s4_n1_csms.Wallet.Tables.{Db}

-- modules/wallet/exceptions.py, those of invoicing and of tariffs, and the built-in exceptions that the services raise.
-- `unending` stands for a loop that does not end.
pub data Error : Type 0 where
  wallet_not_found wallet_locked wallet_ownership ledger_conflict wallet_amount : Error
  adjustment_audit admin_required reconciliation request_conflict driver_required : Error
  topup_reason value_error lookup_error integrity_error gateway_taken : Error
  session_not_found tariff_not_found key_error assertion_error unending : Error
  station_ownership tariff_effective_date tariff_duplicate_date tariff_immutable : Error
  tariff_bands : List BandIssue → Error
  -- `_InvalidInvoice` with its reason code.
  invalid_invoice : Text → Error

pub data Result (A : Type 0) : Type 0 where
  ok : A → Result A
  err : Error → Result A

abbrev pub Tx : Type 0 → Type 0
Tx A = Db → Result (A × Db)

module _ {A : Type 0} where
  abbrev pub pure : A → Tx A
  pure a db = ok (a, db)

  abbrev pub raise : Error → Tx A
  raise e db = err e

  abbrev pub gets : (Db → A) → Tx A
  gets f db = ok (f db, db)

  abbrev pub or_raise : Option A → Error → Tx A
  or_raise none e db = err e
  or_raise (some a) e db = ok (a, db)

infixl 5 ◌>>=◌ ◌>>◌
abbrev pub ◌>>=◌ : {A B : Type 0} → Tx A → (A → Tx B) → Tx B
◌>>=◌ m f db = elim (m db) [ err e ↦ err e | ok (a, db') ↦ f a db' ]

abbrev pub ◌>>◌ : {A B : Type 0} → Tx A → Tx B → Tx B
m >> k = m >>= λ _. k

abbrev pub raise_if : Bool → Error → Tx (Unit {0})
raise_if c e db = elim c [ true ↦ err e | false ↦ ok (tt, db) ]

abbrev pub modify : (Db → Db) → Tx (Unit {0})
modify f db = ok (tt, f db)
