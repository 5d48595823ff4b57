-- ===== src/Wallet/Reconcile.antt =====
-- modules/wallet/reconciliation.py: the inspection of a wallet, and the lock on one that fails it.
pub mod Alike
pub mod Turn
pub mod Locks
pub mod Run
pub mod Written
pub mod Seen
pub mod Swept
mod Tests
use ttcs_t926_k8s4_n1_csms.Base.{
  ℕ, Bool, true, false, not, ◌&&◌, ◌||◌, Option, none, some, List, [], ◌∷◌, ◌++◌, length, keep, map,
  is_empty, ◌==◌, if◌then◌else◌,
}
use ttcs_t926_k8s4_n1_csms.Base.Pages.{ids_after}
use ttcs_t926_k8s4_n1_csms.Base.Int.{ℤ, pos, neg, eqb_ℤ}
use ttcs_t926_k8s4_n1_csms.Base.Text.{Text, codes, text_eq, decimal}
use ttcs_t926_k8s4_n1_csms.Wallet.Uuid.{uuid_text}
use ttcs_t926_k8s4_n1_csms.Wallet.Tables.{
  Wallet, locked, charging_debit, type_eq, Entry, Invoice, ChargingSession, Db, find_wallet,
  find_driver_wallet, set_status, ledger_total,
}
use ttcs_t926_k8s4_n1_csms.Wallet.Tx.{ok, Tx, pure, gets, ◌>>=◌, ◌>>◌, modify}
use ttcs_t926_k8s4_n1_csms.Wallet.Service.{in_range, is_locked, option_eq}
use ttcs_t926_k8s4_n1_csms.Wallet.Journal.{ghi_nhat_ky}

-- The issues, in the order of their names.
pub data Issue : Type 0 where
  balance_mismatch invoice_debit_amount invoice_debit_count invoice_debit_reference : Issue
  invoice_debit_type invoice_debit_wallet invoice_driver_mismatch ledger_total_overflow : Issue

abbrev pub any_of {ℓ} : {A : Type ℓ} → (A → Bool) → List A → Bool
any_of p [] = false
any_of p (x ∷ xs) = p x || any_of p xs

-- `entry_type == "charging_debit" or reference_type == "charging_session"`
abbrev pub is_debit : Entry → Bool
is_debit e =
    type_eq e.entry_type charging_debit || text_eq e.reference_type (codes "charging_session")

-- `reference_id.in_([str(charging.id), str(invoice.id)])`
abbrev pub names : Invoice → ChargingSession → Entry → Bool
names v c e = text_eq e.reference_id (decimal c.id) || text_eq e.reference_id (uuid_text v.id)

-- The ledger rows of an invoice.
abbrev pub debits : Invoice → ChargingSession → List Entry → List Entry
debits v c l = keep (λ e. names v c e && is_debit e) l

-- `related_entry`
abbrev pub related : Wallet → Invoice → ChargingSession → List Entry → Bool
related w v c l = any_of (λ e. e.wallet_id == w.id && names v c e && is_debit e) l

abbrev pub is_debited : Option Text → Bool
is_debited none = false
is_debited (some r) = text_eq r (codes "debited")

-- The rows of the join that concern the wallet.
abbrev pub concerns : Wallet → List Entry → Invoice → ChargingSession → Bool
concerns w l v c =
    c.id == v.session_id
    && is_debited c.settlement_reason
    && (v.driver_id == w.driver_id
        || option_eq ◌==◌ c.driver_id (some w.driver_id)
        || related w v c l)

-- A test on some pair of an invoice and its session that concerns the wallet.
abbrev pub any_invoice : Wallet → Db → (Invoice → ChargingSession → Bool) → Bool
any_invoice w db p =
    any_of (λ v. any_of (λ c. concerns w db.ledger v c && p v c) db.sessions) db.invoices

abbrev pub owner_id : List Wallet → ℕ → Option ℕ
owner_id ws driver = elim (find_driver_wallet driver ws) [ none ↦ none | some w ↦ some w.id ]

abbrev pub any_debit :
    Db → (Invoice → ChargingSession → Entry → Bool) → Invoice → ChargingSession → Bool
any_debit db p v c = any_of (p v c) (debits v c db.ledger)

abbrev pub wrong_driver : Invoice → ChargingSession → Bool
wrong_driver v c = not (option_eq ◌==◌ (some v.driver_id) c.driver_id)

abbrev pub wrong_count : Db → Invoice → ChargingSession → Bool
wrong_count db v c = not (length (debits v c db.ledger) == 1)

abbrev pub wrong_wallet : Db → Invoice → ChargingSession → Entry → Bool
wrong_wallet db v c e = not (option_eq ◌==◌ (some e.wallet_id) (owner_id db.wallets v.driver_id))

abbrev pub wrong_type : Invoice → ChargingSession → Entry → Bool
wrong_type v c e = not (type_eq e.entry_type charging_debit)

abbrev pub wrong_reference : Invoice → ChargingSession → Entry → Bool
wrong_reference v c e =
    not (text_eq e.reference_type (codes "charging_session"))
    || not (text_eq e.reference_id (decimal c.id))

abbrev pub wrong_amount : Invoice → ChargingSession → Entry → Bool
wrong_amount v c e = not (eqb_ℤ e.amount_vnd (neg v.total_vnd)) || eqb_ℤ v.total_vnd (pos 0)

-- Whether `wallet_issues` adds an issue to its set.
unfoldable pub has_issue : Wallet → Db → Issue → Bool
has_issue w db balance_mismatch = not (eqb_ℤ (ledger_total w.id db.ledger) w.balance_vnd)
has_issue w db ledger_total_overflow = not (in_range (ledger_total w.id db.ledger))
has_issue w db invoice_driver_mismatch = any_invoice w db wrong_driver
has_issue w db invoice_debit_count = any_invoice w db (wrong_count db)
has_issue w db invoice_debit_wallet = any_invoice w db (any_debit db (wrong_wallet db))
has_issue w db invoice_debit_type = any_invoice w db (any_debit db wrong_type)
has_issue w db invoice_debit_reference = any_invoice w db (any_debit db wrong_reference)
has_issue w db invoice_debit_amount = any_invoice w db (any_debit db wrong_amount)

abbrev pub all_issues : List Issue
all_issues =
    balance_mismatch ∷ invoice_debit_amount ∷ invoice_debit_count ∷ invoice_debit_reference
    ∷ invoice_debit_type ∷ invoice_debit_wallet ∷ invoice_driver_mismatch ∷ ledger_total_overflow
    ∷ []

-- `wallet_issues`: the sum of the ledger and the sorted issues.
unfoldable pub wallet_issues : Wallet → Db → ℤ × List Issue
wallet_issues w db = (ledger_total w.id db.ledger, keep (has_issue w db) all_issues)

-- The lock on one inspected wallet; the ids that this adds to `locked`.
unfoldable pub lock_if : Bool → Wallet → Tx (List ℕ)
lock_if false w = pure []
lock_if true w = do
  modify (λ db. record db { wallets = set_status w.id locked db.wallets })
  ghi_nhat_ky none (codes "wallet.reconciliation_locked") (codes "wallet") (uuid_text w.id)
  pure (w.id ∷ [])

unfoldable pub inspect : Option Wallet → Tx (List ℕ)
inspect none = pure []
inspect (some w) = do
  found ← gets (λ db. (wallet_issues w db).1)
  lock_if (not (is_empty found || is_locked w.status)) w

-- The loop of `doi_chieu_so_du` over the ids of its query. `skipped` are the wallets that other
-- transactions hold, which `skip_locked` passes over.
unfoldable pub lock_suspects : (ℕ → Bool) → List ℕ → Tx (List ℕ)
lock_suspects skipped [] = pure []
lock_suspects skipped (i ∷ is) = do
  wallet ← gets (λ db. if skipped i then none else find_wallet i db.wallets)
  here ← inspect wallet
  rest ← lock_suspects skipped is
  pure (here ++ rest)

abbrev pub wallet_ids : Db → List ℕ
wallet_ids db = map (λ (w : Wallet). w.id) db.wallets

-- `select(Wallet.id).order_by(Wallet.id)`, and its `where` for one wallet.
abbrev pub selected : Option ℕ → Db → List ℕ
selected none db = ids_after none (wallet_ids db)
selected (some i) db = keep (λ j. j == i) (ids_after none (wallet_ids db))

unfoldable pub doi_chieu_so_du : (ℕ → Bool) → Option ℕ → Tx (List ℕ)
unfolding lock_suspects
doi_chieu_so_du skipped wallet_id = do ids ← gets (selected wallet_id); lock_suspects skipped ids
