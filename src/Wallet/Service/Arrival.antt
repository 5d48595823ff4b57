-- ===== src/Wallet/Service/Arrival.antt =====
-- What holds of the wallet tables between transactions, and what the service relies on of the
-- transactions that commit while it runs.
use ttcs_t926_k8s4_n1_csms.Base.{ℕ, ◌≡◌, true, false, none, some, List, [], ◌∷◌}
use ttcs_t926_k8s4_n1_csms.Base.Text.{Text}
use ttcs_t926_k8s4_n1_csms.Wallet.Tables.{
  Wallet, EntryType, Entry, WalletAudit, Db, find_wallet, find_driver_wallet, find_entry,
  find_audit, ledger_total,
}
use ttcs_t926_k8s4_n1_csms.Wallet.Service.{in_range, wrong_sign}

-- `uq_wallet_ledger_reference`, and the signs of the amounts.
abbrev pub Lawful : List Entry → Type 0
Lawful [] = Unit
Lawful (e ∷ l) =
    (find_entry e.entry_type e.reference_id l ≡ none)
    × (wrong_sign e.entry_type e.amount_vnd ≡ false)
    × Lawful l

-- Every cached balance is the sum of the wallet's ledger rows and fits a BIGINT, no key of the
-- ledger is used twice, every amount has the sign of its type, and a driver's wallet is found by
-- its id.
pub record Consistent (db : Db) : Type 0 where
  pub cached :
      (i : ℕ) (w : Wallet)
      → find_wallet i db.wallets ≡ some w
      → w.balance_vnd ≡ ledger_total i db.ledger
  pub ranged :
      (i : ℕ) (w : Wallet) → find_wallet i db.wallets ≡ some w → in_range w.balance_vnd ≡ true
  pub lawful : Lawful db.ledger
  pub owned :
      (d : ℕ) (w : Wallet)
      → find_driver_wallet d db.wallets ≡ some w
      → find_wallet w.id db.wallets ≡ some w

-- The commits of other transactions while wallet `i` is locked: they leave its row alone, keep the
-- tables consistent, delete no ledger row, audit row, user or invoice, and leave its driver with it.
pub record Arrives (i : ℕ) (arrive : Db → Db) : Type 0 where
  pub keeps : (db : Db) → Consistent db → Consistent (arrive db)
  pub row : (db : Db) → find_wallet i (arrive db).wallets ≡ find_wallet i db.wallets
  pub entries :
      (db : Db) (t : EntryType) (r : Text) (e : Entry)
      → find_entry t r db.ledger ≡ some e
      → find_entry t r (arrive db).ledger ≡ some e
  pub audits :
      (db : Db) (j : ℕ) (a : WalletAudit)
      → find_audit j db.audits ≡ some a
      → find_audit j (arrive db).audits ≡ some a
  pub users : (db : Db) → (arrive db).users ≡ db.users
  pub invoices : (db : Db) → (arrive db).invoices ≡ db.invoices
  pub driver :
      (db : Db) (d : ℕ) (w : Wallet)
      → find_driver_wallet d db.wallets ≡ some w
      → w.id ≡ i
      → find_driver_wallet d (arrive db).wallets ≡ some w
