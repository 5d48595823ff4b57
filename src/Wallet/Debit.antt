-- ===== src/Wallet/Debit.antt =====
-- `tru_vi` of modules/wallet/service.py, and modules/wallet/provisioning.py: the debit of a charging
-- session's invoice. `arrive i` is what other transactions commit while wallet `i` is locked, and
-- `fresh` the id that `uuid4` gives a new wallet.
pub mod Charged
use ttcs_t926_k8s4_n1_csms.Base.{
  ℕ, Bool, true, false, not, ◌&&◌, Option, none, some, List, [], ◌∷◌, ◌==◌, if◌then◌else◌,
}
use ttcs_t926_k8s4_n1_csms.Base.Int.{ℤ, pos, neg, ltb_ℤ, eqb_ℤ}
use ttcs_t926_k8s4_n1_csms.Base.Text.{Text, codes, decimal}
use ttcs_t926_k8s4_n1_csms.Wallet.Tables.{
  Wallet, active, charging_debit, Entry, Role, driver_role, User, Invoice, Db, find_driver_wallet,
  find_user,
}
use ttcs_t926_k8s4_n1_csms.Wallet.Tx.{
  ok, err, Tx, pure, raise, gets, or_raise, ◌>>=◌, ◌>>◌, raise_if, modify, driver_required,
  value_error, lookup_error, wallet_amount, wallet_ownership,
}
use ttcs_t926_k8s4_n1_csms.Wallet.Service.{Posting, integer_vnd, lock_wallet, has_role, ghi_so_cai}

abbrev pub is_driver : Role → Bool
is_driver driver_role = true
is_driver _ = false

abbrev pub driver_account : Option User → Bool
driver_account none = false
driver_account (some u) = has_role is_driver u.roles

abbrev pub new_wallet : ℕ → ℕ → Wallet
new_wallet fresh driver = record {
  id = fresh;
  driver_id = driver;
  balance_vnd = pos 0;
  status = active;
}

-- `insert(Wallet) … on_conflict_do_nothing(uq_wallets_driver)`, then the row of the driver.
unfoldable pub insert_wallet : ℕ → ℕ → Option Wallet → Tx Wallet
insert_wallet fresh driver (some w) db = ok (w, db)
insert_wallet fresh driver none db =
    ok (new_wallet fresh driver, record db { wallets = new_wallet fresh driver ∷ db.wallets })

-- The lock on the user's row keeps rivals out, so the insert conflicts only with a row that is seen.
unfoldable pub ensure_driver_wallet : ℕ → ℕ → Tx Wallet
ensure_driver_wallet fresh driver = do
  user ← gets (λ db. find_user driver db.users)
  raise_if (not (driver_account user)) driver_required
  existing ← gets (λ db. find_driver_wallet driver db.wallets)
  insert_wallet fresh driver existing

-- `select(Invoice).where(Invoice.session_id == s)`
abbrev pub find_invoice : ℕ → List Invoice → Option Invoice
find_invoice s [] = none
find_invoice s (v ∷ vs) = if v.session_id == s then some v else find_invoice s vs

unfoldable pub invoice_of : Option Invoice → Option ℕ → Tx Invoice
invoice_of (some v) session db = ok (v, db)
invoice_of none none db = err value_error
invoice_of none (some s) db = or_raise (find_invoice s db.invoices) lookup_error db

abbrev pub other_session : Option ℕ → Invoice → Bool
other_session none v = false
other_session (some s) v = not (s == v.session_id)

unfoldable pub driver_wallet : ℕ → ℕ → Option Wallet → Tx ℕ
driver_wallet fresh driver (some w) = pure w.id
driver_wallet fresh driver none = do w ← ensure_driver_wallet fresh driver; pure w.id

-- The wallet that pays: the driver's, or the one that the caller names and the driver owns.
unfoldable pub paying_wallet : ℕ → Option ℕ → Invoice → Tx ℕ
paying_wallet fresh none v = do
  found ← gets (λ db. find_driver_wallet v.driver_id db.wallets)
  driver_wallet fresh v.driver_id found
paying_wallet fresh (some i) v = do
  w ← lock_wallet i
  raise_if (not (w.driver_id == v.driver_id)) wallet_ownership
  pure i

-- The posting of an invoice.
abbrev pub debit : Invoice → ℕ → Option ℕ → Posting
debit v wallet_id actor = record {
  wallet_id = wallet_id;
  entry_type = charging_debit;
  amount_vnd = neg v.total_vnd;
  reference_type = codes "charging_session";
  reference_id = decimal v.session_id;
  actor_id = actor;
}

module _ (arrive : ℕ → Db → Db) (fresh : ℕ) where
  -- Below the test for an invoice of 0 VND.
  unfoldable pub charge : Invoice → Option ℕ → Option ℕ → Tx (Option Entry)
  charge v wallet_id actor = do
    raise_if (ltb_ℤ v.total_vnd (pos 0)) wallet_amount
    i ← paying_wallet fresh wallet_id v
    row ← ghi_so_cai (arrive i) (debit v i actor)
    pure (some row)

  unfoldable pub charge_unless_zero : Bool → Invoice → Option ℕ → Option ℕ → Tx (Option Entry)
  charge_unless_zero true v wallet_id actor = pure none
  charge_unless_zero false v wallet_id actor = charge v wallet_id actor

  unfoldable pub tru_vi : Option Invoice → Option ℕ → Option ℕ → Option ℕ → Tx (Option Entry)
  tru_vi invoice session wallet_id actor = do
    v ← invoice_of invoice session
    raise_if (other_session session v) value_error
    integer_vnd v.total_vnd
    charge_unless_zero (eqb_ℤ v.total_vnd (pos 0)) v wallet_id actor
