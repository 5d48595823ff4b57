-- ===== src/Wallet/Reconcile/Run.antt =====
-- `run_reconciliation` of modules/wallet/reconciliation.py: pages of at most 500 wallets, each wallet
-- inspected in its own transaction. `paged` is what other transactions commit before the query of a
-- page and `others` what they commit before each wallet, `held` the wallets whose rows they then hold
-- locked, and `broken` those whose transaction the database fails (SQLAlchemyError). A query of a page that fails,
-- which ends the run, is left out.
use ttcs_t926_k8s4_n1_csms.Base.{
  ℕ, zero, suc, ◌+◌, Bool, Option, none, some, List, [], ◌∷◌, ◌++◌, length, if◌then◌else◌,
}
use ttcs_t926_k8s4_n1_csms.Base.Pages.{limit, last_id, ids_after}
use ttcs_t926_k8s4_n1_csms.Wallet.Tables.{Db}
use ttcs_t926_k8s4_n1_csms.Wallet.Tx.{Result, ok, err}
use ttcs_t926_k8s4_n1_csms.Wallet.Reconcile.{wallet_ids, doi_chieu_so_du}

-- The count of locked wallets, and the lines of the log: a warning for each wallet that was locked, an
-- error for each whose transaction failed.
pub record Run : Type 0 where
  pub changed : ℕ
  pub warned : List ℕ
  pub failed : List ℕ

abbrev pub no_run : Run
no_run = record { changed = 0; warned = []; failed = [] }

abbrev pub log_failed : ℕ → Run → Run
log_failed i r = record r { failed = r.failed ++ i ∷ [] }

-- The commit, or the rollback and the `except`.
abbrev pub count_locked : ℕ → Db → Run → Result (List ℕ × Db) → Run × Db
count_locked i db r (ok (ids, db')) =
    (record r { changed = r.changed + length ids; warned = r.warned ++ ids }, db')
count_locked i db r (err e) = (log_failed i r, db)

module _ (paged : Option ℕ → Db → Db) (others : ℕ → Db → Db) (held broken : ℕ → Bool) where
  unfoldable pub run_one : ℕ → Run → Db → Run × Db
  run_one i r db =
      let db1 = others i db in
      if broken i
      then (log_failed i r, db1)
      else count_locked i db1 r (doi_chieu_so_du held (some i) db1)

  unfoldable pub run_page : List ℕ → Run → Db → Run × Db
  unfolding run_one
  run_page [] r db = (r, db)
  run_page (i ∷ l) r db = let (r', db') = run_one i r db in run_page l r' db'

  -- `while True`: no value where the fuel, one unit for a page, runs out.
  unfoldable pub run_pages : ℕ → Option ℕ → Run → Db → Option (Run × Db)
  unfolding run_page
  run_pages zero cursor r db = none
  run_pages (suc fuel) cursor r db =
      let db1 = paged cursor db in
      elim (limit 500 (ids_after cursor (wallet_ids db1))) [
        | [] ↦ some (r, db1)
        | i ∷ l ↦
            let (r', db') = run_page (i ∷ l) r db1 in run_pages fuel (some (last_id i l)) r' db'
      ]

  -- The last tables are those that the run leaves behind.
  unfoldable pub run_reconciliation : ℕ → Db → Option (Run × Db)
  unfolding run_pages
  run_reconciliation fuel db = run_pages fuel none no_run db
