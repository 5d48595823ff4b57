-- ===== src/Wallet/Reconcile/Tests.antt =====
-- Reconciliation and repair at concrete inputs: a balance that the ledger does not bear out.
use ttcs_t926_k8s4_n1_csms.Base.{ℕ, Bool, ◌≡◌, refl, false, not, ◌&&◌, none, some, [], ◌∷◌, length}
use ttcs_t926_k8s4_n1_csms.Base.Sorted.{has}
use ttcs_t926_k8s4_n1_csms.Base.Int.{pos, ◌+ℤ◌}
use ttcs_t926_k8s4_n1_csms.Base.Text.{codes, strip}
use ttcs_t926_k8s4_n1_csms.Wallet.Uuid.{uuid_text, hex_text}
use ttcs_t926_k8s4_n1_csms.Wallet.Tables.{Wallet, active, locked, Db, find_wallet}
use ttcs_t926_k8s4_n1_csms.Wallet.Tx.{ok}
use ttcs_t926_k8s4_n1_csms.Wallet.Service.{integer_vnd, lock_wallet, require_admin, is_locked}
use ttcs_t926_k8s4_n1_csms.Wallet.Journal.{ghi_nhat_ky, identifier, any_identifier, add_log}
use ttcs_t926_k8s4_n1_csms.Wallet.Tests.{topped_up}
use ttcs_t926_k8s4_n1_csms.Wallet.Repair.{
  repair_audit, repaired, repair_unless, phuc_hoi_so_du_cache,
}
use ttcs_t926_k8s4_n1_csms.Wallet.Repair.Restores.{Restored, phuc_hoi_so_du_cache-Restored}
use ttcs_t926_k8s4_n1_csms.Wallet.Reconcile.{
  has_issue, wallet_issues, lock_if, inspect, lock_suspects, doi_chieu_so_du,
}
use ttcs_t926_k8s4_n1_csms.Wallet.Reconcile.Alike.{suspect, locked_if}
use ttcs_t926_k8s4_n1_csms.Wallet.Reconcile.Run.{
  Run, run_one, run_page, run_pages, run_reconciliation,
}
use ttcs_t926_k8s4_n1_csms.Wallet.Reconcile.Seen.{Calm}
use ttcs_t926_k8s4_n1_csms.Wallet.Reconcile.Swept.{run_reconciliation-Swept}
use ttcs_t926_k8s4_n1_csms.Wallet.Reconcile.Locks.{chosen, doi_chieu_so_du_locks}

abbrev wallet : Wallet
wallet = record { id = 1; driver_id = 7; balance_vnd = pos 60000; status = active }

-- The ledger has 50000 VND.
abbrev drifted : Db
drifted = record topped_up { wallets = wallet ∷ [] }

abbrev line : Db → Db
line =
    add_log none (codes "wallet.reconciliation_locked") (codes "wallet")
      (codes "00000000-0000-0000-0000-000000000001")

abbrev locked_db : Db
locked_db = line (record topped_up { wallets = record wallet { status = locked } ∷ [] })

abbrev nobody : ℕ → Bool
nobody i = false

reconcile_runs : doi_chieu_so_du nobody none drifted ≡ ok (1 ∷ [], locked_db)
unfolding doi_chieu_so_du lock_suspects inspect lock_if wallet_issues has_issue ghi_nhat_ky
    identifier any_identifier strip uuid_text hex_text ◌+ℤ◌
reconcile_runs = refl

doi_chieu_so_du_locks_example :
    let hit = (chosen none 1 && not (nobody 1)) && suspect wallet drifted in
    (find_wallet 1 locked_db.wallets ≡ some (locked_if hit wallet))
    × (has 1 (1 ∷ []) ≡ (hit && not (is_locked wallet.status)))
    × (locked_db.ledger ≡ drifted.ledger)
doi_chieu_so_du_locks_example =
    doi_chieu_so_du_locks nobody none 1 wallet (1 ∷ []) drifted locked_db refl reconcile_runs

-- Nothing else happens between the turns of a run.
abbrev same_db : Db → Db
same_db db = db

abbrev same_db-Calm : Calm same_db
same_db-Calm = record {
  wallets = λ db. refl;
  ledger = λ db. refl;
  invoices = λ db. refl;
  sessions = λ db. refl;
}

run_runs :
    run_reconciliation (λ c. same_db) (λ i. same_db) nobody nobody 2 drifted
    ≡ some (record { changed = 1; warned = 1 ∷ []; failed = [] }, locked_db)
unfolding run_reconciliation run_pages run_page run_one doi_chieu_so_du lock_suspects inspect
    lock_if wallet_issues has_issue ghi_nhat_ky identifier any_identifier strip uuid_text hex_text
    ◌+ℤ◌
run_runs = refl

run_reconciliation-Swept_example :
    let hit = not (nobody 1) && not (nobody 1) && suspect wallet drifted in
    (r : Run) × (db : Db) × (run_reconciliation
        (λ c. same_db)
        (λ i. same_db)
        nobody
        nobody
        2
        drifted
      ≡ some (r, db))
    × (find_wallet 1 db.wallets ≡ some (locked_if hit wallet))
    × (has 1 r.warned ≡ (hit && not (is_locked wallet.status)))
    × (has 1 r.failed ≡ nobody 1)
    × (r.changed ≡ length r.warned)
    × (db.ledger ≡ drifted.ledger)
run_reconciliation-Swept_example =
    run_reconciliation-Swept (λ c. same_db) (λ i. same_db) nobody nobody (λ c. same_db-Calm)
      (λ i. same_db-Calm) 1 wallet drifted refl

abbrev restored_db : Db
restored_db =
    add_log (some 9) (codes "wallet.cache_repaired") (codes "wallet_audit")
      (codes "00000000-0000-0000-0000-000000000008")
      (repaired (repair_audit 8 wallet (pos 50000) 9 (codes "drift")) drifted)

repair_runs :
    phuc_hoi_so_du_cache 8 1 9 (codes "drift") drifted
    ≡ ok (record wallet { balance_vnd = pos 50000 }, restored_db)
unfolding phuc_hoi_so_du_cache repair_unless require_admin lock_wallet integer_vnd ghi_nhat_ky
    identifier any_identifier strip uuid_text hex_text ◌+ℤ◌
repair_runs = refl

phuc_hoi_so_du_cache-Restored_example :
    Restored 8 1 9 (codes "drift") (record wallet { balance_vnd = pos 50000 }) drifted restored_db
phuc_hoi_so_du_cache-Restored_example =
    phuc_hoi_so_du_cache-Restored 8 1 9 (codes "drift") (record wallet { balance_vnd = pos 50000 })
      drifted restored_db repair_runs
