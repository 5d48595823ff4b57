-- ===== src/Wallet/Administration/Adjust.antt =====
-- What `dieu_chinh_vi` does to a wallet (modules/wallet/administration.py).
use ttcs_t926_k8s4_n1_csms.Base.{
  ◌≡◌, refl, ap, ◌∙◌, Bool, true, false, not, Option, none, some, arith,
}
use ttcs_t926_k8s4_n1_csms.Base.Int.{pos, ◌+ℤ◌, eqb_ℤ}
use ttcs_t926_k8s4_n1_csms.Base.Text.{codes}
use ttcs_t926_k8s4_n1_csms.Wallet.Uuid.{uuid_text}
use ttcs_t926_k8s4_n1_csms.Wallet.Tables.{
  Wallet, adjustment, Entry, WalletAudit, Db, find_wallet, find_user, find_entry, find_audit,
}
use ttcs_t926_k8s4_n1_csms.Wallet.Tx.{ok}
use ttcs_t926_k8s4_n1_csms.Wallet.Tx.Invert.{bind-ok, or_raise-ok, raise_if-ok}
use ttcs_t926_k8s4_n1_csms.Wallet.Service.{lock_wallet, require_admin, active_admin, ghi_so_cai}
use ttcs_t926_k8s4_n1_csms.Wallet.Service.Arrival.{Consistent, Arrives}
use ttcs_t926_k8s4_n1_csms.Wallet.Service.Outcome.{integer_vnd-ok}
use ttcs_t926_k8s4_n1_csms.Wallet.Service.Invariant.{ghi_so_cai-Consistent}
use ttcs_t926_k8s4_n1_csms.Wallet.Service.Effect.{Effect, ghi_so_cai-Effect}
use ttcs_t926_k8s4_n1_csms.Wallet.Topup.Money.{Effect-same, Consistent-same}
use ttcs_t926_k8s4_n1_csms.Wallet.Journal.{ghi_nhat_ky}
use ttcs_t926_k8s4_n1_csms.Wallet.Repair.{bad_reason}
use ttcs_t926_k8s4_n1_csms.Wallet.Repair.Restores.{ghi_nhat_ky-Unlogged}
use ttcs_t926_k8s4_n1_csms.Wallet.Reconcile.{wallet_issues}
use ttcs_t926_k8s4_n1_csms.Wallet.Administration.{
  Adjustment, other_adjustment, adjust, is_none, authorization, authorize, adjust_now,
  adjust_or_replay, dieu_chinh_vi,
}

-- The posting of an adjustment, between tables with the same wallets and ledger as before and after.
record Posted (arrive : Db → Db) (a : Adjustment) (e : Entry) (db db' : Db) : Type 0 where
  ready : Db
  done : Db
  ready_wallets : ready.wallets ≡ db.wallets
  ready_ledger : ready.ledger ≡ db.ledger
  run : ghi_so_cai arrive (adjust a) ready ≡ ok (e, done)
  done_wallets : db'.wallets ≡ done.wallets
  done_ledger : db'.ledger ≡ done.ledger

module _ (arrive : Db → Db) (a : Adjustment) (e : Entry) (db db' : Db) where
  authorize-ok :
      (b : Bool) (audit : WalletAudit) (u : Unit {0}) (db1 : Db)
      → authorize b audit db ≡ ok (u, db1)
      → (db1.wallets ≡ db.wallets) × (db1.ledger ≡ db.ledger)
  unfolding authorize
  authorize-ok true audit u db1 h = (ground arith, ground arith)
  authorize-ok false audit u db1 h = (ground arith, ground arith)

  adjust_now-ok :
      (w : Wallet) (b : Bool) → adjust_now arrive a w b db ≡ ok (e, db') → Posted arrive a e db db'
  unfolding adjust_now
  adjust_now-ok w b h =
      let (right, h1) = raise_if-ok (not (eqb_ℤ (wallet_issues w db).0 w.balance_vnd)) _ _ db h in
      let (fits, h2) = integer_vnd-ok (w.balance_vnd +ℤ a.amount_vnd) _ db h1 in
      let audit = authorization a w.balance_vnd (w.balance_vnd +ℤ a.amount_vnd) in
      let (u, db1, auth, h3) = bind-ok (authorize b audit) _ db h2 in
      let (ws, l) = authorize-ok b audit u db1 auth in
      let (e1, db2, run, h4) = bind-ok (ghi_so_cai arrive (adjust a)) _ db1 h3 in
      let (v, db3, log, h5) =
        bind-ok
          (ghi_nhat_ky (some a.actor_id) (codes "wallet.adjusted") (codes "wallet_audit")
            (uuid_text a.audit_id))
          _ db2 h4 in
      let k =
        ghi_nhat_ky-Unlogged (some a.actor_id) (codes "wallet.adjusted") (codes "wallet_audit")
          (uuid_text a.audit_id) v db2 db3 log in
      let kept : db' ≡ db3 = cc in
      let same : e1 ≡ e = cc in
      record {
        ready = db1;
        done = db2;
        ready_wallets = ws;
        ready_ledger = l;
        run = cc (run, same);
        done_wallets = ap (λ (x : Db). x.wallets) kept ∙ k.wallets;
        done_ledger = ap (λ (x : Db). x.ledger) kept ∙ k.ledger;
      }

  adjust_or_replay-ok :
      (o : Option Entry) (w : Wallet) (previous : Option WalletAudit)
      → adjust_or_replay arrive o a w previous db ≡ ok (e, db')
      → Posted arrive a e db db'
  unfolding adjust_or_replay
  adjust_or_replay-ok none w previous h = adjust_now-ok w (is_none previous) h
  adjust_or_replay-ok (some x) w previous h = record {
    ready = db;
    done = db';
    ready_wallets = refl;
    ready_ledger = refl;
    run = (raise_if-ok (is_none previous) _ _ db h).1;
    done_wallets = refl;
    done_ledger = refl;
  }

  dieu_chinh_vi-Posted : dieu_chinh_vi arrive a db ≡ ok (e, db') → Posted arrive a e db db'
  unfolding dieu_chinh_vi lock_wallet require_admin
  dieu_chinh_vi-Posted h =
      let (admin, h1) = raise_if-ok (not (active_admin (find_user a.actor_id db.users))) _ _ db h in
      let (fits, h2) = integer_vnd-ok a.amount_vnd _ db h1 in
      let (nonzero, h3) = raise_if-ok (eqb_ℤ a.amount_vnd (pos 0)) _ _ db h2 in
      let (explained, h4) = raise_if-ok (bad_reason a.reason) _ _ db h3 in
      let (w, found, h5) = or_raise-ok (find_wallet a.wallet_id db.wallets) _ _ db h4 in
      let previous = find_audit a.audit_id db.audits in
      let (mine, h6) = raise_if-ok (other_adjustment a previous) _ _ db h5 in
      adjust_or_replay-ok (find_entry adjustment (uuid_text a.audit_id) db.ledger) w previous h6

-- An adjustment that returns has its row under the audit's id, moved the balance by the amount at
-- most once, and keeps consistent tables consistent.
pub dieu_chinh_vi-Effect :
    (arrive : Db → Db) (a : Adjustment) (e : Entry) (db db' : Db)
    → Arrives a.wallet_id arrive
    → Consistent db
    → dieu_chinh_vi arrive a db ≡ ok (e, db')
    → Effect (adjust a) db e db' × Consistent db'
dieu_chinh_vi-Effect arrive a e db db' env c h =
    let p = dieu_chinh_vi-Posted arrive a e db db' h in
    (
      Effect-same (adjust a) e p.ready p.done db db' p.ready_wallets p.ready_ledger p.done_wallets
          p.done_ledger (ghi_so_cai-Effect arrive (adjust a) e p.ready p.done env p.run),
      Consistent-same p.done db' p.done_wallets p.done_ledger (
          ghi_so_cai-Consistent arrive (adjust a) env e p.ready p.done
            (Consistent-same db p.ready p.ready_wallets p.ready_ledger c) p.run),
    )
