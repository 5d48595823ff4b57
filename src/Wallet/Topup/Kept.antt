-- ===== src/Wallet/Topup/Kept.antt =====
-- The warnings of modules/wallet/topup_webhook_service.py write the audit log, and a review its order.
use ttcs_t926_k8s4_n1_csms.Base.{ℕ, ◌≡◌, ap, subst, Bool, true, false, Option, none, some, arith}
use ttcs_t926_k8s4_n1_csms.Base.Text.{Text}
use ttcs_t926_k8s4_n1_csms.Wallet.Tables.{Topup, Db}
use ttcs_t926_k8s4_n1_csms.Wallet.Tx.{ok}
use ttcs_t926_k8s4_n1_csms.Wallet.Tx.Invert.{bind-ok}
use ttcs_t926_k8s4_n1_csms.Wallet.Journal.{logged, ghi_nhat_ky, identifier, any_identifier}
use ttcs_t926_k8s4_n1_csms.Wallet.Topup.{
  WarningCode, action_of, Warning, order_is, SettlementResult, put_topup, actions, object_type,
  reviewed, reference, warn_unless, warn_once, review, answer_review,
}

-- Nothing but the audit log changed.
pub record Kept (db db' : Db) : Type 0 where
  pub topups : db'.topups ≡ db.topups
  pub wallets : db'.wallets ≡ db.wallets
  pub ledger : db'.ledger ≡ db.ledger

pub ghi_nhat_ky-Kept :
    (actor : Option ℕ) (a o i : Text) (u : Unit {0}) (db db' : Db)
    → ghi_nhat_ky actor a o i db ≡ ok (u, db')
    → Kept db db'
unfolding ghi_nhat_ky identifier any_identifier
ghi_nhat_ky-Kept actor a o i u db db' h = record {
  topups = ground arith;
  wallets = ground arith;
  ledger = ground arith;
}

pub Kept-refl : {db db' : Db} → db' ≡ db → Kept db db'
Kept-refl e = record {
  topups = ap (λ (x : Db). x.topups) e;
  wallets = ap (λ (x : Db). x.wallets) e;
  ledger = ap (λ (x : Db). x.ledger) e;
}

module _ (digest : Text → Text) where
  warn_unless-Kept :
      (found : Bool) (o : Text) (t : Option Topup) (c : WarningCode) (w : Option Warning)
      (db db' : Db)
      → warn_unless digest found o t c db ≡ ok (w, db')
      → Kept db db'
  unfolding warn_unless
  warn_unless-Kept true o t c w db db' h = Kept-refl cc
  warn_unless-Kept false o t c w db db' h =
      let (u, db1, run, k) =
        bind-ok (ghi_nhat_ky none (action_of c) (object_type t) (reference digest o t)) _ db h in
      let same : db1 ≡ db' = cc in
      subst (Kept db) same
        (ghi_nhat_ky-Kept none (action_of c) (object_type t) (reference digest o t) u db db1 run)

  pub warn_once-Kept :
      (o : Text) (t : Option Topup) (c : WarningCode) (w : Option Warning) (db db' : Db)
      → warn_once digest o t c db ≡ ok (w, db')
      → Kept db db'
  unfolding warn_once
  warn_once-Kept o t c w db db' h =
      warn_unless-Kept (logged (actions c) (object_type t) (reference digest o t) db.logs) o t c w
        db db' h

  review-ok :
      (t : Topup) (c : WarningCode) (w : Option Warning) (db db' : Db)
      → review digest t c db ≡ ok (w, db')
      → Kept (record db { topups = put_topup (reviewed t c) db.topups }) db'
  unfolding review
  review-ok t c w db db' h =
      warn_once-Kept t.order_id (some t) c w
        (record db { topups = put_topup (reviewed t c) db.topups }) db' h

  pub answer_review-ok :
      (n : ℕ) (t : Topup) (c : WarningCode) (r : SettlementResult) (db db' : Db)
      → answer_review digest n t c db ≡ ok (r, db')
      → Kept (record db { topups = put_topup (reviewed t c) db.topups }) db'
        × (r.status ≡ order_is (reviewed t c).status)
        × (r.status_code ≡ n)
  unfolding answer_review
  answer_review-ok n t c r db db' h =
      let (w, db1, run, k) = bind-ok (review digest t c) _ db h in
      let same : db1 ≡ db' = cc in (subst (Kept _) same (review-ok t c w db db1 run), cc, cc)
