-- ===== src/Wallet/Topup/Moves.antt =====
-- What a callback does (modules/wallet/topup_webhook_service.py), branch by branch.
use ttcs_t926_k8s4_n1_csms.Base.{
  ℕ, ◌≡◌, refl, ap, subst, ◌∙◌, ◌⊎◌, inl, inr, Bool, true, false, not, ◌&&◌, none, some, List, [],
  ◌∷◌, if◌then◌else◌, arith,
}
use ttcs_t926_k8s4_n1_csms.Base.Int.{eqb_ℤ}
use ttcs_t926_k8s4_n1_csms.Base.Text.{Text, text_eq}
use ttcs_t926_k8s4_n1_csms.Wallet.Tables.{Wallet, Entry, Topup, Db, find_driver_wallet}
use ttcs_t926_k8s4_n1_csms.Wallet.Tx.{ok, pure}
use ttcs_t926_k8s4_n1_csms.Wallet.Tx.Invert.{bind-ok}
use ttcs_t926_k8s4_n1_csms.Wallet.Service.{ghi_so_cai}
use ttcs_t926_k8s4_n1_csms.Wallet.Topup.Kept.{Kept, Kept-refl, warn_once-Kept, answer_review-ok}
use ttcs_t926_k8s4_n1_csms.Wallet.Topup.{
  GatewayEvent, WarningCode, late_success, late_non_success, review_callback, transition, order_is,
  SettlementResult, find_topup, put_topup, is_pending, is_needs_review, is_succeeded, is_success,
  reviewed, settled, credit, warn_once, answer_review, answer_warned, repeated,
}

pub find_topup-order :
    (o : Text) (t : Topup) (ts : List Topup)
    → find_topup o ts ≡ some t
    → text_eq t.order_id o ≡ true
find_topup-order o t [] h = cc
find_topup-order o t (s ∷ ss) h = ground (arith, find_topup-order o t ss)

-- The order that a flush leaves is the one found again.
pub find_topup-put_topup :
    (o : Text) (t s : Topup) (ts : List Topup)
    → find_topup o ts ≡ some t
    → s.id ≡ t.id
    → s.order_id ≡ t.order_id
    → find_topup o (put_topup s ts) ≡ some s
find_topup-put_topup o t s ts h same order =
    go ts h (ap (λ x. text_eq x o) order ∙ find_topup-order o t ts h)
  where
    go :
        (ts : List Topup)
        → find_topup o ts ≡ some t
        → text_eq s.order_id o ≡ true
        → find_topup o (put_topup s ts) ≡ some s
    go [] k m = cc
    go (x ∷ xs) k m = ground (arith, go xs)

module _ (arrive : ℕ → Db → Db) (event : GatewayEvent) (t : Topup) where
  -- The wallet's posting, from tables that differ from those before and after in the order's row.
  pub record Credited (db db' : Db) : Type 0 where
    pub wallet : Wallet
    pub entry : Entry
    pub ready : Db
    pub done : Db
    pub owner : find_driver_wallet t.driver_id db.wallets ≡ some wallet
    pub ready_wallets : ready.wallets ≡ db.wallets
    pub ready_ledger : ready.ledger ≡ db.ledger
    pub posted : ghi_so_cai (arrive wallet.id) (credit event wallet.id) ready ≡ ok (entry, done)
    pub done_wallets : db'.wallets ≡ done.wallets
    pub done_ledger : db'.ledger ≡ done.ledger

  -- No money moved, and the order is as it was or under review.
  pub record Noted (after : Topup) (db db' : Db) : Type 0 where
    pub wallets : db'.wallets ≡ db.wallets
    pub ledger : db'.ledger ≡ db.ledger
    pub order : (after ≡ t) ⊎ ((c : WarningCode) × (after ≡ reviewed t c))

  -- A pending order took the status of the event, a success with the credit.
  pub record Completed (after : Topup) (db db' : Db) : Type 0 where
    pub was_pending : is_pending t.status ≡ true
    pub same_amount : eqb_ℤ t.amount_vnd event.amount_vnd ≡ true
    pub is : after ≡ settled event t
    pub paid :
        ((is_success event.status ≡ false) × (db'.wallets ≡ db.wallets) × (db'.ledger ≡ db.ledger))
        ⊎ ((is_success event.status ≡ true) × Credited db db')

  pub record Moves (r : SettlementResult) (db db' : Db) : Type 0 where
    pub after : Topup
    pub found : find_topup event.order_id db'.topups ≡ some after
    pub reported : r.status ≡ order_is after.status
    pub how : Noted after db db' ⊎ Completed after db db'

  noted :
      (r : SettlementResult) (db db' : Db)
      → find_topup event.order_id db.topups ≡ some t
      → Kept db db'
      → r.status ≡ order_is t.status
      → Moves r db db'
  noted r db db' f k s = record {
    after = t;
    found = ap (find_topup event.order_id) k.topups ∙ f;
    reported = s;
    how = inl (record { wallets = k.wallets; ledger = k.ledger; order = inl refl });
  }

  pub under_review :
      (digest : Text → Text) (n : ℕ) (c : WarningCode) (r : SettlementResult) (db db' : Db)
      → find_topup event.order_id db.topups ≡ some t
      → answer_review digest n t c db ≡ ok (r, db')
      → Moves r db db'
  under_review digest n c r db db' f h =
      let (k, s, _) = answer_review-ok digest n t c r db db' h in
      record {
        after = reviewed t c;
        found =
            ap (find_topup event.order_id) k.topups
            ∙ find_topup-put_topup event.order_id t (reviewed t c) db.topups f (ground arith)
                (ground arith);
        reported = s;
        how = inl (record { wallets = k.wallets; ledger = k.ledger; order = inr (c, refl) });
      }

module _ (digest : Text → Text) (arrive : ℕ → Db → Db) (event : GatewayEvent) (t : Topup) where
  warned :
      (c : WarningCode) (r : SettlementResult) (db db' : Db)
      → find_topup event.order_id db.topups ≡ some t
      → answer_warned digest t c db ≡ ok (r, db')
      → Moves arrive event t r db db'
  unfolding answer_warned
  warned c r db db' f h =
      let (w, db1, run, k) = bind-ok (warn_once digest t.order_id (some t) c) _ db h in
      let same : db1 ≡ db' = cc in
      noted arrive event t r db db' f
        (subst (Kept db) same (warn_once-Kept digest t.order_id (some t) c w db db1 run)) cc

  pub repeated-ok :
      (r : SettlementResult) (db db' : Db)
      → find_topup event.order_id db.topups ≡ some t
      → repeated digest event t db ≡ ok (r, db')
      → Moves arrive event t r db db'
  unfolding repeated
  repeated-ok r db db' f h =
      go (is_needs_review t.status) (is_needs_review (transition t.status event.status))
        (is_succeeded t.status && not (is_success event.status)) h
    where
      go :
          (a b c : Bool)
          → (if a
                then answer_warned digest t review_callback
                else if b
                then answer_review digest 200 t late_success
                else if c
                then answer_warned digest t late_non_success
                else pure
                    (record { status_code = 200; status = order_is t.status; warning = none }))
              db
            ≡ ok (r, db')
          → Moves arrive event t r db db'
      go true b c k = warned review_callback r db db' f k
      go false true c k = under_review arrive event t digest 200 late_success r db db' f k
      go false false true k = warned late_non_success r db db' f k
      go false false false k = noted arrive event t r db db' f (Kept-refl cc) cc
