-- ===== src/Wallet/Topup/Settles.antt =====
-- A callback that settles a pending order, in its savepoint
-- (modules/wallet/topup_webhook_service.py).
use ttcs_t926_k8s4_n1_csms.Base.{
  ℕ, ◌≡◌, refl, ap, subst, ◌∙◌, ◌⊎◌, inl, inr, Bool, true, false, not, none, some, if◌then◌else◌,
  arith,
}
use ttcs_t926_k8s4_n1_csms.Base.Int.{eqb_ℤ}
use ttcs_t926_k8s4_n1_csms.Base.Text.{Text, strip}
use ttcs_t926_k8s4_n1_csms.Wallet.Tables.{Wallet, Entry, Topup, Db, find_driver_wallet, find_entry}
use ttcs_t926_k8s4_n1_csms.Wallet.Tx.{Result, ok, err, Tx}
use ttcs_t926_k8s4_n1_csms.Wallet.Tx.Invert.{bind-ok, or_raise-ok, raise_if-ok}
use ttcs_t926_k8s4_n1_csms.Wallet.Service.{Posting, ghi_so_cai}
use ttcs_t926_k8s4_n1_csms.Wallet.Topup.Moves.{
  find_topup-put_topup, Credited, Moves, under_review, repeated-ok,
}
use ttcs_t926_k8s4_n1_csms.Wallet.Topup.{
  GatewayEvent, amount_mismatch, gateway_conflict, settlement_conflict, SettlementResult,
  find_topup, topup_at, put_topup, taken, is_pending, is_success, other_gateway, settled, credit,
  caught, savepoint, answer_review, repeated, credit_wallet, settle_order, conflict, on_order,
}
use ttcs_t926_k8s4_n1_csms.Wallet.Service.Outcome.{Matches, Inserts, stripped, ghi_so_cai-ok}

-- What commits while a wallet is locked leaves the locked order alone.
abbrev pub OrderLocked : (ℕ → Db → Db) → Text → Type 0
OrderLocked arrive o =
    (i : ℕ) (db : Db) → find_topup o (arrive i db).topups ≡ find_topup o db.topups

module _ (arrive : ℕ → Db → Db) (o : Text) (locked_order : OrderLocked arrive o) where
  find_topup-ghi_so_cai :
      (i : ℕ) (p : Posting) (e : Entry) (db db' : Db)
      → ghi_so_cai (arrive i) p db ≡ ok (e, db')
      → find_topup o db'.topups ≡ find_topup o db.topups
  find_topup-ghi_so_cai i p e db db' h =
      let s = (ghi_so_cai-ok (arrive i) p e db db' h).0 in go s.wallet db' s.how
    where
      go :
          (w : Wallet) (x : Db)
          → (Matches (stripped p) e db × (x ≡ db))
            ⊎ ((find_entry p.entry_type (strip p.reference_id) db.ledger ≡ none)
                × (Inserts (stripped p) w (arrive i db) e x
                    ⊎ (Matches (stripped p) e (arrive i db) × (x ≡ arrive i db))))
          → find_topup o x.topups ≡ find_topup o db.topups
      go w x (inl (m, k)) = ap (λ (y : Db). find_topup o y.topups) k
      go w x (inr (f, inr (m, k))) = ap (λ (y : Db). find_topup o y.topups) k ∙ locked_order i db
      go w x (inr (f, inl (r, n, k, l))) =
          ap (λ (y : Db). find_topup o y.topups) l ∙ locked_order i db

  -- A success credits the driver's wallet.
  Paid : Bool → GatewayEvent → Topup → Db → Db → Type 0
  Paid b event t db db' =
      ((b ≡ false) × (db' ≡ db))
      ⊎ ((b ≡ true)
          × (w : Wallet) × (e : Entry) × (find_driver_wallet t.driver_id db.wallets ≡ some w)
          × (ghi_so_cai (arrive w.id) (credit event w.id) db ≡ ok (e, db')))

  credit_wallet-ok :
      (b : Bool) (event : GatewayEvent) (t : Topup) (u : Unit {0}) (db db' : Db)
      → credit_wallet arrive b event t db ≡ ok (u, db')
      → (find_topup o db'.topups ≡ find_topup o db.topups) × Paid b event t db db'
  unfolding credit_wallet Paid
  credit_wallet-ok false event t u db db' h = (cc, inl (refl, cc))
  credit_wallet-ok true event t u db db' h =
      let (w, owner, h1) = or_raise-ok (find_driver_wallet t.driver_id db.wallets) _ _ db h in
      let (e, db1, run, h2) = bind-ok (ghi_so_cai (arrive w.id) (credit event w.id)) _ db h1 in
      let same : db1 ≡ db' = cc in
      (
        subst (λ (x : Db). find_topup o x.topups ≡ find_topup o db.topups) same
            (find_topup-ghi_so_cai w.id (credit event w.id) e db db1 run),
        inr (refl, w, e, owner, cc (run, same)),
      )

module _ (arrive : ℕ → Db → Db) (event : GatewayEvent) (t : Topup)
    (locked_order : OrderLocked arrive event.order_id) where
  settle_order-ok :
      (r : SettlementResult) (db db' : Db)
      → find_topup event.order_id db.topups ≡ some t
      → is_pending t.status ≡ true
      → eqb_ℤ t.amount_vnd event.amount_vnd ≡ true
      → settle_order arrive event t db ≡ ok (r, db')
      → Moves arrive event t r db db'
  unfolding settle_order Paid
  settle_order-ok r db db' f wait amount h =
      let g = event.gateway_transaction_id in
      let t1 : Topup = record t { gateway_transaction_id = some g } in
      let ready : Db = record db { topups = put_topup t1 db.topups } in
      let (free, h1) = raise_if-ok (taken t.id g db.topups) _ _ db h in
      let (u, done, paying, h2) =
        bind-ok (credit_wallet arrive (is_success event.status) event t) _ ready h1 in
      let (order, paid) =
        credit_wallet-ok arrive event.order_id locked_order (is_success event.status) event t u
          ready done paying in
      let db'_is : db' ≡ record done { topups = put_topup (settled event t) done.topups } = cc in
      let f1 : find_topup event.order_id done.topups ≡ some t1 =
        order ∙ find_topup-put_topup event.order_id t t1 db.topups f refl refl in
      record {
        after = settled event t;
        found =
            ap (λ (x : Db). find_topup event.order_id x.topups) db'_is
            ∙ find_topup-put_topup event.order_id t1 (settled event t) done.topups f1 refl refl;
        reported = cc;
        how = inr (record {
          was_pending = wait;
          same_amount = amount;
          is = refl;
          paid = go done db'_is paid;
        });
      }
    where
      go :
          (done : Db)
          → db' ≡ record done { topups = put_topup (settled event t) done.topups }
          → Paid arrive event.order_id locked_order
              (is_success event.status)
              event
              t
              (record db {
                topups =
                    put_topup
                      (record t { gateway_transaction_id = some event.gateway_transaction_id })
                      db.topups;
              })
              done
          → ((is_success event.status ≡ false)
              × (db'.wallets ≡ db.wallets)
              × (db'.ledger ≡ db.ledger))
            ⊎ ((is_success event.status ≡ true) × Credited arrive event t db db')
      go done is (inl (unpaid, same)) = inl (unpaid, cc, cc)
      go done is (inr (success, w, e, owner, run)) = inr (
        success,
        record {
          wallet = w;
          entry = e;
          ready = record db {
            topups =
                put_topup (record t { gateway_transaction_id = some event.gateway_transaction_id })
                  db.topups;
          };
          done = done;
          owner = owner;
          ready_wallets = refl;
          ready_ledger = refl;
          posted = run;
          done_wallets = ap (λ (x : Db). x.wallets) is;
          done_ledger = ap (λ (x : Db). x.ledger) is;
        },
      )

savepoint-ok :
    {A : Type 0} (m h : Tx A) (db : Db) {r : A × Db}
    → savepoint m h db ≡ ok r
    → (m db ≡ ok r) ⊎ (h db ≡ ok r)
savepoint-ok {A} m h db {r} k = go (m db) k
  where
    go :
        (x : Result (A × Db))
        → let y : Result (A × Db) = elim x [
          | ok q ↦ ok q
          | err e ↦ if caught e then h db else err e
        ] in
          y ≡ ok r → (x ≡ ok r) ⊎ (h db ≡ ok r)
    go (ok q) k = inl k
    go (err e) k = ground arith

module _ (digest : Text → Text) (arrive : ℕ → Db → Db) (event : GatewayEvent) (t : Topup)
    (locked_order : OrderLocked arrive event.order_id) where
  conflict-ok :
      (r : SettlementResult) (db db' : Db)
      → find_topup event.order_id db.topups ≡ some t
      → topup_at t.id db.topups ≡ some t
      → conflict digest t.id db ≡ ok (r, db')
      → Moves arrive event t r db db'
  unfolding conflict
  conflict-ok r db db' f key h =
      let (t2, found, h1) = or_raise-ok (topup_at t.id db.topups) _ _ db h in
      let same : t2 ≡ t = cc in
      under_review arrive event t digest 200 settlement_conflict r db db' f
        (subst (λ x. answer_review digest 200 x settlement_conflict db ≡ ok (r, db')) same h1)

  pub on_order-ok :
      (r : SettlementResult) (db db' : Db)
      → find_topup event.order_id db.topups ≡ some t
      → topup_at t.id db.topups ≡ some t
      → on_order digest arrive event t db ≡ ok (r, db')
      → Moves arrive event t r db db'
  unfolding on_order
  on_order-ok r db db' f key h =
      go (eqb_ℤ t.amount_vnd event.amount_vnd) refl
        (other_gateway t.gateway_transaction_id event.gateway_transaction_id) (is_pending t.status)
        refl h
    where
      go :
          (a : Bool)
          → eqb_ℤ t.amount_vnd event.amount_vnd ≡ a
          → (b c : Bool) → is_pending t.status ≡ c
          → (if not a
                then answer_review digest 400 t amount_mismatch
                else if b
                then answer_review digest 200 t gateway_conflict
                else if not c
                then repeated digest event t
                else savepoint (settle_order arrive event t) (conflict digest t.id))
              db
            ≡ ok (r, db')
          → Moves arrive event t r db db'
      go false ea b c ec k = under_review arrive event t digest 400 amount_mismatch r db db' f k
      go true ea true c ec k = under_review arrive event t digest 200 gateway_conflict r db db' f k
      go true ea false false ec k = repeated-ok digest arrive event t r db db' f k
      go true ea false true ec k =
          elim (savepoint-ok (settle_order arrive event t) (conflict digest t.id) db k) [
            | inl m ↦ settle_order-ok arrive event t locked_order r db db' f ec ea m
            | inr m ↦ conflict-ok r db db' f key m
          ]
