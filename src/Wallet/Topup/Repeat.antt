-- ===== src/Wallet/Topup/Repeat.antt =====
-- Callbacks that a gateway repeats
-- (modules/wallet/topup_webhook_service.py).
use ttcs_t926_k8s4_n1_csms.Base.{
  ℕ, ◌≡◌, refl, sym, ap, subst, ◌∙◌, ◌⊎◌, inl, inr, Bool, true, false, not, Option, none, some,
  List, ◌∷◌, arith,
}
use ttcs_t926_k8s4_n1_csms.Base.Int.{eqb_ℤ}
use ttcs_t926_k8s4_n1_csms.Base.Text.{Text, text_eq_refl, strip}
use ttcs_t926_k8s4_n1_csms.Wallet.Tables.{Topup, TopupStatus, Log, pending, succeeded, Db}
use ttcs_t926_k8s4_n1_csms.Wallet.Tx.{ok}
use ttcs_t926_k8s4_n1_csms.Wallet.Tx.Invert.{bind-run, bind-ok}
use ttcs_t926_k8s4_n1_csms.Wallet.Journal.{
  add_log, any_text, logged, ghi_nhat_ky, identifier, any_identifier,
}
use ttcs_t926_k8s4_n1_csms.Wallet.Topup.Kept.{warn_once-Kept}
use ttcs_t926_k8s4_n1_csms.Wallet.Topup.Moves.{Noted, Completed}
use ttcs_t926_k8s4_n1_csms.Wallet.Topup.Settles.{OrderLocked}
use ttcs_t926_k8s4_n1_csms.Wallet.Topup.Callback.{Keyed, moves}
use ttcs_t926_k8s4_n1_csms.Wallet.Topup.Money.{is_succeeded-reviewed}
use ttcs_t926_k8s4_n1_csms.Wallet.Topup.{
  PaymentStatus, GatewayEvent, WarningCode, unknown_order, amount_mismatch, gateway_conflict,
  late_success, late_non_success, review_callback, settlement_conflict, action_of, transition,
  Warning, not_found, order_is, SettlementResult, find_topup, actions, object_type, is_pending,
  is_succeeded, is_success, other_gateway, reference, warn_unless, warn_once, repeated, on_order,
  on_found, process_topup_webhook,
}

order_is-injective : {a b : TopupStatus} → order_is a ≡ order_is b → a ≡ b
order_is-injective h = cc

module _ (digest : Text → Text) (arrive : ℕ → Db → Db) (event : GatewayEvent) where
  -- A success for an order that is already credited under the same gateway id.
  on_order-again :
      (t : Topup) (db : Db)
      → eqb_ℤ t.amount_vnd event.amount_vnd ≡ true
      → other_gateway t.gateway_transaction_id event.gateway_transaction_id ≡ false
      → t.status ≡ succeeded
      → is_success event.status ≡ true
      → on_order digest arrive event t db
        ≡ ok (record { status_code = 200; status = order_is succeeded; warning = none }, db)
  unfolding on_order repeated
  on_order-again t db amount gate paid success = rw (amount, gate, paid) (rw success refl)

  success_of :
      (s : TopupStatus) (p : PaymentStatus)
      → is_pending s ≡ true
      → transition s p ≡ succeeded
      → is_success p ≡ true
  success_of s p h k = ground arith

  settled_of :
      (t after : Topup) (db db' : Db)
      → t.status ≡ pending
      → after.status ≡ succeeded
      → Noted arrive event t after db db' ⊎ Completed arrive event t after db db'
      → Completed arrive event t after db db'
  settled_of t after db db' wait paid (inr k) = k
  settled_of t after db db' wait paid (inl n) = elim n.order [
    | inl same ↦ cc
    | inr (c, same) ↦
        let k : is_succeeded after.status ≡ is_succeeded t.status =
          ap (λ (x : Topup). is_succeeded x.status) same ∙ is_succeeded-reviewed t c in
        let l : true ≡ false = ap is_succeeded (sym paid) ∙ k ∙ ap is_succeeded wait in cc
  ]

-- Once a callback has credited a pending order, the same callback answers that the order succeeded
-- and writes nothing, whatever other transactions do meanwhile.
pub process_topup_webhook_replay :
    (digest : Text → Text) (arrive again : ℕ → Db → Db) (event : GatewayEvent) (t : Topup)
    (db db' : Db) (r : SettlementResult)
    → OrderLocked arrive event.order_id
    → Keyed event.order_id db
    → find_topup event.order_id db.topups ≡ some t
    → t.status ≡ pending
    → process_topup_webhook digest arrive event db ≡ ok (r, db')
    → r.status ≡ order_is succeeded
    → process_topup_webhook digest again event db'
      ≡ ok (record { status_code = 200; status = order_is succeeded; warning = none }, db')
unfolding process_topup_webhook on_found
process_topup_webhook_replay digest arrive again event t db db' r free keyed f wait run answer =
    let m = moves digest arrive event t db db' r free keyed f run in
    let paid : m.after.status ≡ succeeded = order_is-injective (sym m.reported ∙ answer) in
    let k = settled_of digest arrive event t m.after db db' wait paid m.how in
    subst
      (λ (o : Option Topup).
        on_found digest again event o db'
        ≡ ok (record { status_code = 200; status = order_is succeeded; warning = none }, db'))
      (sym m.found)
      (on_order-again digest again event m.after db'
        (ap (λ (x : Topup). eqb_ℤ x.amount_vnd event.amount_vnd) k.is ∙ k.same_amount)
        (ap (λ (x : Topup). other_gateway x.gateway_transaction_id event.gateway_transaction_id)
            k.is
          ∙ ap not (text_eq_refl event.gateway_transaction_id))
        paid
        (success_of digest arrive event t.status event.status k.was_pending
          (sym (ap (λ (x : Topup). x.status) k.is) ∙ paid)))

ghi_nhat_ky-ok :
    (actor : Option ℕ) (a o i : Text) (u : Unit {0}) (db db' : Db)
    → ghi_nhat_ky actor a o i db ≡ ok (u, db')
    → db' ≡ add_log actor (strip a) (strip o) (strip i) db
unfolding ghi_nhat_ky identifier any_identifier
ghi_nhat_ky-ok actor a o i u db db' h = ground arith

any_text-actions : (c : WarningCode) → any_text (action_of c) (actions c) ≡ true
any_text-actions c = ground arith

strip-action_of : (c : WarningCode) → strip (action_of c) ≡ action_of c
unfolding strip
strip-action_of unknown_order = refl
strip-action_of amount_mismatch = refl
strip-action_of gateway_conflict = refl
strip-action_of late_success = refl
strip-action_of late_non_success = refl
strip-action_of review_callback = refl
strip-action_of settlement_conflict = refl

strip-object_type : (t : Option Topup) → strip (object_type t) ≡ object_type t
unfolding strip
strip-object_type none = refl
strip-object_type (some t) = refl

-- The line that `ghi_nhat_ky` writes for a warning is one that the next search for it finds.
logged-again :
    (o i : Text) (c : WarningCode) (ls : List Log) (l : Log)
    → l.action ≡ action_of c
    → l.object_type ≡ o
    → l.object_id ≡ i
    → logged (actions c) o i (l ∷ ls) ≡ true
logged-again o i c ls l a b d =
    rw (a, b, d, any_text-actions c, text_eq_refl o, text_eq_refl i) refl

module _ (digest : Text → Text) (o : Text) (t : Option Topup) (c : WarningCode) where
  warn_unless-logs :
      (w : Option Warning) (db db' : Db)
      → strip (reference digest o t) ≡ reference digest o t
      → warn_unless digest false o t c db ≡ ok (w, db')
      → logged (actions c) (object_type t) (reference digest o t) db'.logs ≡ true
  unfolding warn_unless
  warn_unless-logs w db db' plain h =
      let i = reference digest o t in
      let (u, db1, run, k) = bind-ok (ghi_nhat_ky none (action_of c) (object_type t) i) _ db h in
      let is = ghi_nhat_ky-ok none (action_of c) (object_type t) i u db db1 run in
      let same : db' ≡ db1 = cc in
      ap (λ (x : Db). logged (actions c) (object_type t) i x.logs) (same ∙ is)
      ∙ logged-again (object_type t) i c db.logs
          (record {
            actor_id = none;
            action = strip (action_of c);
            object_type = strip (object_type t);
            object_id = strip i;
          })
          (strip-action_of c) (strip-object_type t) plain

  -- A warning that was searched for once is not given again.
  pub warn_once-once :
      (w : Option Warning) (db db' : Db)
      → strip (reference digest o t) ≡ reference digest o t
      → warn_once digest o t c db ≡ ok (w, db')
      → warn_once digest o t c db' ≡ ok (none, db')
  unfolding warn_once warn_unless
  warn_once-once w db db' plain h =
      go (logged (actions c) (object_type t) (reference digest o t) db.logs) refl h
    where
      go :
          (b : Bool)
          → logged (actions c) (object_type t) (reference digest o t) db.logs ≡ b
          → warn_unless digest b o t c db ≡ ok (w, db')
          → warn_unless digest
              (logged (actions c) (object_type t) (reference digest o t) db'.logs)
              o
              t
              c
              db'
            ≡ ok (none, db')
      go true e k =
          let same : db ≡ db' = cc in
          rw
            (ap (λ (x : Db). logged (actions c) (object_type t) (reference digest o t) x.logs)
                (sym same)
              ∙ e)
            refl
      go false e k = rw (warn_unless-logs w db db' plain k) refl

-- A callback for an unknown order is answered 404 and moves no money; once it returned, the same
-- callback is answered 404 with no warning and writes nothing. The digest has no white space.
pub process_topup_webhook_unknown :
    (digest : Text → Text) (arrive again : ℕ → Db → Db) (event : GatewayEvent) (db db' : Db)
    (r : SettlementResult)
    → strip (digest event.order_id) ≡ digest event.order_id
    → find_topup event.order_id db.topups ≡ none
    → process_topup_webhook digest arrive event db ≡ ok (r, db')
    → (r.status_code ≡ 404)
      × (db'.wallets ≡ db.wallets)
      × (db'.ledger ≡ db.ledger)
      × (db'.topups ≡ db.topups)
      × (process_topup_webhook digest again event db'
          ≡ ok (record { status_code = 404; status = not_found; warning = none }, db'))
unfolding process_topup_webhook on_found
process_topup_webhook_unknown digest arrive again event db db' r plain f run =
    let h : on_found digest arrive event none db ≡ ok (r, db') =
      subst (λ (o : Option Topup). on_found digest arrive event o db ≡ ok (r, db')) f run in
    let (w, db1, warned, k) = bind-ok (warn_once digest event.order_id none unknown_order) _ db h in
    let same : db1 ≡ db' = cc in
    let warned' =
      subst (λ x. warn_once digest event.order_id none unknown_order db ≡ ok (w, x)) same warned in
    let kept = warn_once-Kept digest event.order_id none unknown_order w db db' warned' in
    (
      cc,
      kept.wallets,
      kept.ledger,
      kept.topups,
      subst
          (λ (o : Option Topup).
            on_found digest again event o db'
            ≡ ok (record { status_code = 404; status = not_found; warning = none }, db'))
          (sym (ap (find_topup event.order_id) kept.topups ∙ f))
          (bind-run (warn_once digest event.order_id none unknown_order) _ db'
            (warn_once-once digest event.order_id none unknown_order w db db' plain warned')),
    )
