-- ===== src/Wallet/Topup/Callback.antt =====
-- What a gateway callback may do to an order and to the money of its driver
-- (modules/wallet/topup_webhook_service.py).
use ttcs_t926_k8s4_n1_csms.Base.{
  ℕ, ◌≡◌, refl, sym, subst, ◌⊎◌, inl, inr, Bool, true, false, ◌||◌, Option, some, if◌then◌else◌,
}
use ttcs_t926_k8s4_n1_csms.Base.Text.{Text}
use ttcs_t926_k8s4_n1_csms.Wallet.Tables.{
  Topup, TopupStatus, pending, succeeded, failed, cancelled, needs_review, Db,
}
use ttcs_t926_k8s4_n1_csms.Wallet.Tx.{ok}
use ttcs_t926_k8s4_n1_csms.Wallet.Topup.Moves.{Noted, Completed, Moves}
use ttcs_t926_k8s4_n1_csms.Wallet.Topup.Settles.{OrderLocked, on_order-ok}
use ttcs_t926_k8s4_n1_csms.Wallet.Topup.{
  PaymentStatus, GatewayEvent, WarningCode, warning_reason, transition, order_is, SettlementResult,
  find_topup, topup_at, is_pending, is_needs_review, is_succeeded, reviewed, settled, on_found,
  process_topup_webhook,
}

-- The primary key finds the order that its order id finds.
abbrev pub Keyed : Text → Db → Type 0
Keyed o db = (t : Topup) → find_topup o db.topups ≡ some t → topup_at t.id db.topups ≡ some t

-- The life of an order.
pub data Step : TopupStatus → TopupStatus → Type 0 where
  stays : (s : TopupStatus) → Step s s
  settles : (e : PaymentStatus) → Step pending (transition pending e)
  reviews : (s : TopupStatus) → is_succeeded s ≡ false → Step s needs_review

module _ (digest : Text → Text) (arrive : ℕ → Db → Db) (event : GatewayEvent) (t : Topup)
    (db db' : Db) (r : SettlementResult) where
  pub moves :
      OrderLocked arrive event.order_id
      → Keyed event.order_id db
      → find_topup event.order_id db.topups ≡ some t
      → process_topup_webhook digest arrive event db ≡ ok (r, db')
      → Moves arrive event t r db db'
  unfolding process_topup_webhook on_found
  moves free keyed f h =
      on_order-ok digest arrive event t free r db db' f (keyed t f)
        (subst (λ (o : Option Topup). on_found digest arrive event o db ≡ ok (r, db')) f h)

Step-reviewed : (t : Topup) (c : WarningCode) → Step t.status (reviewed t c).status
Step-reviewed t c = go (is_succeeded t.status) refl (is_needs_review t.status)
  where
    go :
        (a : Bool)
        → is_succeeded t.status ≡ a
        → (b : Bool)
        → let s : Topup =
            if a || b
            then t
            else record t { status = needs_review; reason = some (warning_reason c) } in
          Step t.status s.status
    go true e b = stays t.status
    go false e true = stays t.status
    go false e false = reviews t.status e

Step-settled :
    (event : GatewayEvent) (t : Topup)
    → is_pending t.status ≡ true
    → Step t.status (settled event t).status
Step-settled event t h = go t.status h
  where
    go : (s : TopupStatus) → is_pending s ≡ true → Step s (transition s event.status)
    go pending h = settles event.status
    go succeeded h = stays succeeded
    go needs_review h = stays needs_review
    go failed h = cc
    go cancelled h = cc

-- A callback on an order that returns moves the order along `Step`, and answers with the status that
-- the order then has: a success, a failure and a review are only left for a review, a success never.
pub process_topup_webhook-Step :
    (digest : Text → Text) (arrive : ℕ → Db → Db) (event : GatewayEvent) (t : Topup) (db db' : Db)
    (r : SettlementResult)
    → OrderLocked arrive event.order_id
    → Keyed event.order_id db
    → find_topup event.order_id db.topups ≡ some t
    → process_topup_webhook digest arrive event db ≡ ok (r, db')
    → (after : Topup) × (find_topup event.order_id db'.topups ≡ some after)
      × (r.status ≡ order_is after.status)
      × Step t.status after.status
process_topup_webhook-Step digest arrive event t db db' r free keyed f run =
    let m = moves digest arrive event t db db' r free keyed f run in
    (m.after, m.found, m.reported, go m.after m.how)
  where
    go :
        (after : Topup)
        → Noted arrive event t after db db' ⊎ Completed arrive event t after db db'
        → Step t.status after.status
    go after (inl n) = elim n.order [
      | inl same ↦ subst (λ (x : Topup). Step t.status x.status) (sym same) (stays t.status)
      | inr (c, same) ↦ subst (λ (x : Topup). Step t.status x.status) (sym same) (Step-reviewed t c)
    ]
    go after (inr k) =
        subst (λ (x : Topup). Step t.status x.status) (sym k.is)
          (Step-settled event t k.was_pending)
