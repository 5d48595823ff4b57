-- ===== src/Wallet/Topup/Money.antt =====
-- When a gateway callback moves money, and that it does so once
-- (modules/wallet/topup_webhook_service.py).
use ttcs_t926_k8s4_n1_csms.Base.{
  ℕ, ◌≡◌, refl, sym, ap, subst, ◌∙◌, ◌⊎◌, inl, inr, Bool, true, false, ◌||◌, some, List,
  if◌then◌else◌, arith,
}
use ttcs_t926_k8s4_n1_csms.Base.Text.{Text, strip}
use ttcs_t926_k8s4_n1_csms.Wallet.Tables.{
  Wallet, Entry, Topup, TopupStatus, pending, succeeded, needs_review, Db, find_wallet,
  ledger_total, find_driver_wallet, find_entry,
}
use ttcs_t926_k8s4_n1_csms.Wallet.Tx.{ok}
use ttcs_t926_k8s4_n1_csms.Wallet.Service.{Posting}
use ttcs_t926_k8s4_n1_csms.Wallet.Topup.Moves.{Noted, Completed}
use ttcs_t926_k8s4_n1_csms.Wallet.Topup.Settles.{OrderLocked}
use ttcs_t926_k8s4_n1_csms.Wallet.Topup.Callback.{Keyed, moves}
use ttcs_t926_k8s4_n1_csms.Wallet.Topup.{
  PaymentStatus, GatewayEvent, WarningCode, warning_reason, transition, SettlementResult,
  find_topup, is_pending, is_needs_review, is_succeeded, is_success, reviewed, credit,
  process_topup_webhook,
}
use ttcs_t926_k8s4_n1_csms.Wallet.Service.Arrival.{Lawful, Consistent, Arrives}
use ttcs_t926_k8s4_n1_csms.Wallet.Service.Invariant.{ghi_so_cai-Consistent}
use ttcs_t926_k8s4_n1_csms.Wallet.Service.Effect.{Moved, Effect, ghi_so_cai-Effect}

pub Effect-same :
    (p : Posting) (e : Entry) (a b db db' : Db)
    → a.wallets ≡ db.wallets
    → a.ledger ≡ db.ledger
    → db'.wallets ≡ b.wallets
    → db'.ledger ≡ b.ledger
    → Effect p a e b
    → Effect p db e db'
Effect-same p e a b db db' w l w' l' f = record {
  before = f.before;
  after = f.after;
  was = ap (find_wallet p.wallet_id) (sym w) ∙ f.was;
  is = ap (find_wallet p.wallet_id) w' ∙ f.is;
  row = ap (find_entry p.entry_type (strip p.reference_id)) l' ∙ f.row;
  mine = f.mine;
  amount = f.amount;
  sign = f.sign;
  open_wallet = f.open_wallet;
  moved =
      subst (λ (x : List Entry). Moved p f.before (record db { ledger = x }) e f.after) l f.moved;
}

pub Consistent-same :
    (a b : Db) → b.wallets ≡ a.wallets → b.ledger ≡ a.ledger → Consistent a → Consistent b
Consistent-same a b w l c = record {
  cached = λ i v h. c.cached i v (ap (find_wallet i) (sym w) ∙ h) ∙ ap (ledger_total i) (sym l);
  ranged = λ i v h. c.ranged i v (ap (find_wallet i) (sym w) ∙ h);
  lawful = subst Lawful (sym l) c.lawful;
  owned = λ d v h. ap (find_wallet v.id) w ∙ c.owned d v (ap (find_driver_wallet d) (sym w) ∙ h);
}

pub is_succeeded-reviewed :
    (t : Topup) (c : WarningCode) → is_succeeded (reviewed t c).status ≡ is_succeeded t.status
is_succeeded-reviewed t c = go (is_succeeded t.status) refl (is_needs_review t.status)
  where
    go :
        (a : Bool)
        → is_succeeded t.status ≡ a
        → (b : Bool)
        → let s : Topup =
            if a || b
            then t
            else record t { status = needs_review; reason = some (warning_reason c) } in
          is_succeeded s.status ≡ is_succeeded t.status
    go true e b = refl
    go false e true = refl
    go false e false = sym e

pending_of : (s : TopupStatus) → is_pending s ≡ true → s ≡ pending
pending_of s h = ground arith

succeeded_by :
    (s : TopupStatus) (p : PaymentStatus)
    → is_pending s ≡ true
    → is_success p ≡ true
    → transition s p ≡ succeeded
succeeded_by s p h k = ground arith

-- Money and status move together.
abbrev pub Credits : GatewayEvent → Topup → Topup → Db → Db → Type 0
Credits event t after db db' =
    ((db'.wallets ≡ db.wallets)
      × (db'.ledger ≡ db.ledger)
      × (is_succeeded after.status ≡ is_succeeded t.status))
    ⊎ ((t.status ≡ pending)
        × (after.status ≡ succeeded)
        × (t.amount_vnd ≡ event.amount_vnd)
        × (w : Wallet) × (find_driver_wallet t.driver_id db.wallets ≡ some w)
        × (e : Entry) × Effect (credit event w.id) db e db')

-- The balances and the ledger change only when a pending order becomes a succeeded one, and an order
-- becomes a succeeded one only with the posting of its amount to its driver's wallet.
pub process_topup_webhook-Credits :
    (digest : Text → Text) (arrive : ℕ → Db → Db) (event : GatewayEvent) (t : Topup) (db db' : Db)
    (r : SettlementResult)
    → ((i : ℕ) → Arrives i (arrive i))
    → OrderLocked arrive event.order_id
    → Keyed event.order_id db
    → find_topup event.order_id db.topups ≡ some t
    → process_topup_webhook digest arrive event db ≡ ok (r, db')
    → (after : Topup) × (find_topup event.order_id db'.topups ≡ some after)
      × Credits event t after db db'
process_topup_webhook-Credits digest arrive event t db db' r env free keyed f run =
    let m = moves digest arrive event t db db' r free keyed f run in
    (m.after, m.found, go m.after m.how)
  where
    unsettled :
        (s : TopupStatus) (p : PaymentStatus)
        → is_pending s ≡ true
        → is_success p ≡ false
        → is_succeeded (transition s p) ≡ is_succeeded s
    unsettled s p h k = ground arith

    go :
        (after : Topup)
        → Noted arrive event t after db db' ⊎ Completed arrive event t after db db'
        → Credits event t after db db'
    go after (inl n) = inl (
      n.wallets,
      n.ledger,
      elim n.order [
        | inl same ↦ ap (λ (x : Topup). is_succeeded x.status) same
        | inr (c, same) ↦ ap (λ (x : Topup). is_succeeded x.status) same ∙ is_succeeded-reviewed t c
      ],
    )
    go after (inr k) = elim k.paid [
      | inl (unpaid, ws, l) ↦ inl (
        ws,
        l,
        ap (λ (x : Topup). is_succeeded x.status) k.is
            ∙ unsettled t.status event.status k.was_pending unpaid,
      )
      | inr (success, c) ↦ inr (
        pending_of t.status k.was_pending,
        ap (λ (x : Topup). x.status) k.is
            ∙ succeeded_by t.status event.status k.was_pending success,
        ground arith,
        c.wallet,
        c.owner,
        c.entry,
        Effect-same (credit event c.wallet.id) c.entry c.ready c.done db db' c.ready_wallets
            c.ready_ledger c.done_wallets c.done_ledger
            (ghi_so_cai-Effect (arrive c.wallet.id) (credit event c.wallet.id) c.entry c.ready
              c.done (env c.wallet.id) c.posted),
      )
    ]

-- A callback on an order keeps the wallet tables consistent.
pub process_topup_webhook-Consistent :
    (digest : Text → Text) (arrive : ℕ → Db → Db) (event : GatewayEvent) (t : Topup) (db db' : Db)
    (r : SettlementResult)
    → ((i : ℕ) → Arrives i (arrive i))
    → OrderLocked arrive event.order_id
    → Keyed event.order_id db
    → find_topup event.order_id db.topups ≡ some t
    → Consistent db
    → process_topup_webhook digest arrive event db ≡ ok (r, db')
    → Consistent db'
process_topup_webhook-Consistent digest arrive event t db db' r env free keyed f c run =
    let m = moves digest arrive event t db db' r free keyed f run in go m.after m.how
  where
    go :
        (after : Topup)
        → Noted arrive event t after db db' ⊎ Completed arrive event t after db db'
        → Consistent db'
    go after (inl n) = Consistent-same db db' n.wallets n.ledger c
    go after (inr k) = elim k.paid [
      | inl (_, ws, l) ↦ Consistent-same db db' ws l c
      | inr (_, p) ↦ Consistent-same p.done db' p.done_wallets p.done_ledger (
          ghi_so_cai-Consistent (arrive p.wallet.id) (credit event p.wallet.id) (env p.wallet.id)
            p.entry p.ready p.done (Consistent-same db p.ready p.ready_wallets p.ready_ledger c)
            p.posted)
    ]
