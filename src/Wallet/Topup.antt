-- ===== src/Wallet/Topup.antt =====
-- modules/wallet/topup_webhook_service.py: what a payment gateway's callback does to an order.
-- `arrive i` is what other transactions commit while wallet `i` is locked, and `digest` is the
-- SHA-256 of a text in hexadecimal digits.
pub mod Kept
pub mod Moves
pub mod Settles
pub mod Callback
pub mod Money
pub mod Repeat
mod Tests
use ttcs_t926_k8s4_n1_csms.Base.{
  ℕ, Bool, true, false, not, ◌&&◌, ◌||◌, Option, none, some, List, [], ◌∷◌, ◌++◌, ◌==◌,
  if◌then◌else◌,
}
use ttcs_t926_k8s4_n1_csms.Base.Int.{ℤ, eqb_ℤ}
use ttcs_t926_k8s4_n1_csms.Base.Text.{Text, codes, text_eq}
use ttcs_t926_k8s4_n1_csms.Wallet.Uuid.{uuid_text}
use ttcs_t926_k8s4_n1_csms.Wallet.Tables.{
  Wallet, gateway_topup, Topup, TopupStatus, pending, succeeded, failed, cancelled, needs_review,
  Db, find_driver_wallet,
}
use ttcs_t926_k8s4_n1_csms.Wallet.Tx.{
  Error, Result, ok, err, Tx, pure, raise, gets, or_raise, ◌>>=◌, ◌>>◌, raise_if, modify,
  wallet_not_found, wallet_locked, wallet_ownership, ledger_conflict, wallet_amount,
  adjustment_audit, admin_required, reconciliation, request_conflict, driver_required, topup_reason,
  value_error, lookup_error, integrity_error, gateway_taken,
}
use ttcs_t926_k8s4_n1_csms.Wallet.Service.{Posting, ghi_so_cai}
use ttcs_t926_k8s4_n1_csms.Wallet.Journal.{ghi_nhat_ky, logged}

pub data PaymentStatus : Type 0 where
  event_succeeded event_failed event_cancelled : PaymentStatus

pub record GatewayEvent : Type 0 where
  pub gateway_transaction_id : Text
  pub order_id : Text
  pub amount_vnd : ℤ
  pub status : PaymentStatus
  pub reason : Option Text

-- The keys of `WARNING_REASONS`.
pub data WarningCode : Type 0 where
  unknown_order amount_mismatch gateway_conflict late_success late_non_success : WarningCode
  review_callback settlement_conflict : WarningCode

abbrev pub warning_reason : WarningCode → Text
warning_reason unknown_order = codes "Payment webhook references an unknown order"
warning_reason amount_mismatch = codes "Gateway amount does not match the order"
warning_reason gateway_conflict = codes "Order has a different gateway transaction"
warning_reason late_success = codes "Success received after failure or cancellation"
warning_reason late_non_success = codes "Failure or cancellation received after success"
warning_reason review_callback = codes "Callback received for an order awaiting review"
warning_reason settlement_conflict = codes "Wallet settlement conflict"

-- `f"payment_webhook.{code}"`
abbrev pub action_of : WarningCode → Text
action_of unknown_order = codes "payment_webhook.unknown_order"
action_of amount_mismatch = codes "payment_webhook.amount_mismatch"
action_of gateway_conflict = codes "payment_webhook.gateway_conflict"
action_of late_success = codes "payment_webhook.late_success"
action_of late_non_success = codes "payment_webhook.late_non_success"
action_of review_callback = codes "payment_webhook.review_callback"
action_of settlement_conflict = codes "payment_webhook.settlement_conflict"

-- `TRANSITIONS`
abbrev pub transition : TopupStatus → PaymentStatus → TopupStatus
transition pending event_succeeded = succeeded
transition pending event_failed = failed
transition pending event_cancelled = cancelled
transition succeeded _ = succeeded
transition failed event_succeeded = needs_review
transition failed event_failed = failed
transition failed event_cancelled = failed
transition cancelled event_succeeded = needs_review
transition cancelled event_failed = cancelled
transition cancelled event_cancelled = cancelled
transition needs_review _ = needs_review

pub record Warning : Type 0 where
  pub order_reference : Text
  pub code : WarningCode

-- The status that a callback is answered with.
pub data Reported : Type 0 where
  not_found : Reported
  order_is : TopupStatus → Reported

pub record SettlementResult : Type 0 where
  pub status_code : ℕ
  pub status : Reported
  pub warning : Option Warning

-- `select(WalletTopup).where(WalletTopup.order_id == o)`
abbrev pub find_topup : Text → List Topup → Option Topup
find_topup o [] = none
find_topup o (t ∷ ts) = if text_eq t.order_id o then some t else find_topup o ts

-- `session.get(WalletTopup, i)`
abbrev pub topup_at : ℕ → List Topup → Option Topup
topup_at i [] = none
topup_at i (t ∷ ts) = if t.id == i then some t else topup_at i ts

-- The flush of a changed order.
abbrev pub put_topup : Topup → List Topup → List Topup
put_topup t [] = []
put_topup t (s ∷ ss) = (if s.id == t.id then t else s) ∷ put_topup t ss

abbrev pub save : Topup → Tx (Unit {0})
save t = modify (λ db. record db { topups = put_topup t db.topups })

abbrev pub same_text : Option Text → Text → Bool
same_text none s = false
same_text (some t) s = text_eq t s

-- `uq_wallet_topups_gateway`: another order has the gateway's id.
abbrev pub taken : ℕ → Text → List Topup → Bool
taken i g [] = false
taken i g (t ∷ ts) = not (t.id == i) && same_text t.gateway_transaction_id g || taken i g ts

-- The actions that count as this warning.
abbrev pub actions : WarningCode → List Text
actions review_callback =
    action_of review_callback ∷ action_of late_success ∷ action_of settlement_conflict ∷ []
actions c = action_of c ∷ []

abbrev pub object_type : Option Topup → Text
object_type none = codes "payment_order"
object_type (some t) = codes "wallet_topup"

abbrev pub is_pending : TopupStatus → Bool
is_pending pending = true
is_pending _ = false

abbrev pub is_needs_review : TopupStatus → Bool
is_needs_review needs_review = true
is_needs_review _ = false

abbrev pub is_succeeded : TopupStatus → Bool
is_succeeded succeeded = true
is_succeeded _ = false

abbrev pub is_success : PaymentStatus → Bool
is_success event_succeeded = true
is_success _ = false

-- What `_review` makes of an order: a completed credit is never downgraded.
abbrev pub reviewed : Topup → WarningCode → Topup
reviewed t c =
    if is_succeeded t.status || is_needs_review t.status
    then t
    else record t { status = needs_review; reason = some (warning_reason c) }

-- `event.reason or f"Gateway reported {event.status}"`, and `None` for a success.
abbrev pub reason_of : PaymentStatus → Option Text → Option Text
reason_of event_succeeded r = none
reason_of s (some (c ∷ t)) = some (c ∷ t)
reason_of event_failed _ = some (codes "Gateway reported failed")
reason_of event_cancelled _ = some (codes "Gateway reported cancelled")

-- `topup.gateway_transaction_id not in {None, g}`
abbrev pub other_gateway : Option Text → Text → Bool
other_gateway none g = false
other_gateway (some h) g = not (text_eq h g)

-- The order after a callback that settled it.
abbrev pub settled : GatewayEvent → Topup → Topup
settled event t = record t {
  status = transition t.status event.status;
  gateway_transaction_id = some event.gateway_transaction_id;
  reason = reason_of event.status event.reason;
}

-- The posting of a successful payment.
abbrev pub credit : GatewayEvent → ℕ → Posting
credit event wallet_id = record {
  wallet_id = wallet_id;
  entry_type = gateway_topup;
  amount_vnd = event.amount_vnd;
  reference_type = codes "gateway_transaction";
  reference_id = event.gateway_transaction_id;
  actor_id = none;
}

-- `except (WalletError, IntegrityError)`, less the integrity errors that are raised again.
abbrev pub caught : Error → Bool
caught wallet_not_found = true
caught wallet_locked = true
caught wallet_ownership = true
caught ledger_conflict = true
caught wallet_amount = true
caught adjustment_audit = true
caught admin_required = true
caught reconciliation = true
caught request_conflict = true
caught driver_required = true
caught gateway_taken = true
caught _ = false

-- `async with session.begin_nested()` under `try`: the handler sees the tables of before. What other
-- transactions committed meanwhile does not touch the rows of the locked order, which it reads.
abbrev pub savepoint : {A : Type 0} → Tx A → Tx A → Tx A
savepoint m handler db = elim (m db) [
  | ok r ↦ ok r
  | err e ↦ if caught e then handler db else err e
]

module _ (arrive : ℕ → Db → Db) where
  -- `if event.status == "succeeded"`
  unfoldable pub credit_wallet : Bool → GatewayEvent → Topup → Tx (Unit {0})
  credit_wallet false event t = pure tt
  credit_wallet true event t = do
    wallet ← or_raise (← gets (λ db. find_driver_wallet t.driver_id db.wallets)) wallet_not_found
    ghi_so_cai (arrive wallet.id) (credit event wallet.id)
    pure tt

  -- The body of the savepoint.
  unfoldable pub settle_order : GatewayEvent → Topup → Tx SettlementResult
  settle_order event t = do
    others ← gets (λ db. taken t.id event.gateway_transaction_id db.topups)
    raise_if others gateway_taken
    save (record t { gateway_transaction_id = some event.gateway_transaction_id })
    credit_wallet (is_success event.status) event t
    save (settled event t)
    pure (record { status_code = 200; status = order_is (settled event t).status; warning = none })

module _ (digest : Text → Text) where
  abbrev pub reference : Text → Option Topup → Text
  reference order_id none = digest order_id
  reference order_id (some t) = uuid_text t.id

  -- The end of `_warn_once`, from `if found is not None`.
  unfoldable pub warn_unless : Bool → Text → Option Topup → WarningCode → Tx (Option Warning)
  warn_unless true order_id topup code = pure none
  warn_unless false order_id topup code = do
    ghi_nhat_ky none (action_of code) (object_type topup) (reference order_id topup)
    pure (some (record { order_reference = reference order_id topup; code = code }))

  -- `_warn_once`
  unfoldable pub warn_once : Text → Option Topup → WarningCode → Tx (Option Warning)
  warn_once order_id topup code = do
    found ←
        gets (λ db. logged (actions code) (object_type topup) (reference order_id topup) db.logs)
    warn_unless found order_id topup code

  -- `_review`
  unfoldable pub review : Topup → WarningCode → Tx (Option Warning)
  review t code = do save (reviewed t code); warn_once t.order_id (some t) code

  unfoldable pub answer_review : ℕ → Topup → WarningCode → Tx SettlementResult
  answer_review status_code t code = do
    warning ← review t code
    pure (record {
      status_code = status_code;
      status = order_is (reviewed t code).status;
      warning = warning;
    })

  unfoldable pub answer_warned : Topup → WarningCode → Tx SettlementResult
  answer_warned t code = do
    warning ← warn_once t.order_id (some t) code
    pure (record { status_code = 200; status = order_is t.status; warning = warning })

  -- The block under `if topup.status != "pending"`.
  unfoldable pub repeated : GatewayEvent → Topup → Tx SettlementResult
  repeated event t =
      if is_needs_review t.status
      then answer_warned t review_callback
      else if is_needs_review (transition t.status event.status)
      then answer_review 200 t late_success
      else if is_succeeded t.status && not (is_success event.status)
      then answer_warned t late_non_success
      else pure (record { status_code = 200; status = order_is t.status; warning = none })

  -- The handler: the order is read again.
  unfoldable pub conflict : ℕ → Tx SettlementResult
  conflict topup_id = do
    t ← or_raise (← gets (λ db. topup_at topup_id db.topups)) lookup_error
    answer_review 200 t settlement_conflict

  module _ (arrive : ℕ → Db → Db) where
    unfoldable pub on_order : GatewayEvent → Topup → Tx SettlementResult
    on_order event t =
        if not (eqb_ℤ t.amount_vnd event.amount_vnd)
        then answer_review 400 t amount_mismatch
        else if other_gateway t.gateway_transaction_id event.gateway_transaction_id
        then answer_review 200 t gateway_conflict
        else if not (is_pending t.status)
        then repeated event t
        else savepoint (settle_order arrive event t) (conflict t.id)

    unfoldable pub on_found : GatewayEvent → Option Topup → Tx SettlementResult
    on_found event (some t) = on_order event t
    on_found event none = do
      warning ← warn_once event.order_id none unknown_order
      pure (record { status_code = 404; status = not_found; warning = warning })

    unfoldable pub process_topup_webhook : GatewayEvent → Tx SettlementResult
    process_topup_webhook event = do
      topup ← gets (λ db. find_topup event.order_id db.topups)
      on_found event topup
