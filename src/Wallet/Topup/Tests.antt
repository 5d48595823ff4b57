-- ===== src/Wallet/Topup/Tests.antt =====
-- The gateway's callbacks at concrete inputs.
use ttcs_t926_k8s4_n1_csms.Base.{◌≡◌, refl, subst, none, some, [], ◌∷◌}
use ttcs_t926_k8s4_n1_csms.Base.Int.{pos, ◌+ℤ◌}
use ttcs_t926_k8s4_n1_csms.Base.Text.{Text, codes, strip}
use ttcs_t926_k8s4_n1_csms.Wallet.Tables.{Topup, pending, succeeded, Db}
use ttcs_t926_k8s4_n1_csms.Wallet.Tx.{ok}
use ttcs_t926_k8s4_n1_csms.Wallet.Service.{
  integer_vnd, lock_wallet, checked, evidence, win_or_match, insert_or_match, insert_entry, post,
  settle, ghi_so_cai,
}
use ttcs_t926_k8s4_n1_csms.Wallet.Service.Arrival.{Consistent}
use ttcs_t926_k8s4_n1_csms.Wallet.Journal.{ghi_nhat_ky, identifier, any_identifier, add_log}
use ttcs_t926_k8s4_n1_csms.Wallet.Tests.{tables, topped_up, tables-Consistent, quiet, quiet-Arrives}
use ttcs_t926_k8s4_n1_csms.Wallet.Topup.{
  event_succeeded, GatewayEvent, unknown_order, order_is, not_found, SettlementResult, find_topup,
  topup_at, warn_unless, warn_once, credit_wallet, settle_order, on_order, on_found,
  process_topup_webhook,
}
use ttcs_t926_k8s4_n1_csms.Wallet.Topup.Settles.{OrderLocked}
use ttcs_t926_k8s4_n1_csms.Wallet.Topup.Callback.{Keyed, Step, process_topup_webhook-Step}
use ttcs_t926_k8s4_n1_csms.Wallet.Topup.Money.{
  Credits, process_topup_webhook-Credits, process_topup_webhook-Consistent,
}
use ttcs_t926_k8s4_n1_csms.Wallet.Topup.Repeat.{
  process_topup_webhook_replay, process_topup_webhook_unknown,
}

abbrev order : Topup
order = record {
  id = 5;
  driver_id = 7;
  amount_vnd = pos 50000;
  status = pending;
  order_id = codes "order-5";
  gateway_transaction_id = none;
  reason = none;
}

abbrev payment : GatewayEvent
payment = record {
  gateway_transaction_id = codes "tx-1";
  order_id = codes "order-5";
  amount_vnd = pos 50000;
  status = event_succeeded;
  reason = none;
}

abbrev digest : Text → Text
digest t = codes "00ff"

abbrev ordered : Db
ordered = record tables { topups = order ∷ [] }

abbrev paid_order : Topup
paid_order = record order { status = succeeded; gateway_transaction_id = some (codes "tx-1") }

abbrev paid : Db
paid = record topped_up { topups = paid_order ∷ [] }

abbrev answer : SettlementResult
answer = record { status_code = 200; status = order_is succeeded; warning = none }

payment_runs : process_topup_webhook digest (λ i. quiet) payment ordered ≡ ok (answer, paid)
unfolding process_topup_webhook on_found on_order settle_order credit_wallet ghi_so_cai checked
    settle post insert_or_match win_or_match insert_entry integer_vnd lock_wallet evidence strip
    ◌+ℤ◌
payment_runs = refl

quiet-OrderLocked : (o : Text) → OrderLocked (λ i. quiet) o
quiet-OrderLocked o i db = refl

ordered-Keyed : Keyed (codes "order-5") ordered
ordered-Keyed t h =
    let e : order ≡ t = cc in subst (λ (x : Topup). topup_at x.id ordered.topups ≡ some x) e refl

ordered-Consistent : Consistent ordered
ordered-Consistent = record {
  cached = tables-Consistent.cached;
  ranged = tables-Consistent.ranged;
  lawful = tables-Consistent.lawful;
  owned = tables-Consistent.owned;
}

process_topup_webhook-Step_example :
    (after : Topup) × (find_topup (codes "order-5") paid.topups ≡ some after)
    × (order_is succeeded ≡ order_is after.status)
    × Step pending after.status
process_topup_webhook-Step_example =
    process_topup_webhook-Step digest (λ i. quiet) payment order ordered paid answer
      (quiet-OrderLocked (codes "order-5")) ordered-Keyed refl payment_runs

process_topup_webhook-Credits_example :
    (after : Topup) × (find_topup (codes "order-5") paid.topups ≡ some after)
    × Credits payment order after ordered paid
process_topup_webhook-Credits_example =
    process_topup_webhook-Credits digest (λ i. quiet) payment order ordered paid answer
      quiet-Arrives (quiet-OrderLocked (codes "order-5")) ordered-Keyed refl payment_runs

process_topup_webhook-Consistent_example : Consistent paid
process_topup_webhook-Consistent_example =
    process_topup_webhook-Consistent digest (λ i. quiet) payment order ordered paid answer
      quiet-Arrives (quiet-OrderLocked (codes "order-5")) ordered-Keyed refl ordered-Consistent
      payment_runs

process_topup_webhook_replay_example :
    process_topup_webhook digest (λ i. quiet) payment paid ≡ ok (answer, paid)
process_topup_webhook_replay_example =
    process_topup_webhook_replay digest (λ i. quiet) (λ i. quiet) payment order ordered paid answer
      (quiet-OrderLocked (codes "order-5")) ordered-Keyed refl refl payment_runs refl

abbrev unknown : SettlementResult
unknown = record {
  status_code = 404;
  status = not_found;
  warning = some (record { order_reference = codes "00ff"; code = unknown_order });
}

abbrev warned : Db
warned =
    add_log none (codes "payment_webhook.unknown_order") (codes "payment_order") (codes "00ff")
      tables

unknown_runs : process_topup_webhook digest (λ i. quiet) payment tables ≡ ok (unknown, warned)
unfolding process_topup_webhook on_found warn_once warn_unless ghi_nhat_ky identifier any_identifier
    strip
unknown_runs = refl

process_topup_webhook_unknown_example :
    (unknown.status_code ≡ 404)
    × (warned.wallets ≡ tables.wallets)
    × (warned.ledger ≡ tables.ledger)
    × (warned.topups ≡ tables.topups)
    × (process_topup_webhook digest (λ i. quiet) payment warned
        ≡ ok (record { status_code = 404; status = not_found; warning = none }, warned))
unfolding strip
process_topup_webhook_unknown_example =
    process_topup_webhook_unknown digest (λ i. quiet) (λ i. quiet) payment tables warned unknown
      refl refl unknown_runs
