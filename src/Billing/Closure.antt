-- ===== src/Billing/Closure.antt =====
-- modules/billing/closure.py: a session's invoice and its debit in one transaction, and the scan that
-- settles what was left. `now` is the time, `fresh` the id that `uuid4` draws, and `arrive` what other
-- transactions commit while the debit waits for a wallet, as in Wallet/Debit.
pub mod Scan
pub mod Runner
pub mod Counts
pub mod Queue
pub mod Turns
pub mod Bounded
pub mod Ends
pub mod Settled
pub mod Untouched
mod Tests
mod RunnerTests
use ttcs_t926_k8s4_n1_csms.Base.{
  ℕ, Bool, true, false, not, ◌&&◌, ◌||◌, Option, none, some, List, [], ◌∷◌, keep, length, is_empty,
  ◌==◌, if◌then◌else◌,
}
use ttcs_t926_k8s4_n1_csms.Base.Int.{ℤ, pos, neg, eqb_ℤ}
use ttcs_t926_k8s4_n1_csms.Base.Text.{Text, codes, text_eq, decimal}
use ttcs_t926_k8s4_n1_csms.Billing.Tables.{ChargingSession, Invoice, find_session, put_session}
use ttcs_t926_k8s4_n1_csms.Billing.Invoicing.{
  InvoiceResult, ready, pending, needs_review, is_some, add_reason, lap_hoa_don,
}
use ttcs_t926_k8s4_n1_csms.Wallet.Tables.{
  Wallet, Entry, charging_debit, type_eq, Db, find_driver_wallet,
}
use ttcs_t926_k8s4_n1_csms.Wallet.Debit.{tru_vi}
use ttcs_t926_k8s4_n1_csms.Wallet.Tx.{Tx, pure, gets, modify, ◌>>=◌, ◌>>◌}

-- The `where` of `entries`.
abbrev pub is_settlement_of : ℕ → Entry → Bool
is_settlement_of session e =
    text_eq e.reference_id (decimal session)
    && (type_eq e.entry_type charging_debit || text_eq e.reference_type (codes "charging_session"))

abbrev pub is_wallet_of : Option Wallet → Entry → Bool
is_wallet_of none e = false
is_wallet_of (some w) e = e.wallet_id == w.id

-- The one entry that an invoice may already have.
abbrev pub fits_invoice : Invoice → Option Wallet → Entry → Bool
fits_invoice v wallet e =
    is_wallet_of wallet e
    && type_eq e.entry_type charging_debit
    && text_eq e.reference_type (codes "charging_session")
    && eqb_ℤ e.amount_vnd (neg v.total_vnd)
    && not (eqb_ℤ v.total_vnd (pos 0))

abbrev pub mismatch : Invoice → Option Wallet → List Entry → Bool
mismatch v wallet [] = false
mismatch v wallet (e ∷ []) = not (fits_invoice v wallet e)
mismatch v wallet (e ∷ e' ∷ es) = true

module _ (now fresh : ℕ) (arrive : ℕ → Db → Db) where
  abbrev pub settled_row : Invoice → ChargingSession → ChargingSession
  settled_row v c = record c {
    settlement_completed_at = some now;
    settlement_reason =
        some (if eqb_ℤ v.total_vnd (pos 0) then codes "zero_invoice" else codes "debited");
  }

  -- `if not entries: await tru_vi(…)`
  unfoldable pub debit_if : Bool → Invoice → Tx (Unit {0})
  debit_if false v = pure tt
  debit_if true v = do row ← tru_vi arrive fresh (some v) none none none; pure tt

  unfoldable pub complete : Bool → Invoice → ChargingSession → Tx InvoiceResult
  unfolding debit_if
  complete unpaid v c = do
    debit_if unpaid v
    modify (λ db. record db { sessions = put_session (settled_row v c) db.sessions })
    pure (ready v)

  unfoldable pub mark_mismatch : ChargingSession → Tx InvoiceResult
  mark_mismatch c = do
    modify (λ db. record db {
      sessions =
          put_session (add_reason now fresh (codes "settlement_ledger_mismatch") c) db.sessions;
    })
    pure (needs_review (codes "settlement_ledger_mismatch"))

  -- From `invoice = outcome.invoice`.
  unfoldable pub settle : Invoice → ChargingSession → Tx InvoiceResult
  unfolding complete mark_mismatch
  settle v c = do
    wallet ← gets (λ db. find_driver_wallet v.driver_id db.wallets)
    entries ← gets (λ db. keep (is_settlement_of c.id) db.ledger)
    if mismatch v wallet entries then mark_mismatch c else complete (is_empty entries) v c

  abbrev pub settle_if_ready : Bool → ChargingSession → InvoiceResult → Tx InvoiceResult
  settle_if_ready true c (ready v) = settle v c
  settle_if_ready _ c outcome = pure outcome

  -- The branches on `charging`.
  unfoldable pub close : Bool → ℕ → Option ChargingSession → Tx InvoiceResult
  unfolding settle
  close settles session none = lap_hoa_don now fresh session
  close settles session (some c) = do
    outcome ← lap_hoa_don now fresh session
    settle_if_ready (settles && not (is_some c.settlement_completed_at)) c outcome

  -- `_chot_phien_in_session`, and `chot_phien` in a transaction.
  unfoldable pub chot_phien : Bool → ℕ → Tx InvoiceResult
  unfolding close
  chot_phien settles session = do
    c ← gets (λ db. find_session session db.sessions)
    close settles session c
