-- ===== src/Billing/Closure/Scan.antt =====
-- `scan_unsettled_sessions` of modules/billing/closure.py: pages of ended sessions that are not settled,
-- each session closed in its own transaction. Other transactions run before each page and each session;
-- `others` is what they commit, and `held` the rows that they hold locked. `now i` is the time and
-- `fresh i` the id that the transaction of session `i` draws; a scan reaches a session at most once.
use ttcs_t926_k8s4_n1_csms.Base.{
  ℕ, zero, suc, Bool, true, false, not, ◌&&◌, ◌||◌, Option, none, some, List, [], ◌∷◌, ltb,
  if◌then◌else◌,
}
use ttcs_t926_k8s4_n1_csms.Base.Sorted.{put_point}
use ttcs_t926_k8s4_n1_csms.Base.Pages.{limit, last_id}
use ttcs_t926_k8s4_n1_csms.Billing.Tables.{ChargingSession, find_session}
use ttcs_t926_k8s4_n1_csms.Billing.Invoicing.{InvoiceResult, ready, pending, needs_review, is_some}
use ttcs_t926_k8s4_n1_csms.Billing.Closure.{chot_phien}
use ttcs_t926_k8s4_n1_csms.Wallet.Tables.{Db}
use ttcs_t926_k8s4_n1_csms.Wallet.Tx.{value_error, unending, Result, ok, err}

pub record ScanResult : Type 0 where
  pub scanned : ℕ
  pub ready_count : ℕ
  pub needs_review_count : ℕ
  pub pending_count : ℕ
  pub busy : ℕ
  pub failed : ℕ

abbrev pub no_result : ScanResult
no_result = record {
  scanned = 0;
  ready_count = 0;
  needs_review_count = 0;
  pending_count = 0;
  busy = 0;
  failed = 0;
}

abbrev pub is_unsettled : ChargingSession → Bool
is_unsettled c = is_some c.ended_at && not (is_some c.settlement_completed_at)

-- The identifiers above the cursor, in order.
abbrev pub unsettled_after : ℕ → List ChargingSession → List ℕ
unsettled_after cursor [] = []
unsettled_after cursor (c ∷ cs) =
    if ltb cursor c.id && is_unsettled c
    then put_point c.id (unsettled_after cursor cs)
    else unsettled_after cursor cs

abbrev pub is_candidate : Option ChargingSession → Bool
is_candidate none = false
is_candidate (some c) = is_unsettled c

-- What a turn adds to the counters.
abbrev pub count_outcome : InvoiceResult → ScanResult → ScanResult
count_outcome (ready v) r = record r { ready_count = suc r.ready_count }
count_outcome (pending reason) r = record r { pending_count = suc r.pending_count }
count_outcome (needs_review reason) r = record r { needs_review_count = suc r.needs_review_count }

-- The commit, or the rollback and `except Exception`.
abbrev pub count_closed : Db → ScanResult → Result (InvoiceResult × Db) → ScanResult × Db
count_closed db r (ok (outcome, db')) = (count_outcome outcome r, db')
count_closed db r (err e) = (record r { failed = suc r.failed }, db)

abbrev pub returned : Option (ScanResult × Db) → Result (ScanResult × Db)
returned none = err unending
returned (some (r, db)) = ok (r, db)

module _ (now fresh : ℕ → ℕ) (arrive others : ℕ → Db → Db) (held : ℕ → Db → Bool) (settles : Bool)
    (batch_size : ℕ) where
  abbrev pub close_unless_busy : Bool → ℕ → ScanResult → Db → ScanResult × Db
  close_unless_busy true i r db = (record r { busy = suc r.busy }, db)
  close_unless_busy false i r db =
      count_closed db r (chot_phien (now i) (fresh i) arrive settles i db)

  -- The turn of one identifier.
  unfoldable pub scan_one : ℕ → ScanResult → Db → ScanResult × Db
  scan_one i r db =
      let db1 = others i db in
      let busy = held i db1 || not (is_candidate (find_session i db1.sessions)) in
      close_unless_busy busy i (record r { scanned = suc r.scanned }) db1

  unfoldable pub scan_page : List ℕ → ScanResult → Db → ScanResult × Db
  unfolding scan_one
  scan_page [] r db = (r, db)
  scan_page (i ∷ l) r db = let (r', db') = scan_one i r db in scan_page l r' db'

  -- `while True`: no value where the fuel, one unit for a page, runs out.
  unfoldable pub scan_pages : ℕ → ℕ → ScanResult → Db → Option (ScanResult × Db)
  unfolding scan_page
  scan_pages zero cursor r db = none
  scan_pages (suc fuel) cursor r db =
      let db1 = others cursor db in
      elim (limit batch_size (unsettled_after cursor db1.sessions)) [
        | [] ↦ some (r, db1)
        | i ∷ l ↦ let (r', db') = scan_page (i ∷ l) r db1 in scan_pages fuel (last_id i l) r' db'
      ]

  -- `scan_unsettled_sessions`; the last database is the one that it leaves behind.
  unfoldable pub scan_unsettled_sessions : ℕ → Db → Result (ScanResult × Db)
  unfolding scan_pages
  scan_unsettled_sessions fuel db =
      if ltb batch_size 1 then err value_error else returned (scan_pages fuel 0 no_result db)
