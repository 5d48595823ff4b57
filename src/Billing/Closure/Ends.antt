-- ===== src/Billing/Closure/Ends.antt =====
-- `scan_unsettled_sessions` (modules/billing/closure.py) ends, and its counters add up.
use ttcs_t926_k8s4_n1_csms.Base.{
  ℕ, zero, suc, ◌+◌, ◌≤◌, ◌<◌, ◌≡◌, refl, ap, Bool, true, false, not, ◌||◌, Option, some, List, [],
  ◌∷◌, All, arith,
}
use ttcs_t926_k8s4_n1_csms.Base.Sorted.{put_point}
use ttcs_t926_k8s4_n1_csms.Billing.Tables.{ChargingSession, find_session}
use ttcs_t926_k8s4_n1_csms.Billing.Invoicing.{InvoiceResult, ready, pending, needs_review}
use ttcs_t926_k8s4_n1_csms.Billing.Closure.{chot_phien}
use ttcs_t926_k8s4_n1_csms.Billing.Closure.Bounded.{Below, chot_phien-Below}
use ttcs_t926_k8s4_n1_csms.Billing.Closure.Scan.{
  ScanResult, unsettled_after, is_candidate, count_closed, close_unless_busy, scan_one, scan_page,
  scan_pages, no_result, returned, scan_unsettled_sessions,
}
use ttcs_t926_k8s4_n1_csms.Base.Pages.{limit, last_id}
use ttcs_t926_k8s4_n1_csms.Wallet.Tables.{Db}
use ttcs_t926_k8s4_n1_csms.Wallet.Tx.{Result, ok, err}

-- Every scanned session is counted once by how its turn ended.
abbrev pub Counted : ScanResult → Type 0
Counted r = r.scanned ≡ r.ready_count + r.needs_review_count + r.pending_count + r.busy + r.failed

abbrev Within : ℕ → ℕ → ℕ → Type 0
Within cursor bound i = (cursor < i) × (i ≤ bound)

put_point-Within :
    (cursor bound p : ℕ) (l : List ℕ)
    → Within cursor bound p
    → All (Within cursor bound) l
    → All (Within cursor bound) (put_point p l)
put_point-Within cursor bound p [] h a = (h, tt)
put_point-Within cursor bound p (x ∷ l) h (k, a) =
    ground (arith, put_point-Within cursor bound p l h a)

unsettled_after-Within :
    (cursor bound : ℕ) (cs : List ChargingSession)
    → All (λ (c : ChargingSession). c.id ≤ bound) cs
    → All (Within cursor bound) (unsettled_after cursor cs)
unsettled_after-Within cursor bound [] a = tt
unsettled_after-Within cursor bound (c ∷ cs) (k, a) =
    let rest = unsettled_after-Within cursor bound cs a in
    ground (
      arith,
      rest,
      λ (h : Within cursor bound c.id).
          put_point-Within cursor bound c.id (unsettled_after cursor cs) h rest,
    )

limit-Within :
    (cursor bound n : ℕ) (l : List ℕ)
    → All (Within cursor bound) l
    → All (Within cursor bound) (limit n l)
limit-Within cursor bound zero l a = tt
limit-Within cursor bound (suc n) [] a = tt
limit-Within cursor bound (suc n) (x ∷ l) (h, a) = (h, limit-Within cursor bound n l a)

last_id-Within :
    (cursor bound i : ℕ) (l : List ℕ)
    → Within cursor bound i
    → All (Within cursor bound) l
    → Within cursor bound (last_id i l)
last_id-Within cursor bound i [] h a = h
last_id-Within cursor bound i (j ∷ l) h (k, a) = last_id-Within cursor bound j l k a

module _ (now fresh : ℕ → ℕ) (arrive others : ℕ → Db → Db) (held : ℕ → Db → Bool) (settles : Bool)
    (batch_size bound : ℕ) (env : (i : ℕ) (db : Db) → Below bound db → Below bound (arrive i db))
    (between : (i : ℕ) (db : Db) → Below bound db → Below bound (others i db)) where
  -- What a turn keeps.
  abbrev Good : ScanResult × Db → Type 0
  Good (r, db) = Counted r × Below bound db

  count_closed-Good :
      (db : Db) (r : ScanResult) (m : Result (InvoiceResult × Db))
      → suc r.scanned
        ≡ suc (r.ready_count + r.needs_review_count + r.pending_count + r.busy + r.failed)
      → Below bound db
      → ((o : InvoiceResult) (db' : Db) → m ≡ ok (o, db') → Below bound db')
      → Good (count_closed db (record r { scanned = suc r.scanned }) m)
  count_closed-Good db r (ok (ready v, db')) c b f = (omega arith, f _ db' refl)
  count_closed-Good db r (ok (pending t, db')) c b f = (omega arith, f _ db' refl)
  count_closed-Good db r (ok (needs_review t, db')) c b f = (omega arith, f _ db' refl)
  count_closed-Good db r (err e) c b f = (omega arith, b)

  scan_one-Good :
      (i : ℕ) (r : ScanResult) (db : Db)
      → Counted r
      → Below bound db
      → Good (scan_one now fresh arrive others held settles batch_size i r db)
  unfolding scan_one
  scan_one-Good i r db c b =
      go (held i (others i db) || not (is_candidate (find_session i (others i db).sessions)))
    where
      go :
          (busy : Bool)
          → Good (
              close_unless_busy now fresh arrive others held settles batch_size busy i
                (record r { scanned = suc r.scanned })
                (others i db))
      go true = (omega arith, between i db b)
      go false =
          count_closed-Good (others i db) r
            (chot_phien (now i) (fresh i) arrive settles i (others i db)) (omega arith)
            (between i db b)
            (λ o db' e.
              chot_phien-Below bound arrive env (now i) (fresh i) settles i o (others i db) db' e
                (between i db b))

  scan_page-Good :
      (l : List ℕ) (r : ScanResult) (db : Db)
      → Counted r
      → Below bound db
      → Good (scan_page now fresh arrive others held settles batch_size l r db)
  unfolding scan_page
  scan_page-Good [] r db c b = (c, b)
  scan_page-Good (i ∷ l) r db c b =
      let (c', b') = scan_one-Good i r db c b in scan_page-Good l _ _ c' b'

  abbrev Returns : Option (ScanResult × Db) → Type 0
  Returns o = (r : ScanResult) × (db : Db) × (o ≡ some (r, db)) × Counted r

  scan_pages-from :
      (fuel cursor : ℕ) (r : ScanResult) (db : Db)
      → suc bound ≤ fuel + cursor
      → cursor ≤ bound
      → Counted r
      → Below bound db
      → Returns (scan_pages now fresh arrive others held settles batch_size fuel cursor r db)
  unfolding scan_pages
  scan_pages-from zero cursor r db f k c b = absurd (omega arith)
  scan_pages-from (suc fuel) cursor r db f k c b =
      next (limit batch_size (unsettled_after cursor db1.sessions))
        (limit-Within cursor bound batch_size _
          (unsettled_after-Within cursor bound db1.sessions b1))
        (scan_pages-from fuel)
    where
      db1 : Db
      db1 = others cursor db

      b1 : Below bound db1
      b1 = between cursor db b

      next :
          (l : List ℕ)
          → All (Within cursor bound) l
          → ((cursor : ℕ) (r : ScanResult) (db : Db)
              → suc bound ≤ fuel + cursor
              → cursor ≤ bound
              → Counted r
              → Below bound db
              → Returns
                  (scan_pages now fresh arrive others held settles batch_size fuel cursor r db))
          → Returns (elim l [
            | [] ↦ some (r, db1)
            | i ∷ l ↦
                let (r', db') =
                  scan_page now fresh arrive others held settles batch_size (i ∷ l) r db1 in
                scan_pages now fresh arrive others held settles batch_size fuel (last_id i l) r' db'
          ])
      next [] a rest = (r, db1, refl, c)
      next (i ∷ l) (h, a) rest =
          let (c', b') = scan_page-Good (i ∷ l) r db1 c b1 in
          let (above, below) = last_id-Within cursor bound i l h a in
          rest (last_id i l) _ _ (omega arith) below c' b'

  -- Where no session has an identifier above the bound, nor gets one, scan_unsettled_sessions with
  -- pages of at least one session and more turns than the bound returns, and every session that it
  -- scanned is counted once: as ready, for review, pending, busy or failed.
  pub scan_unsettled_sessions-Counted :
      (db : Db)
      → 1 ≤ batch_size
      → Below bound db
      → (r : ScanResult) × (db' : Db) × (scan_unsettled_sessions now fresh arrive others held
            settles batch_size
            (suc bound)
            db
          ≡ ok (r, db'))
        × Counted r
  unfolding scan_unsettled_sessions
  scan_unsettled_sessions-Counted db some_size b =
      let (r, db', e, counted) =
        scan_pages-from (suc bound) 0 no_result db (omega arith) (omega arith) refl b in
      (r, db', ground (arith, ap returned e), counted)
