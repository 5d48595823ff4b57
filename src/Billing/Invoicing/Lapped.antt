-- ===== src/Billing/Invoicing/Lapped.antt =====
-- How `lap_hoa_don` (modules/billing/invoicing.py) ends when it returns.
use ttcs_t926_k8s4_n1_csms.Base.{
  ℕ, ◌≡◌, refl, sym, ap, subst, ◌∙◌, ◌⊎◌, inl, inr, Bool, true, false, Option, none, some, is_empty,
  if◌then◌else◌,
}
use ttcs_t926_k8s4_n1_csms.Base.Text.{Text, codes}
use ttcs_t926_k8s4_n1_csms.Billing.Tables.{ChargingSession, Invoice, find_session, put_session}
use ttcs_t926_k8s4_n1_csms.Billing.Invoicing.Created.{Created, create_invoice-Created}
use ttcs_t926_k8s4_n1_csms.Billing.Invoicing.{
  InvoiceResult, ready, pending, needs_review, add_reason, needs_review_for, invalid_reason,
  review_or_raise, caught_invoice, awaits_unplug, create_invoice, invoice_new, reuse_or_new,
  invoice_ended, lap_hoa_don,
}
use ttcs_t926_k8s4_n1_csms.Wallet.Tables.{Db}
use ttcs_t926_k8s4_n1_csms.Wallet.Debit.{find_invoice}
use ttcs_t926_k8s4_n1_csms.Wallet.Tx.{Result, ok, err}
use ttcs_t926_k8s4_n1_csms.Wallet.Tx.Invert.{or_raise-ok, ok_state, ok_value}

module _ (now fresh : ℕ) where
  abbrev pub reviewed_db : Text → ChargingSession → Db → Db
  reviewed_db reason c db = record db {
    sessions = put_session (add_reason now fresh reason c) db.sessions;
  }

  -- How `lap_hoa_don` ended: nothing written, a reason for a review written, or an invoice made.
  abbrev pub Lapped : ChargingSession → InvoiceResult → Db → Db → Type 0
  Lapped c r db db' =
      (db ≡ db') × ((v : Invoice) → r ≡ ready v → find_invoice c.id db.invoices ≡ some v)
      ⊎ ((reason : Text) × (r ≡ needs_review reason) × (db' ≡ reviewed_db reason c db))
      ⊎ ((v : Invoice) × (r ≡ ready v) × Created fresh c v db db')

  caught_invoice-Lapped :
      (c : ChargingSession) (m : Result (Invoice × Db)) (r : InvoiceResult) (db db' : Db)
      → ((v : Invoice) (db1 : Db) → m ≡ ok (v, db1) → Created fresh c v db db1)
      → caught_invoice now fresh c db m ≡ ok (r, db')
      → Lapped c r db db'
  unfolding needs_review_for
  caught_invoice-Lapped c (ok (v, db1)) r db db' f h =
      inr (inr (v, sym (ok_value h), subst (Created fresh c v db) (ok_state h) (f v db1 refl)))
  caught_invoice-Lapped c (err e) r db db' f h = go (invalid_reason e) h
    where
      go : (o : Option Text) → review_or_raise now fresh o e c db ≡ ok (r, db') → Lapped c r db db'
      go none k = cc
      go (some reason) k = inr (inl (reason, sym (ok_value k), sym (ok_state k)))

  stayed :
      (c : ChargingSession) (r r' : InvoiceResult) (db db' : Db)
      → ((v : Invoice) → r ≡ ready v → find_invoice c.id db.invoices ≡ some v)
      → ◌≡◌ {A = Result (InvoiceResult × Db)} (ok (r, db)) (ok (r', db'))
      → Lapped c r' db db'
  stayed c r r' db db' f h = inl (ok_state h, λ v e. f v (ok_value h ∙ e))

  invoice_new-Lapped :
      (c : ChargingSession) (end : ℕ) (r : InvoiceResult) (db db' : Db)
      → invoice_new now fresh c end db ≡ ok (r, db')
      → Lapped c r db db'
  unfolding invoice_new
  invoice_new-Lapped c end r db db' h = go (awaits_unplug now fresh c) h
    where
      go :
          (b : Bool)
          → (if b
              then ok (pending (codes "invoice_awaiting_unplug"), db)
              else caught_invoice now fresh c db (create_invoice now fresh c end db))
            ≡ ok (r, db')
          → Lapped c r db db'
      go true k = stayed c (pending _) r db db' (λ v e. cc) k
      go false k =
          caught_invoice-Lapped c (create_invoice now fresh c end db) r db db'
            (λ v db1 e. create_invoice-Created now fresh c end db db1 e) k

  reuse_or_new-Lapped :
      (c : ChargingSession) (end : ℕ) (o : Option Invoice) (r : InvoiceResult) (db db' : Db)
      → find_invoice c.id db.invoices ≡ o
      → reuse_or_new now fresh o c end db ≡ ok (r, db')
      → Lapped c r db db'
  reuse_or_new-Lapped c end none r db db' e h = invoice_new-Lapped c end r db db' h
  reuse_or_new-Lapped c end (some w) r db db' e h =
      stayed c (ready w) r db db' (λ v is. let same : w ≡ v = cc in e ∙ ap some same) h

  invoice_ended-Lapped :
      (o : Option ℕ) (c : ChargingSession) (r : InvoiceResult) (db db' : Db)
      → invoice_ended now fresh o c db ≡ ok (r, db')
      → Lapped c r db db'
  unfolding invoice_ended
  invoice_ended-Lapped none c r db db' h = stayed c (pending _) r db db' (λ v e. cc) h
  invoice_ended-Lapped (some end) c r db db' h =
      reuse_or_new-Lapped c end (find_invoice c.id db.invoices) r db db' refl h

  -- Where lap_hoa_don returns, the session is stored and one of three holds. The tables are as before,
  -- and an answer that is ready has the stored invoice of the session. Or the answer is a reason for a
  -- review, and the only change is that reason at the end of those of the session. Or the answer is a
  -- new invoice of the session and its driver under the drawn id, the only one of the session; it and
  -- its lines are added, nothing else but the tariffs has changed, and its total is the sum of the
  -- lines and in range.
  pub lap_hoa_don-Lapped :
      (session : ℕ) (r : InvoiceResult) (db db' : Db)
      → lap_hoa_don now fresh session db ≡ ok (r, db')
      → (c : ChargingSession) × (find_session session db.sessions ≡ some c) × Lapped c r db db'
  unfolding lap_hoa_don
  lap_hoa_don-Lapped session r db db' h =
      let (c, found, k) = or_raise-ok (find_session session db.sessions) _ _ db h in
      (c, found, go c (is_empty c.review_reasons) k)
    where
      go :
          (c : ChargingSession) (b : Bool)
          → (if b
                then invoice_ended now fresh c.ended_at c
                else (λ x. ok (needs_review (codes "invoice_session_needs_review"), x)))
              db
            ≡ ok (r, db')
          → Lapped c r db db'
      go c true k = invoice_ended-Lapped c.ended_at c r db db' k
      go c false k = stayed c (needs_review _) r db db' (λ v e. cc) k
