-- ===== src/Billing/Closure/Settled.antt =====
-- What `chot_phien` (modules/billing/closure.py) leaves when it settles a session.
use ttcs_t926_k8s4_n1_csms.Base.{
  ℕ, ◌≡◌, ◌≢◌, refl, sym, ap, subst, ◌∙◌, ◌⊎◌, inl, inr, Bool, true, false, not, ◌&&◌, Option, none,
  some, List, [], ◌∷◌, keep, is_empty, if◌then◌else◌, arith,
}
use ttcs_t926_k8s4_n1_csms.Base.Int.{pos, neg, eq_of_parts}
use ttcs_t926_k8s4_n1_csms.Base.Text.{Text, decimal}
use ttcs_t926_k8s4_n1_csms.Billing.Tables.{ChargingSession, Invoice, find_session, put_session}
use ttcs_t926_k8s4_n1_csms.Billing.Invoicing.{
  InvoiceResult, ready, pending, needs_review, is_some, lap_hoa_don, add_reason,
}
use ttcs_t926_k8s4_n1_csms.Billing.Invoicing.Lapped.{reviewed_db, Lapped, lap_hoa_don-Lapped}
use ttcs_t926_k8s4_n1_csms.Billing.Closure.{
  is_settlement_of, fits_invoice, mismatch, settled_row, debit_if, complete, mark_mismatch, settle,
  settle_if_ready, close, chot_phien,
}
use ttcs_t926_k8s4_n1_csms.Wallet.Tables.{
  Wallet, Entry, charging_debit, Db, find_driver_wallet, find_entry,
}
use ttcs_t926_k8s4_n1_csms.Wallet.Debit.{find_invoice, tru_vi}
use ttcs_t926_k8s4_n1_csms.Wallet.Debit.Charged.{tru_vi_row}
use ttcs_t926_k8s4_n1_csms.Wallet.Service.Arrival.{Arrives}
use ttcs_t926_k8s4_n1_csms.Wallet.Tx.{Result, ok}
use ttcs_t926_k8s4_n1_csms.Wallet.Tx.Invert.{bind-ok, ok_state, ok_value}
use ttcs_t926_k8s4_n1_csms.Billing.Closure.Untouched.{
  Untouched, Untouched-refl, Untouched-trans, find_session-id, completed_at-put_session,
}

-- An invoice is paid by a ledger: nothing was due, the row under the session's key takes the total, or
-- the one row that names the session did so before.
abbrev pub Paid : Invoice → ℕ → List Entry → Type 0
Paid v session ledger =
    (v.total_vnd ≡ pos 0)
    ⊎ ((e : Entry) × (e.amount_vnd ≡ neg v.total_vnd)
        × (find_entry charging_debit (decimal session) ledger ≡ some e))
    ⊎ ((e : Entry) × (e.amount_vnd ≡ neg v.total_vnd)
        × (keep (is_settlement_of session) ledger ≡ e ∷ []))

find_invoice-session :
    (s : ℕ) (vs : List Invoice) (v : Invoice) → find_invoice s vs ≡ some v → v.session_id ≡ s
find_invoice-session s [] v h = cc
find_invoice-session s (w ∷ vs) v h = ground (arith, find_invoice-session s vs v)

fits_invoice-amount :
    (v : Invoice) (w : Option Wallet) (e : Entry)
    → fits_invoice v w e ≡ true
    → e.amount_vnd ≡ neg v.total_vnd
fits_invoice-amount v w e h = eq_of_parts e.amount_vnd (neg v.total_vnd) (ground arith)

module _ (now fresh : ℕ) (arrive : ℕ → Db → Db) (env : (i : ℕ) → Arrives i (arrive i)) where
  reviewed-Untouched :
      (reason : Text) (c : ChargingSession) (db : Db)
      → find_session c.id db.sessions ≡ some c
      → Untouched db (reviewed_db now fresh reason c db)
  reviewed-Untouched reason c db found = (
    (refl, refl),
    λ i. completed_at-put_session i (add_reason now fresh reason c) c db.sessions refl found,
  )

  Lapped-Untouched :
      (c : ChargingSession) (r : InvoiceResult) (db db' : Db)
      → find_session c.id db.sessions ≡ some c
      → Lapped now fresh c r db db'
      → Untouched db db'
  Lapped-Untouched c r db db' found (inl (same, f)) = subst (Untouched db) same (Untouched-refl db)
  Lapped-Untouched c r db db' found (inr (inl (reason, e, after))) =
      subst (Untouched db) (sym after) (reviewed-Untouched reason c db found)
  Lapped-Untouched c r db db' found (inr (inr (v, e, k))) =
      subst (Untouched db) (sym k.after) ((refl, refl), λ i. refl)

  -- An answer that is ready left the sessions as they were.
  Lapped-sessions :
      (c : ChargingSession) (v : Invoice) (db db' : Db)
      → Lapped now fresh c (ready v) db db'
      → db'.sessions ≡ db.sessions
  Lapped-sessions c v db db' (inl (same, f)) = ap (λ (x : Db). x.sessions) (sym same)
  Lapped-sessions c v db db' (inr (inl (reason, e, after))) = cc
  Lapped-sessions c v db db' (inr (inr (w, e, k))) = ap (λ (x : Db). x.sessions) k.after

  Lapped-session :
      (c : ChargingSession) (v : Invoice) (db db' : Db)
      → Lapped now fresh c (ready v) db db'
      → v.session_id ≡ c.id
  Lapped-session c v db db' (inl (same, f)) = find_invoice-session c.id db.invoices v (f v refl)
  Lapped-session c v db db' (inr (inl (reason, e, after))) = cc
  Lapped-session c v db db' (inr (inr (w, e, k))) =
      let is : w ≡ v = cc in subst (λ (x : Invoice). x.session_id ≡ c.id) is k.session

  -- The session was settled by this transaction.
  pub record Settled (c : ChargingSession) (r : InvoiceResult) (db' : Db) : Type 0 where
    pub invoice : Invoice
    pub is : r ≡ ready invoice
    pub before : Db
    pub paid : Paid invoice c.id before.ledger
    pub after : db' ≡ record before {
      sessions = put_session (settled_row now fresh arrive invoice c) before.sessions;
    }

  complete-Settled :
      (b : Bool) (v : Invoice) (c : ChargingSession) (r : InvoiceResult) (db db' : Db)
      → v.session_id ≡ c.id
      → (b ≡ false → Paid v c.id db.ledger)
      → complete now fresh arrive b v c db ≡ ok (r, db')
      → Settled c r db'
  unfolding complete debit_if
  complete-Settled false v c r db db' s paid h = record {
    invoice = v;
    is = sym (ok_value h);
    before = db;
    paid = paid refl;
    after = sym (ok_state h);
  }
  complete-Settled true v c r db db' s paid h =
      let (u, db1, e, k) = bind-ok (debit_if now fresh arrive true v) _ db h in
      let (o, db2, e', k') = bind-ok (tru_vi arrive fresh (some v) none none none) _ db e in
      let same : db2 ≡ db1 = ok_state k' in
      record {
        invoice = v;
        is = sym (ok_value k);
        before = db1;
        paid =
            subst (λ (x : Db). Paid v c.id x.ledger) same
              (go o db2 (tru_vi_row arrive fresh v none none o db db2 env e'));
        after = sym (ok_state k);
      }
    where
      go :
          (o : Option Entry) (db2 : Db)
          → ((v.total_vnd ≡ pos 0) × (o ≡ none) × (db2 ≡ db))
            ⊎ ((v.total_vnd ≢ pos 0)
                × (e : Entry) × (o ≡ some e)
                × (e.amount_vnd ≡ neg v.total_vnd)
                × (find_entry charging_debit (decimal v.session_id) db2.ledger ≡ some e))
          → Paid v c.id db2.ledger
      go o db2 (inl (zero_due, _, _)) = inl zero_due
      go o db2 (inr (_, e, _, amount, row)) = inr (
          inl (
            e,
            amount,
            subst (λ i. find_entry charging_debit (decimal i) db2.ledger ≡ some e) s row,
          ))

  -- Either nothing was paid or settled, or the session was settled and its invoice is paid.
  abbrev pub Closed : ChargingSession → InvoiceResult → Db → Db → Type 0
  Closed c r db db' = Untouched db db' ⊎ ((c.settlement_completed_at ≡ none) × Settled c r db')

  settle-Closed :
      (v : Invoice) (c : ChargingSession) (r : InvoiceResult) (db db' : Db)
      → v.session_id ≡ c.id
      → find_session c.id db.sessions ≡ some c
      → settle now fresh arrive v c db ≡ ok (r, db')
      → Untouched db db' ⊎ Settled c r db'
  unfolding settle mark_mismatch
  settle-Closed v c r db db' s found h =
      go (find_driver_wallet v.driver_id db.wallets) (keep (is_settlement_of c.id) db.ledger) refl h
    where
      go :
          (w : Option Wallet) (es : List Entry)
          → keep (is_settlement_of c.id) db.ledger ≡ es
          → (if mismatch v w es
                then mark_mismatch now fresh arrive c
                else complete now fresh arrive (is_empty es) v c)
              db
            ≡ ok (r, db')
          → Untouched db db' ⊎ Settled c r db'
      go w [] e k = inr (complete-Settled true v c r db db' s (λ n. cc) k)
      go w (x ∷ y ∷ es) e k =
          inl (subst (Untouched db) (ok_state k) (reviewed-Untouched _ c db found))
      go w (x ∷ []) e k = one (fits_invoice v w x) refl k
        where
          one :
              (b : Bool)
              → fits_invoice v w x ≡ b
              → (if not b
                    then mark_mismatch now fresh arrive c
                    else complete now fresh arrive false v c)
                  db
                ≡ ok (r, db')
              → Untouched db db' ⊎ Settled c r db'
          one true f k = inr (
              complete-Settled false v c r db db' s
                (λ n. inr (inr (x, fits_invoice-amount v w x f, e))) k)
          one false f k = inl (subst (Untouched db) (ok_state k) (reviewed-Untouched _ c db found))

  settle_if_ready-Closed :
      (settles : Bool) (c : ChargingSession) (o r : InvoiceResult) (db db1 db' : Db)
      → find_session c.id db.sessions ≡ some c
      → Lapped now fresh c o db db1
      → settle_if_ready now fresh arrive
          (settles && not (is_some c.settlement_completed_at))
          c
          o
          db1
        ≡ ok (r, db')
      → Closed c r db db'
  settle_if_ready-Closed settles c o r db db1 db' found l h =
      go (settles && not (is_some c.settlement_completed_at)) refl o l h
    where
      before : Untouched db db1
      before = Lapped-Untouched c o db db1 found l

      kept :
          (o : InvoiceResult)
          → ◌≡◌ {A = Result (InvoiceResult × Db)} (ok (o, db1)) (ok (r, db'))
          → Closed c r db db'
      kept o k = inl (subst (Untouched db) (ok_state k) before)

      unsettled : (x : Option ℕ) → (settles && not (is_some x)) ≡ true → x ≡ none
      unsettled none e = refl
      unsettled (some t) e = ground arith

      go :
          (b : Bool)
          → (settles && not (is_some c.settlement_completed_at)) ≡ b
          → (o : InvoiceResult) → Lapped now fresh c o db db1
          → settle_if_ready now fresh arrive b c o db1 ≡ ok (r, db')
          → Closed c r db db'
      go false e o l k = kept o k
      go true e (pending t) l k = kept (pending t) k
      go true e (needs_review t) l k = kept (needs_review t) k
      go true e (ready v) l k =
          let there = ap (find_session c.id) (Lapped-sessions c v db db1 l) ∙ found in
          elim (settle-Closed v c r db1 db' (Lapped-session c v db db1 l) there k) [
            | inl m ↦ inl (Untouched-trans db db1 db' before m)
            | inr s ↦ inr (unsettled c.settlement_completed_at e, s)
          ]

-- A return of chot_phien on a stored session either leaves every wallet, the whole ledger and the time
-- of settlement of every session as they were, or settles the session, which was not settled before:
-- then it answers with the invoice, the ledger pays that invoice in full or it is of 0 VND, and the
-- last write marks the session settled.
pub chot_phien-Closed :
    (now fresh : ℕ) (arrive : ℕ → Db → Db) (settles : Bool) (session : ℕ) (c : ChargingSession)
    (r : InvoiceResult) (db db' : Db) (env : (i : ℕ) → Arrives i (arrive i))
    → find_session session db.sessions ≡ some c
    → chot_phien now fresh arrive settles session db ≡ ok (r, db')
    → Closed now fresh arrive env c r db db'
unfolding chot_phien close
chot_phien-Closed now fresh arrive settles session c r db db' env found h =
    let h' = subst (λ o. close now fresh arrive settles session o db ≡ ok (r, db')) found h in
    let (o, db1, e, k) = bind-ok (lap_hoa_don now fresh session) _ db h' in
    let (d, there, l) = lap_hoa_don-Lapped now fresh session o db db1 e in
    let same : d ≡ c = cc in
    let own =
      subst (λ x. find_session x db.sessions ≡ some c)
        (sym (find_session-id session c db.sessions found)) found in
    settle_if_ready-Closed now fresh arrive env settles c o r db db1 db' own
      (subst (λ x. Lapped now fresh x o db db1) same l) k
