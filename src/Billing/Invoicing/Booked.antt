-- ===== src/Billing/Invoicing/Booked.antt =====
-- The invoices that `lap_hoa_don` (modules/billing/invoicing.py) keeps: one for a session, its total the
-- sum of its lines.
use ttcs_t926_k8s4_n1_csms.Base.{
  ℕ, ◌≡◌, ◌≢◌, refl, sym, ap, subst, ◌∙◌, inl, inr, Bool, none, some, List, [], ◌∷◌, ◌++◌, All,
  keep, ◌==◌, arith,
}
use ttcs_t926_k8s4_n1_csms.Base.Int.{pos, ◌≤ℤ◌}
use ttcs_t926_k8s4_n1_csms.Billing.Tables.{ChargingSession, Invoice, InvoiceLine, find_session}
use ttcs_t926_k8s4_n1_csms.Billing.Invoicing.Created.{Created}
use ttcs_t926_k8s4_n1_csms.Billing.Invoicing.Owned.{OfInvoice}
use ttcs_t926_k8s4_n1_csms.Billing.Invoicing.{
  max_vnd, InvoiceResult, ready, lines_total, lap_hoa_don,
}
use ttcs_t926_k8s4_n1_csms.Billing.Invoicing.Lapped.{Lapped, lap_hoa_don-Lapped}
use ttcs_t926_k8s4_n1_csms.Wallet.Tables.{Db}
use ttcs_t926_k8s4_n1_csms.Wallet.Debit.{find_invoice}
use ttcs_t926_k8s4_n1_csms.Wallet.Tx.{ok}

abbrev pub of_invoice : ℕ → InvoiceLine → Bool
of_invoice i l = l.invoice_id == i

abbrev pub lines_of : ℕ → List InvoiceLine → List InvoiceLine
lines_of i ls = keep (of_invoice i) ls

-- The total of an invoice is in range and is the sum of its lines.
abbrev pub Totals : List InvoiceLine → Invoice → Type 0
Totals ls v =
    (lines_total (lines_of v.id ls) ≡ v.total_vnd)
    × (pos 0 ≤ℤ v.total_vnd)
    × (v.total_vnd ≤ℤ max_vnd)

-- No two invoices are of one session.
abbrev pub OneEach : List Invoice → Type 0
OneEach [] = Unit
OneEach (v ∷ vs) = (find_invoice v.session_id vs ≡ none) × OneEach vs

pub record Booked (db : Db) : Type 0 where
  pub totals : All (Totals db.invoice_lines) db.invoices
  pub one_each : OneEach db.invoices

-- A new id is not that of a line or an invoice.
pub record Unused (i : ℕ) (db : Db) : Type 0 where
  pub no_line : lines_of i db.invoice_lines ≡ []
  pub no_invoice : All (λ (v : Invoice). v.id ≢ i) db.invoices

lines_of-own :
    (i : ℕ) (a b : List InvoiceLine) → All (OfInvoice i) a → lines_of i (a ++ b) ≡ a ++ lines_of i b
lines_of-own i [] b h = refl
lines_of-own i (l ∷ a) b (e, h) = ground (arith, lines_of-own i a b h)

lines_of-other :
    (i j : ℕ) (a b : List InvoiceLine)
    → j ≢ i
    → All (OfInvoice i) a
    → lines_of j (a ++ b) ≡ lines_of j b
lines_of-other i j [] b n h = refl
lines_of-other i j (l ∷ a) b n (e, h) = ground (arith, lines_of-other i j a b n h)

append-nil : (a : List InvoiceLine) → a ++ [] ≡ a
append-nil [] = refl
append-nil (l ∷ a) = ap (λ x. l ∷ x) (append-nil a)

All-Totals :
    (i : ℕ) (a b : List InvoiceLine) (vs : List Invoice)
    → All (OfInvoice i) a
    → All (λ (v : Invoice). v.id ≢ i) vs
    → All (Totals b) vs
    → All (Totals (a ++ b)) vs
All-Totals i a b [] h n t = tt
All-Totals i a b (v ∷ vs) h (m, n) ((e, low, high), t) =
    ((ap lines_total (lines_of-other i v.id a b m h) ∙ e, low, high), All-Totals i a b vs h n t)

Created-Booked :
    (fresh : ℕ) (c : ChargingSession) (v : Invoice) (db db' : Db)
    → Booked db
    → Unused fresh db
    → Created fresh c v db db'
    → Booked db'
Created-Booked fresh c v db db' b u k = subst Booked (sym k.after) record {
  totals = (
    (
      ap (λ i. lines_total (lines_of i (k.lines ++ db.invoice_lines))) k.numbered
          ∙ ap lines_total (lines_of-own fresh k.lines db.invoice_lines k.of_invoice)
          ∙ ap (λ x. lines_total (k.lines ++ x)) u.no_line
          ∙ ap lines_total (append-nil k.lines)
          ∙ k.total,
      k.low,
      k.high,
    ),
    All-Totals fresh k.lines db.invoice_lines db.invoices k.of_invoice u.no_invoice b.totals,
  );
  one_each = (subst (λ s. find_invoice s db.invoices ≡ none) (sym k.session) k.only, b.one_each);
}

find_session-id :
    (i : ℕ) (cs : List ChargingSession) (c : ChargingSession)
    → find_session i cs ≡ some c
    → c.id ≡ i
find_session-id i [] c h = cc
find_session-id i (d ∷ cs) c h = ground (arith, find_session-id i cs c)

find_invoice-first :
    (s : ℕ) (v : Invoice) (vs : List Invoice) → v.session_id ≡ s → find_invoice s (v ∷ vs) ≡ some v
find_invoice-first s v vs e = ground arith

-- What a session's invoice is after lap_hoa_don, and what else may have changed.
pub record Invoiced (session : ℕ) (r : InvoiceResult) (db db' : Db) : Type 0 where
  pub booked : Booked db'
  pub found : (v : Invoice) → r ≡ ready v → find_invoice session db'.invoices ≡ some v
  pub same_wallets : db'.wallets ≡ db.wallets
  pub same_ledger : db'.ledger ≡ db.ledger

Lapped-Invoiced :
    (now fresh : ℕ) (c : ChargingSession) (r : InvoiceResult) (db db' : Db)
    → Booked db
    → Unused fresh db
    → Lapped now fresh c r db db'
    → Invoiced c.id r db db'
Lapped-Invoiced now fresh c r db db' b u (inl (same, f)) =
    subst (Invoiced c.id r db) same
      record { booked = b; found = f; same_wallets = refl; same_ledger = refl }
Lapped-Invoiced now fresh c r db db' b u (inr (inl (reason, e, after))) =
    subst (Invoiced c.id r db) (sym after) record {
      booked = record { totals = b.totals; one_each = b.one_each };
      found = λ v is. cc;
      same_wallets = refl;
      same_ledger = refl;
    }
Lapped-Invoiced now fresh c r db db' b u (inr (inr (v, e, k))) = record {
  booked = Created-Booked fresh c v db db' b u k;
  found = λ w is.
      let same : v ≡ w = cc in
      ap (λ (x : Db). find_invoice c.id x.invoices) k.after
      ∙ find_invoice-first c.id v db.invoices k.session
      ∙ ap some same;
  same_wallets = ap (λ (x : Db). x.wallets) k.after;
  same_ledger = ap (λ (x : Db). x.ledger) k.after;
}

-- Where the invoices are booked, each with a total in range that is the sum of its lines and one for a
-- session, and the drawn id is new, a return of lap_hoa_don leaves them so; the invoice that it
-- returns is the one stored for the session, and no wallet and no ledger row has changed.
pub lap_hoa_don-Booked :
    (now fresh session : ℕ) (r : InvoiceResult) (db db' : Db)
    → Booked db
    → Unused fresh db
    → lap_hoa_don now fresh session db ≡ ok (r, db')
    → Invoiced session r db db'
lap_hoa_don-Booked now fresh session r db db' b u h =
    let (c, found, k) = lap_hoa_don-Lapped now fresh session r db db' h in
    subst (λ s. Invoiced s r db db') (find_session-id session db.sessions c found)
      (Lapped-Invoiced now fresh c r db db' b u k)
