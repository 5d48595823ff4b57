-- ===== src/Billing/Invoicing/Owned.antt =====
-- The lines that the lines of an invoice (modules/billing/invoicing.py) are made of belong to it.
use ttcs_t926_k8s4_n1_csms.Base.{
  ℕ, zero, suc, ◌+◌, ◌-◌, ◌*◌, ◌≡◌, refl, sym, ap, subst, Bool, true, false, ◌||◌, Option, none,
  some, List, [], ◌∷◌, ◌++◌, map, All, ltb, ◌==◌, if◌then◌else◌,
}
use ttcs_t926_k8s4_n1_csms.Base.Int.{pos}
use ttcs_t926_k8s4_n1_csms.Base.Result as Outcome
use ttcs_t926_k8s4_n1_csms.Billing.IdleFee.{aware, int, minute_us, tinh_phi_chiem_tru}
use ttcs_t926_k8s4_n1_csms.Billing.Segmentation.{Zone, Segment}
use ttcs_t926_k8s4_n1_csms.Billing.Tables.{InvoiceLine, TariffVersion}
use ttcs_t926_k8s4_n1_csms.Billing.Invoicing.Idle.{
  Lines, fee_of, version_on, minimum, span_of, line_of, idle_line, idle_loop, idle_lines_from,
  idle_lines,
}
use ttcs_t926_k8s4_n1_csms.Billing.Invoicing.{energy_line}

abbrev pub OfInvoice : ℕ → InvoiceLine → Type 0
OfInvoice i l = l.invoice_id ≡ i

pub All-++ :
    (i : ℕ) (a b : List InvoiceLine)
    → All (OfInvoice i) a
    → All (OfInvoice i) b
    → All (OfInvoice i) (a ++ b)
All-++ i [] b x y = y
All-++ i (l ∷ a) b (p, x) y = (p, All-++ i a b x y)

pub energy_line-OfInvoice : (i : ℕ) (ss : List Segment) → All (OfInvoice i) (map (energy_line i) ss)
energy_line-OfInvoice i [] = tt
energy_line-OfInvoice i (s ∷ ss) = (refl, energy_line-OfInvoice i ss)

module _ (tz : Zone) (end : ℕ) (versions : List (ℕ × TariffVersion)) (i : ℕ) where
  idle_line-OfInvoice :
      (anchor span : ℕ) {l : InvoiceLine}
      → idle_line tz end versions i anchor span ≡ Outcome.ok l
      → l.invoice_id ≡ i
  unfolding idle_line
  idle_line-OfInvoice anchor span {l} h =
      let day = tz.date_of anchor in
      let (v, _, h1) = Outcome.bind-ok (version_on day versions) _ h in
      let e = minimum end (anchor + span * minute_us) in
      let paid =
        tinh_phi_chiem_tru (some (aware anchor)) (aware e) (int (pos 0))
          (int (pos v.idle_rate_vnd_per_minute)) in
      let ((m, a), _, h2) = Outcome.bind-ok (fee_of paid) _ h1 in
      let is : line_of i day anchor e v a ≡ l = cc in
      ap (λ (x : InvoiceLine). x.invoice_id) (sym is)

  idle_loop-OfInvoice :
      (fuel anchor count : ℕ) {ls : List InvoiceLine}
      → idle_loop tz end versions i fuel anchor count ≡ Outcome.ok ls
      → All (OfInvoice i) ls
  unfolding idle_loop
  idle_loop-OfInvoice fuel anchor zero h = let is : [] ≡ _ = cc in subst (All (OfInvoice i)) is tt
  idle_loop-OfInvoice zero anchor (suc count) h = cc
  idle_loop-OfInvoice (suc fuel) anchor (suc count) {ls} h =
      let span = span_of tz anchor (suc count) in
      let (l, e, h1) = Outcome.bind-ok (idle_line tz end versions i anchor span) _ h in
      let (rest, e', h2) =
        Outcome.bind-ok
          (idle_loop tz end versions i fuel (anchor + span * minute_us) (suc count - span)) _ h1 in
      let is : l ∷ rest ≡ ls = cc in
      subst (All (OfInvoice i)) is
        (idle_line-OfInvoice anchor span e, idle_loop-OfInvoice fuel _ _ e')

  pub idle_lines-OfInvoice :
      (started : ℕ) (o : Option ℕ) {ls : List InvoiceLine}
      → idle_lines tz end versions i started o ≡ Outcome.ok ls
      → All (OfInvoice i) ls
  unfolding idle_lines idle_lines_from
  idle_lines-OfInvoice started none h = let is : [] ≡ _ = cc in subst (All (OfInvoice i)) is tt
  idle_lines-OfInvoice started (some start) h =
      let (_, h1) = Outcome.raise_if-ok (ltb start started || ltb end start) _ _ h in
      go (start == end) h1
    where
      none_made :
          {ls : List InvoiceLine}
          → ◌≡◌ {A = Lines (List InvoiceLine)} (Outcome.ok []) (Outcome.ok ls)
          → All (OfInvoice i) ls
      none_made k = let is : [] ≡ _ = cc in subst (All (OfInvoice i)) is tt

      go :
          (c : Bool) {ls : List InvoiceLine}
          → (if c then Outcome.ok [] else idle_lines_from tz end versions i start) ≡ Outcome.ok ls
          → All (OfInvoice i) ls
      go true k = none_made k
      go false k =
          let (v, _, k1) = Outcome.bind-ok (version_on (tz.date_of start) versions) _ k in
          let whole =
            tinh_phi_chiem_tru (some (aware start)) (aware end) (int (pos v.grace_minutes))
              (int (pos 1)) in
          let ((m, a), _, k2) = Outcome.bind-ok (fee_of whole) _ k1 in idle_loop-OfInvoice m _ _ k2
