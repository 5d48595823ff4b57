-- ===== src/Billing/Invoicing/Minutes.antt =====
-- `_idle_lines` (modules/billing/invoicing.py) bills the minutes that `tinh_phi_chiem_tru` bills.
use native.Mathlib.Nat.{add-mul}
use ttcs_t926_k8s4_n1_csms.Base.{
  ℕ, zero, suc, ◌+◌, ◌-◌, ◌*◌, ◌≤◌, ◌<◌, ◌≡◌, refl, sym, ap, ◌∙◌, false, ◌||◌, some, List, [], ◌∷◌,
  ltb, ◌==◌, arith,
}
use ttcs_t926_k8s4_n1_csms.Base.Int.{ℤ, pos, ◌+ℤ◌, int_laws}
use ttcs_t926_k8s4_n1_csms.Base.Result.{ok, bind-run}
use ttcs_t926_k8s4_n1_csms.Billing.IdleFee.{
  aware, int, fee, minute_us, billable, fee_between, tinh_phi_chiem_tru,
}
use ttcs_t926_k8s4_n1_csms.Billing.IdleFee.Minutes.{billable_least}
use ttcs_t926_k8s4_n1_csms.Billing.Segmentation.{Zone}
use ttcs_t926_k8s4_n1_csms.Billing.Segmentation.Uniform.{Midnights}
use ttcs_t926_k8s4_n1_csms.Billing.Tables.{TariffVersion, InvoiceLine}
use ttcs_t926_k8s4_n1_csms.Billing.Invoicing.Tariffs.{look_up}
use ttcs_t926_k8s4_n1_csms.Billing.Invoicing.Idle.{
  fee_of, or_missing, version_on, minimum, span_of, line_of, idle_line, idle_loop, idle_lines_from,
  idle_lines,
}
use ttcs_t926_k8s4_n1_csms.Billing.Invoicing.{lines_total}

billable_exact :
    (e g k : ℕ)
    → e ≤ (g + k) * minute_us
    → (g + k) * minute_us < e + minute_us
    → 0 < k
    → billable e g ≡ k
billable_exact e g k a b p = let least = billable_least e g in omega (arith, least.0, least.1 k a)

billable_tight : (e g : ℕ) → 0 < billable e g → (g + billable e g) * minute_us < e + minute_us
unfolding billable
billable_tight e g h = ground arith

tinh_phi_minutes :
    (start end g r : ℕ)
    → start ≤ end
    → tinh_phi_chiem_tru (some (aware start)) (aware end) (int (pos g)) (int (pos r))
      ≡ fee (billable (end - start) g) (billable (end - start) g * r)
unfolding tinh_phi_chiem_tru fee_between
tinh_phi_minutes start end g r h = ground arith

-- At an instant the tariff in force has the rate.
abbrev pub Rated : Zone → List (ℕ × TariffVersion) → ℕ → ℕ → Type 0
Rated tz versions r t =
    (v : TariffVersion) × (look_up (tz.date_of t) versions ≡ some v)
    × (v.idle_rate_vnd_per_minute ≡ r)

add_pos : (a b : ℕ) → pos a +ℤ pos b ≡ pos (a + b)
add_pos a b = omega int_laws

amounts_add :
    (x y : ℤ) (a b c r : ℕ) → x ≡ pos (a * r) → y ≡ pos (b * r) → a + b ≡ c → x +ℤ y ≡ pos (c * r)
amounts_add x y a b c r e f g =
    ap (λ k. k +ℤ y) e
    ∙ ap (λ k. pos (a * r) +ℤ k) f
    ∙ add_pos (a * r) (b * r)
    ∙ ap pos (sym (add-mul a b r) ∙ ap (λ k. k * r) g)

module _ (tz : Zone) (midnights : Midnights tz) (start end : ℕ)
    (versions : List (ℕ × TariffVersion)) (r : ℕ) where
  -- As many minutes begin between an instant and the end.
  abbrev Left : ℕ → ℕ → Type 0
  Left anchor count =
      (end ≤ anchor + count * minute_us) × (anchor + count * minute_us < end + minute_us)

  span-bounds :
      (anchor count : ℕ)
      → 0 < count
      → (0 < span_of tz anchor count) × (span_of tz anchor count ≤ count)
  span-bounds anchor count h =
      let next = tz.combine (suc (tz.date_of anchor)) 0 in
      let later : anchor < next =
        not_le (λ k. omega (arith, (midnights (suc (tz.date_of anchor)) anchor).0 k)) in
      (ground arith, ground arith)
    where
      not_le : {a b : ℕ} → (b ≤ a → ⊥) → a < b
      not_le f = grind arith

  -- A line of `span` of the minutes left.
  idle_line-amount :
      (invoice anchor count span : ℕ)
      → Left anchor count
      → 0 < span
      → span ≤ count
      → Rated tz versions r anchor
      → (line : InvoiceLine) × (idle_line tz end versions invoice anchor span ≡ ok line)
        × (line.amount_vnd ≡ pos (span * r))
  unfolding idle_line
  idle_line-amount invoice anchor count span (a, b) p q (v, found, rated) =
      let e = minimum end (anchor + span * minute_us) in
      let after : anchor ≤ e = ground arith in
      let minutes : billable (e - anchor) 0 ≡ span =
        billable_exact (e - anchor) 0 span (ground arith) (ground arith) p in
      let paid = tinh_phi_minutes anchor e 0 v.idle_rate_vnd_per_minute after in
      let amount = billable (e - anchor) 0 * v.idle_rate_vnd_per_minute in
      (
        line_of invoice (tz.date_of anchor) anchor e v amount,
        bind-run (version_on (tz.date_of anchor) versions) _ (ap or_missing found)
            ∙ bind-run (fee_of _) _ (ap fee_of paid),
        ap (λ m. pos (m * v.idle_rate_vnd_per_minute)) minutes ∙ ap (λ x. pos (span * x)) rated,
      )

  idle_loop-amount :
      (invoice fuel anchor count : ℕ)
      → count ≤ fuel
      → start ≤ anchor
      → (0 < count → Left anchor count)
      → ((t : ℕ) → start ≤ t → t < end → Rated tz versions r t)
      → (lines : List InvoiceLine) × (idle_loop tz end versions invoice fuel anchor count
          ≡ ok lines)
        × (lines_total lines ≡ pos (count * r))
  unfolding idle_loop
  idle_loop-amount invoice fuel anchor zero h s left rated = ([], refl, ap pos (omega arith))
  idle_loop-amount invoice zero anchor (suc count) h s left rated = absurd (omega arith)
  idle_loop-amount invoice (suc fuel) anchor (suc count) h s left rated =
      let l = left (omega arith) in
      let span = span_of tz anchor (suc count) in
      let b = span-bounds anchor (suc count) (omega arith) in
      let (line, made, amount) =
        idle_line-amount invoice anchor (suc count) span l b.0 b.1
          (rated anchor s (omega (arith, l.1))) in
      let (lines, more, total) =
        idle_loop-amount invoice fuel (anchor + span * minute_us) (suc count - span)
          (omega (arith, b.0)) (omega arith)
          (λ k. (omega (arith, l.0, b.1), omega (arith, l.1, b.1))) rated in
      (
        line ∷ lines,
        rw (made, more) refl,
        amounts_add _ _ span (suc count - span) (suc count) r amount total (omega arith),
      )

-- In a time zone whose dates begin at their midnights, and for an occupation that begins no earlier
-- than its session, where every instant of it has a tariff of one rate, _idle_lines returns lines
-- whose amounts sum to what tinh_phi_chiem_tru charges for the whole occupation at that rate, with
-- the grace time of the tariff at its start.
pub idle_lines_same_fee :
    (tz : Zone) (end : ℕ) (versions : List (ℕ × TariffVersion)) (invoice started_at start r : ℕ)
    (v : TariffVersion)
    → Midnights tz
    → started_at ≤ start
    → start < end
    → look_up (tz.date_of start) versions ≡ some v
    → ((t : ℕ) → start ≤ t → t < end → Rated tz versions r t)
    → (lines : List InvoiceLine) × (idle_lines tz end versions invoice started_at (some start)
        ≡ ok lines)
      × (minutes : ℕ) × (amount : ℕ) × (tinh_phi_chiem_tru
            (some (aware start))
            (aware end)
            (int (pos v.grace_minutes))
            (int (pos r))
          ≡ fee minutes amount)
      × (lines_total lines ≡ pos amount)
unfolding idle_lines idle_lines_from
idle_lines_same_fee tz end versions invoice started_at start r v midnights a b found rated =
    let g = v.grace_minutes in
    let count = billable (end - start) g in
    let least = billable_least (end - start) g in
    let inside : (ltb start started_at || ltb end start) ≡ false = ground arith in
    let apart : (start == end) ≡ false = ground arith in
    let (lines, made, total) =
      idle_loop-amount tz midnights start end versions r invoice count (start + g * minute_us) count
        (omega arith) (omega arith)
        (λ k. (omega (arith, least.0), omega (arith, billable_tight (end - start) g k))) rated in
    (
      lines,
      rw (inside, apart)
          (bind-run (version_on (tz.date_of start) versions) _ (ap or_missing found)
            ∙ bind-run (fee_of _) _ (ap fee_of (tinh_phi_minutes start end g 1 (omega arith)))
            ∙ made),
      count,
      count * r,
      tinh_phi_minutes start end g r (omega arith),
      total,
    )
