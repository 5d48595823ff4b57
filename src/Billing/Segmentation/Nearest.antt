-- ===== src/Billing/Segmentation/Nearest.antt =====
-- The charge of a session whose segments are rounded one by one (modules/billing/segmentation.py and
-- modules/billing/money.py).
use ttcs_t926_k8s4_n1_csms.Base.{
  ℕ, ◌+◌, ◌*◌, ◌≤◌, ◌<◌, ◌≡◌, refl, sym, subst, ◌∙◌, Option, none, some, List, [], ◌∷◌, All, length,
  leb, Bool-cases, inl, inr, arith,
}
use ttcs_t926_k8s4_n1_csms.Base.Int.{
  ℤ, pos, negsuc, pos_part, neg_part, abs, ◌+ℤ◌, ◌*ℤ◌, ◌≤ℤ◌, int_laws,
}
use ttcs_t926_k8s4_n1_csms.Base.Result.{ok, bind-ok}
use ttcs_t926_k8s4_n1_csms.Billing.Money.{amount}
use ttcs_t926_k8s4_n1_csms.Billing.Money.Rounding.{tien_dong_nearest}
use ttcs_t926_k8s4_n1_csms.Billing.Segmentation.Interpolation.{MeterValue}
use ttcs_t926_k8s4_n1_csms.Billing.Segmentation.Clock.{TariffFrame}
use ttcs_t926_k8s4_n1_csms.Billing.Segmentation.Days.{amount_total}
use ttcs_t926_k8s4_n1_csms.Billing.Segmentation.Parts.{segment_charge, charge_segment-Part}
use ttcs_t926_k8s4_n1_csms.Billing.Segmentation.Total.{chia_doan-points}
use ttcs_t926_k8s4_n1_csms.Billing.Segmentation.Uniform.{ok_inj, if_true}
use ttcs_t926_k8s4_n1_csms.Billing.Segmentation.{
  Zone, Segment, mid_point, append_segment, applied_tariff, charge_if_applied, segment_between,
  segments_between, chia_doan,
}

-- The exact charge of the segments, each at its own price, in billionths of a VND: an energy is in
-- millionths of a Wh and a price in VND per kWh.
abbrev pub exact_total : List Segment → ℤ
exact_total [] = pos 0
exact_total (s ∷ segments) = s.energy_consumed_wh *ℤ s.price_vnd_per_kwh +ℤ exact_total segments

-- An amount in VND lies within `k` halves of a VND of an exact one in billionths of a VND.
abbrev pub Near : ℕ → ℤ → ℤ → Type 0
Near k a x =
    (2_000_000_000 * pos_part a + 2 * neg_part x
      ≤ 2 * pos_part x + 2_000_000_000 * neg_part a + 1_000_000_000 * k)
    × (2 * pos_part x + 2_000_000_000 * neg_part a
        ≤ 2_000_000_000 * pos_part a + 2 * neg_part x + 1_000_000_000 * k)

Near-signed :
    (a x : ℤ)
    → 2_000_000_000 * abs a ≤ 2 * abs x + 1_000_000_000
    → 2 * abs x + 1_000_000_000 < 2_000_000_000 * abs a + 2_000_000_000
    → (pos 0 ≤ℤ x → pos 0 ≤ℤ a)
    → (x ≤ℤ pos 0 → a ≤ℤ pos 0)
    → Near 1 a x
Near-signed (pos a) (pos x) f g h k = (omega arith, omega arith)
Near-signed (pos a) (negsuc x) f g h k = let z = k (omega arith) in (omega arith, omega arith)
Near-signed (negsuc a) (pos x) f g h k = let z = h (omega arith) in (omega arith, omega arith)
Near-signed (negsuc a) (negsuc x) f g h k = (omega arith, omega arith)

abbrev IsCharged : Segment → Type 0
IsCharged s = segment_charge s ≡ amount s.amount_vnd

amount_inj : {a b : ℤ} → amount a ≡ amount b → a ≡ b
amount_inj h = cc

Near-IsCharged :
    (s : Segment) → IsCharged s → Near 1 s.amount_vnd (s.energy_consumed_wh *ℤ s.price_vnd_per_kwh)
Near-IsCharged s c =
    let x = s.energy_consumed_wh *ℤ s.price_vnd_per_kwh in
    let (a, is, most, least, up, down) =
      tien_dong_nearest s.energy_consumed_wh 1_000_000 s.price_vnd_per_kwh (omega arith) in
    subst (λ y. Near 1 y x) (amount_inj (sym is ∙ c))
      (Near-signed a x (omega arith) (omega arith) up down)

Near-totals :
    (segments : List Segment)
    → All IsCharged segments
    → Near (length segments) (amount_total segments) (exact_total segments)
Near-totals [] a = (omega arith, omega arith)
Near-totals (s ∷ segments) (c, a) =
    let one = Near-IsCharged s c in
    let rest = Near-totals segments a in (omega int_laws, omega int_laws)

module _ (tz : Zone) (ms : List MeterValue) (tariffs : ℕ → List TariffFrame) where
  segment_between-IsCharged :
      (p q : ℕ) (o : Option Segment)
      → segment_between tz ms tariffs p q ≡ ok o
      → (s : Segment) → o ≡ some s
      → IsCharged s
  unfolding segment_between
  segment_between-IsCharged p q o h s is =
      let mid = mid_point p q in
      let date = tz.date_of mid in
      let (found, e, k) = bind-ok (applied_tariff tz date mid (tariffs date)) _ h in go found k
    where
      go :
          (found : Option TariffFrame)
          → charge_if_applied tz ms tariffs (tz.date_of (mid_point p q)) p q found ≡ ok o
          → IsCharged s
      go none k = cc
      go (some tf) k =
          let part = charge_segment-Part tz ms tariffs (tz.date_of (mid_point p q)) p q tf k in
          (part.shape s is).charged_as

  All-append_segment :
      (o : Option Segment) (segments : List Segment)
      → ((s : Segment) → o ≡ some s → IsCharged s)
      → All IsCharged segments
      → All IsCharged (append_segment o segments)
  All-append_segment none segments f a = a
  All-append_segment (some s) segments f a = (f s refl, a)

  segments_between-IsCharged :
      (l : List ℕ) {segments : List Segment}
      → segments_between tz ms tariffs l ≡ ok segments
      → All IsCharged segments
  unfolding segments_between
  segments_between-IsCharged [] h = subst (All IsCharged) (ok_inj h) tt
  segments_between-IsCharged (p ∷ []) h = subst (All IsCharged) (ok_inj h) tt
  segments_between-IsCharged (p ∷ q ∷ l) h =
      let (o, e, k) = bind-ok (segment_between tz ms tariffs p q) _ h in
      let (later, e', k') = bind-ok (segments_between tz ms tariffs (q ∷ l)) _ k in
      subst (All IsCharged) (ok_inj k') (
        All-append_segment o later (segment_between-IsCharged p q o e)
          (segments_between-IsCharged (q ∷ l) e'))

  -- The segments that chia_doan returns are rounded one by one, and this moves the sum of their amounts
  -- by at most half a VND a segment from the exact charge of their energies, each at its own price.
  pub chia_doan_nearest :
      (start end : ℕ) {segments : List Segment}
      → chia_doan tz start end ms tariffs ≡ ok segments
      → Near (length segments) (amount_total segments) (exact_total segments)
  unfolding chia_doan
  chia_doan_nearest start end {segments} h =
      Near-totals segments (elim (Bool-cases (leb end start)) [
        | inl e ↦ subst (All IsCharged) (ok_inj (sym (if_true _ _ _ e) ∙ h)) tt
        | inr e ↦
            let (l, made, k) = chia_doan-points tz start end ms tariffs (ground arith) h in
            segments_between-IsCharged l k
      ])
