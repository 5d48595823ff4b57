-- ===== src/Billing/Segmentation/Total.antt =====
-- The energy of the segments that `chia_doan` (modules/billing/segmentation.py) returns.
use ttcs_t926_k8s4_n1_csms.Base.{
  ℕ, ◌-◌, ◌≤◌, ◌<◌, ◌≡◌, refl, sym, ap, subst, ◌∙◌, Bool, true, false, Option, none, some, List, [],
  ◌∷◌, All, leb, if◌then◌else◌, arith,
}
use ttcs_t926_k8s4_n1_csms.Base.Int.{ℤ, pos, ◌+ℤ◌, int_laws}
use ttcs_t926_k8s4_n1_csms.Base.Sorted.{Ascends, has}
use ttcs_t926_k8s4_n1_csms.Base.Result.{ok, bind-ok}
use ttcs_t926_k8s4_n1_csms.Billing.Segmentation.Interpolation.{MeterValue, interpolate_meter_value}
use ttcs_t926_k8s4_n1_csms.Billing.Segmentation.Clock.{TariffFrame}
use ttcs_t926_k8s4_n1_csms.Billing.Segmentation.Days.{energy_total}
use ttcs_t926_k8s4_n1_csms.Billing.Segmentation.Cuts.{sorted_points-CutDates}
use ttcs_t926_k8s4_n1_csms.Billing.Segmentation.Parts.{option_energy, Part, charge_segment-Part}
use ttcs_t926_k8s4_n1_csms.Billing.Segmentation.{
  Zone, Segment, half, mid_point, append_segment, applied_tariff, charge_if_applied,
  segment_between, segments_between, sorted_points, chia_doan,
}

half-less : (n : ℕ) → 0 < n → half n < n
half-less n h = ground arith

pub mid_point-inside : (p q : ℕ) → p < q → (p ≤ mid_point p q) × (mid_point p q < q)
mid_point-inside p q h = (omega arith, omega (arith, half-less (q - p) (omega arith)))

energy_total-append_segment :
    (o : Option Segment) (l : List Segment)
    → energy_total (append_segment o l) ≡ option_energy o +ℤ energy_total l
energy_total-append_segment none l = omega int_laws
energy_total-append_segment (some s) l = refl

abbrev pub last_point : ℕ → List ℕ → ℕ
last_point p [] = p
last_point p (q ∷ l) = last_point q l

last_point-end :
    (end p q : ℕ) (l : List ℕ)
    → Ascends p (q ∷ l)
    → All (λ x. x ≤ end) (q ∷ l)
    → has end (q ∷ l) ≡ true
    → last_point q l ≡ end
last_point-end end p q [] a b h = ground arith
last_point-end end p q (r ∷ l) (a, a') (b, b') h =
    last_point-end end q r l a' b' (ground (arith, a'.0, b'.0))

module _ (tz : Zone) (ms : List MeterValue) (tariffs : ℕ → List TariffFrame) where
  -- An instant at which some frame of its date applies.
  abbrev pub Priced : ℕ → Type 0
  Priced t =
      (tf : TariffFrame) × (applied_tariff tz (tz.date_of t) t (tariffs (tz.date_of t))
        ≡ ok (some tf))

  pub segment_between-Part :
      (p q : ℕ) (tf : TariffFrame) {o : Option Segment}
      → let mid = mid_point p q in
        let date = tz.date_of mid in
        applied_tariff tz date mid (tariffs date) ≡ ok (some tf)
        → segment_between tz ms tariffs p q ≡ ok o
        → Part ms date p q tf o
  unfolding segment_between
  segment_between-Part p q tf {o} e h =
      let mid = mid_point p q in
      let date = tz.date_of mid in
      let (found, e', k) = bind-ok (applied_tariff tz date mid (tariffs date)) _ h in
      let is : found ≡ some tf = cc in
      charge_segment-Part tz ms tariffs date p q tf
        (subst (λ x. charge_if_applied tz ms tariffs date p q x ≡ ok o) is k)

  -- The readings at two instants differ by an energy.
  pub record Spans (p q : ℕ) (energy : ℤ) : Type 0 where
    pub first_wh : ℤ
    pub first_interp : Bool
    pub last_wh : ℤ
    pub last_interp : Bool
    pub starts : interpolate_meter_value p ms ≡ ok (first_wh, first_interp)
    pub stops : interpolate_meter_value q ms ≡ ok (last_wh, last_interp)
    pub sum : energy +ℤ first_wh ≡ last_wh

  zero_right : (x : ℤ) → x ≡ x +ℤ pos 0
  zero_right x = omega int_laws

  segment_between-Spans :
      (end p q : ℕ) (o : Option Segment)
      → p < q
      → q ≤ end
      → ((t : ℕ) → p ≤ t → t < end → Priced t)
      → segment_between tz ms tariffs p q ≡ ok o
      → Spans p q (option_energy o)
  segment_between-Spans end p q o lt b c h =
      let m = mid_point-inside p q lt in
      let (tf, applied) = c (mid_point p q) m.0 (omega (arith, m.1)) in
      let part = segment_between-Part p q tf applied h in
      record {
        first_wh = part.first_wh;
        first_interp = part.first_interp;
        last_wh = part.last_wh;
        last_interp = part.last_interp;
        starts = part.starts;
        stops = part.stops;
        sum = part.energy;
      }

  swap : (x y k : ℤ) → x +ℤ y +ℤ k ≡ y +ℤ (x +ℤ k)
  swap x y k = omega int_laws

  Spans-join : (p q r : ℕ) (x y z : ℤ) → x +ℤ y ≡ z → Spans p q x → Spans q r y → Spans p r z
  Spans-join p q r x y z e a b = record {
    first_wh = a.first_wh;
    first_interp = a.first_interp;
    last_wh = b.last_wh;
    last_interp = b.last_interp;
    starts = a.starts;
    stops = b.stops;
    sum =
        ap (λ k. k +ℤ a.first_wh) (sym e)
        ∙ swap x y a.first_wh
        ∙ ap (λ k. y +ℤ k) (a.sum ∙ meet)
        ∙ b.sum;
  }
    where
      meet : a.last_wh ≡ b.first_wh
      meet = cc

  segments_between-first :
      (end p q : ℕ) (l : List ℕ) (segments : List Segment)
      → p < q
      → q ≤ end
      → ((t : ℕ) → p ≤ t → t < end → Priced t)
      → segments_between tz ms tariffs (p ∷ q ∷ l) ≡ ok segments
      → (x : ℤ) × Spans p q x
        × (later : List Segment) × (segments_between tz ms tariffs (q ∷ l) ≡ ok later)
        × (x +ℤ energy_total later ≡ energy_total segments)
  unfolding segments_between
  segments_between-first end p q l segments lt b c h =
      let (o, e, k) = bind-ok (segment_between tz ms tariffs p q) _ h in
      let (later, e', k') = bind-ok (segments_between tz ms tariffs (q ∷ l)) _ k in
      let is : append_segment o later ≡ segments = cc in
      (
        option_energy o,
        segment_between-Spans end p q o lt b c e,
        later,
        e',
        sym (energy_total-append_segment o later) ∙ ap energy_total is,
      )

  segments_between-Spans :
      (end p q : ℕ) (l : List ℕ) {segments : List Segment}
      → Ascends p (q ∷ l)
      → All (λ x. x ≤ end) (q ∷ l)
      → ((t : ℕ) → p ≤ t → t < end → Priced t)
      → segments_between tz ms tariffs (p ∷ q ∷ l) ≡ ok segments
      → Spans p (last_point q l) (energy_total segments)
  unfolding segments_between
  segments_between-Spans end p q [] {segments} (lt, a) (b, bs) c h =
      let (x, s, later, e, sum) = segments_between-first end p q [] segments lt b c h in
      let none_left : [] ≡ later = cc in
      subst (Spans p q) (zero_right x ∙ ap (λ k. x +ℤ energy_total k) none_left ∙ sum) s
  segments_between-Spans end p q (r ∷ l) {segments} (lt, a) (b, bs) c h =
      let (x, s, later, e, sum) = segments_between-first end p q (r ∷ l) segments lt b c h in
      Spans-join p q (last_point r l) x (energy_total later) (energy_total segments) sum s
        (segments_between-Spans end q r l a bs (λ t u v. c t (omega arith) v) e)

  Cuts-Spans :
      (start end : ℕ) (lt : start < end) (rest : List ℕ) {segments : List Segment}
      → Ascends start rest
      → All (λ x. x ≤ end) rest
      → has end rest ≡ true
      → ((t : ℕ) → start ≤ t → t < end → Priced t)
      → segments_between tz ms tariffs (start ∷ rest) ≡ ok segments
      → Spans start end (energy_total segments)
  Cuts-Spans start end lt [] a b e c h = cc
  Cuts-Spans start end lt (q ∷ l) {segments} a b e c h =
      subst (λ x. Spans start x (energy_total segments)) (last_point-end end start q l a b e)
        (segments_between-Spans end start q l a b c h)

if_false {ℓ} :
    {A : Type ℓ} (c : Bool) (x y : A) {z : A} → c ≡ false → (if c then x else y) ≡ z → y ≡ z
if_false true x y e h = cc
if_false false x y e h = h

pub chia_doan-points :
    (tz : Zone) (start end : ℕ) (ms : List MeterValue) (tariffs : ℕ → List TariffFrame)
    {segments : List Segment}
    → start < end
    → chia_doan tz start end ms tariffs ≡ ok segments
    → (l : List ℕ) × (sorted_points tz start end tariffs ≡ ok l)
      × (segments_between tz ms tariffs l ≡ ok segments)
unfolding chia_doan
chia_doan-points tz start end ms tariffs lt h =
    bind-ok (sorted_points tz start end tariffs) _
      (if_false (leb end start) (ok []) _ (ground arith) h)

-- Where some frame applies at every instant of a session, the energies of the segments that chia_doan
-- returns sum to the difference of the readings at the session's end and start.
pub chia_doan_total :
    (tz : Zone) (start end : ℕ) (ms : List MeterValue) (tariffs : ℕ → List TariffFrame)
    {segments : List Segment}
    → start < end
    → ((t : ℕ) → start ≤ t → t < end → Priced tz ms tariffs t)
    → chia_doan tz start end ms tariffs ≡ ok segments
    → Spans tz ms tariffs start end (energy_total segments)
chia_doan_total tz start end ms tariffs {segments} lt c h =
    let (l, made, k) = chia_doan-points tz start end ms tariffs lt h in
    let cuts = (sorted_points-CutDates start end lt tz tariffs made).cuts in
    Cuts-Spans tz ms tariffs start end lt cuts.rest cuts.ascends cuts.bounded cuts.ends c
      (subst (λ x. segments_between tz ms tariffs x ≡ ok segments) cuts.is k)
