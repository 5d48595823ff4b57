-- ===== src/Billing/Segmentation/Uniform.antt =====
-- Every segment of `chia_doan` (modules/billing/segmentation.py) lies on one local date and within one
-- tariff frame, though the code looks at the frame of its middle only.
use ttcs_t926_k8s4_n1_csms.Base.{
  ℕ, ◌≤◌, ◌<◌, ◌≡◌, refl, sym, subst, ◌∙◌, ◌↔◌, ◌⊎◌, inl, inr, Bool, true, false, ◌&&◌, Option,
  none, some, List, [], ◌∷◌, All, ltb, leb, ◌==◌, if◌then◌else◌, Bool-cases, arith,
}
use ttcs_t926_k8s4_n1_csms.Base.Sorted.{Ascends, has, least}
use ttcs_t926_k8s4_n1_csms.Base.Result.{ok, bind-ok, bind-run}
use ttcs_t926_k8s4_n1_csms.Billing.Money.{amount}
use ttcs_t926_k8s4_n1_csms.Billing.Segmentation.Interpolation.{MeterValue}
use ttcs_t926_k8s4_n1_csms.Billing.Segmentation.Clock.{TariffFrame}
use ttcs_t926_k8s4_n1_csms.Billing.Segmentation.Cuts.{
  Marked, FrameMarked, DateMarked, sorted_points-CutDates,
}
use ttcs_t926_k8s4_n1_csms.Billing.Segmentation.Parts.{Of, segment_charge, charge_segment-Part}
use ttcs_t926_k8s4_n1_csms.Billing.Segmentation.Total.{mid_point-inside, chia_doan-points}
use ttcs_t926_k8s4_n1_csms.Billing.Segmentation.{
  Zone, Raises, Segment, mid_point, append_segment, frame_span, applied_tariff, charge_if_applied,
  segment_between, segments_between, chia_doan,
}

-- A local date begins at its midnight and ends at the next one.
abbrev pub Midnights : Zone → Type 0
Midnights tz = (d t : ℕ) → (tz.combine d 0 ≤ t) ↔ (d ≤ tz.date_of t)

-- A segment is charged as at one of its instants: on its date, by the frame that applies then.
pub record ChargedAt (tz : Zone) (tariffs : ℕ → List TariffFrame) (s : Segment) (t : ℕ)
    : Type 0 where
  pub dated : s.local_date ≡ tz.date_of t
  pub frame : TariffFrame
  pub applies : applied_tariff tz (tz.date_of t) t (tariffs (tz.date_of t)) ≡ ok (some frame)
  pub priced : s.price_vnd_per_kwh ≡ frame.price_vnd_per_kwh
  pub version : s.tariff_version ≡ frame.tariff_version
  pub label : s.frame_label ≡ frame.frame_label

pub record Fair (tz : Zone) (tariffs : ℕ → List TariffFrame) (s : Segment) : Type 0 where
  pub throughout : (t : ℕ) → s.start_time ≤ t → t < s.end_time → ChargedAt tz tariffs s t
  pub rounded : segment_charge s ≡ amount s.amount_vnd

if_same {ℓ} :
    {A : Type ℓ} (b c : Bool) (x y y' : A) {z : A}
    → b ≡ c
    → (y ≡ z → y' ≡ z)
    → (if b then x else y) ≡ z
    → (if c then x else y') ≡ z
if_same true true x y y' e f h = h
if_same true false x y y' e f h = cc
if_same false true x y y' e f h = cc
if_same false false x y y' e f h = f h

pub ok_inj : {a b : List Segment} → ◌≡◌ {A = Raises (List Segment)} (ok a) (ok b) → a ≡ b
ok_inj h = cc

pub if_true {ℓ} : {A : Type ℓ} (c : Bool) (x y : A) → c ≡ true → (if c then x else y) ≡ x
if_true true x y e = refl
if_true false x y e = cc

module _ (tz : Zone) (tariffs : ℕ → List TariffFrame) (start end : ℕ) where
  -- A point is not strictly between two.
  abbrev Clear : ℕ → ℕ → ℕ → Type 0
  Clear p q x = x ≤ p ⊎ q ≤ x

  abbrev ClearFrame : ℕ → ℕ → ℕ → TariffFrame → Type 0
  ClearFrame date p q tf =
      (st et : ℕ) → frame_span tz date tf ≡ ok (st, et) → Clear p q st × Clear p q et

  applied_tariff_same :
      (date p q m t : ℕ) (frames : List TariffFrame) {tf : TariffFrame}
      → p ≤ m
      → m < q
      → p ≤ t
      → t < q
      → All (ClearFrame date p q) frames
      → applied_tariff tz date m frames ≡ ok (some tf)
      → applied_tariff tz date t frames ≡ ok (some tf)
  unfolding applied_tariff
  applied_tariff_same date p q m t [] a b c d f h = cc
  applied_tariff_same date p q m t (tf ∷ frames) a b c d (f, fs) h =
      let ((st, et), e, k) = bind-ok (frame_span tz date tf) _ h in
      let (s, u) = f st et e in
      let same : (leb st m && ltb m et) ≡ (leb st t && ltb t et) = ground arith in
      bind-run (frame_span tz date tf) _ e
      ∙ if_same _ _ _ _ _ same (applied_tariff_same date p q m t frames a b c d fs) k

  -- Two neighbours among the points: every marked point is clear of them.
  record Neighbours (l : List ℕ) (p q : ℕ) : Type 0 where
    first : start ≤ p
    less : p < q
    last : q ≤ end
    clear : (x : ℕ) → has x l ≡ true → Clear p q x

  module _ (lt : start < end) (midnights : Midnights tz) (l : List ℕ)
      (dates : (d : ℕ)
        → tz.date_of start ≤ d
        → d ≤ tz.date_of end
        → DateMarked start end lt tz tariffs l d) where
    Clear-Marked : (p q x : ℕ) → Neighbours l p q → Marked start end lt l x → Clear p q x
    Clear-Marked p q x n m = elim (Bool-cases (ltb start x && ltb x end)) [
      | inl e ↦ n.clear x (m (ground arith) (ground arith))
      | inr e ↦ ground (arith, n.first, n.last)
    ]

    -- No midnight lies between two neighbours.
    date_le :
        (p q m t : ℕ)
        → Neighbours l p q
        → p ≤ m
        → m < q
        → p ≤ t
        → t < q
        → tz.date_of m ≤ tz.date_of t
    date_le p q m t n a b c d =
        let day = tz.date_of m in
        elim (Bool-cases (leb day (tz.date_of t))) [
          | inl e ↦ ground arith
          | inr e ↦
              let begun : tz.combine day 0 ≤ m = (midnights day m).1 (omega arith) in
              let low =
                (midnights (tz.date_of start) m).0
                  (omega (arith, n.first, (midnights (tz.date_of start) start).1 (omega arith))) in
              let high = (midnights day end).0 (omega (arith, n.last)) in
              let x = Clear-Marked p q (tz.combine day 0) n (dates day low high).midnight in
              absurd (late x (λ h. not_le e ((midnights day t).0 (omega arith))) (omega arith))
        ]
      where
        not_le : {a b : ℕ} → leb a b ≡ false → a ≤ b → ⊥
        not_le e k = ground arith

        late : {x : ℕ} → Clear p q x → (x ≤ p → ⊥) → x < q → ⊥
        late (inl h) f k = f h
        late (inr h) f k = omega arith

    same_date :
        (p q m t : ℕ)
        → Neighbours l p q
        → p ≤ m
        → m < q
        → p ≤ t
        → t < q
        → tz.date_of m ≡ tz.date_of t
    same_date p q m t n a b c d =
        omega (arith, date_le p q m t n a b c d, date_le p q t m n c d a b)

    in_session :
        (p q m : ℕ)
        → Neighbours l p q
        → p ≤ m
        → m < q
        → DateMarked start end lt tz tariffs l (tz.date_of m)
    in_session p q m n a b =
        dates (tz.date_of m)
          ((midnights (tz.date_of start) m).0
            (omega (arith, n.first, (midnights (tz.date_of start) start).1 (omega arith))))
          ((midnights (tz.date_of m) end).0
            (omega (arith, n.last, (midnights (tz.date_of m) m).1 (omega arith))))

    All-ClearFrame :
        (date p q : ℕ) (frames : List TariffFrame)
        → Neighbours l p q
        → All (FrameMarked start end lt tz date l) frames
        → All (ClearFrame date p q) frames
    All-ClearFrame date p q [] n a = tt
    All-ClearFrame date p q (tf ∷ frames) n (f, a) = (
      λ st et e. (Clear-Marked p q st n (f st et e).0, Clear-Marked p q et n (f st et e).1),
      All-ClearFrame date p q frames n a,
    )

    Fair-Of :
        (ms : List MeterValue) (p q : ℕ) (tf : TariffFrame) (s : Segment)
        → Neighbours l p q
        → let mid = mid_point p q in
          let date = tz.date_of mid in
          applied_tariff tz date mid (tariffs date) ≡ ok (some tf)
          → Of date p q tf s
          → Fair tz tariffs s
    Fair-Of ms p q tf s n e o =
        let mid = mid_point p q in
        let date = tz.date_of mid in
        let inside = mid_point-inside p q n.less in
        let marked = (in_session p q mid n inside.0 inside.1).frames_marked in
        let clear = All-ClearFrame date p q (tariffs date) n marked in
        record {
          throughout = λ t a b.
              let c : p ≤ t = omega (arith, o.starts) in
              let d : t < q = omega (arith, o.stops) in
              let same = same_date p q mid t n inside.0 inside.1 c d in
              record {
                dated = o.dated ∙ same;
                frame = tf;
                applies =
                    subst (λ x. applied_tariff tz x t (tariffs x) ≡ ok (some tf)) same
                      (applied_tariff_same date p q mid t (tariffs date) inside.0 inside.1 c d clear
                        e);
                priced = o.priced;
                version = o.version;
                label = o.label;
              };
          rounded = o.charged_as;
        }

    segment_between-Fair :
        (ms : List MeterValue) (p q : ℕ) (o : Option Segment)
        → Neighbours l p q
        → segment_between tz ms tariffs p q ≡ ok o
        → (s : Segment) → o ≡ some s
        → Fair tz tariffs s
    unfolding segment_between
    segment_between-Fair ms p q o n h s is =
        let mid = mid_point p q in
        let date = tz.date_of mid in
        let (found, e, k) = bind-ok (applied_tariff tz date mid (tariffs date)) _ h in go found e k
      where
        go :
            (found : Option TariffFrame)
            → let mid = mid_point p q in
              let date = tz.date_of mid in
              applied_tariff tz date mid (tariffs date) ≡ ok found
              → charge_if_applied tz ms tariffs date p q found ≡ ok o
              → Fair tz tariffs s
        go none e k = cc
        go (some tf) e k =
            let part = charge_segment-Part tz ms tariffs (tz.date_of (mid_point p q)) p q tf k in
            Fair-Of ms p q tf s n e (part.shape s is)

    All-append_segment :
        (o : Option Segment) (segments : List Segment)
        → ((s : Segment) → o ≡ some s → Fair tz tariffs s)
        → All (Fair tz tariffs) segments
        → All (Fair tz tariffs) (append_segment o segments)
    All-append_segment none segments f a = a
    All-append_segment (some s) segments f a = (f s refl, a)

    segments_between-Fair :
        (ms : List MeterValue) (p : ℕ) (rest : List ℕ) {segments : List Segment}
        → start ≤ p
        → Ascends p rest
        → All (λ x. x ≤ end) rest
        → ((x : ℕ) → has x l ≡ true → x ≤ p ⊎ (has x rest ≡ true))
        → segments_between tz ms tariffs (p ∷ rest) ≡ ok segments
        → All (Fair tz tariffs) segments
    unfolding segments_between
    segments_between-Fair ms p [] {segments} b a u f h = subst (All (Fair tz tariffs)) (ok_inj h) tt
    segments_between-Fair ms p (q ∷ rest) {segments} b (less, a) (u, us) f h =
        let (o, e, k) = bind-ok (segment_between tz ms tariffs p q) _ h in
        let (later, e', k') = bind-ok (segments_between tz ms tariffs (q ∷ rest)) _ k in
        let n : Neighbours l p q = record {
          first = b;
          less = less;
          last = u;
          clear = λ x m. ground (arith, f x m, least q x rest a);
        } in
        subst (All (Fair tz tariffs)) (ok_inj k') (
          All-append_segment o later (segment_between-Fair ms p q o n e)
            (segments_between-Fair ms q rest (omega arith) a us (λ x m. ground (arith, f x m)) e'))

has_cons : (x p : ℕ) (l : List ℕ) → has x (p ∷ l) ≡ true → x ≤ p ⊎ (has x l ≡ true)
has_cons x p l h = elim (Bool-cases (x == p)) [
  | inl e ↦ inl (ground arith)
  | inr e ↦ inr (ground (arith, e))
]

-- In a time zone whose dates begin at their midnights, every segment of a session is charged as at
-- each of its instants: all lie on the segment's date, and the first frame of that date that holds
-- the instant has the segment's price, version and label. The amount is the rounded charge of its
-- energy at that price.
pub chia_doan-Fair :
    (tz : Zone) (start end : ℕ) (ms : List MeterValue) (tariffs : ℕ → List TariffFrame)
    {segments : List Segment}
    → Midnights tz
    → chia_doan tz start end ms tariffs ≡ ok segments
    → All (Fair tz tariffs) segments
unfolding chia_doan
chia_doan-Fair tz start end ms tariffs {segments} midnights h = elim (Bool-cases (leb end start)) [
  | inl e ↦ subst (All (Fair tz tariffs)) (ok_inj (sym (if_true _ _ _ e) ∙ h)) tt
  | inr e ↦
      let lt : start < end = ground arith in
      let (l, made, k) = chia_doan-points tz start end ms tariffs lt h in
      let r = sorted_points-CutDates start end lt tz tariffs made in
      let c = r.cuts in
      segments_between-Fair tz tariffs start end lt midnights l (λ d a b. r.dates d a (omega arith))
        ms start c.rest (omega arith) c.ascends c.bounded
        (λ x m. has_cons x start c.rest (subst (λ y. has x y ≡ true) c.is m))
        (subst (λ y. segments_between tz ms tariffs y ≡ ok segments) c.is k)
]
