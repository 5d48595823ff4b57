-- ===== src/Billing/Segmentation/Days.antt =====
-- `tinh_tien_theo_ngay` of modules/billing/segmentation.py: the segments of a session by local date.
use mathlib.Core.List.{append_assoc, append-nil}
use ttcs_t926_k8s4_n1_csms.Base.{
  ℕ, Bool, ◌≡◌, sym, ap, subst, ◌∙◌, List, [], ◌∷◌, ◌++◌, keep, All, ◌==◌, if◌then◌else◌,
  Bool-cases, arith, inl, inr,
}
use ttcs_t926_k8s4_n1_csms.Base.Int.{ℤ, pos, ◌+ℤ◌, int_laws}
use ttcs_t926_k8s4_n1_csms.Base.Result.{ok, ◌>>=◌, bind-ok}
use ttcs_t926_k8s4_n1_csms.Billing.Segmentation.Interpolation.{MeterValue}
use ttcs_t926_k8s4_n1_csms.Billing.Segmentation.Clock.{TariffFrame}
use ttcs_t926_k8s4_n1_csms.Billing.Segmentation.{Zone, Raises, Segment, Day, chia_doan}

-- One turn of the loop: `result[d]` is made where it is missing, then grows.
unfoldable pub put_segment : Segment → List Day → List Day
put_segment seg [] =
    record {
      date = seg.local_date;
      segments = seg ∷ [];
      total_energy_wh = pos 0 +ℤ seg.energy_consumed_wh;
      total_amount_vnd = pos 0 +ℤ seg.amount_vnd;
    }
    ∷ []
put_segment seg (d ∷ result) =
    let others = put_segment seg result in
    if d.date == seg.local_date
    then record d {
      segments = d.segments ++ seg ∷ [];
      total_energy_wh = d.total_energy_wh +ℤ seg.energy_consumed_wh;
      total_amount_vnd = d.total_amount_vnd +ℤ seg.amount_vnd;
    }
      ∷ result
    else d ∷ others

unfoldable pub gather : List Segment → List Day → List Day
gather [] result = result
gather (seg ∷ segments) result = gather segments (put_segment seg result)

unfoldable pub tinh_tien_theo_ngay :
    Zone → ℕ → ℕ → List MeterValue → (ℕ → List TariffFrame) → Raises (List Day)
tinh_tien_theo_ngay tz session_start session_end meter_values daily_tariffs =
    chia_doan tz session_start session_end meter_values daily_tariffs >>= λ segments.
    ok (gather segments [])

-- What a caller finds under a date.
abbrev pub segments_on : ℕ → List Day → List Segment
segments_on date [] = []
segments_on date (d ∷ result) = if d.date == date then d.segments else segments_on date result

abbrev pub on_date : ℕ → Segment → Bool
on_date date s = s.local_date == date

abbrev pub energy_total : List Segment → ℤ
energy_total [] = pos 0
energy_total (s ∷ segments) = s.energy_consumed_wh +ℤ energy_total segments

abbrev pub amount_total : List Segment → ℤ
amount_total [] = pos 0
amount_total (s ∷ segments) = s.amount_vnd +ℤ amount_total segments

-- The totals of a day are those of its segments.
abbrev pub Totalled : Day → Type 0
Totalled d =
    (d.total_energy_wh ≡ energy_total d.segments) × (d.total_amount_vnd ≡ amount_total d.segments)

energy_total-++ : (a b : List Segment) → energy_total (a ++ b) ≡ energy_total a +ℤ energy_total b
energy_total-++ [] b = omega int_laws
energy_total-++ (s ∷ a) b = rw (energy_total-++ a b) (omega int_laws)

amount_total-++ : (a b : List Segment) → amount_total (a ++ b) ≡ amount_total a +ℤ amount_total b
amount_total-++ [] b = omega int_laws
amount_total-++ (s ∷ a) b = rw (amount_total-++ a b) (omega int_laws)

put_segment-Totalled :
    (seg : Segment) (result : List Day)
    → All Totalled result
    → All Totalled (put_segment seg result)
unfolding put_segment
put_segment-Totalled seg [] a = ((omega int_laws, omega int_laws), tt)
put_segment-Totalled seg (d ∷ result) (h, a) = elim (Bool-cases (d.date == seg.local_date)) [
  | inl e ↦ rw e (
    (
      rw (energy_total-++ d.segments (seg ∷ []), h.0) (omega int_laws),
      rw (amount_total-++ d.segments (seg ∷ []), h.1) (omega int_laws),
    ),
    a,
  )
  | inr e ↦ rw e (h, put_segment-Totalled seg result a)
]

gather-Totalled :
    (segments : List Segment) (result : List Day)
    → All Totalled result
    → All Totalled (gather segments result)
unfolding gather
gather-Totalled [] result a = a
gather-Totalled (seg ∷ segments) result a =
    gather-Totalled segments (put_segment seg result) (put_segment-Totalled seg result a)

segments_on-put_segment :
    (date : ℕ) (seg : Segment) (result : List Day)
    → segments_on date (put_segment seg result)
      ≡ segments_on date result ++ keep (on_date date) (seg ∷ [])
unfolding put_segment
segments_on-put_segment date seg [] = ground arith
segments_on-put_segment date seg (d ∷ result) = ground (
  arith,
  segments_on-put_segment date seg result,
  append-nil d.segments,
  append-nil (segments_on date result),
)

segments_on-gather :
    (date : ℕ) (segments : List Segment) (result : List Day)
    → segments_on date (gather segments result)
      ≡ segments_on date result ++ keep (on_date date) segments
unfolding gather
segments_on-gather date [] result = sym (append-nil (segments_on date result))
segments_on-gather date (seg ∷ segments) result =
    segments_on-gather date segments (put_segment seg result)
    ∙ ap (λ l. l ++ keep (on_date date) segments) (segments_on-put_segment date seg result)
    ∙ append_assoc (segments_on date result) (keep (on_date date) (seg ∷ []))
        (keep (on_date date) segments)
    ∙ ap (λ l. segments_on date result ++ l) (sym (keep-cons seg segments))
  where
    keep-cons :
        (s : Segment) (l : List Segment)
        → keep (on_date date) (s ∷ l) ≡ keep (on_date date) (s ∷ []) ++ keep (on_date date) l
    keep-cons s l = ground arith

abbrev pub days_amount : List Day → ℤ
days_amount [] = pos 0
days_amount (d ∷ result) = d.total_amount_vnd +ℤ days_amount result

days_amount-put_segment :
    (seg : Segment) (result : List Day)
    → days_amount (put_segment seg result) ≡ days_amount result +ℤ seg.amount_vnd
unfolding put_segment
days_amount-put_segment seg [] = omega int_laws
days_amount-put_segment seg (d ∷ result) = elim (Bool-cases (d.date == seg.local_date)) [
  | inl e ↦ rw e (omega int_laws)
  | inr e ↦ rw (e, days_amount-put_segment seg result) (omega int_laws)
]

days_amount-gather :
    (segments : List Segment) (result : List Day)
    → days_amount (gather segments result) ≡ days_amount result +ℤ amount_total segments
unfolding gather
days_amount-gather [] result = omega int_laws
days_amount-gather (seg ∷ segments) result =
    rw (days_amount-gather segments (put_segment seg result), days_amount-put_segment seg result)
      (omega int_laws)

-- When tinh_tien_theo_ngay returns, chia_doan returned segments, and the result holds under each date
-- exactly the segments of that date in their order; the totals of every day are those of its
-- segments, and the days' amounts sum to the amounts of all segments.
pub tinh_tien_theo_ngay_groups :
    (tz : Zone) (start end : ℕ) (meter_values : List MeterValue) (tariffs : ℕ → List TariffFrame)
    {result : List Day}
    → tinh_tien_theo_ngay tz start end meter_values tariffs ≡ ok result
    → (segments : List Segment) × (chia_doan tz start end meter_values tariffs ≡ ok segments)
      × ((date : ℕ) → segments_on date result ≡ keep (on_date date) segments)
      × All Totalled result
      × (days_amount result ≡ amount_total segments)
unfolding tinh_tien_theo_ngay
tinh_tien_theo_ngay_groups tz start end meter_values tariffs {result} h =
    let (segments, e, q) = bind-ok (chia_doan tz start end meter_values tariffs) _ h in
    let is : gather segments [] ≡ result = cc in
    (
      segments,
      e,
      λ date. ap (segments_on date) (sym is) ∙ segments_on-gather date segments [],
      subst (All Totalled) is (gather-Totalled segments [] tt),
      ap days_amount (sym is) ∙ days_amount-gather segments [] ∙ omega int_laws,
    )
