-- ===== src/Billing/Segmentation.antt =====
-- modules/billing/segmentation.py: a session is cut at the ends of tariff frames and at midnights, and
-- each part is charged by the meter readings at its ends. An instant is a number of microseconds in
-- UTC, a date a number of days, and an energy a number of millionths of a Wh, the scale of the
-- readings' column. The time zone is a parameter.
pub mod Clock
pub mod Interpolation
pub mod Days
pub mod Cuts
pub mod Parts
pub mod Roundtrip
pub mod Line
pub mod Monotone
pub mod Search
pub mod Tests
pub mod Total
pub mod Uniform
pub mod Nearest
use ttcs_t926_k8s4_n1_csms.Base.{
  ℕ, zero, suc, ◌+◌, ◌-◌, ◌/◌, ◌%◌, Bool, true, false, ◌&&◌, Option, none, some, List, [], ◌∷◌, ltb,
  leb, ◌==◌, if◌then◌else◌,
}
use ttcs_t926_k8s4_n1_csms.Base.Int.{ℤ, pos, ◌+ℤ◌, ◌-ℤ◌, ltb_ℤ, eqb_ℤ}
use ttcs_t926_k8s4_n1_csms.Base.Text.{Text}
use ttcs_t926_k8s4_n1_csms.Base.Sorted.{put_point}
use ttcs_t926_k8s4_n1_csms.Base.Result.{Result, ok, err, ◌>>=◌, ◌>>◌, raise_if}
use ttcs_t926_k8s4_n1_csms.Billing.Money.{Charge, amount, type_error, ratio, rate, tien_dong}
use ttcs_t926_k8s4_n1_csms.Billing.Segmentation.Interpolation.{
  SegmentError, value_error, MeterValue, interpolate_meter_value,
}
use ttcs_t926_k8s4_n1_csms.Billing.Segmentation.Clock.{TariffFrame, clock_fields, second_of_day}

-- `datetime.combine(date, time, tzinfo=tz)`, the time as seconds of the day, and
-- `instant.astimezone(tz).date()`.
pub record Zone : Type 0 where
  pub combine : ℕ → ℕ → ℕ
  pub date_of : ℕ → ℕ

pub record Segment : Type 0 where
  pub local_date : ℕ
  pub start_time : ℕ
  pub end_time : ℕ
  pub energy_consumed_wh : ℤ
  pub price_vnd_per_kwh : ℤ
  pub amount_vnd : ℤ
  pub tariff_version : Text
  pub frame_label : Text
  pub start_interpolated : Bool
  pub end_interpolated : Bool

abbrev pub Raises : Type 0 → Type 0
Raises A = Result SegmentError A

-- `seg_end - seg_start` halved: timedelta division rounds to the nearest, a tie to the even.
abbrev pub half : ℕ → ℕ
half n = n / 2 + (if n % 2 == 1 && (n / 2) % 2 == 1 then 1 else 0)

abbrev pub mid_point : ℕ → ℕ → ℕ
mid_point seg_start seg_end = seg_start + half (seg_end - seg_start)

-- A point goes into the set where it is inside the session.
abbrev pub add_cut : ℕ → ℕ → ℕ → List ℕ → List ℕ
add_cut session_start session_end p cut_points =
    if ltb session_start p && ltb p session_end then put_point p cut_points else cut_points

abbrev pub charge_amount : Charge → Raises ℤ
charge_amount (amount a) = ok a
charge_amount _ = err value_error

-- `continue` for no energy, or the segment with its amount.
abbrev pub charge_nonzero : Bool → Segment → Raises (Option Segment)
charge_nonzero true s = ok none
charge_nonzero false s =
    charge_amount (tien_dong (ratio s.energy_consumed_wh 1_000_000) (rate s.price_vnd_per_kwh))
    >>= λ paid. ok (some record s { amount_vnd = paid })

abbrev pub append_segment : Option Segment → List Segment → List Segment
append_segment none segments = segments
append_segment (some s) segments = s ∷ segments

module _ (tz : Zone) where
  -- `et_dt`: an hour of 24 is the next midnight, whatever its minute.
  abbrev pub end_of : ℕ → ℕ → ℕ → ℕ → Raises ℕ
  end_of date et_h et_m et_s =
      if et_h == 24
      then ok (tz.combine (suc date) 0)
      else (second_of_day et_h et_m et_s >>= λ et. ok (tz.combine date et))

  -- `st_dt` and `et_dt` of a frame on a date.
  unfoldable pub frame_span : ℕ → TariffFrame → Raises (ℕ × ℕ)
  unfolding second_of_day
  frame_span date tf = do
    (st_h, st_m, st_s) ← clock_fields tf.start_time
    (et_h, et_m, et_s) ← clock_fields tf.end_time
    st ← second_of_day st_h st_m st_s
    let st_dt = tz.combine date st
    et_dt ← end_of date et_h et_m et_s
    ok (st_dt, et_dt)

  -- The first frame of a date that holds an instant.
  unfoldable pub applied_tariff : ℕ → ℕ → List TariffFrame → Raises (Option TariffFrame)
  applied_tariff date mid [] = ok none
  applied_tariff date mid (tf ∷ frames) = do
    let rest = applied_tariff date mid frames
    (st_dt, et_dt) ← frame_span date tf
    if leb st_dt mid && ltb mid et_dt then ok (some tf) else rest

  module _ (meter_values : List MeterValue) (daily_tariffs : ℕ → List TariffFrame) where
    -- The part of the loop below the choice of the tariff.
    unfoldable pub charge_segment : ℕ → ℕ → ℕ → TariffFrame → Raises (Option Segment)
    charge_segment date seg_start seg_end tf = do
      (start_wh, start_interp) ← interpolate_meter_value seg_start meter_values
      (end_wh, end_interp) ← interpolate_meter_value seg_end meter_values
      let energy = end_wh -ℤ start_wh
      raise_if (ltb_ℤ energy (pos 0)) value_error
      charge_nonzero (eqb_ℤ energy (pos 0)) record {
        local_date = date;
        start_time = seg_start;
        end_time = seg_end;
        energy_consumed_wh = energy;
        price_vnd_per_kwh = tf.price_vnd_per_kwh;
        amount_vnd = pos 0;
        tariff_version = tf.tariff_version;
        frame_label = tf.frame_label;
        start_interpolated = start_interp;
        end_interpolated = end_interp;
      }

    abbrev pub charge_if_applied : ℕ → ℕ → ℕ → Option TariffFrame → Raises (Option Segment)
    charge_if_applied date seg_start seg_end none = ok none
    charge_if_applied date seg_start seg_end (some tf) = charge_segment date seg_start seg_end tf

    unfoldable pub segment_between : ℕ → ℕ → Raises (Option Segment)
    unfolding charge_segment
    segment_between seg_start seg_end = do
      let mid = mid_point seg_start seg_end
      let date = tz.date_of mid
      tf ← applied_tariff date mid (daily_tariffs date)
      charge_if_applied date seg_start seg_end tf

    -- The loop over the neighbours among the points.
    unfoldable pub segments_between : List ℕ → Raises (List Segment)
    segments_between [] = ok []
    segments_between (p ∷ []) = ok []
    segments_between (p ∷ q ∷ points) = do
      let rest = segments_between (q ∷ points)
      s ← segment_between p q
      segments ← rest
      ok (append_segment s segments)

  module _ (session_start session_end : ℕ) where
    unfoldable pub cut_frames : ℕ → List TariffFrame → List ℕ → Raises (List ℕ)
    cut_frames date [] cut_points = ok cut_points
    cut_frames date (tf ∷ frames) cut_points = do
      (st_dt, et_dt) ← frame_span date tf
      let cuts = add_cut session_start session_end st_dt cut_points
      cut_frames date frames (add_cut session_start session_end et_dt cuts)

    -- `while current_date <= end_date`, for `n` dates; `daily_tariffs.get(date, [])` is a function.
    unfoldable pub cut_dates : (ℕ → List TariffFrame) → ℕ → ℕ → List ℕ → Raises (List ℕ)
    cut_dates daily_tariffs zero date cut_points = ok cut_points
    cut_dates daily_tariffs (suc n) date cut_points = do
      let midnight = tz.combine date 0
      let with_midnight = add_cut session_start session_end midnight cut_points
      cuts ← cut_frames date (daily_tariffs date) with_midnight
      cut_dates daily_tariffs n (suc date) cuts

    unfoldable pub sorted_points : (ℕ → List TariffFrame) → Raises (List ℕ)
    unfolding cut_dates
    sorted_points daily_tariffs =
        let first = tz.date_of session_start in
        let last = tz.date_of session_end in
        cut_dates daily_tariffs (suc last - first) first
          (put_point session_end (session_start ∷ []))

  unfoldable pub chia_doan :
      ℕ → ℕ → List MeterValue → (ℕ → List TariffFrame) → Raises (List Segment)
  unfolding sorted_points
  chia_doan session_start session_end meter_values daily_tariffs =
      if leb session_end session_start
      then ok []
      else (sorted_points session_start session_end daily_tariffs
          >>= segments_between meter_values daily_tariffs)

-- `result[d]` of `tinh_tien_theo_ngay`
pub record Day : Type 0 where
  pub date : ℕ
  pub segments : List Segment
  pub total_energy_wh : ℤ
  pub total_amount_vnd : ℤ
