-- ===== src/Billing/Segmentation/Tests.antt =====
-- A session over midnight, priced by two frames, in a zone seven hours east of UTC.
use ttcs_t926_k8s4_n1_csms.Base.{
  ℕ, ◌+◌, ◌-◌, ◌*◌, ◌/◌, ◌≤◌, ◌<◌, ◌≡◌, refl, ap, Bool, true, false, List, [], ◌∷◌, All, keep,
  length, arith,
}
use ttcs_t926_k8s4_n1_csms.Base.Int.{pos, ◌+ℤ◌, ◌-ℤ◌, ◌*ℤ◌}
use ttcs_t926_k8s4_n1_csms.Base.Text.{codes, decimal, decimal_from}
use ttcs_t926_k8s4_n1_csms.Base.Result.{ok, ◌>>=◌}
use ttcs_t926_k8s4_n1_csms.Billing.Money.{tien_dong, charge_ratio, round_half}
use ttcs_t926_k8s4_n1_csms.Billing.Segmentation.Interpolation.{
  MeterValue, wh, interpolate_meter_value, search_from, between, rounded_wh,
}
use ttcs_t926_k8s4_n1_csms.Billing.Segmentation.Clock.{
  TariffFrame, clock, clock_fields, int_list, int_of, digits_from, split, second_of_day,
}
use ttcs_t926_k8s4_n1_csms.Billing.Segmentation.Days.{
  gather, tinh_tien_theo_ngay, segments_on, on_date, Totalled, days_amount, amount_total,
  energy_total, tinh_tien_theo_ngay_groups,
}
use ttcs_t926_k8s4_n1_csms.Billing.Segmentation.Roundtrip.{frame_span-clock}
use ttcs_t926_k8s4_n1_csms.Billing.Segmentation.Monotone.{Readings, interpolate_meter_value-Rising}
use ttcs_t926_k8s4_n1_csms.Billing.Segmentation.Search.{Rising}
use ttcs_t926_k8s4_n1_csms.Billing.Segmentation.Total.{Priced, Spans, chia_doan_total}
use ttcs_t926_k8s4_n1_csms.Billing.Segmentation.Nearest.{Near, exact_total, chia_doan_nearest}
use ttcs_t926_k8s4_n1_csms.Billing.Segmentation.Uniform.{Midnights, Fair, chia_doan-Fair}
use ttcs_t926_k8s4_n1_csms.Billing.Segmentation.{
  Zone, Segment, frame_span, applied_tariff, cut_frames, cut_dates, sorted_points, charge_segment,
  segment_between, segments_between, chia_doan,
}

abbrev second_us : ℕ
second_us = 1_000_000

abbrev day_us : ℕ
day_us = 86_400_000_000

-- Day 0 begins at the instant 0 in UTC, and at 17:00 of the day before here.
abbrev pub ict : Zone
ict = record {
  combine = λ d s. d * 86_400_000_000 + s * 1_000_000 - 25_200_000_000;
  date_of = λ t. (t + 25_200_000_000) / 86_400_000_000;
}

abbrev frame : ℕ → ℕ → ℕ → TariffFrame
frame a b p = record {
  start_time = clock a;
  end_time = clock b;
  price_vnd_per_kwh = pos p;
  tariff_version = codes "t";
  frame_label = codes "f";
}

abbrev tariffs : ℕ → List TariffFrame
tariffs d = frame 0 360 1200 ∷ frame 360 1440 3000 ∷ []

-- 23:00 of day 1 to 01:00 of day 2, with 10 kWh in the two hours.
abbrev pub start : ℕ
start = ict.combine 1 82_800

abbrev pub end : ℕ
end = ict.combine 2 3_600

abbrev readings : List MeterValue
readings =
    record { timestamp = start; energy_wh = pos (1000 * wh) }
    ∷ record { timestamp = end; energy_wh = pos (11_000 * wh) }
    ∷ []

abbrev part : ℕ → ℕ → ℕ → ℕ → ℕ → Bool → Bool → Segment
part d a b p v i j = record {
  local_date = d;
  start_time = a;
  end_time = b;
  energy_consumed_wh = pos (5000 * wh);
  price_vnd_per_kwh = pos p;
  amount_vnd = pos v;
  tariff_version = codes "t";
  frame_label = codes "f";
  start_interpolated = i;
  end_interpolated = j;
}

abbrev parts : List Segment
parts =
    part 1 start (ict.combine 2 0) 3000 15_000 false true
    ∷ part 2 (ict.combine 2 0) end 1200 6000 true false
    ∷ []

parts_lem : chia_doan ict start end readings tariffs ≡ ok parts
unfolding chia_doan sorted_points cut_dates cut_frames frame_span clock clock_fields int_list int_of
    digits_from split decimal decimal_from second_of_day segments_between segment_between
    charge_segment applied_tariff interpolate_meter_value search_from between rounded_wh round_half
    tien_dong charge_ratio ◌+ℤ◌ ◌-ℤ◌ ◌*ℤ◌
parts_lem = refl

pub ict-Midnights : Midnights ict
ict-Midnights d t = (λ h. omega arith, λ h. omega arith)

chia_doan-Fair_example : All (Fair ict tariffs) parts
chia_doan-Fair_example = chia_doan-Fair ict start end readings tariffs ict-Midnights parts_lem

chia_doan_nearest_example : Near (length parts) (amount_total parts) (exact_total parts)
chia_doan_nearest_example = chia_doan_nearest ict readings tariffs start end parts_lem

grouped : tinh_tien_theo_ngay ict start end readings tariffs ≡ ok (gather parts [])
unfolding tinh_tien_theo_ngay
grouped = ap (λ r. r >>= λ segments. ok (gather segments [])) parts_lem

tinh_tien_theo_ngay_groups_example :
    (segments : List Segment) × (chia_doan ict start end readings tariffs ≡ ok segments)
    × ((date : ℕ) → segments_on date (gather parts []) ≡ keep (on_date date) segments)
    × All Totalled (gather parts [])
    × (days_amount (gather parts []) ≡ amount_total segments)
tinh_tien_theo_ngay_groups_example =
    tinh_tien_theo_ngay_groups ict start end readings tariffs {result = gather parts []} grouped

-- One price for the whole of every date.
abbrev flat : ℕ → List TariffFrame
flat d = frame 0 1440 3000 ∷ []

flat-Priced : (t : ℕ) → start ≤ t → t < end → Priced ict readings flat t
unfolding applied_tariff frame_span clock clock_fields int_list int_of digits_from split decimal
    decimal_from second_of_day
flat-Priced t a b = (frame 0 1440 3000, ground arith)

abbrev flat_parts : List Segment
flat_parts =
    part 1 start (ict.combine 2 0) 3000 15_000 false true
    ∷ part 2 (ict.combine 2 0) end 3000 15_000 true false
    ∷ []

flat_parts_lem : chia_doan ict start end readings flat ≡ ok flat_parts
unfolding chia_doan sorted_points cut_dates cut_frames frame_span clock clock_fields int_list int_of
    digits_from split decimal decimal_from second_of_day segments_between segment_between
    charge_segment applied_tariff interpolate_meter_value search_from between rounded_wh round_half
    tien_dong charge_ratio ◌+ℤ◌ ◌-ℤ◌ ◌*ℤ◌
flat_parts_lem = refl

chia_doan_total_example : Spans ict readings flat start end (energy_total flat_parts)
chia_doan_total_example =
    chia_doan_total ict start end readings flat (omega arith) flat-Priced flat_parts_lem

frame_span-clock_example :
    frame_span ict 2 (frame 360 1440 3000) ≡ ok (ict.combine 2 (360 * 60), ict.combine 3 0)
frame_span-clock_example =
    frame_span-clock ict 2 360 1440 (frame 360 1440 3000) (omega arith) (omega arith) refl refl

rising :
    Rising
      (record { timestamp = start; energy_wh = pos (1000 * wh) })
      (record { timestamp = end; energy_wh = pos (11_000 * wh) } ∷ [])
rising = (omega arith, omega arith, tt)

interpolate_meter_value-Rising_example :
    Readings readings (start + 1) (start + 3_600_000_000) (pos (1000 * wh)) (pos (11_000 * wh))
interpolate_meter_value-Rising_example =
    interpolate_meter_value-Rising (record { timestamp = start; energy_wh = pos (1000 * wh) })
      (record { timestamp = end; energy_wh = pos (11_000 * wh) } ∷ []) (start + 1)
      (start + 3_600_000_000) rising (omega arith) (omega arith) (omega arith) (omega arith)
