-- ===== src/Billing/Segmentation/Interpolation.antt =====
-- `interpolate_meter_value` of modules/billing/segmentation.py: the reading at an instant between two
-- readings, on a straight line, rounded half up to a whole Wh and kept between the two.
use ttcs_t926_k8s4_n1_csms.Base.{
  ℕ, ◌-◌, ◌*◌, Bool, true, false, ◌||◌, List, [], ◌∷◌, ltb, ◌==◌, if◌then◌else◌,
}
use ttcs_t926_k8s4_n1_csms.Base.Int.{ℤ, pos, neg, ◌+ℤ◌, ◌-ℤ◌, ◌*ℤ◌, abs, ltb_ℤ}
use ttcs_t926_k8s4_n1_csms.Base.Result.{Result, ok, err}
use ttcs_t926_k8s4_n1_csms.Billing.Money.{round_half}

-- The exceptions of the module; the messages are left out.
pub data SegmentError : Type 0 where
  no_readings out_of_range meter_decreased value_error index_error : SegmentError

pub record MeterValue : Type 0 where
  pub timestamp : ℕ
  pub energy_wh : ℤ

-- A Wh in millionths.
abbrev pub wh : ℕ
wh = 1_000_000

abbrev pub min_ℤ : ℤ → ℤ → ℤ
min_ℤ a b = if ltb_ℤ b a then b else a

abbrev pub max_ℤ : ℤ → ℤ → ℤ
max_ℤ a b = if ltb_ℤ a b then b else a

-- `rounded` with its sign, of a fraction whose terms need not be lowest.
unfoldable pub rounded_wh : ℤ → ℕ → ℤ
rounded_wh numerator denominator =
    let rounded = round_half (abs numerator) denominator in
    let size = pos (rounded * wh) in if ltb_ℤ numerator (pos 0) then neg size else size

-- The line between two readings at an instant after the first and before the second.
unfoldable pub between : ℕ → MeterValue → MeterValue → Result SegmentError (ℤ × Bool)
unfolding rounded_wh
between target point_a point_b =
    let e_a = point_a.energy_wh in
    let e_b = point_b.energy_wh in
    let elapsed = target - point_a.timestamp in
    let duration = point_b.timestamp - point_a.timestamp in
    let numerator = e_a *ℤ pos duration +ℤ (e_b -ℤ e_a) *ℤ pos elapsed in
    let value = rounded_wh numerator (duration * wh) in
    if ltb_ℤ e_b e_a then err meter_decreased else ok (min_ℤ e_b (max_ℤ e_a value), true)

-- The loop; `before` is `meter_values[i - 1]`, which is the last one where `i` is 0.
unfoldable pub search_from : ℕ → MeterValue → List MeterValue → Result SegmentError (ℤ × Bool)
search_from target before [] = err value_error
search_from target before (mv ∷ rest) =
    let later = search_from target mv rest in
    if mv.timestamp == target
    then ok (mv.energy_wh, false)
    else if ltb target mv.timestamp
    then between target before mv
    else later

abbrev pub last_of : MeterValue → List MeterValue → MeterValue
last_of mv [] = mv
last_of mv (mv' ∷ rest) = last_of mv' rest

unfoldable pub interpolate_meter_value : ℕ → List MeterValue → Result SegmentError (ℤ × Bool)
unfolding search_from
interpolate_meter_value target [] = err no_readings
interpolate_meter_value target (first ∷ rest) =
    let last = last_of first rest in
    if ltb target first.timestamp || ltb last.timestamp target
    then err out_of_range
    else search_from target last (first ∷ rest)
