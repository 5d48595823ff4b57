-- ===== src/Billing/Segmentation/Clock.antt =====
-- The frames of modules/billing/segmentation.py with their times of the day as texts, which
-- `_clock` of modules/billing/invoicing.py writes and `chia_doan` reads. `int` is written for texts of
-- decimal digits; the signs, blanks and underscores that it also reads never come from `_clock`.
use ttcs_t926_k8s4_n1_csms.Base.{
  ℕ, ◌+◌, ◌-◌, ◌*◌, ◌/◌, ◌%◌, Bool, ◌&&◌, List, [], ◌∷◌, ◌++◌, ltb, leb, ◌==◌, if◌then◌else◌,
}
use ttcs_t926_k8s4_n1_csms.Base.Int.{ℤ}
use ttcs_t926_k8s4_n1_csms.Base.Text.{Text, decimal}
use ttcs_t926_k8s4_n1_csms.Base.Result.{Result, ok, err, ◌>>=◌}
use ttcs_t926_k8s4_n1_csms.Billing.Segmentation.Interpolation.{
  SegmentError, value_error, index_error,
}

pub record TariffFrame : Type 0 where
  pub start_time : Text
  pub end_time : Text
  pub price_vnd_per_kwh : ℤ
  pub tariff_version : Text
  pub frame_label : Text

abbrev pub colon : ℕ
colon = 58

abbrev pub put_first : ℕ → List Text → List Text
put_first c [] = (c ∷ []) ∷ []
put_first c (t ∷ ts) = (c ∷ t) ∷ ts

-- `text.split(":")`
unfoldable pub split : Text → List Text
split [] = [] ∷ []
split (c ∷ t) = let rest = split t in if c == colon then [] ∷ rest else put_first c rest

abbrev pub is_digit : ℕ → Bool
is_digit c = leb 48 c && leb c 57

unfoldable pub digits_from : ℕ → Text → Result SegmentError ℕ
digits_from n [] = ok n
digits_from n (c ∷ t) =
    let rest = digits_from (n * 10 + (c - 48)) t in if is_digit c then rest else err value_error

-- `int(text)`
unfoldable pub int_of : Text → Result SegmentError ℕ
unfolding digits_from
int_of [] = err value_error
int_of (c ∷ t) = digits_from 0 (c ∷ t)

unfoldable pub int_list : List Text → Result SegmentError (List ℕ)
int_list [] = ok []
int_list (t ∷ ts) = int_of t >>= λ n. int_list ts >>= λ ns. ok (n ∷ ns)

-- `parts[0]`, `parts[1]` and `parts[2] if len(parts) > 2 else 0`
abbrev pub three_parts : List ℕ → Result SegmentError (ℕ × ℕ × ℕ)
three_parts [] = err index_error
three_parts (h ∷ []) = err index_error
three_parts (h ∷ m ∷ []) = ok (h, m, 0)
three_parts (h ∷ m ∷ s ∷ more) = ok (h, m, s)

unfoldable pub clock_fields : Text → Result SegmentError (ℕ × ℕ × ℕ)
unfolding int_list split
clock_fields t = int_list (split t) >>= three_parts

-- `time(h, m, s)`, as the second of the day.
unfoldable pub second_of_day : ℕ → ℕ → ℕ → Result SegmentError ℕ
second_of_day h m s =
    if leb h 23 && (leb m 59 && leb s 59) then ok (h * 3600 + m * 60 + s) else err value_error

-- `f"{n:02d}"`
abbrev pub two_digits : ℕ → Text
two_digits n = if ltb n 10 then 48 ∷ decimal n else decimal n

-- `_clock`
unfoldable pub clock : ℕ → Text
clock minute = two_digits (minute / 60) ++ colon ∷ two_digits (minute % 60)
