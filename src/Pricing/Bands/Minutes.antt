-- ===== src/Pricing/Bands/Minutes.antt =====
-- The bands of a day that pass the check (modules/pricing/bands.py, modules/stations/power_bands.py).
use ttcs_t926_k8s4_n1_csms.Base.{
  ℕ, ◌<◌, ◌≡◌, refl, sym, ap, ◌∙◌, Bool, true, false, List, [], ◌∷◌, length, is_empty,
  if◌then◌else◌, arith,
}
use ttcs_t926_k8s4_n1_csms.Base.Int.{ℤ}
use ttcs_t926_k8s4_n1_csms.Pricing.Bands.{
  Code, Band, Span, valid_bands, bands_error, scan, boundaries, sort_spans, reversed, band_issues,
  normalized, day_of, check_bands, Rate, rate_codes, limit_codes, kiem_khung_gio,
  kiem_khung_gio_cong_suat,
}
use ttcs_t926_k8s4_n1_csms.Pricing.Bands.Day.{
  band_at, single, or_issues-valid, and_true, is_empty-reversed, at_minute-sort_spans, day_once,
  normal,
}
use ttcs_t926_k8s4_n1_csms.Pricing.Bands.Points.{boundaries-Grid}
use ttcs_t926_k8s4_n1_csms.Pricing.Bands.Cover.{at_minute, scan_none}

module _ {P : Type 0} (payload_codes : P → List Code) (bands : List (Band P)) where
  pub day_of-valid :
      (ss out : List (Span P))
      → day_of payload_codes ss ≡ valid_bands out
      → (is_empty (scan ss (boundaries ss) []) ≡ true) × (out ≡ sort_spans ss)
  unfolding day_of
  day_of-valid ss out h =
      let (e, o) =
        or_issues-valid (reversed (scan ss (boundaries ss) []) []) (sort_spans ss) out h in
      (
        and_true (is_empty (scan ss (boundaries ss) []))
            (sym (is_empty-reversed (scan ss (boundaries ss) []) []) ∙ e),
        o,
      )

  pub check_bands-valid :
      (out : List (Span P))
      → check_bands payload_codes bands ≡ valid_bands out
      → (is_empty (band_issues payload_codes 0 bands) ≡ true)
        × (day_of payload_codes (normalized payload_codes 0 bands) ≡ valid_bands out)
  unfolding check_bands
  check_bands-valid out h = go (is_empty (band_issues payload_codes 0 bands)) refl h
    where
      go :
          (c : Bool)
          → is_empty (band_issues payload_codes 0 bands) ≡ c
          → (if c
              then day_of payload_codes (normalized payload_codes 0 bands)
              else bands_error (band_issues payload_codes 0 bands))
            ≡ valid_bands out
          → (is_empty (band_issues payload_codes 0 bands) ≡ true)
            × (day_of payload_codes (normalized payload_codes 0 bands) ≡ valid_bands out)
      go true e k = (e, k)
      go false e k = cc

  -- Exactly one band covers the minute, before and after.
  abbrev pub OneAt : ℕ → List (Span P) → Type 0
  OneAt m out = (p : P) × (band_at m bands ≡ p ∷ []) × (at_minute m out ≡ p ∷ [])

  pub check_bands_each_minute :
      (out : List (Span P)) (m : ℕ)
      → check_bands payload_codes bands ≡ valid_bands out
      → m < 1440
      → OneAt m out
  check_bands_each_minute out m h l =
      let ss = normalized payload_codes 0 bands in
      let (fine, day) = check_bands-valid out h in
      let (empty, is) = day_of-valid ss out day in
      let (days, says) = normal payload_codes m 0 bands fine in
      let one = day_once ss m days l empty in
      let (p, e) = single (at_minute m ss) one in
      (p, sym (says l) ∙ e, ap (at_minute m) is ∙ at_minute-sort_spans m ss (omega arith) ∙ e)

  pub check_bands_complete :
      is_empty (band_issues payload_codes 0 bands) ≡ true
      → ((m : ℕ) → m < 1440 → length (band_at m bands) ≡ 1)
      → check_bands payload_codes bands
        ≡ valid_bands (sort_spans (normalized payload_codes 0 bands))
  unfolding check_bands day_of
  check_bands_complete fine one =
      let ss = normalized payload_codes 0 bands in
      let g = boundaries-Grid ss (normal payload_codes 0 0 bands fine).0 in
      let once : (m : ℕ) → m < 1440 → length (at_minute m ss) ≡ 1 =
        λ m l. ap length ((normal payload_codes m 0 bands fine).1 l) ∙ one m l in
      let none : scan ss (boundaries ss) [] ≡ [] =
        ap (λ x. scan ss x []) g.is
        ∙ scan_none ss 0 g.rest g.points.ascends g.points.bounded once in
      rw (fine, none) refl

-- Where the check of a tariff's bands returns, exactly one band as entered covers each minute of the
-- day, exactly one band of the result covers it, and both have the same price and label.
pub kiem_khung_gio_each_minute :
    (bands : List (Band Rate)) (out : List (Span Rate)) (m : ℕ)
    → kiem_khung_gio bands ≡ valid_bands out
    → m < 1440
    → (r : Rate) × (band_at m bands ≡ r ∷ []) × (at_minute m out ≡ r ∷ [])
unfolding kiem_khung_gio
kiem_khung_gio_each_minute bands out m h l = check_bands_each_minute rate_codes bands out m h l

-- Where the check of a station's power bands returns, exactly one band as entered covers each minute
-- of the day, exactly one band of the result covers it, and both have the same limit.
pub kiem_khung_gio_cong_suat_each_minute :
    (bands : List (Band ℤ)) (out : List (Span ℤ)) (m : ℕ)
    → kiem_khung_gio_cong_suat bands ≡ valid_bands out
    → m < 1440
    → (w : ℤ) × (band_at m bands ≡ w ∷ []) × (at_minute m out ≡ w ∷ [])
unfolding kiem_khung_gio_cong_suat
kiem_khung_gio_cong_suat_each_minute bands out m h l =
    check_bands_each_minute limit_codes bands out m h l

-- Bands whose own times, rates and labels are valid, exactly one for each minute of the day, pass the
-- check of a tariff.
pub kiem_khung_gio_complete :
    (bands : List (Band Rate))
    → is_empty (band_issues rate_codes 0 bands) ≡ true
    → ((m : ℕ) → m < 1440 → length (band_at m bands) ≡ 1)
    → kiem_khung_gio bands ≡ valid_bands (sort_spans (normalized rate_codes 0 bands))
unfolding kiem_khung_gio
kiem_khung_gio_complete bands fine one = check_bands_complete rate_codes bands fine one
