-- ===== src/Pricing/Bands/Tests.antt =====
-- The bands of a day at concrete inputs: one by day and one over midnight.
use ttcs_t926_k8s4_n1_csms.Base.{ℕ, ◌<◌, ◌≡◌, refl, true, List, [], ◌∷◌, length, is_empty, arith}
use ttcs_t926_k8s4_n1_csms.Base.Int.{ℤ, pos}
use ttcs_t926_k8s4_n1_csms.Base.Text.{codes}
use ttcs_t926_k8s4_n1_csms.Pricing.Bands.{
  Band, Span, Rate, valid_bands, scan, band_issues, normalized, day_of, check_bands, rate_codes,
  sort_spans, kiem_khung_gio, kiem_khung_gio_cong_suat,
}
use ttcs_t926_k8s4_n1_csms.Pricing.Bands.Cover.{at_minute}
use ttcs_t926_k8s4_n1_csms.Pricing.Bands.Day.{band_at}
use ttcs_t926_k8s4_n1_csms.Pricing.Bands.Minutes.{
  kiem_khung_gio_each_minute, kiem_khung_gio_complete,
}

abbrev day_rate : Rate
day_rate = record { energy_rate_vnd_per_kwh = pos 4000; label = codes "day" }

abbrev night_rate : Rate
night_rate = record { energy_rate_vnd_per_kwh = pos 2500; label = codes "night" }

abbrev tariff : List (Band Rate)
tariff =
    record { start_min = pos 360; end_min = pos 1320; payload = day_rate }
    ∷ record { start_min = pos 1320; end_min = pos 360; payload = night_rate }
    ∷ []

abbrev day_bands : List (Span Rate)
day_bands =
    record { start = 0; stop = 360; payload = night_rate; index = 1 }
    ∷ record { start = 360; stop = 1320; payload = day_rate; index = 0 }
    ∷ record { start = 1320; stop = 1440; payload = night_rate; index = 1 }
    ∷ []

tariff_runs : kiem_khung_gio tariff ≡ valid_bands day_bands
unfolding kiem_khung_gio check_bands band_issues normalized day_of scan
tariff_runs = refl

kiem_khung_gio_each_minute_example :
    (r : Rate) × (band_at 1400 tariff ≡ r ∷ []) × (at_minute 1400 day_bands ≡ r ∷ [])
kiem_khung_gio_each_minute_example =
    kiem_khung_gio_each_minute tariff day_bands 1400 tariff_runs (omega arith)

tariff_valid : is_empty (band_issues rate_codes 0 tariff) ≡ true
unfolding band_issues
tariff_valid = refl

tariff_once : (m : ℕ) → m < 1440 → length (band_at m tariff) ≡ 1
tariff_once m l = ground arith

kiem_khung_gio_complete_example :
    kiem_khung_gio tariff ≡ valid_bands (sort_spans (normalized rate_codes 0 tariff))
kiem_khung_gio_complete_example = kiem_khung_gio_complete tariff tariff_valid tariff_once

abbrev limits : List (Band ℤ)
limits =
    record { start_min = pos 0; end_min = pos 720; payload = pos 22000 }
    ∷ record { start_min = pos 720; end_min = pos 1440; payload = pos 44000 }
    ∷ []

abbrev limit_bands : List (Span ℤ)
limit_bands =
    record { start = 0; stop = 720; payload = pos 22000; index = 0 }
    ∷ record { start = 720; stop = 1440; payload = pos 44000; index = 1 }
    ∷ []

limits_run : kiem_khung_gio_cong_suat limits ≡ valid_bands limit_bands
unfolding kiem_khung_gio_cong_suat check_bands band_issues normalized day_of scan
limits_run = refl
