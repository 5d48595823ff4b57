-- ===== src/Billing/Invoicing/Tests.antt =====
-- The invoice of session 42, which runs over midnight and then occupies its connector for ten minutes.
use ttcs_t926_k8s4_n1_csms.Base.{
  ℕ, ◌+◌, ◌*◌, ◌≤◌, ◌<◌, ◌≡◌, refl, true, none, some, List, [], ◌∷◌, arith,
}
use ttcs_t926_k8s4_n1_csms.Base.Int.{pos, ◌+ℤ◌, ◌-ℤ◌, ◌*ℤ◌}
use ttcs_t926_k8s4_n1_csms.Base.Text.{Text, codes, decimal, decimal_from, strip, strip_left}
use ttcs_t926_k8s4_n1_csms.Base.Result as Outcome
use ttcs_t926_k8s4_n1_csms.Billing.Money.{tien_dong, charge_ratio, round_half}
use ttcs_t926_k8s4_n1_csms.Billing.IdleFee.{
  aware, int, fee, billable, fee_between, tinh_phi_chiem_tru,
}
use ttcs_t926_k8s4_n1_csms.Billing.Segmentation.{
  frame_span, applied_tariff, cut_frames, cut_dates, sorted_points, charge_segment, segment_between,
  segments_between, chia_doan,
}
use ttcs_t926_k8s4_n1_csms.Billing.Segmentation.Interpolation.{
  wh, interpolate_meter_value, search_from, between, rounded_wh,
}
use ttcs_t926_k8s4_n1_csms.Billing.Segmentation.Clock.{
  clock, clock_fields, int_list, int_of, digits_from, split, second_of_day,
}
use ttcs_t926_k8s4_n1_csms.Billing.Segmentation.Tests.{ict, start, end, ict-Midnights}
use ttcs_t926_k8s4_n1_csms.Billing.Tables.{
  finite, ChargingSession, find_session, Invoice, rounding_rule, InvoiceLine, energy, TariffVersion,
}
use ttcs_t926_k8s4_n1_csms.Billing.Invoicing.Readings.{add_sample, add_samples, meter_values}
use ttcs_t926_k8s4_n1_csms.Billing.Invoicing.Tariffs.{
  danh_dau_bieu_gia_da_dung, ensure_frames, tariff_on, tariffs_from, daily_tariffs,
}
use ttcs_t926_k8s4_n1_csms.Billing.Invoicing.Idle.{
  line_of, idle_line, idle_loop, idle_lines_from, idle_lines,
}
use ttcs_t926_k8s4_n1_csms.Billing.Invoicing.Minutes.{Rated, idle_lines_same_fee}
use ttcs_t926_k8s4_n1_csms.Billing.Invoicing.Lapped.{Lapped, lap_hoa_don-Lapped}
use ttcs_t926_k8s4_n1_csms.Billing.Invoicing.Booked.{Booked, Unused, Invoiced, lap_hoa_don-Booked}
use ttcs_t926_k8s4_n1_csms.Billing.Invoicing.{
  ready, needs_review, needs_review_for, lines_total, occupation, occupation_if, insert_invoice,
  interval_lines, total_lines, invoice_session, create_invoice, invoice_new, invoice_ended,
  lap_hoa_don,
}
use ttcs_t926_k8s4_n1_csms.Pricing.Bands.{
  kiem_khung_gio, check_bands, band_issues, normalized, day_of, scan,
}
use ttcs_t926_k8s4_n1_csms.Pricing.Tariffs.{lay_bieu_gia_hieu_luc}
use ttcs_t926_k8s4_n1_csms.Wallet.Tables.{Db}
use ttcs_t926_k8s4_n1_csms.Wallet.Uuid.{uuid_text, hex_text, hex_value}
use ttcs_t926_k8s4_n1_csms.Wallet.Tests.{tables}
use ttcs_t926_k8s4_n1_csms.Wallet.Tx.{ok}

abbrev released : ℕ
released = end + 600_000_000

abbrev pub session : ChargingSession
session = record {
  id = 42;
  charge_point_id = 3;
  connector_id = 4;
  driver_id = some 7;
  authorization_status = codes "Accepted";
  started_at = start;
  ended_at = some end;
  idle_since = some end;
  billing_lifecycle_version = 1;
  release_detection = codes "explicit";
  connector_released_at = some released;
  settlement_completed_at = none;
  settlement_reason = none;
  meter_start_wh = finite (pos (1000 * wh));
  meter_stop_wh = some (finite (pos (11_000 * wh)));
  stop_reason = none;
  review_reasons = [];
}

abbrev pub tariff : TariffVersion
tariff = record {
  tariff = record { id = 5; station_id = 1; effective_from = 0; rates = 1200 ∷ 3000 ∷ [] };
  used_at = none;
  idle_rate_vnd_per_minute = 1000;
  grace_minutes = 5;
  bands =
      record {
        start_min = pos 0;
        end_min = pos 360;
        payload = record { energy_rate_vnd_per_kwh = pos 1200; label = codes "n" };
      }
      ∷ record {
        start_min = pos 360;
        end_min = pos 1440;
        payload = record { energy_rate_vnd_per_kwh = pos 3000; label = codes "d" };
      }
      ∷ [];
}

abbrev pub site : Db
site = record tables {
  sessions = session ∷ [];
  intervals =
      record {
        id = 1;
        session_id = 42;
        started_at = end;
        ended_at = some released;
        confirmed = true;
        end_reason = some (codes "released");
      }
      ∷ [];
  tariffs = tariff ∷ [];
  stations = record { id = 1; owner_id = 8; timezone = ict } ∷ [];
  charge_points = record { id = 3; station_id = 1 } ∷ [];
  connectors = record { id = 4; charge_point_id = 3 } ∷ [];
}

abbrev line : ℕ → ℕ → ℕ → ℕ → ℕ → Text → InvoiceLine
line d a b p v label = record {
  invoice_id = 9;
  line_type = energy;
  local_date = d;
  started_at = a;
  ended_at = b;
  energy_wh = pos (5000 * wh);
  rate_vnd = pos p;
  band_label = label;
  interpolated = true;
  tariff_id = 5;
  amount_vnd = pos v;
}

abbrev pub bill : Invoice
bill = record {
  id = 9;
  session_id = 42;
  driver_id = 7;
  station_id = 1;
  total_vnd = pos 26_000;
  rule = rounding_rule;
}

abbrev pub invoiced : Db
invoiced = record site {
  invoices = bill ∷ [];
  invoice_lines =
      line 1 start (ict.combine 2 0) 3000 15_000 (codes "d")
      ∷ line 2 (ict.combine 2 0) end 1200 6000 (codes "n")
      ∷ line_of 9 2 (end + 300_000_000) released tariff 5000
      ∷ [];
  tariffs = record tariff { used_at = some 77 } ∷ [];
}

pub invoiced_lem : lap_hoa_don 77 9 42 site ≡ ok (ready bill, invoiced)
unfolding lap_hoa_don invoice_ended invoice_new create_invoice invoice_session total_lines
    insert_invoice occupation_if occupation interval_lines meter_values add_samples add_sample
    daily_tariffs tariffs_from tariff_on ensure_frames danh_dau_bieu_gia_da_dung
    lay_bieu_gia_hieu_luc kiem_khung_gio check_bands band_issues normalized day_of scan uuid_text
    hex_text hex_value strip strip_left idle_lines idle_lines_from idle_loop idle_line
    tinh_phi_chiem_tru fee_between billable chia_doan sorted_points cut_dates cut_frames frame_span
    clock clock_fields int_list int_of digits_from split decimal decimal_from second_of_day
    segments_between segment_between charge_segment applied_tariff interpolate_meter_value
    search_from between rounded_wh round_half tien_dong charge_ratio ◌+ℤ◌ ◌-ℤ◌ ◌*ℤ◌
invoiced_lem = refl

site-Booked : Booked site
site-Booked = record { totals = tt; one_each = tt }

site-Unused : Unused 9 site
site-Unused = record { no_line = refl; no_invoice = tt }

lap_hoa_don-Booked_example : Invoiced 42 (ready bill) site invoiced
lap_hoa_don-Booked_example =
    lap_hoa_don-Booked 77 9 42 (ready bill) site invoiced site-Booked site-Unused invoiced_lem

-- The session without a driver is left for a review.
abbrev nobody : ChargingSession
nobody = record session { driver_id = none }

abbrev refused : Db
refused = record site {
  sessions = record nobody { review_reasons = codes "invoice_missing_driver" ∷ [] } ∷ [];
}

refused_lem :
    lap_hoa_don 77 9 42 (record site { sessions = nobody ∷ [] })
    ≡ ok (needs_review (codes "invoice_missing_driver"), refused)
unfolding lap_hoa_don invoice_ended invoice_new create_invoice needs_review_for
refused_lem = refl

lap_hoa_don-Lapped_example :
    (c : ChargingSession) × (find_session 42 (nobody ∷ []) ≡ some c)
    × Lapped 77 9 c
        (needs_review (codes "invoice_missing_driver"))
        (record site { sessions = nobody ∷ [] })
        refused
lap_hoa_don-Lapped_example =
    lap_hoa_don-Lapped 77 9 42 (needs_review (codes "invoice_missing_driver"))
      (record site { sessions = nobody ∷ [] }) refused refused_lem

-- An occupation from 23:00 to 01:00, with the tariff on both dates.
abbrev both : List (ℕ × TariffVersion)
both = (2, tariff) ∷ (1, tariff) ∷ []

both-Rated : (t : ℕ) → start ≤ t → t < end → Rated ict both 1000 t
both-Rated t a b = (tariff, ground arith, refl)

idle_lines_same_fee_example :
    (lines : List InvoiceLine) × (idle_lines ict end both 9 start (some start) ≡ Outcome.ok lines)
    × (minutes : ℕ) × (amount : ℕ) × (tinh_phi_chiem_tru
          (some (aware start))
          (aware end)
          (int (pos 5))
          (int (pos 1000))
        ≡ fee minutes amount)
    × (lines_total lines ≡ pos amount)
idle_lines_same_fee_example =
    idle_lines_same_fee ict end both 9 start start 1000 tariff ict-Midnights (omega arith)
      (omega arith) refl both-Rated
