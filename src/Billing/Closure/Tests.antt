-- ===== src/Billing/Closure/Tests.antt =====
-- Session 42 is settled: driver 7 pays 26,000 VND and goes into debt.
use ttcs_t926_k8s4_n1_csms.Base.{◌≡◌, refl, true, false, none, some, [], ◌∷◌, arith}
use ttcs_t926_k8s4_n1_csms.Base.Int.{negsuc, ◌+ℤ◌, ◌-ℤ◌, neg}
use ttcs_t926_k8s4_n1_csms.Base.Text.{codes, decimal, decimal_from, strip, strip_left}
use ttcs_t926_k8s4_n1_csms.Billing.Invoicing.{ready, lap_hoa_don, invoice_ended, invoice_new}
use ttcs_t926_k8s4_n1_csms.Billing.Invoicing.Tests.{session, site, bill, invoiced}
use ttcs_t926_k8s4_n1_csms.Billing.Closure.{debit_if, complete, settle, close, chot_phien}
use ttcs_t926_k8s4_n1_csms.Billing.Closure.Settled.{Closed, chot_phien-Closed}
use ttcs_t926_k8s4_n1_csms.Billing.Closure.Scan.{
  ScanResult, no_result, scan_one, scan_page, scan_pages, scan_unsettled_sessions,
}
use ttcs_t926_k8s4_n1_csms.Billing.Closure.Ends.{Counted, scan_unsettled_sessions-Counted}
use ttcs_t926_k8s4_n1_csms.Wallet.Tables.{Entry, charging_debit, active, Db}
use ttcs_t926_k8s4_n1_csms.Wallet.Tests.{quiet, quiet-Arrives}
use ttcs_t926_k8s4_n1_csms.Wallet.Debit.{tru_vi}
use ttcs_t926_k8s4_n1_csms.Wallet.Service
use ttcs_t926_k8s4_n1_csms.Wallet.Tx.{ok}
use ttcs_t926_k8s4_n1_csms.Base.Int.{◌*ℤ◌}
use ttcs_t926_k8s4_n1_csms.Billing.Money.{charge_ratio, round_half, tien_dong}
use ttcs_t926_k8s4_n1_csms.Billing.IdleFee.{billable, fee_between, tinh_phi_chiem_tru}
use ttcs_t926_k8s4_n1_csms.Billing.Segmentation.{
  applied_tariff, charge_segment, chia_doan, cut_dates, cut_frames, frame_span, segment_between,
  segments_between, sorted_points,
}
use ttcs_t926_k8s4_n1_csms.Billing.Segmentation.Interpolation.{
  between, interpolate_meter_value, rounded_wh, search_from,
}
use ttcs_t926_k8s4_n1_csms.Billing.Segmentation.Clock.{
  clock, clock_fields, digits_from, int_list, int_of, second_of_day, split,
}
use ttcs_t926_k8s4_n1_csms.Billing.Invoicing.Readings.{add_sample, add_samples, meter_values}
use ttcs_t926_k8s4_n1_csms.Billing.Invoicing.Tariffs.{
  daily_tariffs, danh_dau_bieu_gia_da_dung, ensure_frames, tariff_on, tariffs_from,
}
use ttcs_t926_k8s4_n1_csms.Billing.Invoicing.Idle.{
  idle_line, idle_lines, idle_lines_from, idle_loop,
}
use ttcs_t926_k8s4_n1_csms.Billing.Invoicing.{
  create_invoice, insert_invoice, interval_lines, invoice_session, occupation, occupation_if,
  total_lines,
}
use ttcs_t926_k8s4_n1_csms.Pricing.Bands.{
  band_issues, check_bands, day_of, kiem_khung_gio, normalized, scan,
}
use ttcs_t926_k8s4_n1_csms.Pricing.Tariffs.{lay_bieu_gia_hieu_luc}
use ttcs_t926_k8s4_n1_csms.Wallet.Uuid.{hex_text, hex_value, uuid_text}
use ttcs_t926_k8s4_n1_csms.Wallet.Service.{
  checked, evidence, ghi_so_cai, insert_entry, insert_or_match, integer_vnd, lock_wallet, post,
  win_or_match,
}
use ttcs_t926_k8s4_n1_csms.Wallet.Debit.{
  charge, charge_unless_zero, driver_wallet, invoice_of, paying_wallet,
}

abbrev paid_row : Entry
paid_row = record {
  id = 1;
  wallet_id = 1;
  entry_type = charging_debit;
  amount_vnd = negsuc 25_999;
  balance_after_vnd = negsuc 25_999;
  reference_type = codes "charging_session";
  reference_id = codes "42";
  actor_id = none;
}

abbrev settled_tables : Db
settled_tables = record invoiced {
  wallets = record { id = 1; driver_id = 7; balance_vnd = negsuc 25_999; status = active } ∷ [];
  ledger = paid_row ∷ [];
  next_ledger_id = 2;
  sessions =
      record session {
        settlement_completed_at = some 77;
        settlement_reason = some (codes "debited");
      }
      ∷ [];
}

settled_lem : chot_phien 77 9 (λ i. quiet) true 42 site ≡ ok (ready bill, settled_tables)
unfolding chot_phien close settle complete debit_if lap_hoa_don invoice_ended invoice_new
    create_invoice invoice_session total_lines insert_invoice occupation_if occupation
    interval_lines meter_values add_samples add_sample daily_tariffs tariffs_from tariff_on
    ensure_frames danh_dau_bieu_gia_da_dung lay_bieu_gia_hieu_luc kiem_khung_gio check_bands
    band_issues normalized day_of scan uuid_text hex_text hex_value strip strip_left idle_lines
    idle_lines_from idle_loop idle_line tinh_phi_chiem_tru fee_between billable chia_doan
    sorted_points cut_dates cut_frames frame_span clock clock_fields int_list int_of digits_from
    split decimal decimal_from second_of_day segments_between segment_between charge_segment
    applied_tariff interpolate_meter_value search_from between rounded_wh round_half tien_dong
    charge_ratio ◌+ℤ◌ ◌-ℤ◌ ◌*ℤ◌ tru_vi invoice_of charge_unless_zero charge paying_wallet
    driver_wallet ghi_so_cai checked Service.settle post insert_or_match win_or_match insert_entry
    integer_vnd lock_wallet evidence neg
settled_lem = refl

chot_phien-Closed_example :
    Closed 77 9 (λ i. quiet) quiet-Arrives session (ready bill) site settled_tables
chot_phien-Closed_example =
    chot_phien-Closed 77 9 (λ i. quiet) true 42 session (ready bill) site settled_tables
      quiet-Arrives refl settled_lem

-- The scan finds session 42 and settles it.
abbrev scanned : ScanResult
scanned = record no_result { scanned = 1; ready_count = 1 }

scan_lem :
    scan_unsettled_sessions
      (λ i. 77)
      (λ i. 9)
      (λ i. quiet)
      (λ i db. db)
      (λ i db. false)
      true
      2
      43
      site
    ≡ ok (scanned, settled_tables)
unfolding scan_unsettled_sessions scan_pages scan_page scan_one chot_phien close settle complete
    debit_if lap_hoa_don invoice_ended invoice_new create_invoice invoice_session total_lines
    insert_invoice occupation_if occupation interval_lines meter_values add_samples add_sample
    daily_tariffs tariffs_from tariff_on ensure_frames danh_dau_bieu_gia_da_dung
    lay_bieu_gia_hieu_luc kiem_khung_gio check_bands band_issues normalized day_of scan uuid_text
    hex_text hex_value strip strip_left idle_lines idle_lines_from idle_loop idle_line
    tinh_phi_chiem_tru fee_between billable chia_doan sorted_points cut_dates cut_frames frame_span
    clock clock_fields int_list int_of digits_from split decimal decimal_from second_of_day
    segments_between segment_between charge_segment applied_tariff interpolate_meter_value
    search_from between rounded_wh round_half tien_dong charge_ratio ◌+ℤ◌ ◌-ℤ◌ ◌*ℤ◌ tru_vi
    invoice_of charge_unless_zero charge paying_wallet driver_wallet ghi_so_cai checked
    Service.settle post insert_or_match win_or_match insert_entry integer_vnd lock_wallet evidence
    neg
scan_lem = refl

scan_unsettled_sessions-Counted_example :
    (r : ScanResult) × (db : Db) × (scan_unsettled_sessions
        (λ i. 77)
        (λ i. 9)
        (λ i. quiet)
        (λ i db. db)
        (λ i db. false)
        true
        2
        43
        site
      ≡ ok (r, db))
    × Counted r
scan_unsettled_sessions-Counted_example =
    scan_unsettled_sessions-Counted (λ i. 77) (λ i. 9) (λ i. quiet) (λ i db. db) (λ i db. false)
      true 2 42 (λ i db below. below) (λ i db below. below) site (omega arith) (omega arith, tt)
