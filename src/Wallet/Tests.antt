-- ===== src/Wallet/Tests.antt =====
-- The wallet service at concrete inputs.
use ttcs_t926_k8s4_n1_csms.Base.{ℕ, ◌≡◌, refl, true, none, some, [], ◌∷◌, arith, ◌≢◌, ◌⊎◌}
use ttcs_t926_k8s4_n1_csms.Base.Int.{pos, negsuc, neg, ◌+ℤ◌}
use ttcs_t926_k8s4_n1_csms.Base.Text.{codes, strip, decimal}
use ttcs_t926_k8s4_n1_csms.Wallet.Tables.{
  active, locked, Entry, charging_debit, gateway_topup, manual_topup, driver_role, admin_role,
  Invoice, rounding_rule, Db, find_entry,
}
use ttcs_t926_k8s4_n1_csms.Wallet.Tx.{ok, err, wallet_locked}
use ttcs_t926_k8s4_n1_csms.Wallet.Service.{
  Posting, integer_vnd, lock_wallet, checked, evidence, win_or_match, insert_or_match, insert_entry,
  post, settle, ghi_so_cai,
}
use ttcs_t926_k8s4_n1_csms.Wallet.Service.Arrival.{Consistent, Arrives}
use ttcs_t926_k8s4_n1_csms.Wallet.Service.Invariant.{ghi_so_cai-Consistent}
use ttcs_t926_k8s4_n1_csms.Wallet.Service.Replay.{Later, ghi_so_cai_replay}
use ttcs_t926_k8s4_n1_csms.Wallet.Service.Effect.{Effect, ghi_so_cai-Effect}
use ttcs_t926_k8s4_n1_csms.Wallet.Debit.{
  invoice_of, driver_wallet, paying_wallet, charge, charge_unless_zero, tru_vi,
}
use ttcs_t926_k8s4_n1_csms.Wallet.Debit.Charged.{tru_vi-Consistent, tru_vi_row}

-- Driver 7 has wallet 1; user 9 administers.
abbrev pub tables : Db
tables = record {
  wallets = record { id = 1; driver_id = 7; balance_vnd = pos 0; status = active } ∷ [];
  ledger = [];
  audits = [];
  users =
      record { id = 7; is_active = true; roles = driver_role ∷ [] }
      ∷ record { id = 9; is_active = true; roles = admin_role ∷ [] }
      ∷ [];
  logs = [];
  invoices = [];
  sessions = [];
  topups = [];
  next_ledger_id = 1;
  invoice_lines = [];
  samples = [];
  intervals = [];
  tariffs = [];
  stations = [];
  charge_points = [];
  connectors = [];
}

abbrev pub quiet : Db → Db
quiet db = db

pub quiet-Arrives : (i : ℕ) → Arrives i quiet
quiet-Arrives i = record {
  keeps = λ db c. c;
  row = λ db. refl;
  entries = λ db t r e h. h;
  audits = λ db j a h. h;
  users = λ db. refl;
  invoices = λ db. refl;
  driver = λ db d w h e. h;
}

pub tables-Consistent : Consistent tables
tables-Consistent = record {
  cached = λ i w h. ground arith;
  ranged = λ i w h. ground arith;
  lawful = tt;
  owned = λ d w h. ground arith;
}

abbrev topup : Posting
topup = record {
  wallet_id = 1;
  entry_type = gateway_topup;
  amount_vnd = pos 50000;
  reference_type = codes " gateway_transaction";
  reference_id = codes "tx-1 ";
  actor_id = none;
}

abbrev topup_row : Entry
topup_row = record {
  id = 1;
  wallet_id = 1;
  entry_type = gateway_topup;
  amount_vnd = pos 50000;
  balance_after_vnd = pos 50000;
  reference_type = codes "gateway_transaction";
  reference_id = codes "tx-1";
  actor_id = none;
}

abbrev pub topped_up : Db
topped_up = record tables {
  wallets = record { id = 1; driver_id = 7; balance_vnd = pos 50000; status = active } ∷ [];
  ledger = topup_row ∷ [];
  next_ledger_id = 2;
}

topup_runs : ghi_so_cai quiet topup tables ≡ ok (topup_row, topped_up)
unfolding ghi_so_cai checked settle post insert_or_match win_or_match insert_entry integer_vnd
    lock_wallet evidence strip ◌+ℤ◌
topup_runs = refl

pub topped_up-Consistent : Consistent topped_up
unfolding ◌+ℤ◌
topped_up-Consistent = record {
  cached = λ i w h. ground arith;
  ranged = λ i w h. ground arith;
  lawful = (refl, refl, tt);
  owned = λ d w h. ground arith;
}

ghi_so_cai-Consistent_example : Consistent topped_up
ghi_so_cai-Consistent_example =
    ghi_so_cai-Consistent quiet topup (quiet-Arrives 1) topup_row tables topped_up tables-Consistent
      topup_runs

-- The wallet is locked, and another wallet has got a row, since the posting.
abbrev other_row : Entry
other_row = record topup_row {
  id = 2;
  wallet_id = 2;
  entry_type = manual_topup;
  reference_id = codes "tx-2";
}

abbrev later : Db
later = record topped_up {
  wallets = record { id = 1; driver_id = 7; balance_vnd = pos 50000; status = locked } ∷ [];
  ledger = other_row ∷ topup_row ∷ [];
}

later-Later : Later none topped_up later
later-Later = record { entries = λ t r e h. ground arith; audits = λ j a h. h; admin = λ h. h }

ghi_so_cai_replay_example : ghi_so_cai quiet topup later ≡ err wallet_locked
ghi_so_cai_replay_example =
    ghi_so_cai_replay quiet quiet topup topup_row
      (record { id = 1; driver_id = 7; balance_vnd = pos 50000; status = locked }) tables topped_up
      later (quiet-Arrives 1) topup_runs later-Later refl

ghi_so_cai-Effect_example : Effect topup tables topup_row topped_up
ghi_so_cai-Effect_example =
    ghi_so_cai-Effect quiet topup topup_row tables topped_up (quiet-Arrives 1) topup_runs

abbrev invoice : Invoice
invoice = record {
  id = 3;
  session_id = 42;
  driver_id = 7;
  station_id = 1;
  total_vnd = pos 80000;
  rule = rounding_rule;
}

abbrev debit_row : Entry
debit_row = record {
  id = 2;
  wallet_id = 1;
  entry_type = charging_debit;
  amount_vnd = negsuc 79999;
  balance_after_vnd = negsuc 29999;
  reference_type = codes "charging_session";
  reference_id = codes "42";
  actor_id = none;
}

abbrev charged : Db
charged = record topped_up {
  wallets = record { id = 1; driver_id = 7; balance_vnd = negsuc 29999; status = active } ∷ [];
  ledger = debit_row ∷ topup_row ∷ [];
  next_ledger_id = 3;
}

-- The wallet goes into debt.
debit_runs :
    tru_vi (λ i. quiet) 2 (some invoice) none none none topped_up ≡ ok (some debit_row, charged)
unfolding tru_vi invoice_of charge_unless_zero charge paying_wallet driver_wallet ghi_so_cai checked
    settle post insert_or_match win_or_match insert_entry integer_vnd lock_wallet evidence strip
    decimal ◌+ℤ◌ neg
debit_runs = refl

tru_vi-Consistent_example : Consistent charged
tru_vi-Consistent_example =
    tru_vi-Consistent (λ i. quiet) 2 invoice none none (some debit_row) topped_up charged
      quiet-Arrives refl refl topped_up-Consistent debit_runs

tru_vi_row_example :
    ((invoice.total_vnd ≡ pos 0) × (some debit_row ≡ none) × (charged ≡ topped_up))
    ⊎ ((invoice.total_vnd ≢ pos 0)
        × (e : Entry) × (some debit_row ≡ some e)
        × (e.amount_vnd ≡ neg invoice.total_vnd)
        × (find_entry charging_debit (decimal 42) charged.ledger ≡ some e))
tru_vi_row_example =
    tru_vi_row (λ i. quiet) 2 invoice none none (some debit_row) topped_up charged quiet-Arrives
      debit_runs
