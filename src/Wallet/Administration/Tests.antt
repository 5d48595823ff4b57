-- ===== src/Wallet/Administration/Tests.antt =====
-- The administrator's commands at concrete inputs.
use ttcs_t926_k8s4_n1_csms.Base.{◌≡◌, refl, true, false, some, [], ◌∷◌, is_empty}
use ttcs_t926_k8s4_n1_csms.Base.Int.{pos, negsuc, ◌+ℤ◌}
use ttcs_t926_k8s4_n1_csms.Base.Text.{codes, strip}
use ttcs_t926_k8s4_n1_csms.Wallet.Uuid.{uuid_text, hex_text, canonical_uuid, hex_value}
use ttcs_t926_k8s4_n1_csms.Wallet.Tables.{
  Wallet, active, locked, adjustment, Entry, Db, find_wallet, find_user,
}
use ttcs_t926_k8s4_n1_csms.Wallet.Tx.{ok}
use ttcs_t926_k8s4_n1_csms.Wallet.Service.{
  integer_vnd, lock_wallet, require_admin, active_admin, checked, evidence, adjustment_evidence,
  win_or_match, insert_or_match, insert_entry, post, settle, ghi_so_cai,
}
use ttcs_t926_k8s4_n1_csms.Wallet.Service.Arrival.{Consistent}
use ttcs_t926_k8s4_n1_csms.Wallet.Service.Effect.{Effect}
use ttcs_t926_k8s4_n1_csms.Wallet.Journal.{ghi_nhat_ky, identifier, any_identifier, add_log}
use ttcs_t926_k8s4_n1_csms.Wallet.Tests.{topped_up, topped_up-Consistent, quiet, quiet-Arrives}
use ttcs_t926_k8s4_n1_csms.Wallet.Repair.{bad_reason}
use ttcs_t926_k8s4_n1_csms.Wallet.Reconcile.{wallet_issues, has_issue}
use ttcs_t926_k8s4_n1_csms.Wallet.Administration.{
  unlock_if, mo_khoa_vi, Adjustment, adjust, authorization, authorize, adjust_now, adjust_or_replay,
  dieu_chinh_vi,
}
use ttcs_t926_k8s4_n1_csms.Wallet.Administration.Unlock.{Unlocked, mo_khoa_vi-Unlocked}
use ttcs_t926_k8s4_n1_csms.Wallet.Administration.Adjust.{dieu_chinh_vi-Effect}

abbrev held : Wallet
held = record { id = 1; driver_id = 7; balance_vnd = pos 50000; status = locked }

abbrev held_db : Db
held_db = record topped_up { wallets = held ∷ [] }

abbrev freed : Db
freed =
    add_log (some 9) (codes "wallet.unlocked") (codes "wallet")
      (codes "00000000-0000-0000-0000-000000000001")
      (record topped_up { wallets = record held { status = active } ∷ [] })

unlock_runs : mo_khoa_vi 1 9 (codes "checked") held_db ≡ ok (record held { status = active }, freed)
unfolding mo_khoa_vi unlock_if require_admin lock_wallet wallet_issues has_issue ghi_nhat_ky
    identifier any_identifier strip uuid_text hex_text ◌+ℤ◌
unlock_runs = refl

mo_khoa_vi-Unlocked_example :
    (bad_reason (codes "checked") ≡ false)
    × (active_admin (find_user 9 held_db.users) ≡ true)
    × (w : Wallet) × (find_wallet 1 held_db.wallets ≡ some w)
    × (is_empty (wallet_issues w held_db).1 ≡ true)
    × Unlocked 1 w held_db freed
mo_khoa_vi-Unlocked_example =
    mo_khoa_vi-Unlocked 1 9 (codes "checked") (record held { status = active }) held_db freed
      unlock_runs

abbrev refund : Adjustment
refund = record {
  wallet_id = 1;
  actor_id = 9;
  amount_vnd = negsuc 9999;
  reason = codes "refund";
  audit_id = 6;
}

abbrev refund_row : Entry
refund_row = record {
  id = 2;
  wallet_id = 1;
  entry_type = adjustment;
  amount_vnd = negsuc 9999;
  balance_after_vnd = pos 40000;
  reference_type = codes "audit";
  reference_id = codes "00000000-0000-0000-0000-000000000006";
  actor_id = some 9;
}

abbrev refunded : Db
refunded =
    add_log (some 9) (codes "wallet.adjusted") (codes "wallet_audit")
      (codes "00000000-0000-0000-0000-000000000006")
      (record topped_up {
        wallets = record { id = 1; driver_id = 7; balance_vnd = pos 40000; status = active } ∷ [];
        ledger = refund_row ∷ topped_up.ledger;
        audits = authorization refund (pos 50000) (pos 40000) ∷ [];
        next_ledger_id = 3;
      })

refund_runs : dieu_chinh_vi quiet refund topped_up ≡ ok (refund_row, refunded)
unfolding dieu_chinh_vi adjust_or_replay adjust_now authorize require_admin lock_wallet integer_vnd
    wallet_issues ghi_so_cai checked settle post insert_or_match win_or_match insert_entry evidence
    adjustment_evidence canonical_uuid hex_value ghi_nhat_ky identifier any_identifier strip
    uuid_text hex_text ◌+ℤ◌
refund_runs = refl

dieu_chinh_vi-Effect_example :
    Effect (adjust refund) topped_up refund_row refunded × Consistent refunded
dieu_chinh_vi-Effect_example =
    dieu_chinh_vi-Effect quiet refund refund_row topped_up refunded (quiet-Arrives 1)
      topped_up-Consistent refund_runs
