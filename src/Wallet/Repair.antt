-- ===== src/Wallet/Repair.antt =====
-- `phuc_hoi_so_du_cache` of modules/wallet/service.py: the cached balance set to the ledger's sum.
-- `fresh` is the id that `uuid4` gives the audit row.
pub mod Restores
use ttcs_t926_k8s4_n1_csms.Base.{
  ℕ, Bool, true, false, ◌||◌, Option, none, some, ◌∷◌, length, is_empty, ltb,
}
use ttcs_t926_k8s4_n1_csms.Base.Int.{ℤ, eqb_ℤ}
use ttcs_t926_k8s4_n1_csms.Base.Text.{Text, codes, strip}
use ttcs_t926_k8s4_n1_csms.Wallet.Uuid.{uuid_text}
use ttcs_t926_k8s4_n1_csms.Wallet.Tables.{
  Wallet, WalletAudit, cache_repaired, Db, set_balance, ledger_total,
}
use ttcs_t926_k8s4_n1_csms.Wallet.Tx.{
  ok, Tx, pure, gets, ◌>>=◌, ◌>>◌, raise_if, modify, value_error,
}
use ttcs_t926_k8s4_n1_csms.Wallet.Service.{integer_vnd, lock_wallet, require_admin}
use ttcs_t926_k8s4_n1_csms.Wallet.Journal.{ghi_nhat_ky}

-- A reason must have 1 to 500 characters once stripped.
abbrev pub bad_reason : Text → Bool
bad_reason r = is_empty (strip r) || ltb 500 (length (strip r))

-- The audit row of a repair.
abbrev pub repair_audit : ℕ → Wallet → ℤ → ℕ → Text → WalletAudit
repair_audit fresh wallet balance actor reason = record {
  id = fresh;
  wallet_id = wallet.id;
  actor_id = actor;
  action = cache_repaired;
  before_balance_vnd = wallet.balance_vnd;
  after_balance_vnd = balance;
  amount_vnd = none;
  reason = strip reason;
}

-- `session.add(audit)` and `wallet.balance_vnd = balance`
abbrev pub repaired : WalletAudit → Db → Db
repaired audit db = record db {
  wallets = set_balance audit.wallet_id audit.after_balance_vnd db.wallets;
  audits = audit ∷ db.audits;
}

-- Below the test for a balance that is right.
unfoldable pub repair_unless : Bool → ℕ → Wallet → ℤ → ℕ → Text → Tx Wallet
repair_unless true fresh wallet balance actor reason = pure wallet
repair_unless false fresh wallet balance actor reason = do
  modify (repaired (repair_audit fresh wallet balance actor reason))
  ghi_nhat_ky (some actor) (codes "wallet.cache_repaired") (codes "wallet_audit") (uuid_text fresh)
  pure (record wallet { balance_vnd = balance })

unfoldable pub phuc_hoi_so_du_cache : ℕ → ℕ → ℕ → Text → Tx Wallet
phuc_hoi_so_du_cache fresh wallet_id actor reason = do
  raise_if (bad_reason reason) value_error
  require_admin (some actor)
  wallet ← lock_wallet wallet_id
  total ← gets (λ db. ledger_total wallet_id db.ledger)
  balance ← integer_vnd total
  repair_unless (eqb_ℤ wallet.balance_vnd balance) fresh wallet balance actor reason
