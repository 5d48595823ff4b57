-- ===== src/Wallet/Administration.antt =====
-- modules/wallet/administration.py: the commands of an administrator, each in the caller's transaction.
-- `fresh` is the id that `uuid4` gives an audit row, and `arrive` what other transactions commit while
-- the wallet is locked. The evidence of the actor's permission only goes to the data of the audit log.
pub mod Unlock
pub mod Adjust
mod Tests
use ttcs_t926_k8s4_n1_csms.Base.{
  ℕ, Bool, true, false, not, ◌&&◌, ◌||◌, Option, none, some, List, [], ◌∷◌, keep, is_empty, ◌==◌,
  if◌then◌else◌,
}
use ttcs_t926_k8s4_n1_csms.Base.Int.{ℤ, pos, ◌+ℤ◌, eqb_ℤ}
use ttcs_t926_k8s4_n1_csms.Base.Text.{Text, codes, text_eq, strip}
use ttcs_t926_k8s4_n1_csms.Wallet.Uuid.{uuid_text}
use ttcs_t926_k8s4_n1_csms.Wallet.Tables.{
  Wallet, active, adjustment, Entry, WalletAudit, adjustment_authorized, Db, find_entry, find_audit,
  set_status, ledger_total,
}
use ttcs_t926_k8s4_n1_csms.Wallet.Tx.{
  ok, err, Tx, pure, gets, ◌>>=◌, ◌>>◌, raise_if, modify, reconciliation, value_error,
  wallet_amount, adjustment_audit,
}
use ttcs_t926_k8s4_n1_csms.Wallet.Service.{
  Posting, integer_vnd, lock_wallet, require_admin, is_locked, is_authorized, same_amount,
  ghi_so_cai,
}
use ttcs_t926_k8s4_n1_csms.Wallet.Journal.{ghi_nhat_ky}
use ttcs_t926_k8s4_n1_csms.Wallet.Repair.{bad_reason, phuc_hoi_so_du_cache}
use ttcs_t926_k8s4_n1_csms.Wallet.Reconcile.{Issue, balance_mismatch, wallet_issues}

abbrev pub is_mismatch : Issue → Bool
is_mismatch balance_mismatch = true
is_mismatch _ = false

-- `[issue for issue in issues if issue != "balance_mismatch"]`
abbrev pub invalid : List Issue → List Issue
invalid is = keep (λ i. not (is_mismatch i)) is

unfoldable pub sua_so_du_cache : ℕ → ℕ → ℕ → Text → Tx Wallet
sua_so_du_cache fresh wallet_id actor reason = do
  require_admin (some actor)
  wallet ← lock_wallet wallet_id
  issues ← gets (λ db. (wallet_issues wallet db).1)
  raise_if (not (is_empty (invalid issues))) reconciliation
  phuc_hoi_so_du_cache fresh wallet_id actor reason

-- Below the test for a wallet that is active already.
unfoldable pub unlock_if : Bool → Wallet → ℕ → Tx Wallet
unlock_if false wallet actor = pure wallet
unlock_if true wallet actor = do
  modify (λ db. record db { wallets = set_status wallet.id active db.wallets })
  ghi_nhat_ky (some actor) (codes "wallet.unlocked") (codes "wallet") (uuid_text wallet.id)
  pure (record wallet { status = active })

unfoldable pub mo_khoa_vi : ℕ → ℕ → Text → Tx Wallet
mo_khoa_vi wallet_id actor reason = do
  raise_if (bad_reason reason) value_error
  require_admin (some actor)
  wallet ← lock_wallet wallet_id
  issues ← gets (λ db. (wallet_issues wallet db).1)
  raise_if (not (is_empty issues)) reconciliation
  unlock_if (is_locked wallet.status) wallet actor

-- The arguments of `dieu_chinh_vi`.
pub record Adjustment : Type 0 where
  pub wallet_id : ℕ
  pub actor_id : ℕ
  pub amount_vnd : ℤ
  pub reason : Text
  pub audit_id : ℕ

-- `previous is not None and (…)`: the audit row belongs to another adjustment.
abbrev pub other_adjustment : Adjustment → Option WalletAudit → Bool
other_adjustment a none = false
other_adjustment a (some p) =
    not (p.wallet_id == a.wallet_id)
    || not (p.actor_id == a.actor_id)
    || not (same_amount p.amount_vnd a.amount_vnd)
    || not (text_eq p.reason (strip a.reason))
    || not (is_authorized p.action)

abbrev pub adjust : Adjustment → Posting
adjust a = record {
  wallet_id = a.wallet_id;
  entry_type = adjustment;
  amount_vnd = a.amount_vnd;
  reference_type = codes "audit";
  reference_id = uuid_text a.audit_id;
  actor_id = some a.actor_id;
}

abbrev pub is_none {ℓ} : {A : Type ℓ} → Option A → Bool
is_none none = true
is_none (some a) = false

-- The audit row that authorizes the adjustment.
abbrev pub authorization : Adjustment → ℤ → ℤ → WalletAudit
authorization a before after = record {
  id = a.audit_id;
  wallet_id = a.wallet_id;
  actor_id = a.actor_id;
  action = adjustment_authorized;
  before_balance_vnd = before;
  after_balance_vnd = after;
  amount_vnd = some a.amount_vnd;
  reason = strip a.reason;
}

-- `if previous is None`: the row is added.
unfoldable pub authorize : Bool → WalletAudit → Tx (Unit {0})
authorize false audit = pure tt
authorize true audit = modify (λ db. record db { audits = audit ∷ db.audits })

module _ (arrive : Db → Db) where
  unfoldable pub adjust_now : Adjustment → Wallet → Bool → Tx Entry
  adjust_now a wallet fresh = do
    total ← gets (λ db. (wallet_issues wallet db).0)
    raise_if (not (eqb_ℤ total wallet.balance_vnd)) reconciliation
    after ← integer_vnd (wallet.balance_vnd +ℤ a.amount_vnd)
    authorize fresh (authorization a wallet.balance_vnd after)
    entry ← ghi_so_cai arrive (adjust a)
    ghi_nhat_ky (some a.actor_id) (codes "wallet.adjusted") (codes "wallet_audit")
        (uuid_text a.audit_id)
    pure entry

  -- `if existing is not None`
  unfoldable pub adjust_or_replay :
      Option Entry → Adjustment → Wallet → Option WalletAudit → Tx Entry
  adjust_or_replay (some e) a wallet previous = do
    raise_if (is_none previous) adjustment_audit
    ghi_so_cai arrive (adjust a)
  adjust_or_replay none a wallet previous = adjust_now a wallet (is_none previous)

  unfoldable pub dieu_chinh_vi : Adjustment → Tx Entry
  dieu_chinh_vi a = do
    require_admin (some a.actor_id)
    integer_vnd a.amount_vnd
    raise_if (eqb_ℤ a.amount_vnd (pos 0)) wallet_amount
    raise_if (bad_reason a.reason) value_error
    wallet ← lock_wallet a.wallet_id
    previous ← gets (λ db. find_audit a.audit_id db.audits)
    raise_if (other_adjustment a previous) adjustment_audit
    existing ← gets (λ db. find_entry adjustment (uuid_text a.audit_id) db.ledger)
    adjust_or_replay existing a wallet previous
