-- ===== src/Wallet/Service.antt =====
-- modules/wallet/service.py: the one place where balances change, and modules/wallet/provisioning.py.
-- `arrive` is what other transactions commit between the reads of `ghi_so_cai` and its insert.
pub mod Arrival
pub mod Evidence
pub mod Outcome
pub mod Invariant
pub mod Replay
pub mod Effect
use ttcs_t926_k8s4_n1_csms.Base.{
  ℕ, zero, suc, ◌+◌, ◌-◌, ◌^◌, Bool, true, false, not, ◌&&◌, ◌||◌, Option, none, some, List, [],
  ◌∷◌, length, is_empty, ltb, ◌==◌, if◌then◌else◌,
}
use ttcs_t926_k8s4_n1_csms.Base.Int.{ℤ, pos, negsuc, neg, ◌+ℤ◌, ltb_ℤ, leb_ℤ, eqb_ℤ}
use ttcs_t926_k8s4_n1_csms.Base.Text.{Text, codes, text_eq, strip}
use ttcs_t926_k8s4_n1_csms.Wallet.Uuid.{canonical_uuid}
use ttcs_t926_k8s4_n1_csms.Wallet.Tables.{
  Wallet, WalletStatus, active, locked, EntryType, gateway_topup, manual_topup, charging_debit,
  adjustment, reservation_fee, unknown_type, type_eq, Entry, WalletAudit, AuditAction,
  cache_repaired, adjustment_authorized, Role, driver_role, admin_role, User, Log, Db, find_wallet,
  find_driver_wallet, set_balance, find_entry, find_audit, find_user, ledger_total,
}
use ttcs_t926_k8s4_n1_csms.Wallet.Tx.{
  Result, ok, err, Tx, pure, raise, gets, or_raise, ◌>>=◌, ◌>>◌, raise_if, modify, wallet_not_found,
  wallet_locked, ledger_conflict, wallet_amount, adjustment_audit, admin_required, value_error,
  integrity_error,
}

abbrev pub min_vnd : ℤ
min_vnd = negsuc (2 ^ 63 - 1)

abbrev pub max_vnd : ℤ
max_vnd = pos (2 ^ 63 - 1)

abbrev pub in_range : ℤ → Bool
in_range a = leb_ℤ min_vnd a && leb_ℤ a max_vnd

-- `_integer_vnd`; its argument is an `int`.
unfoldable pub integer_vnd : ℤ → Tx ℤ
integer_vnd a db = elim (in_range a) [ true ↦ ok (a, db) | false ↦ err wallet_amount ]

-- `_lock_wallet`
unfoldable pub lock_wallet : ℕ → Tx Wallet
lock_wallet i db = or_raise (find_wallet i db.wallets) wallet_not_found db

abbrev pub has_role : (Role → Bool) → List Role → Bool
has_role p [] = false
has_role p (r ∷ rs) = p r || has_role p rs

abbrev pub is_admin : Role → Bool
is_admin admin_role = true
is_admin _ = false

abbrev pub active_admin : Option User → Bool
active_admin none = false
active_admin (some u) = u.is_active && has_role is_admin u.roles

abbrev pub find_actor : Option ℕ → List User → Option User
find_actor none us = none
find_actor (some i) us = find_user i us

-- `_require_admin`
unfoldable pub require_admin : Option ℕ → Tx (Unit {0})
require_admin actor db = raise_if (not (active_admin (find_actor actor db.users))) admin_required db

-- The keyword arguments of `ghi_so_cai`.
pub record Posting : Type 0 where
  pub wallet_id : ℕ
  pub entry_type : EntryType
  pub amount_vnd : ℤ
  pub reference_type : Text
  pub reference_id : Text
  pub actor_id : Option ℕ

-- `_matching_entry`
unfoldable pub matching_entry : Entry → ℕ → ℤ → Tx Entry
matching_entry row wallet_id amount db =
    if not (row.wallet_id == wallet_id) || not (eqb_ℤ row.amount_vnd amount)
    then err ledger_conflict
    else ok (row, db)

abbrev pub is_unknown : EntryType → Bool
is_unknown unknown_type = true
is_unknown _ = false

abbrev pub is_topup : EntryType → Bool
is_topup gateway_topup = true
is_topup manual_topup = true
is_topup _ = false

abbrev pub is_charge : EntryType → Bool
is_charge charging_debit = true
is_charge reservation_fee = true
is_charge _ = false

abbrev pub is_adjustment : EntryType → Bool
is_adjustment adjustment = true
is_adjustment _ = false

-- The sign test that refuses an amount for its type.
abbrev pub wrong_sign : EntryType → ℤ → Bool
wrong_sign t a = eqb_ℤ a (pos 0) || is_topup t && ltb_ℤ a (pos 0) || is_charge t && ltb_ℤ (pos 0) a

abbrev pub bad_reference : Text → ℕ → Bool
bad_reference t maximum = is_empty t || ltb maximum (length t)

-- The checks above the first read; the references come back stripped.
unfoldable pub checked : Posting → Tx Posting
checked p = do
  integer_vnd p.amount_vnd
  raise_if (is_unknown p.entry_type) value_error
  raise_if (wrong_sign p.entry_type p.amount_vnd) wallet_amount
  let reference_type = strip p.reference_type
  let reference_id = strip p.reference_id
  raise_if (bad_reference reference_type 50 || bad_reference reference_id 128) value_error
  pure (record p { reference_type = reference_type; reference_id = reference_id })

abbrev pub is_locked : WalletStatus → Bool
is_locked locked = true
is_locked active = false

abbrev pub is_authorized : AuditAction → Bool
is_authorized adjustment_authorized = true
is_authorized cache_repaired = false

abbrev pub option_eq : (ℕ → ℕ → Bool) → Option ℕ → Option ℕ → Bool
option_eq eq none none = true
option_eq eq (some a) (some b) = eq a b
option_eq eq _ _ = false

abbrev pub same_amount : Option ℤ → ℤ → Bool
same_amount none a = false
same_amount (some b) a = eqb_ℤ b a

-- The audit row authorizes the posting.
abbrev pub audit_matches : WalletAudit → Posting → Bool
audit_matches a p =
    is_authorized a.action
    && a.wallet_id == p.wallet_id
    && option_eq ◌==◌ (some a.actor_id) p.actor_id
    && same_amount a.amount_vnd p.amount_vnd

-- The block under `if entry_type == "adjustment"`.
unfoldable pub adjustment_evidence : Posting → Tx WalletAudit
unfolding require_admin
adjustment_evidence p = do
  require_admin p.actor_id
  audit_id ← or_raise (canonical_uuid p.reference_id) adjustment_audit
  raise_if (not (text_eq p.reference_type (codes "audit"))) adjustment_audit
  audit ← or_raise (← gets (λ db. find_audit audit_id db.audits)) adjustment_audit
  raise_if (not (audit_matches audit p)) adjustment_audit
  pure audit

-- `None` for any other type.
unfoldable pub evidence : Posting → Tx (Option WalletAudit)
evidence p db = elim (is_adjustment p.entry_type) [
  | true ↦ (do a ← adjustment_evidence p; pure (some a)) db
  | false ↦ ok (none, db)
]

-- `audit.before_balance_vnd != wallet.balance_vnd or audit.after_balance_vnd != balance_after`
abbrev pub stale : Option WalletAudit → ℤ → ℤ → Bool
stale none before after = false
stale (some a) before after =
    not (eqb_ℤ a.before_balance_vnd before) || not (eqb_ℤ a.after_balance_vnd after)

-- The check constraints of `wallet_ledger` that a row can break here.
abbrev pub breaks_constraint : Posting → Bool
breaks_constraint p = elim p.entry_type [
  | reservation_fee ↦ not (text_eq p.reference_type (codes "reservation"))
  | _ ↦ false
]

-- The insert that found no row under its key, and `wallet.balance_vnd = balance_after`.
unfoldable pub insert_entry : Posting → ℤ → Tx Entry
insert_entry p after db =
    let row : Entry = record {
      id = db.next_ledger_id;
      wallet_id = p.wallet_id;
      entry_type = p.entry_type;
      amount_vnd = p.amount_vnd;
      balance_after_vnd = after;
      reference_type = p.reference_type;
      reference_id = p.reference_id;
      actor_id = p.actor_id;
    } in
    ok (
      row,
      record db {
        wallets = set_balance p.wallet_id after db.wallets;
        ledger = row ∷ db.ledger;
        next_ledger_id = suc db.next_ledger_id;
      },
    )

-- `insert … on_conflict_do_nothing`: where a row arrived under the key it is the winner. Each statement
-- sees what was committed before it (READ COMMITTED) and no row is deleted, so the select finds the row
-- of the conflict, and the raise for a winner that is not available is not reached.
unfoldable pub win_or_match : Option Entry → Posting → ℤ → Tx Entry
win_or_match (some winner) p after db = matching_entry winner p.wallet_id p.amount_vnd db
win_or_match none p after db = insert_entry p after db

unfoldable pub insert_or_match : Posting → ℤ → Tx Entry
insert_or_match p after db =
    (raise_if (breaks_constraint p) integrity_error
        >> win_or_match (find_entry p.entry_type p.reference_id db.ledger) p after)
      db

abbrev pub matches_if_found : Option Entry → Posting → Tx (Unit {0})
matches_if_found none p db = ok (tt, db)
matches_if_found (some e) p db = (matching_entry e p.wallet_id p.amount_vnd >> pure tt) db

module _ (arrive : Db → Db) where
  -- From `balance_after = …` down.
  unfoldable pub post : Posting → Wallet → Option WalletAudit → Tx Entry
  post p wallet audit = do
    after ← integer_vnd (wallet.balance_vnd +ℤ p.amount_vnd)
    raise_if (stale audit wallet.balance_vnd after) adjustment_audit
    modify arrive
    insert_or_match p after

  abbrev pub return_or_post : Option Entry → Posting → Wallet → Option WalletAudit → Tx Entry
  return_or_post (some e) p wallet audit = pure e
  return_or_post none p wallet audit = post p wallet audit

  -- The body, once the arguments passed their checks.
  unfoldable pub settle : Posting → Tx Entry
  settle p = do
    wallet ← lock_wallet p.wallet_id
    existing ← gets (λ db. find_entry p.entry_type p.reference_id db.ledger)
    matches_if_found existing p
    raise_if (is_locked wallet.status && not (is_adjustment p.entry_type)) wallet_locked
    audit ← evidence p
    return_or_post existing p wallet audit

  unfoldable pub ghi_so_cai : Posting → Tx Entry
  ghi_so_cai p = do p' ← checked p; settle p'
