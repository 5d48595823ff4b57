-- ===== src/Wallet/Tables.antt =====
-- modules/wallet/models.py and topup_models.py: the rows, and the state of a transaction, which has
-- the rows of Billing/Tables too.
-- UUIDs are only compared and printed, so an id is a number.
use ttcs_t926_k8s4_n1_csms.Base.{
  ℕ, Bool, true, false, ◌&&◌, Option, none, some, List, [], ◌∷◌, ◌==◌, if◌then◌else◌,
}
use ttcs_t926_k8s4_n1_csms.Base.Int.{ℤ, pos, ◌+ℤ◌}
use ttcs_t926_k8s4_n1_csms.Base.Text.{Text, text_eq}
pub use ttcs_t926_k8s4_n1_csms.Billing.Tables.{
  ChargingSession, RoundingRule, rounding_rule, legacy_rounding_rule, Invoice, InvoiceLine,
  MeterSample, OccupationInterval, TariffVersion, Station, ChargePoint, Connector,
}

pub data WalletStatus : Type 0 where
  active locked : WalletStatus

pub record Wallet : Type 0 where
  pub id : ℕ
  pub driver_id : ℕ
  pub balance_vnd : ℤ
  pub status : WalletStatus

-- `unknown_type` is a text outside the five of the source.
pub data EntryType : Type 0 where
  gateway_topup manual_topup charging_debit adjustment reservation_fee unknown_type : EntryType

abbrev pub type_eq : EntryType → EntryType → Bool
type_eq gateway_topup gateway_topup = true
type_eq manual_topup manual_topup = true
type_eq charging_debit charging_debit = true
type_eq adjustment adjustment = true
type_eq reservation_fee reservation_fee = true
type_eq unknown_type unknown_type = true
type_eq _ _ = false

-- `WalletLedger`
pub record Entry : Type 0 where
  pub id : ℕ
  pub wallet_id : ℕ
  pub entry_type : EntryType
  pub amount_vnd : ℤ
  pub balance_after_vnd : ℤ
  pub reference_type : Text
  pub reference_id : Text
  pub actor_id : Option ℕ

pub data AuditAction : Type 0 where
  cache_repaired adjustment_authorized : AuditAction

pub record WalletAudit : Type 0 where
  pub id : ℕ
  pub wallet_id : ℕ
  pub actor_id : ℕ
  pub action : AuditAction
  pub before_balance_vnd : ℤ
  pub after_balance_vnd : ℤ
  pub amount_vnd : Option ℤ
  pub reason : Text

pub data Role : Type 0 where
  driver_role admin_role other_role : Role

pub record User : Type 0 where
  pub id : ℕ
  pub is_active : Bool
  pub roles : List Role

-- `AuditLog`: the action and the object of a line; its data repeats what the other rows hold.
pub record Log : Type 0 where
  pub actor_id : Option ℕ
  pub action : Text
  pub object_type : Text
  pub object_id : Text

pub data TopupStatus : Type 0 where
  pending succeeded failed cancelled needs_review : TopupStatus

-- `WalletTopup`
pub record Topup : Type 0 where
  pub id : ℕ
  pub driver_id : ℕ
  pub amount_vnd : ℤ
  pub status : TopupStatus
  pub order_id : Text
  pub gateway_transaction_id : Option Text
  pub reason : Option Text

-- What a transaction reads and writes. The newest row of a table stands first.
pub record Db : Type 0 where
  pub wallets : List Wallet
  pub ledger : List Entry
  pub audits : List WalletAudit
  pub users : List User
  pub logs : List Log
  pub invoices : List Invoice
  pub sessions : List ChargingSession
  pub topups : List Topup
  pub next_ledger_id : ℕ
  pub invoice_lines : List InvoiceLine
  pub samples : List MeterSample
  pub intervals : List OccupationInterval
  pub tariffs : List TariffVersion
  pub stations : List Station
  pub charge_points : List ChargePoint
  pub connectors : List Connector

-- `select(Wallet).where(Wallet.id == i)`
abbrev pub find_wallet : ℕ → List Wallet → Option Wallet
find_wallet i [] = none
find_wallet i (w ∷ ws) = if w.id == i then some w else find_wallet i ws

-- `select(Wallet).where(Wallet.driver_id == d)`
abbrev pub find_driver_wallet : ℕ → List Wallet → Option Wallet
find_driver_wallet d [] = none
find_driver_wallet d (w ∷ ws) = if w.driver_id == d then some w else find_driver_wallet d ws

-- `wallet.balance_vnd = b` on the row of wallet `i`
abbrev pub set_balance : ℕ → ℤ → List Wallet → List Wallet
set_balance i b [] = []
set_balance i b (w ∷ ws) =
    (if w.id == i then record w { balance_vnd = b } else w) ∷ set_balance i b ws

-- `wallet.status = s` on the row of wallet `i`
abbrev pub set_status : ℕ → WalletStatus → List Wallet → List Wallet
set_status i s [] = []
set_status i s (w ∷ ws) = (if w.id == i then record w { status = s } else w) ∷ set_status i s ws

-- The row under the unique key (entry_type, reference_id).
abbrev pub find_entry : EntryType → Text → List Entry → Option Entry
find_entry t r [] = none
find_entry t r (e ∷ l) =
    if type_eq e.entry_type t && text_eq e.reference_id r then some e else find_entry t r l

-- `session.get(WalletAudit, i)`
abbrev pub find_audit : ℕ → List WalletAudit → Option WalletAudit
find_audit i [] = none
find_audit i (a ∷ l) = if a.id == i then some a else find_audit i l

abbrev pub find_user : ℕ → List User → Option User
find_user i [] = none
find_user i (u ∷ us) = if u.id == i then some u else find_user i us

-- `func.coalesce(func.sum(WalletLedger.amount_vnd), 0)` of one wallet
abbrev pub ledger_total : ℕ → List Entry → ℤ
ledger_total i [] = pos 0
ledger_total i (e ∷ l) =
    if e.wallet_id == i then e.amount_vnd +ℤ ledger_total i l else ledger_total i l
