-- ===== src/Wallet.antt =====
-- modules/wallet: wallets, their ledger and the administration of both.
pub mod Tables
pub mod Tx
pub mod Uuid
pub mod Journal
pub mod Topup
pub mod Repair
pub mod Reconcile
pub mod Administration
pub mod Eligibility
pub mod Service
pub mod Debit
pub mod Tests
