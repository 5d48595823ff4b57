-- ===== src/Billing.antt =====
-- Billing: exact money rounding and the idle fee.
pub mod Money
pub mod IdleFee
pub mod Segmentation
pub mod Tables
pub mod Invoicing
pub mod Closure
mod Tests
