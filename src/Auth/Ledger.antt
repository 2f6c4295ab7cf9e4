-- ===== src/Auth/Ledger.antt =====
-- The usage and billing ledgers, crates/easybot-core/src/auth/api_key/billing.rs.
pub mod Usage
pub mod Billing
mod Totals
mod Events
mod Tests
