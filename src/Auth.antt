-- ===== src/Auth.antt =====
-- crates/easybot-core/src/auth: API keys, their rotation and quota, permissions.
pub mod Types
pub mod Database
pub mod Create
pub mod Authenticate
pub mod Revoke
pub mod Rotation
pub mod Calls
pub mod Gone
pub mod Revocation
pub mod Steps
pub mod History
pub mod Creation
pub mod Outcomes
pub mod Quota
pub mod Audit
pub mod Idempotency
pub mod Ledger
pub mod Ephemeral
mod Tests
