-- ===== src/Adapter.antt =====
-- The adapter manager, crates/easybot-core/src/adapter: the children in order of use.
pub mod Reconnect
pub mod Manager
pub mod Reconnection
pub mod Monitor
mod Cases
mod Classification
mod Waiting
mod Health
mod Exclusion
mod Apart
mod Calls
mod Race
mod Lost
mod Forgotten
mod Unexamined
mod Tests
