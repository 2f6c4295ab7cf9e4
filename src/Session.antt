-- ===== src/Session.antt =====
-- The session manager, crates/easybot-core/src/session/manager.rs: the children in order of use.
pub mod Types
pub mod Key
pub mod Manager
pub mod Listing
mod Sorted
mod Mirror
mod Calls
mod Race
mod Summary
mod Tests
