-- ===== src/Outbox.antt =====
-- The journal of outbound messages: the table `outbound_deliveries` of
-- crates/easybot-core/src/storage/sqlite.rs with the types of storage/mod.rs, and
-- `publish_outbound_events_once` of crates/easybot-api/src/lib.rs. `V` are JSON values, `T` is the
-- content of a stored message.
pub mod Rows
pub mod Journal
pub mod Publisher
mod Calls
mod Preservation
mod Settled
mod Receipts
mod Tests
