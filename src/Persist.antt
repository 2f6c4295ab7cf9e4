-- ===== src/Persist.antt =====
-- The message persister and the session bridge, crates/easybot-core/src/session: the two tasks behind
-- the bus that keep what an inbound message brings.
pub mod Persister
mod Firsts
mod Delivery
pub mod Bridge
mod Interruption
mod Tests
