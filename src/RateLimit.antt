-- ===== src/RateLimit.antt =====
-- crates/easybot-api/src/middleware/rate_limit.rs: the per-address request limit.
pub mod Window
pub mod WindowLaws
pub mod Limiter
pub mod LimiterLaws
pub mod Address
pub mod Middleware
mod AddressLaws
mod Forged
mod Tests
