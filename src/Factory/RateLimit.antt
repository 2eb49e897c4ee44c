-- ===== src/Factory/RateLimit.antt =====
-- Rate limiting: ractor/src/factory/ratelim.rs. Instants and durations are nanoseconds, `usize` has
-- 64 bits, and `checked_add`, the platform's addition to an instant, is a parameter.
pub mod Bucket
pub mod Balance
pub mod Admission
pub mod Limited
