-- ===== src/Factory.antt =====
-- The factory of ractor/src/factory: jobs, queues, workers, routing and rate limiting.
pub mod Job
pub mod Retry
pub mod Discard
pub mod Effects
pub mod Worker
pub mod Queues
pub mod Routing
pub mod RateLimit
pub mod State
