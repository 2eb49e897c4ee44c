-- ===== src/Tests.antt =====
-- Runs of the models at concrete inputs, and the theorems applied there.
pub mod Data
mod Jobs
mod Workers
mod Queues
mod Limits
mod Retry
mod Routing
mod Sessions
mod Factory
mod Cluster
mod Actors
mod Ports
mod Frames
