-- ===== src/Factory/Routing.antt =====
-- The routers of the factory: ractor/src/factory/routing.rs and hash.rs.
pub mod Contract
pub mod Available
pub mod Persistent
pub mod Placement
pub mod Holders
pub mod Queuer
pub mod Sticky
pub mod RoundRobin
pub mod Targets
