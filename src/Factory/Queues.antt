-- ===== src/Factory/Queues.antt =====
-- The queues of the factory: ractor/src/factory/queues.rs. `Contract` is the trait with what the
-- factory relies on; the two implementations meet it.
pub mod Contract
pub mod Default
pub mod Priority
