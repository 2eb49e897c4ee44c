-- ===== src/Actor.antt =====
-- Actors: their status and message port, the supervision tree, and the registries.
pub mod Status
pub mod Admission
pub mod Supervision
pub mod Registry
