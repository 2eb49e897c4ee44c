-- ===== src/Cluster.antt =====
-- The cluster of nodes: ractor_cluster/src.
pub mod Auth
pub mod Session
pub mod Election
pub mod Nodes
pub mod Net
pub mod Sync
