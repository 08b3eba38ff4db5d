-- ===== src/Cluster.antt =====
-- internal/cluster: who leads, who is alive.
pub mod Static
pub mod Election
pub mod Discovery
mod Examples
