-- ===== src/Cluster.antt =====
-- Charts on a kind cluster: shared/cluster/, and what it calls.
pub mod Effects
pub mod Tools
pub mod Converge
pub mod Releases
pub mod Bootstrap
pub mod Session
pub mod Samples
mod Tests
