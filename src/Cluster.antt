-- ===== src/Cluster.antt =====
-- RaftCluster (src/lib.rs): the nodes of one group in one process, with a pipeline for each.
pub mod State
pub mod Election
pub mod Replicate
pub mod Reads
pub mod Members
pub mod Install
pub mod Peers
pub mod Chunks
pub mod Appends
pub mod Proposals
pub mod Commit
pub mod Terms
pub mod Changes
pub mod Restore
pub mod Status
mod Tests
