-- ===== src/Pipeline.antt =====
-- RaftReplicationPipeline (src/lib.rs): what a leader keeps for each peer. State has the records,
-- the next four modules have the methods, the others what is proved of them.
pub mod State
pub mod Reorder
pub mod Append
pub mod Transfer
pub mod Progress
mod Tests
