-- ===== src/Wal/Persistent.antt =====
-- PersistentRaftWal (src/lib.rs): the segmented log in files, one file to a segment.
pub mod Disk
pub mod Lines
pub mod Scan
pub mod Files
pub mod Log
pub mod Maintain
pub mod Layout
pub mod Roll
pub mod Append
pub mod Filed
pub mod Reopen
pub mod Torn
pub mod Crash
pub mod Compact
