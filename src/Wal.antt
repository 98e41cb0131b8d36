-- ===== src/Wal.antt =====
-- The write-ahead log (src/lib.rs): records and their checksum, segments, the log in memory and the
-- log in files.
pub mod Record
pub mod Recovery
pub mod Segments
pub mod Local
pub mod Persistent
mod Tests
