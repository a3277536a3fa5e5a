-- ===== src/Bitcask.antt =====
-- internal/bitcask: the log-structured store.
pub mod IndexSpec
pub mod HashIndex
pub mod Record
pub mod Segment
pub mod Db
pub mod Snapshot
pub mod Recovery
pub mod Compaction
