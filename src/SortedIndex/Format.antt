-- ===== src/SortedIndex/Format.antt =====
-- The on-disk formats of internal/sortedindex.
pub mod Entries
pub mod Sparse
pub mod Sources
pub mod BloomFile
pub mod Sidx
