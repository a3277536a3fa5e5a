-- ===== src/SortedIndex.antt =====
-- internal/sortedindex: a read-only sorted directory over line files.
pub mod Format
pub mod Bloom
pub mod Merge
pub mod Lookup
pub mod Build
