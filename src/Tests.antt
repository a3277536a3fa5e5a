-- ===== src/Tests.antt =====
-- Concrete runs of the model, and the theorems at concrete inputs.
mod Heap
mod Sorted
mod Lookups
mod Stores
mod Index
mod Store
mod Files
mod Formats
mod Handles
mod Iterators
