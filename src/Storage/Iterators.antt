-- ===== src/Storage/Iterators.antt =====
-- pkg/storage/tuple_iterators.go and internal/iterator/merge.go: iterators made of iterators.
pub mod Ops
pub mod Wrap
pub mod Conditions
pub mod Merged
pub mod Streams
pub mod Filters
pub mod Answer
pub mod Verdicts
pub mod Heads
pub mod FirstReads
pub mod Merging
pub mod Faults
