-- ===== src/Allocator.antt =====
-- src/object_store/allocator.rs and src/object_store/allocator/merge.rs: the allocator of device
-- ranges.
pub mod Key
pub mod Merge
pub mod Reservation
pub mod MergeInto
pub mod Search
pub mod Accounting
pub mod Mutations
pub mod Flushed
pub mod Allocate
