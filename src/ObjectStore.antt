-- ===== src/ObjectStore.antt =====
-- The records of an object store (src/object_store/object_record.rs, src/object_store/extent_record.rs)
-- and how they merge (src/object_store/merge.rs).
pub mod Extent
pub mod ExtentValue
pub mod Record
pub mod Points
pub mod Merge
