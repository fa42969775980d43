-- ===== src/ObjectStore/Record.antt =====
-- src/object_store/object_record.rs: the records of an object store.
pub mod Data
pub mod Key
pub mod Value
pub mod Item
pub mod Search
