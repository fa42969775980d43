-- ===== src/Journal.antt =====
-- The journal (src/object_store/journal.rs and the files beside it).
pub mod ChecksumList
pub mod Stream
pub mod Writer
pub mod Reader
pub mod Validate
