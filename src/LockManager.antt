-- ===== src/LockManager.antt =====
-- src/object_store/transaction.rs, from `LockManager` on: the read, transaction and write locks of
-- the file system's objects.
pub mod Entry
pub mod Keys
pub mod Holds
pub mod Calls
pub mod Wake
pub mod System
