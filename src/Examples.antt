-- ===== src/Examples.antt =====
-- Tests of the definitions at concrete inputs, and the theorems at inputs that meet their
-- hypotheses.
mod Util
mod Allocator
mod LockManager
mod ObjectStore
mod Journal
mod JournalStream
mod AllocatorCore
mod AllocatorMutations
mod JournalValidate
mod Lsm
mod Paged
mod ObjectManager
