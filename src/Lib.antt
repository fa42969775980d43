-- ===== src/Lib.antt =====
-- Verification of Fxfs on Linux, a journaling filesystem over log-structured merge (LSM) trees.
--
-- Parts and interaction. An object store keeps its records in an LSM tree, and the allocator keeps
-- the extents of the device in another. A transaction locks its keys through the lock manager,
-- takes its mutations to the trees, and each mutation is merged into the mutable layer of its tree
-- by `merge_into` with the merge function of that tree. The layer with the lower index is the newer.
-- An extent of a file names its bytes, their place on the device and one checksum for each block.
-- Before the journal is replayed, the checksum list says up to which offset the extents that the
-- journal names are on the device.
--
-- Which file models which code:
--   Util                 src/round.rs, src/range.rs: rounding, ranges of `u64`
--   Checksum             src/checksum.rs: `fletcher64` over a list of bytes
--   Ff1                  src/ff1.rs: the cipher of object ids, over any block cipher
--   LockManager          src/object_store/transaction.rs: `LockEntry`, `LockWaker`, `LockManager` and
--                        `Locks`. `Entry` has the entry of one key, `Keys` the operations on a key,
--                        `Calls` what a task may call, `System` tasks that interleave their calls
--   Lsm                  src/lsm_tree/types.rs, src/lsm_tree/merge.rs, src/lsm_tree/skip_list_layer.rs:
--                        items, merge functions, `merge_into` on the cursor of a sorted layer; with
--                        src/lsm_tree.rs, insertion and erasure, and the layers of a tree (`Layer`);
--                        `Merger` and `MergerIterator` (`Merger`), with `find` and compaction (`Query`)
--   Allocator            src/object_store/allocator.rs, src/object_store/allocator/merge.rs: keys and
--                        values, the merge function, insertion into the mutable layer
--                        (`MergeInto`), reservations and their holds (`Reservation`), the walks of
--                        `allocate` and `deallocate` (`Search`), `ByteTracking` and `Inner`
--                        (`Accounting`), `apply_mutation` and `drop_mutation` (`Mutations`),
--                        `did_flush_device` (`Flushed`), what `allocate` counts before and after its
--                        search, and `mark_allocated` (`Allocate`)
--   ObjectStore          src/object_store/extent_record.rs (`Extent`, `ExtentValue`),
--                        src/object_store/object_record.rs (`Record`), src/object_store/merge.rs
--                        (`Merge`); the records that are not extents, as keys of a tree
--                        (`Points`)
--   Journal              src/object_store/journal/checksum_list.rs: `ChecksumList`, its `verify` in
--                        `Verify`, over a device that is a function;
--                        src/object_store/journal/writer.rs (`Writer`) and
--                        src/object_store/journal/reader.rs (`Reader`), which write and read blocks in
--                        the format of `Stream`, over a file that is a function;
--                        `validate_mutation` of src/object_store/journal.rs (`Validate`)
--   Paged                src/platform/fuchsia/paged_object_handle.rs: the counters of dirty pages and the
--                        space reserved for them, and the batches that a flush writes (`Flush`)
--   ObjectManager        src/object_store/object_manager.rs: on which journal records the objects depend
--                        (`Dependencies`), and the space for metadata (`Balance`, `Held`)
--   Transaction          src/object_store/transaction.rs: the data of mutations
--   Common               shared tests, lists, and `Outcome`: a value, an error of src/errors.rs, or a
--                        panic
--   Examples             tests and witnesses at concrete inputs
--
-- Conventions. A number is a natural number; where the source computes in `u64` with checks on, the
-- definition panics on overflow (`add_u64`, `sub_u64`, `div_u64`), and where it wraps, the wrap is
-- written out. A `Mutex` and an `async` call are one step; tasks interleave between the calls. A
-- debug assertion is an assertion, unless the tests before it imply it.
--
-- A map is an association list whose order of keys is not kept; an `i64` is an integer with the checks
-- or the saturation of the source.
--
-- Fuel. `merge_loop` takes fuel; each round lowers the total length and number of the items, so fuel
-- above that total is enough, and the theorem on insertion gives it. A pass of
-- `ChecksumList::verify` that fails lowers the offset, so the offset plus one passes are enough. `JournalWriter`
-- writes a byte at least in each round, so it takes the number of bytes; the loop of `fill_buf` reads a
-- block in each. `advance_impl` takes fuel for its rounds, and compaction for the items that it writes:
-- where a round drops an item or yields one, more fuel than there are items is enough. The loop that
-- spreads a range over flush batches takes the end of the range. Other loops recurse on lists.
--
-- Not modelled: what is outside this crate (AES, the block device, serde) is a parameter or absent.
-- The skip list enters as a sorted list with a cursor: its atomic pointers and its epochs are left
-- out. Also left out: directories, volumes, replay and the journal's super-block, flushing, the
-- graveyard, fsck, caches and the writeback, the rest of the platform layers and the tools.
pub mod Common
pub mod Util
pub mod Checksum
pub mod Ff1
pub mod LockManager
pub mod Lsm
pub mod Allocator
pub mod ObjectStore
pub mod Paged
pub mod Transaction
pub mod ObjectManager
pub mod Journal
pub mod Examples
