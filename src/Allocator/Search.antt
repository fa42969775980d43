-- ===== src/Allocator/Search.antt =====
-- `SimpleAllocator::allocate` and `deallocate` of src/object_store/allocator.rs: the walks over the
-- extents that the allocator's iterator yields. The extents are an argument: those of the merged
-- tree with the reserved allocations, in order, from the bound that the code gives.
pub mod Gaps
pub mod Covered
use fxfs_on_linux.Common.{
  ℕ, ◌+◌, ◌-◌, Bool, true, false, ◌&&◌, Option, none, some, List, [], ◌∷◌, min, ltb, leb, ◌==◌,
  if◌then◌else◌, Outcome, ok, err, panic, assert, ensure, ◌>>◌, ◌>>=◌, sub_u64, add_u64, no_space,
  inconsistent, invalid_args,
}
use fxfs_on_linux.Util.Range.{Range, range, is_aligned, is_valid}
use fxfs_on_linux.Allocator.Key.{AllocatorItem, AllocatorValue, abs}

-- An extent that does not sit on blocks, or not on the device.
abbrev pub check_extent : (block_size device_size : ℕ) → Range → Outcome (Unit {0})
unfolding is_aligned
check_extent block_size device_size r = do
  aligned ← is_aligned r block_size
  ensure (aligned && leb r.end device_size) inconsistent

-- Behind the last extent.
abbrev pub last_gap : (device_size len last_offset : ℕ) → Outcome Range
last_gap device_size len last_offset = do
  sum ← add_u64 last_offset len
  if leb (min sum device_size) last_offset
      then err no_space
      else ok (range last_offset (min sum device_size))

-- The first gap, from `last_offset` on.
unfoldable pub find_gap :
    (block_size device_size len last_offset : ℕ) → List AllocatorItem → Outcome Range
find_gap block_size device_size len last_offset [] = last_gap device_size len last_offset
find_gap block_size device_size len last_offset (item ∷ items) = do
  check_extent block_size device_size item.key.device_range
  elim (ltb last_offset item.key.device_range.start) [
    | true ↦ do
      sum ← add_u64 last_offset len
      ok (range last_offset (min sum item.key.device_range.start))
    | false ↦ find_gap block_size device_size len item.key.device_range.end items
  ]

-- What of the mutation has been collected: it begins where the first extent was met.
abbrev pub extend : Option Range → (start end : ℕ) → Range
extend none start end = range start end
extend (some r) start end = range r.start end

-- Extents are counted once, and are the owner's.
abbrev pub check_owner : ℕ → AllocatorValue → Outcome (Unit {0})
check_owner owner_object_id (abs count store_object_id) =
    if count == 1 then assert (owner_object_id == store_object_id) else panic
check_owner owner_object_id value = panic

-- From `start` on: the bytes deallocated, and the range of the mutation, if there is one.
unfoldable pub collect :
    (block_size owner_object_id start end deallocated : ℕ) (mutation : Option Range)
    → List AllocatorItem
    → Outcome (ℕ × Option Range)
unfolding is_aligned
collect block_size owner_object_id start end deallocated mutation [] = ok (deallocated, mutation)
collect block_size owner_object_id start end deallocated mutation (item ∷ items) = do
  let extent = item.key.device_range
  let upto = min extent.end end
  aligned ← is_aligned extent block_size
  ensure aligned inconsistent
  ensure (leb extent.start start) inconsistent
  check_owner owner_object_id item.value
  more ← sub_u64 upto start
  total ← add_u64 deallocated more
  elim (upto == end) [
    | true ↦ ok (total, some (extend mutation start upto))
    | false ↦
        collect block_size owner_object_id upto end total (some (extend mutation start upto)) items
  ]

-- The bytes deallocated, and the range of the mutation that the transaction takes.
unfoldable pub deallocate :
    (block_size owner_object_id : ℕ) → Range → List AllocatorItem → Outcome (ℕ × Option Range)
unfolding collect is_valid
deallocate block_size owner_object_id dealloc_range items = do
  ensure (is_valid dealloc_range) invalid_args
  collect block_size owner_object_id dealloc_range.start dealloc_range.end 0 none items
