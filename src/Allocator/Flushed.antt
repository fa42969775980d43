-- ===== src/Allocator/Flushed.antt =====
-- `SimpleAllocator::did_flush_device` of src/object_store/allocator.rs: the deallocations that the
-- device has flushed are free for use.
pub mod Pending
pub mod Released
use fxfs_on_linux.Common.{
  ℕ, ◌+◌, ◌-◌, Bool, true, false, Option, none, some, List, [], ◌∷◌, ltb, leb, if◌then◌else◌,
  Outcome, ok, panic, unwrap, ◌>>=◌, sub_u64, add_u64, Map, get, put, get_or_default,
}
use fxfs_on_linux.Util.Range
use fxfs_on_linux.Lsm.Layer.{erase}
use fxfs_on_linux.Allocator.Key.{AllocatorItem}
use fxfs_on_linux.Allocator.Accounting.{
  ByteTracking, CommittedDeallocation, AllocatorInfo, Inner, set_entry,
}
use fxfs_on_linux.Allocator.Mutations.{SimpleAllocator, AllocatorKey_layer}

-- The deallocations before the first that is not flushed, and the others.
unfoldable pub split_flushed :
    ℕ → List CommittedDeallocation → List CommittedDeallocation × List CommittedDeallocation
split_flushed flush_log_offset [] = ([], [])
split_flushed flush_log_offset (d ∷ ds) =
    let rest = split_flushed flush_log_offset ds in
    if leb flush_log_offset d.log_file_offset then ([], d ∷ ds) else (d ∷ rest.0, rest.1)

-- What is erased from the reserved allocations, and the bytes for each owner.
unfoldable pub release_deallocs :
    List CommittedDeallocation → List AllocatorItem → Map ℕ → Outcome (List AllocatorItem × Map ℕ)
unfolding erase Range.length
release_deallocs [] reserved totals = ok (reserved, totals)
release_deallocs (d ∷ ds) reserved totals = do
  len ← unwrap (Range.length d.range)
  sum ← add_u64 (get_or_default 0 d.owner_object_id totals) len
  release_deallocs ds (erase reserved (record { device_range = d.range }))
      (put d.owner_object_id sum totals)

unfoldable pub subtract_totals : Map ℕ → Inner → Outcome Inner
subtract_totals [] i = ok i
subtract_totals ((owner, bytes) ∷ rest) i = elim (get owner i.owner_bytes) [
  | none ↦ panic
  | some b ↦ do
    left ← sub_u64 b.committed_deallocated_bytes bytes
    subtract_totals rest (set_entry i owner (record b { committed_deallocated_bytes = left }))
]

-- Owners whose deletion is flushed move to the info; the others stay.
unfoldable pub split_marked : ℕ → Map (ℕ × ℕ) → Map (ℕ × ℕ) × List ℕ
split_marked flush_log_offset [] = ([], [])
split_marked flush_log_offset ((owner, mark) ∷ rest) =
    let others = split_marked flush_log_offset rest in
    if leb flush_log_offset mark.0
    then ((owner, mark) ∷ others.0, others.1)
    else (others.0, owner ∷ others.1)

abbrev pub add_all : List ℕ → List ℕ → List ℕ
add_all [] set = set
add_all (x ∷ xs) set = x ∷ add_all xs set

unfoldable pub did_flush_device : SimpleAllocator → ℕ → Outcome SimpleAllocator
unfolding split_flushed release_deallocs subtract_totals split_marked
did_flush_device a flush_log_offset = do
  let (flushed, kept) = split_flushed flush_log_offset a.inner.committed_deallocated
  (reserved, totals) ← release_deallocs flushed a.reserved_allocations []
  inner ← subtract_totals totals (record a.inner { committed_deallocated = kept })
  let (waiting, marked) = split_marked flush_log_offset inner.committed_marked_for_deletion
  ok (record a {
    reserved_allocations = reserved;
    inner = record inner {
      committed_marked_for_deletion = waiting;
      info = record inner.info {
        marked_for_deletion = add_all marked inner.info.marked_for_deletion;
      };
    };
  })
