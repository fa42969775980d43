-- ===== src/Examples/AllocatorCore.antt =====
-- The allocator's searches, counters and mutations at concrete extents (src/object_store/allocator.rs).
use Prim.Native.Nat.{compare}
use Prim.Native.Nat.Ordering.{eq}
use fxfs_on_linux.Common.{
  ℕ, ◌+◌, ◌≡◌, refl, List, [], ◌∷◌, none, some, ok, err, no_space, Ends, Returns, pos, arith, true,
  inl, inr, Bool-cases, ◌&&◌, ◌==◌, get_or_default,
}
use fxfs_on_linux.Util.Range
use fxfs_on_linux.Util.Range.{Range, range}
use fxfs_on_linux.Lsm.Layer.{erase, empty_tree}
use fxfs_on_linux.Lsm.Layer.Sorted.{LayerKeyLaws}
use fxfs_on_linux.Allocator.Key.{AllocatorKey, AllocatorItem, abs, cmp_upper_bound}
use fxfs_on_linux.Allocator.Reservation.{Reservation}
use fxfs_on_linux.Allocator.Search.{find_gap, deallocate}
use fxfs_on_linux.Allocator.Search.Gaps.{IsFree, IsFull, find_gap-IsFree}
use fxfs_on_linux.Allocator.Search.Covered.{Collects, HasHole, deallocate-Collects}
use fxfs_on_linux.Allocator.Accounting.{ByteTracking, Inner, CommittedDeallocation, entry, reserve}
use fxfs_on_linux.Allocator.Accounting.Totals.{used_total}
use fxfs_on_linux.Allocator.Accounting.Reserved.{Reserved, reserve-Reserved}
use fxfs_on_linux.Allocator.Mutations.{
  SimpleAllocator, AllocatorKey_layer, item_of, live, count_allocated, count_freed,
}
use fxfs_on_linux.Allocator.Mutations.Conserved.{Leaves, Committed, Released, count_allocated-Moves}
use fxfs_on_linux.Allocator.Flushed.{did_flush_device}
use fxfs_on_linux.Allocator.Flushed.Pending.{IsTracked, IsFlushed}
use fxfs_on_linux.Allocator.Flushed.Released.{
  dealloc, did_flush_device-IsTracked, count_freed-IsTracked,
}

-- Two extents of owner 1, with a gap of a block between them.
abbrev extents : List AllocatorItem
extents = item_of (range 0 512) (abs 1 1) 0 ∷ item_of (range 1024 2048) (abs 1 1) 0 ∷ []

first_gap : find_gap 512 4096 1024 0 extents ≡ ok (range 512 1024)
unfolding find_gap Range.is_aligned
first_gap = refl

full_device : find_gap 512 512 512 0 (item_of (range 0 512) (abs 1 1) 0 ∷ []) ≡ err no_space
unfolding find_gap Range.is_aligned
full_device = refl

find_gap-IsFree_example :
    Ends
      (find_gap 512 4096 1024 0 extents)
      (IsFree 512 4096 1024 0 extents)
      λ e. (e ≡ no_space) × IsFull 4096 0 extents
find_gap-IsFree_example =
    find_gap-IsFree 512 4096 1024 0 extents (omega arith) (omega arith) (omega arith) refl refl
      (omega arith) refl (omega arith, omega arith, (omega arith, omega arith, tt))
      ((refl, refl, omega arith), ((refl, refl, omega arith), tt))

-- The second extent, and what is behind it.
abbrev second : List AllocatorItem
second = item_of (range 1024 2048) (abs 1 1) 0 ∷ []

deallocate_within : deallocate 512 1 (range 1024 1536) second ≡ ok (512, some (range 1024 1536))
unfolding deallocate Range.is_valid Range.is_aligned
deallocate_within = refl

-- No extent reaches behind 2048, and the rest of the range is left out without an error.
deallocate_beyond : deallocate 512 1 (range 1024 4096) second ≡ ok (1024, some (range 1024 2048))
unfolding deallocate Range.is_valid Range.is_aligned
deallocate_beyond = refl

deallocate-Collects_example :
    Ends
      (deallocate 512 1 (range 1024 1536) second)
      (Collects 1 1024 1536 0 none second)
      (HasHole 1024 1536 second)
deallocate-Collects_example =
    deallocate-Collects 512 1 (range 1024 1536) 0 second (omega arith) (omega arith) (omega arith)
      (omega arith, omega arith, tt) (omega arith, tt) ((refl, refl), tt) (inr refl, tt)

-- Owner 1 has 1024 bytes, 512 that are uncommitted, 512 that are reserved, and 512 that wait.
abbrev pub owner_bytes : ByteTracking
owner_bytes = record {
  allocated_bytes = pos 1024;
  uncommitted_allocated_bytes = 512;
  reserved_bytes = 512;
  committed_deallocated_bytes = 512;
}

abbrev pub waiting : CommittedDeallocation
waiting = record { log_file_offset = 100; range = range 2048 2560; owner_object_id = 1 }

abbrev pub inner : Inner
inner = record {
  info = record {
    layers = [];
    allocated_bytes = [];
    marked_for_deletion = [];
    limit_bytes = (1, 3072) ∷ [];
  };
  opened = true;
  dropped_allocations = [];
  owner_bytes = (1, owner_bytes) ∷ [];
  unattributed_reserved_bytes = 0;
  committed_deallocated = waiting ∷ [];
  committed_marked_for_deletion = (7, (50, 0)) ∷ (8, (200, 0)) ∷ [];
}

abbrev pub allocator : SimpleAllocator
allocator = record {
  block_size = 512;
  device_size = 8192;
  tree = empty_tree;
  reserved_allocations = item_of (range 2048 2560) (abs 1 1) 100 ∷ [];
  inner = inner;
}

reserve-Reserved_example :
    Returns (reserve 8192 inner (some 1) 1024) (Reserved 8192 inner (some 1) 1024)
reserve-Reserved_example = reserve-Reserved 8192 inner (some 1) 1024 (omega arith) (omega arith)

inner-IsTracked : IsTracked inner
inner-IsTracked = (
  (omega arith, tt),
  (λ o. elim (Bool-cases (o == 1)) [
    | inl e ↦ rw (get_or_default, e) refl
    | inr e ↦ rw (get_or_default, e) refl
  ]),
  λ o. elim (Bool-cases (o == 1)) [
    | inl e ↦ rw (get_or_default, e) (omega arith)
    | inr e ↦ rw (get_or_default, e) (omega arith)
  ],
)

-- What was logged before 150 is free for use, and owner 7 is marked for deletion.
flush_at_150 :
    did_flush_device allocator 150
    ≡ ok (record allocator {
      reserved_allocations = [];
      inner = record inner {
        info = record inner.info { marked_for_deletion = 7 ∷ [] };
        owner_bytes = (1, record owner_bytes { committed_deallocated_bytes = 0 }) ∷ [];
        committed_deallocated = [];
        committed_marked_for_deletion = (8, (200, 0)) ∷ [];
      };
    })
unfolding did_flush_device Range.length Range.is_valid erase cmp_upper_bound
flush_at_150 = refl

did_flush_device-IsTracked_example : Returns (did_flush_device allocator 150) λ a'.
    IsTracked a'.inner
    × IsFlushed 150 (waiting ∷ []) a'.inner.committed_deallocated
    × (used_total a'.inner ≡ used_total inner)
did_flush_device-IsTracked_example = did_flush_device-IsTracked allocator 150 inner-IsTracked

abbrev pub reservation : Reservation
reservation = record { owner_object_id = some 1; amount = 1024; reserved = 512 }

count_freed-IsTracked_example :
    Returns
      (count_freed inner
        (record { mode = live (some reservation); file_offset = 300 })
        (range 0 512)
        1
        512)
      λ (i', r').
        IsTracked i' × (i'.committed_deallocated ≡ waiting ∷ dealloc 300 (range 0 512) 1 ∷ [])
count_freed-IsTracked_example =
    count_freed-IsTracked inner 300 (some reservation) (range 0 512) 1 512 inner-IsTracked
      (omega arith) refl (omega arith) (omega arith, omega arith)

count_allocated-Moves_example :
    Returns
      (count_allocated inner (record { mode = live (some reservation); file_offset = 300 }) 1 512)
      λ (i', left).
        (used_total i' ≡ used_total inner)
        × ((entry i' 1).allocated_bytes ≡ pos 1536)
        × ((entry i' 1).uncommitted_allocated_bytes + 512 ≡ 512)
        × Leaves (Committed 512) (some reservation) left
count_allocated-Moves_example =
    count_allocated-Moves inner 300 (some reservation) 1 1024 512 (refl, omega arith) (omega arith)
      (omega arith, omega arith)

compare-same : (n : ℕ) → compare n n ≡ eq
compare-same n = ground arith

both-same : (m n : ℕ) → ((m == m) && (n == n)) ≡ true
both-same m n = ground arith

AllocatorKey_laws : LayerKeyLaws AllocatorKey AllocatorKey_layer
unfolding cmp_upper_bound
AllocatorKey_laws = record {
  cmp_refl = λ a. compare-same a.device_range.end;
  same_refl = λ a. both-same a.device_range.start a.device_range.end;
}

abbrev third : AllocatorItem
third = item_of (range 512 1024) (abs 1 1) 0
