-- ===== src/Allocator/Accounting.antt =====
-- The byte counters of src/object_store/allocator.rs: `ByteTracking`, `Inner`, and the calls of
-- `SimpleAllocator` that reserve and release bytes. The state behind the mutex is passed on.
pub mod Totals
pub mod Reserved
use fxfs_on_linux.Common.{
  ℕ, ◌+◌, ◌-◌, Bool, true, false, Option, none, some, List, [], ◌∷◌, map, min, ltb, leb, ◌==◌,
  if◌then◌else◌, Outcome, ok, err, panic, assert, ensure, ◌>>◌, ◌>>=◌, u64_max, sub_u64, add_u64,
  Map, get, put, get_or_default, ℤ, pos, as_u64, add_i64,
}
use fxfs_on_linux.Util.Range.{Range}
use fxfs_on_linux.Allocator.Key.{AllocatorItem}
use fxfs_on_linux.Allocator.Reservation
use fxfs_on_linux.Allocator.Reservation.{Reservation}

-- For one owner.
pub record ByteTracking : Type 0 where
  -- Negative during a replay.
  pub allocated_bytes : ℤ
  pub uncommitted_allocated_bytes : ℕ
  pub reserved_bytes : ℕ
  pub committed_deallocated_bytes : ℕ

-- `default()`
abbrev pub no_bytes : ByteTracking
no_bytes = record {
  allocated_bytes = pos 0;
  uncommitted_allocated_bytes = 0;
  reserved_bytes = 0;
  committed_deallocated_bytes = 0;
}

unfoldable pub tracked_used : ByteTracking → Outcome ℕ
tracked_used b = do
  sum ← add_u64 (as_u64 b.allocated_bytes) b.uncommitted_allocated_bytes
  add_u64 sum b.reserved_bytes

unfoldable pub tracked_unavailable : ByteTracking → Outcome ℕ
tracked_unavailable b = do
  sum ← add_u64 (as_u64 b.allocated_bytes) b.uncommitted_allocated_bytes
  add_u64 sum b.committed_deallocated_bytes

pub record CommittedDeallocation : Type 0 where
  pub log_file_offset : ℕ
  pub range : Range
  pub owner_object_id : ℕ

pub record AllocatorInfo : Type 0 where
  pub layers : List ℕ
  pub allocated_bytes : Map ℕ
  pub marked_for_deletion : List ℕ
  pub limit_bytes : Map ℕ

pub record Inner : Type 0 where
  pub info : AllocatorInfo
  pub opened : Bool
  pub dropped_allocations : List AllocatorItem
  pub owner_bytes : Map ByteTracking
  pub unattributed_reserved_bytes : ℕ
  -- The oldest first.
  pub committed_deallocated : List CommittedDeallocation
  -- The log offset and the bytes.
  pub committed_marked_for_deletion : Map (ℕ × ℕ)

-- `sum()`
unfoldable pub sum_u64 : {V : Type 0} → (V → Outcome ℕ) → Map V → Outcome ℕ
sum_u64 f [] = ok 0
sum_u64 f ((k, v) ∷ m) = do rest ← sum_u64 f m; n ← f v; add_u64 n rest

unfoldable pub allocated_bytes : Map ByteTracking → Outcome ℤ
allocated_bytes [] = ok (pos 0)
allocated_bytes ((k, b) ∷ m) = do rest ← allocated_bytes m; add_i64 b.allocated_bytes rest

unfoldable pub owner_id_limit_bytes : Inner → ℕ → ℕ
owner_id_limit_bytes i owner_object_id = get_or_default u64_max owner_object_id i.info.limit_bytes

unfoldable pub used_by : Inner → ℕ → Outcome ℕ
unfolding tracked_used
used_by i owner_object_id = elim (get owner_object_id i.owner_bytes) [
  | none ↦ ok 0
  | some b ↦ tracked_used b
]

unfoldable pub owner_id_bytes_left : Inner → ℕ → Outcome ℕ
unfolding owner_id_limit_bytes used_by
owner_id_bytes_left i owner_object_id = do
  used ← used_by i owner_object_id
  ok (
      if ltb used (owner_id_limit_bytes i owner_object_id)
      then owner_id_limit_bytes i owner_object_id - used
      else 0)

unfoldable pub unavailable_bytes : Inner → Outcome ℕ
unfolding sum_u64 tracked_unavailable
unavailable_bytes i = do
  bytes ← sum_u64 tracked_unavailable i.owner_bytes
  marked ← sum_u64 (λ v. ok v.1) i.committed_marked_for_deletion
  add_u64 bytes marked

unfoldable pub used_bytes : Inner → Outcome ℕ
unfolding sum_u64 tracked_used
used_bytes i = do
  bytes ← sum_u64 tracked_used i.owner_bytes
  add_u64 bytes i.unattributed_reserved_bytes

abbrev pub entry : Inner → ℕ → ByteTracking
entry i owner = get_or_default no_bytes owner i.owner_bytes

abbrev pub set_entry : Inner → ℕ → ByteTracking → Inner
set_entry i owner b = record i { owner_bytes = put owner b i.owner_bytes }

unfoldable pub add_reservation : Inner → Option ℕ → ℕ → Outcome Inner
add_reservation i (some owner) amount = do
  sum ← add_u64 (entry i owner).reserved_bytes amount
  ok (set_entry i owner (record (entry i owner) { reserved_bytes = sum }))
add_reservation i none amount = do
  sum ← add_u64 i.unattributed_reserved_bytes amount
  ok (record i { unattributed_reserved_bytes = sum })

unfoldable pub remove_reservation : Inner → Option ℕ → ℕ → Outcome Inner
remove_reservation i (some owner) amount = do
  assert (leb amount (entry i owner).reserved_bytes)
  ok (
      set_entry i owner
        (record (entry i owner) { reserved_bytes = (entry i owner).reserved_bytes - amount }))
remove_reservation i none amount = do
  assert (leb amount i.unattributed_reserved_bytes)
  ok (record i { unattributed_reserved_bytes = i.unattributed_reserved_bytes - amount })

-- What a reservation may take.
unfoldable pub limit_of : ℕ → Inner → Option ℕ → Outcome ℕ
unfolding owner_id_bytes_left used_bytes
limit_of device_size i (some owner) = do
  left ← owner_id_bytes_left i owner
  used ← used_bytes i
  free ← sub_u64 device_size used
  ok (min left free)
limit_of device_size i none = do used ← used_bytes i; sub_u64 device_size used

unfoldable pub reserve : ℕ → Inner → Option ℕ → ℕ → Outcome (Inner × Option Reservation)
unfolding limit_of add_reservation
reserve device_size i owner_object_id amount = do
  limit ← limit_of device_size i owner_object_id
  if ltb limit amount then ok (i, none) else (do
    i' ← add_reservation i owner_object_id amount
    ok (i', some (Reservation.new owner_object_id amount)))

unfoldable pub reserve_at_most : ℕ → Inner → Option ℕ → ℕ → Outcome (Inner × Reservation)
unfolding limit_of add_reservation
reserve_at_most device_size i owner_object_id amount = do
  limit ← limit_of device_size i owner_object_id
  i' ← add_reservation i owner_object_id (min limit amount)
  ok (i', Reservation.new owner_object_id (min limit amount))

abbrev pub release_reservation : Inner → Option ℕ → ℕ → Outcome Inner
unfolding remove_reservation
release_reservation i owner_object_id amount = remove_reservation i owner_object_id amount

unfoldable pub disown_reservation : Inner → Option ℕ → ℕ → Outcome Inner
unfolding remove_reservation add_reservation
disown_reservation i none amount = ok i
disown_reservation i (some owner) amount =
    if amount == 0
    then ok i
    else (do i' ← remove_reservation i (some owner) amount; add_reservation i' none amount)

unfoldable pub needs_sync : ℕ → Inner → Outcome Bool
unfolding unavailable_bytes
needs_sync device_size i = do bytes ← unavailable_bytes i; ok (leb device_size bytes)
