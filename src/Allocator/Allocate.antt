-- ===== src/Allocator/Allocate.antt =====
-- The accounting at both ends of `SimpleAllocator::allocate` of src/object_store/allocator.rs, around
-- the search for a gap, and `mark_allocated`. What `transaction.add` is given is not kept: it is
-- the range with its owner.
pub mod Taken
use fxfs_on_linux.Common.{
  ℕ, ◌+◌, ◌-◌, Bool, true, false, not, ◌&&◌, Option, none, some, min, leb, ◌==◌, if◌then◌else◌,
  Outcome, ok, err, panic, unwrap, assert, ensure, ◌>>◌, ◌>>=◌, sub_u64, add_u64, no_space,
  invalid_args,
}
use fxfs_on_linux.Util.Range
use fxfs_on_linux.Util.Range.{Range, is_valid}
use fxfs_on_linux.Util.Round.{round_down}
use fxfs_on_linux.Lsm.Layer.{insert}
use fxfs_on_linux.Allocator.Key.{abs}
use fxfs_on_linux.Allocator.Reservation
use fxfs_on_linux.Allocator.Reservation.{Reservation, forget, forget_some}
use fxfs_on_linux.Allocator.Accounting.{
  ByteTracking, Inner, entry, set_entry, owner_id_bytes_left, used_bytes, remove_reservation,
}
use fxfs_on_linux.Allocator.Mutations.{SimpleAllocator, AllocatorKey_layer, item_of, Applied}

-- Without an owner, a reservation is for the system stores.
abbrev pub check_reservation_owner : (is_system_store : Bool) → ℕ → Option ℕ → Outcome (Unit {0})
check_reservation_owner is_system_store owner none = assert is_system_store
check_reservation_owner is_system_store owner (some o) = assert (owner == o)

-- The counters and the transaction's reservation after it, and the hold on the bytes to search for.
unfoldable pub reserve_space :
    (block_size device_size : ℕ) (is_system_store : Bool)
    → Inner
    → Option Reservation
    → (owner len : ℕ) → Outcome (Inner × Option Reservation × Reservation)
unfolding owner_id_bytes_left used_bytes round_down Reservation.reserve_at_most
reserve_space block_size device_size is_system_store i (some r) owner len = do
  check_reservation_owner is_system_store owner r.owner_object_id
  (r', hold) ← Reservation.reserve_at_most r len
  ok (i, some r', hold)
reserve_space block_size device_size is_system_store i none owner len = do
  assert i.opened
  device_used ← used_bytes i
  left ← owner_id_bytes_left i owner
  free ← sub_u64 device_size device_used
  rounded ← round_down (min len (min left free)) block_size
  sum ← add_u64 (entry i owner).reserved_bytes rounded
  ok (
    set_entry i owner (record (entry i owner) { reserved_bytes = sum }),
    none,
    Reservation.new (some owner) rounded,
  )

abbrev pub owner_or : ℕ → Option ℕ → ℕ
owner_or owner none = owner
owner_or owner (some o) = o

-- The range that was found: its bytes are uncommitted, and no longer reserved.
unfoldable pub take_space :
    Inner → Reservation → (owner : ℕ) → Range → Outcome (Inner × Reservation)
unfolding Range.length forget_some remove_reservation
take_space i hold owner r = do
  len ← unwrap (Range.length r)
  hold' ← forget_some hold len
  sum ← add_u64 (entry i owner).uncommitted_allocated_bytes len
  assert (owner == owner_or owner hold.owner_object_id)
  i' ←
      remove_reservation
        (set_entry i owner (record (entry i owner) { uncommitted_allocated_bytes = sum }))
        hold.owner_object_id len
  ok (i', hold')

-- The transaction takes over a hold on the bytes.
unfoldable pub take_hold : Option Reservation → ℕ → Outcome (Option Reservation)
unfolding Reservation.reserve forget
take_hold none len = ok none
take_hold (some r) len = do
  (r', hold) ← Reservation.reserve r len
  elim hold [ none ↦ err no_space | some h ↦ do forgotten ← forget h; ok (some r') ]

-- The id 0 is invalid.
unfoldable pub mark_allocated :
    SimpleAllocator → Option Reservation → (owner : ℕ) → Range → Outcome Applied
unfolding is_valid used_bytes owner_id_bytes_left take_hold insert
mark_allocated a reservation owner r = do
  assert (not (owner == 0))
  ensure (is_valid r) invalid_args
  let len = r.end - r.start
  device_used ← used_bytes a.inner
  left ← owner_id_bytes_left a.inner owner
  ensure (leb r.end a.device_size) no_space
  free ← sub_u64 a.device_size device_used
  ensure (leb len free && leb len left) no_space
  reservation' ← take_hold reservation len
  let b = entry a.inner owner
  sum ← add_u64 b.uncommitted_allocated_bytes len
  reserved ← unwrap (insert a.reserved_allocations (item_of r (abs 1 owner) 0))
  ok (
    record a {
      reserved_allocations = reserved;
      inner = set_entry a.inner owner (record b { uncommitted_allocated_bytes = sum });
    },
    reservation',
  )
