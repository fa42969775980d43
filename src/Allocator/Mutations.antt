-- ===== src/Allocator/Mutations.antt =====
-- `SimpleAllocator` of src/object_store/allocator.rs, as a journaling object: `apply_mutation`,
-- `drop_mutation` and `did_flush_device`. The calls of one operation are one step. The tree's
-- `merge_into` is on fuel: without enough, this panics.
pub mod Conserved
use Prim.Native.Nat.{Ordering}
use fxfs_on_linux.Common.{
  ℕ, ◌+◌, ◌-◌, Bool, true, false, ◌&&◌, Option, List, [], ◌∷◌, ◌++◌, map, leb, ◌==◌, if◌then◌else◌,
  Outcome, unwrap, ok, err, panic, internal, assert, ◌>>◌, ◌>>=◌, sub_u64, add_u64, Map, get, put,
  remove, get_or_default, ℤ, pos, as_u64, as_i64, saturating_add, saturating_sub, sub_i64,
}
use fxfs_on_linux.Util.Range
use fxfs_on_linux.Util.Range.{Range}
use fxfs_on_linux.Transaction.{
  AllocatorMutation, allocate, deallocate, set_limit, mark_for_deletion, Mutation, allocator,
  begin_flush, end_flush,
}
use fxfs_on_linux.Lsm.Layer.{
  LayerKey, LsmTree, insert, erase, seal, reset_immutable_layers, tree_merge_into,
}
use fxfs_on_linux.Allocator.Key.{
  AllocatorKey, AllocatorValue, abs, AllocatorItem, cmp_upper_bound, lower_bound_for_merge_into,
  AllocatorKey_lower_bound,
}
use fxfs_on_linux.Allocator.Merge.{merge}
use fxfs_on_linux.Allocator.Reservation
use fxfs_on_linux.Allocator.Reservation.{Reservation, add, commit}
use fxfs_on_linux.Allocator.Accounting.{
  ByteTracking, CommittedDeallocation, AllocatorInfo, Inner, entry, set_entry, add_reservation,
}

-- `==` on keys
abbrev pub same_key : AllocatorKey → AllocatorKey → Bool
same_key j k =
    (j.device_range.start == k.device_range.start) && (j.device_range.end == k.device_range.end)

instance abbrev pub AllocatorKey_layer : LayerKey AllocatorKey
unfolding cmp_upper_bound
AllocatorKey_layer = record { cmp_upper_bound = cmp_upper_bound; same = same_key }

pub record SimpleAllocator : Type 0 where
  pub block_size : ℕ
  pub device_size : ℕ
  pub tree : LsmTree AllocatorKey AllocatorValue
  pub reserved_allocations : List AllocatorItem
  pub inner : Inner

-- Live, with the reservation of the transaction, if it has one.
pub data ApplyMode : Type 0 where
  replay : ApplyMode
  live : Option Reservation → ApplyMode

abbrev pub is_live : ApplyMode → Bool
is_live replay = false
is_live (live r) = true

-- The context of a mutation: its mode, and the file offset of its checkpoint.
pub record ApplyContext : Type 0 where
  pub mode : ApplyMode
  pub file_offset : ℕ

abbrev pub unwrap_option {ℓ} : {A : Type ℓ} → Option A → Outcome A
unwrap_option Option.none = panic
unwrap_option (Option.some a) = ok a

abbrev pub item_of : Range → AllocatorValue → ℕ → AllocatorItem
item_of r value sequence = record {
  key = record { device_range = r };
  value = value;
  sequence = sequence;
}

-- The state of the allocator, and the reservation of the transaction.
abbrev pub Applied : Type 0
Applied = SimpleAllocator × Option Reservation

abbrev pub reservation_of : ApplyMode → Option Reservation
reservation_of replay = Option.none
reservation_of (live r) = r

abbrev pub in_reservation :
    (Reservation → Outcome Reservation) → Option Reservation → Outcome (Option Reservation)
in_reservation f Option.none = ok Option.none
in_reservation f (Option.some r) = do r' ← f r; ok (Option.some r')

-- Of a live allocation, the bytes are no longer uncommitted, and the reservation's hold is used up.
unfoldable pub count_allocated : Inner → ApplyContext → ℕ → ℕ → Outcome (Inner × Option Reservation)
unfolding commit
count_allocated i context owner len =
    let b = entry i owner in
    let counted = record b { allocated_bytes = saturating_add b.allocated_bytes (as_i64 len) } in
    if is_live context.mode
    then (do
      uncommitted ← sub_u64 b.uncommitted_allocated_bytes len
      left ← in_reservation (λ x. commit x len) (reservation_of context.mode)
      ok (set_entry i owner (record counted { uncommitted_allocated_bytes = uncommitted }), left))
    else ok (set_entry i owner counted, Option.none)

-- What a live deallocation adds to the counters, for its owner, and to the reservation.
unfoldable pub add_freed : Inner → Option Reservation → ℕ → Outcome (Inner × Option Reservation)
unfolding add_reservation add
add_freed i Option.none len = ok (i, Option.none)
add_freed i (Option.some r) len = do
  i' ← add_reservation i r.owner_object_id len
  r' ← add r len
  ok (i', Option.some r')

unfoldable pub count_freed :
    Inner → ApplyContext → Range → ℕ → ℕ → Outcome (Inner × Option Reservation)
unfolding add_freed
count_freed i context r owner len =
    let b = entry i owner in
    let counted = record b { allocated_bytes = saturating_sub b.allocated_bytes (as_i64 len) } in
    if is_live context.mode
    then (do
      committed ← add_u64 b.committed_deallocated_bytes len
      let i' = set_entry i owner (record counted { committed_deallocated_bytes = committed })
      let dealloc : CommittedDeallocation = record {
        log_file_offset = context.file_offset;
        range = r;
        owner_object_id = owner;
      }
      add_freed (record i' { committed_deallocated = i.committed_deallocated ++ dealloc ∷ [] })
          (reservation_of context.mode) len)
    else ok (set_entry i owner counted, Option.none)

-- The set of the marked owners is a list, in which an id may stand twice.
abbrev pub forget_owner : Inner → ApplyContext → ℕ → Inner
forget_owner i context owner = elim (get owner i.owner_bytes) [
  | Option.none ↦ i
  | Option.some b ↦
      let i' = set_entry i owner (record b { allocated_bytes = pos 0 }) in
      if is_live context.mode
      then record i' {
        committed_marked_for_deletion =
            put owner (context.file_offset, as_u64 b.allocated_bytes)
              i.committed_marked_for_deletion;
      }
      else record i' {
        info = record i.info { marked_for_deletion = owner ∷ i.info.marked_for_deletion };
      }
]

unfoldable pub apply_mark_for_deletion : Inner → ApplyContext → ℕ → Inner
apply_mark_for_deletion i context owner =
    let i' = forget_owner i context owner in
    record i' { info = record i'.info { limit_bytes = remove owner i'.info.limit_bytes } }

-- The running count, for the info file that is written when the flush completes.
unfoldable pub apply_begin_flush : SimpleAllocator → SimpleAllocator
unfolding seal
apply_begin_flush a = record a {
  tree = seal a.tree;
  inner = record a.inner {
    info = record a.inner.info {
      allocated_bytes = map (λ (k, b). (k, as_u64 b.allocated_bytes)) a.inner.owner_bytes;
    };
  };
}

-- On replay, the counts of the info file are taken off, so that what is left is the change since.
unfoldable pub subtract_counts : Map ℕ → Inner → Outcome Inner
subtract_counts [] i = ok i
subtract_counts ((owner, bytes) ∷ rest) i = do
  left ← sub_i64 (entry i owner).allocated_bytes (as_i64 bytes)
  subtract_counts rest (set_entry i owner (record (entry i owner) { allocated_bytes = left }))

unfoldable pub apply_end_flush : SimpleAllocator → ApplyContext → Outcome SimpleAllocator
unfolding subtract_counts
apply_end_flush a context = if is_live context.mode then ok a else (do
  inner ← subtract_counts a.inner.info.allocated_bytes a.inner
  ok (record a { tree = reset_immutable_layers a.tree; inner = inner }))

module _ (fuel : ℕ) where
  unfoldable pub merge_item : SimpleAllocator → AllocatorItem → Outcome SimpleAllocator
  unfolding tree_merge_into lower_bound_for_merge_into
  merge_item a item = do
    tree ←
        unwrap_option (tree_merge_into fuel merge a.tree item (lower_bound_for_merge_into item.key))
    ok (record a { tree = tree })

  unfoldable pub apply_allocate : SimpleAllocator → ApplyContext → Range → ℕ → Outcome Applied
  unfolding erase Range.length count_allocated merge_item
  apply_allocate a context r owner = do
    let item = item_of r (abs 1 owner) context.file_offset
    len ← unwrap (Range.length r)
    merged ← merge_item a item
    let reserved =
        if is_live context.mode
        then erase merged.reserved_allocations item.key
        else merged.reserved_allocations
    (inner, left) ← count_allocated merged.inner context owner len
    ok (record merged { reserved_allocations = reserved; inner = inner }, left)

  unfoldable pub apply_deallocate : SimpleAllocator → ApplyContext → Range → ℕ → Outcome Applied
  unfolding insert Range.length count_freed merge_item
  apply_deallocate a context r owner = do
    len ← unwrap (Range.length r)
    reserved ←
        (if is_live context.mode
          then unwrap (insert a.reserved_allocations (item_of r (abs 1 owner) context.file_offset))
          else ok a.reserved_allocations)
    (inner, left) ← count_freed a.inner context r owner len
    merged ←
        merge_item (record a { reserved_allocations = reserved; inner = inner })
          (item_of r AllocatorValue.none context.file_offset)
    ok (merged, left)

  -- A mutation that is not the allocator's is an error that is not of `errors.rs`.
  unfoldable pub apply_mutation :
      {W : Type 0} → SimpleAllocator → Mutation W → ApplyContext → Outcome Applied
  unfolding apply_allocate apply_deallocate apply_mark_for_deletion apply_begin_flush
      apply_end_flush
  apply_mutation a (allocator (allocate r owner)) context = apply_allocate a context r owner
  apply_mutation a (allocator (deallocate r owner)) context = apply_deallocate a context r owner
  apply_mutation a (allocator (mark_for_deletion owner)) context = ok (
    record a { inner = apply_mark_for_deletion a.inner context owner },
    reservation_of context.mode,
  )
  apply_mutation a (allocator (set_limit owner bytes)) context = ok (
    record a {
      inner = record a.inner {
        info = record a.inner.info { limit_bytes = put owner bytes a.inner.info.limit_bytes };
      };
    },
    reservation_of context.mode,
  )
  apply_mutation a begin_flush context = ok (apply_begin_flush a, reservation_of context.mode)
  apply_mutation a end_flush context = do
    a' ← apply_end_flush a context
    ok (a', reservation_of context.mode)
  apply_mutation a _ context = err internal

-- What becomes of the reservation of a transaction that is dropped: the bytes go back to its hold.
unfoldable pub return_bytes : Inner → Option Reservation → ℕ → Outcome (Inner × Option Reservation)
unfolding add_reservation Reservation.release_reservation
return_bytes i Option.none len = ok (i, Option.none)
return_bytes i (Option.some r) len = do
  i' ← add_reservation i r.owner_object_id len
  r' ← Reservation.release_reservation r r.owner_object_id len
  ok (i', Option.some r')

unfoldable pub drop_allocate :
    Inner → Option Reservation → Range → ℕ → Outcome (Inner × Option Reservation)
unfolding Range.length return_bytes
drop_allocate i reservation r owner = do
  len ← unwrap (Range.length r)
  let b = entry i owner
  uncommitted ← sub_u64 b.uncommitted_allocated_bytes len
  (i', left) ←
      return_bytes (set_entry i owner (record b { uncommitted_allocated_bytes = uncommitted }))
        reservation len
  ok (
    record i' { dropped_allocations = i'.dropped_allocations ++ item_of r (abs 1 owner) 0 ∷ [] },
    left,
  )

-- Only an allocation has something to undo.
unfoldable pub drop_mutation :
    {W : Type 0} → SimpleAllocator → Mutation W → Option Reservation → Outcome Applied
unfolding drop_allocate
drop_mutation a (allocator (allocate r owner)) reservation = do
  (inner, left) ← drop_allocate a.inner reservation r owner
  ok (record a { inner = inner }, left)
drop_mutation a _ reservation = ok (a, reservation)
