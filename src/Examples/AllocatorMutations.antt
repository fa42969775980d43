-- ===== src/Examples/AllocatorMutations.antt =====
-- Mutations of the allocator, and the ends of an allocation, at concrete ranges
-- (src/object_store/allocator.rs).
use fxfs_on_linux.Common.{
  ◌+◌, ◌≡◌, refl, [], ◌∷◌, false, none, some, ok, err, no_space, Returns, pos, arith,
}
use fxfs_on_linux.Util.Range
use fxfs_on_linux.Util.Range.{range}
use fxfs_on_linux.Allocator.Key.{abs, cmp_upper_bound, lower_bound_for_merge_into}
use fxfs_on_linux.Allocator.Merge.{merge}
use fxfs_on_linux.Allocator.Reservation.{Reservation}
use fxfs_on_linux.Allocator.Accounting.Totals.{used_total, reserved_for}
use fxfs_on_linux.Allocator.Mutations.{
  apply_mutation, drop_mutation, live, replay, item_of, count_allocated, AllocatorKey_layer,
}
use fxfs_on_linux.Transaction.{allocator, allocate}
use fxfs_on_linux.Allocator.Allocate.{reserve_space, take_space, mark_allocated}
use fxfs_on_linux.Allocator.Allocate.Taken.{take_space-Moves}
use fxfs_on_linux.Examples.AllocatorCore
use fxfs_on_linux.Examples.AllocatorCore.{inner, owner_bytes, waiting, reservation}

-- Replaying an allocation puts it into the tree, and raises the count of its owner.
replay_allocate :
    apply_mutation 4096 {W = Unit {0}} AllocatorCore.allocator
      (allocator (allocate (range 4096 4608) 1))
      (record { mode = replay; file_offset = 9 })
    ≡ ok (
      record AllocatorCore.allocator {
        tree = record { mutable_layer = item_of (range 4096 4608) (abs 1 1) 9 ∷ []; layers = [] };
        inner = record inner {
          owner_bytes = (1, record owner_bytes { allocated_bytes = pos 1536 }) ∷ [];
        };
      },
      none,
    )
unfolding apply_mutation Range.length Range.is_valid merge cmp_upper_bound
    lower_bound_for_merge_into
replay_allocate = refl

-- The bytes of a dropped allocation go back to the reservation.
drop_in_reservation :
    drop_mutation {W = Unit {0}} AllocatorCore.allocator
      (allocator (allocate (range 0 512) 1))
      (some reservation)
    ≡ ok (
      record AllocatorCore.allocator {
        inner = record inner {
          owner_bytes =
              (1, record owner_bytes { uncommitted_allocated_bytes = 0; reserved_bytes = 1024 })
              ∷ [];
          dropped_allocations = item_of (range 0 512) (abs 1 1) 0 ∷ [];
        };
      },
      some (record reservation { reserved = 0 }),
    )
unfolding drop_mutation Range.length Range.is_valid
drop_in_reservation = refl

abbrev whole : Reservation
whole = record { owner_object_id = some 1; amount = 512; reserved = 0 }

-- Marking a range in a reservation of all of the reserved bytes: the bytes become uncommitted, and
-- stay reserved.
mark_reserved :
    mark_allocated AllocatorCore.allocator (some whole) 1 (range 4096 4608)
    ≡ ok (
      record AllocatorCore.allocator {
        reserved_allocations =
            item_of (range 2048 2560) (abs 1 1) 100 ∷ item_of (range 4096 4608) (abs 1 1) 0 ∷ [];
        inner = record inner {
          owner_bytes = (1, record owner_bytes { uncommitted_allocated_bytes = 1024 }) ∷ [];
        };
      },
      some (record whole { reserved = 512 }),
    )
unfolding mark_allocated Range.is_valid cmp_upper_bound
mark_reserved = refl

-- When that is committed, the reservation is used up, and the counter still has its bytes.
commit_marked :
    count_allocated
      (record inner {
        owner_bytes = (1, record owner_bytes { uncommitted_allocated_bytes = 1024 }) ∷ [];
      })
      (record { mode = live (some (record whole { reserved = 512 })); file_offset = 9 })
      1
      512
    ≡ ok (
      record inner { owner_bytes = (1, record owner_bytes { allocated_bytes = pos 1536 }) ∷ [] },
      some (record whole { amount = 0 }),
    )
unfolding count_allocated
commit_marked = refl

abbrev hold : Reservation
hold = record { owner_object_id = some 1; amount = 512; reserved = 0 }

-- Of 4096 bytes that are asked for, the limit of the owner leaves 1024.
reserve_to_limit :
    reserve_space 512 8192 false inner none 1 4096
    ≡ ok (
      record inner { owner_bytes = (1, record owner_bytes { reserved_bytes = 1536 }) ∷ [] },
      none,
      record { owner_object_id = some 1; amount = 1024; reserved = 0 },
    )
unfolding reserve_space
reserve_to_limit = refl

-- Its owner has no more than 1024 bytes left.
mark_too_much : mark_allocated AllocatorCore.allocator none 1 (range 4096 6144) ≡ err no_space
unfolding mark_allocated Range.is_valid
mark_too_much = refl

take_space-Moves_example : Returns (take_space inner hold 1 (range 512 1024)) λ (i', hold').
    (used_total i' ≡ used_total inner)
    × (reserved_for i' (some 1) + 512 ≡ reserved_for inner (some 1))
    × (hold'.amount + 512 ≡ 512)
    × (hold'.reserved ≡ 0)
take_space-Moves_example =
    take_space-Moves inner hold 1 (range 512 1024) (omega arith) (omega arith) refl refl
      (omega arith) (omega arith)
