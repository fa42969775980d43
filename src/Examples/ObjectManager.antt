-- ===== src/Examples/ObjectManager.antt =====
-- The object manager (src/object_store/object_manager.rs) at concrete numbers.
use fxfs_on_linux.Common.{
  ℕ, ◌+◌, ◌≡◌, ◌≢◌, refl, List, [], ◌∷◌, none, some, true, pos, get, ok, ◌>>=◌, Returns, arith,
}
use fxfs_on_linux.Allocator.Reservation
use fxfs_on_linux.Allocator.Reservation.{Reservation, ReservationOwner}
use fxfs_on_linux.Journal.Stream.{JournalCheckpoint}
use fxfs_on_linux.Transaction.{Mutation, update_borrowed, encrypted_object_store}
use fxfs_on_linux.ObjectManager.{
  current, Manager, reserved_space, earliest_offset, required_reservation, update_borrowed_space,
  did_commit_borrowed,
}
use fxfs_on_linux.ObjectManager.Balance.{allocator_owner, IsReleased, IsBalanced, commit-IsBalanced}
use fxfs_on_linux.Allocator.Accounting.{Inner}
use fxfs_on_linux.ObjectManager.Dependencies.{note_flush, first_entry, flush-first_entry}

abbrev at_offset : ℕ → JournalCheckpoint
at_offset n = record { file_offset = n; checksum = 0; version = 1 }

-- Object 5 depends on the journal from 4096 on, object 6 from 8192 on.
abbrev two_objects : Manager
two_objects = record {
  root_parent_store_object_id = 3;
  journal_checkpoints = (5, current (at_offset 4096)) ∷ (6, current (at_offset 8192)) ∷ [];
  reservations = (5, 65536) ∷ [];
  last_end_offset = 12288;
  borrowed_metadata_space = 1000;
  max_transaction_size = 100;
}

required_two : required_reservation two_objects ≡ ok (65536 + 32768 + reserved_space)
unfolding required_reservation
required_two = refl

-- Owner 9 has reserved 98304 bytes, 5000 of them held for the transaction's metadata.
abbrev owner_9 : Inner
owner_9 = record {
  info = record { layers = []; allocated_bytes = []; marked_for_deletion = []; limit_bytes = [] };
  opened = true;
  dropped_allocations = [];
  owner_bytes =
      (
        9,
        record {
          allocated_bytes = pos 0;
          uncommitted_allocated_bytes = 0;
          reserved_bytes = 98304;
          committed_deallocated_bytes = 0;
        },
      )
      ∷ [];
  unattributed_reserved_bytes = 1200000;
  committed_deallocated = [];
  committed_marked_for_deletion = [];
}

-- Before the transaction 1149000 bytes were reserved, at its end 1200000.
commit-IsBalanced_example :
    Returns
      (update_borrowed_space 1149000 1150000 1200000 two_objects >>= λ m1.
        did_commit_borrowed allocator_owner 12388 owner_9 m1 (Reservation.new none 1200000))
      λ t.
        IsBalanced t.1 t.2
        × (t.1.last_end_offset ≡ 12388)
        × IsReleased owner_9 t.0 (Reservation.new none 1200000) t.2
unfolding earliest_offset
commit-IsBalanced_example =
    commit-IsBalanced 1149000 1150000 12388 4096 owner_9 two_objects (Reservation.new none 1200000)
      refl (omega arith) (omega arith) refl refl (omega arith) (omega arith) (omega arith)
      (omega arith)

-- Two mutations while object 5 is flushed.
abbrev two_mutations : List (Mutation ℕ × JournalCheckpoint)
two_mutations =
    (encrypted_object_store [], at_offset 12400) ∷ (update_borrowed 7, at_offset 12500) ∷ []

flush-first_entry_example :
    (get 5
        (note_flush 5 two_mutations
          (at_offset 12300)
          (at_offset 12600)
          two_objects).journal_checkpoints
      ≡ first_entry two_mutations)
    × ((j : ℕ)
        → j ≢ 5
        → get j
            (note_flush 5 two_mutations
              (at_offset 12300)
              (at_offset 12600)
              two_objects).journal_checkpoints
          ≡ get j two_objects.journal_checkpoints)
flush-first_entry_example =
    flush-first_entry 5 two_mutations (at_offset 12300) (at_offset 12600) two_objects (tt, (tt, tt))
      (omega arith)

abbrev with_hold : Reservation
with_hold = record { owner_object_id = some 9; amount = 98304; reserved = 5000 }
