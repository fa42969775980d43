-- ===== src/ObjectManager/Held.antt =====
-- The end of a transaction that holds metadata space of a reservation of its own
-- (`did_commit_transaction` of src/object_store/object_manager.rs).
use fxfs_on_linux.Common.{ℕ, ◌+◌, ◌≡◌, none, some}
use fxfs_on_linux.Allocator.Accounting.{Inner}
use fxfs_on_linux.Allocator.Accounting.Totals.{used_total, reserved_for}
use fxfs_on_linux.Allocator.Reservation
use fxfs_on_linux.Allocator.Reservation.{Reservation}

-- An amount moved from the reservation of an owner to one of none: on the reservations, and on the
-- allocator's counters alike.
abbrev pub IsMoved : ℕ → (before after : Inner) → (r r' txn txn' : Reservation) → Type 0
IsMoved owner before after r r' txn txn' =
    (r'.amount + txn'.amount ≡ r.amount + txn.amount)
    × (reserved_for after none + r.amount ≡ reserved_for before none + r'.amount)
    × (reserved_for after (some owner) + txn.amount
        ≡ reserved_for before (some owner) + txn'.amount)
    × (used_total after ≡ used_total before)
