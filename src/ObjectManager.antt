-- ===== src/ObjectManager.antt =====
-- `ObjectManager` of src/object_store/object_manager.rs: on which journal records the objects depend,
-- and the space that is reserved for metadata. The stores that it has are left out; the
-- allocator is its byte counters.
pub mod Balance
pub mod Dependencies
pub mod Held
use fxfs_on_linux.Common.{
  ℕ, ◌+◌, ◌-◌, ◌*◌, List, [], ◌∷◌, Option, none, some, min, max, leb, ltb, ◌==◌, if◌then◌else◌, Map,
  get, put, remove, Outcome, ok, panic, assert, inconsistent, ensure, ◌>>=◌, ◌>>◌, u64_max, add_u64,
  sub_u64,
}
use fxfs_on_linux.Allocator.Reservation
use fxfs_on_linux.Allocator.Reservation.{Reservation, ReservationOwner, same_id}
use fxfs_on_linux.Allocator.Accounting.{Inner, disown_reservation}
use fxfs_on_linux.Journal.Stream.{JournalCheckpoint}
use fxfs_on_linux.Transaction.{Mutation, begin_flush, end_flush, delete_volume}

-- `journal::RESERVED_SPACE`
abbrev pub reserved_space : ℕ
reserved_space = 1048576

unfoldable pub reserved_space_from_journal_usage : ℕ → Outcome ℕ
reserved_space_from_journal_usage journal_usage =
    if leb (journal_usage * 4) u64_max then ok (journal_usage * 4) else panic

pub data Checkpoints : Type 0 where
  current : JournalCheckpoint → Checkpoints
  old : JournalCheckpoint → Checkpoints
  both : (old_one current_one : JournalCheckpoint) → Checkpoints

abbrev pub earliest : Checkpoints → JournalCheckpoint
earliest (current x) = x
earliest (old x) = x
earliest (both x y) = x

pub record Manager : Type 0 where
  pub root_parent_store_object_id : ℕ
  pub journal_checkpoints : Map Checkpoints
  pub reservations : Map ℕ
  pub last_end_offset : ℕ
  pub borrowed_metadata_space : ℕ
  pub max_transaction_size : ℕ

abbrev pub new : Manager
new = record {
  root_parent_store_object_id = 0;
  journal_checkpoints = [];
  reservations = [];
  last_end_offset = 0;
  borrowed_metadata_space = 0;
  max_transaction_size = 0;
}

-- `values().max().unwrap_or(&0)`
abbrev pub max_value : Map ℕ → ℕ
max_value [] = 0
max_value ((k, v) ∷ m) = max v (max_value m)

abbrev pub min_with : ℕ → Option ℕ → ℕ
min_with n none = n
min_with n (some m) = min n m

-- The least of the earliest offsets.
unfoldable pub earliest_offset : Map Checkpoints → Option ℕ
earliest_offset [] = none
earliest_offset ((k, c) ∷ m) = some (min_with (earliest c).file_offset (earliest_offset m))

abbrev pub journal_space : ℕ → Option ℕ → Outcome ℕ
journal_space last_end_offset none = ok 0
journal_space last_end_offset (some least) = do
  usage ← sub_u64 last_end_offset least
  reserved_space_from_journal_usage usage

unfoldable pub required_reservation : Manager → Outcome ℕ
unfolding reserved_space_from_journal_usage earliest_offset
required_reservation m = do
  space ← journal_space m.last_end_offset (earliest_offset m.journal_checkpoints)
  sum ← add_u64 (max_value m.reservations) space
  add_u64 sum reserved_space

-- The entry of an object at the start of its flush, at the end, and with a mutation.
abbrev pub begin_entry : Checkpoints → Checkpoints
begin_entry (current x) = old x
begin_entry (both x y) = old x
begin_entry (old x) = old x

abbrev pub end_entry : Checkpoints → Option Checkpoints
end_entry (old x) = none
end_entry (both x y) = some (current y)
end_entry (current x) = some (current x)

abbrev pub mutate_entry : JournalCheckpoint → Option Checkpoints → Checkpoints
mutate_entry checkpoint none = current checkpoint
mutate_entry checkpoint (some (old x)) = both x checkpoint
mutate_entry checkpoint (some c) = c

abbrev pub put_entry : ℕ → Option Checkpoints → Map Checkpoints → Map Checkpoints
put_entry object_id none m = remove object_id m
put_entry object_id (some c) m = put object_id c m

module _ {W : Type 0} where
  -- `apply_mutation`, before the object applies the mutation itself.
  unfoldable pub note_mutation : ℕ → Mutation W → JournalCheckpoint → Manager → Manager
  note_mutation object_id begin_flush checkpoint m = elim (get object_id m.journal_checkpoints) [
    | none ↦ m
    | some c ↦ record m {
      journal_checkpoints = put object_id (begin_entry c) m.journal_checkpoints;
    }
  ]
  note_mutation object_id end_flush checkpoint m = elim (get object_id m.journal_checkpoints) [
    | none ↦ m
    | some c ↦ record m {
      journal_checkpoints = put_entry object_id (end_entry c) m.journal_checkpoints;
    }
  ]
  note_mutation object_id delete_volume checkpoint m = record m {
    journal_checkpoints = remove object_id m.journal_checkpoints;
    reservations = remove object_id m.reservations;
  }
  note_mutation object_id mutation checkpoint m =
      if object_id == m.root_parent_store_object_id then m else record m {
        journal_checkpoints =
            put object_id (mutate_entry checkpoint (get object_id m.journal_checkpoints))
              m.journal_checkpoints;
      }

-- The end of `apply_transaction` for a transaction that borrows its metadata space.
unfoldable pub update_borrowed_space : ℕ → ℕ → ℕ → Manager → Outcome Manager
unfolding required_reservation
update_borrowed_space old_amount old_required new_amount m = do
  new_required ← required_reservation m
  plus ← add_u64 old_amount new_required
  minus ← add_u64 new_amount old_required
  borrowed ←
      if leb minus plus
      then add_u64 m.borrowed_metadata_space (plus - minus)
      else ok (m.borrowed_metadata_space - (minus - plus))
  ok (record m { borrowed_metadata_space = borrowed })

-- The first lines of `did_commit_transaction`: what the transaction took of the journal.
unfoldable pub note_end : ℕ → Manager → Outcome (ℕ × Manager)
unfolding reserved_space_from_journal_usage
note_end end_offset m = do
  journal_usage ← sub_u64 end_offset m.last_end_offset
  txn_space ← reserved_space_from_journal_usage journal_usage
  ok (
    txn_space,
    record m {
      last_end_offset = end_offset;
      max_transaction_size = max journal_usage m.max_transaction_size;
    },
  )

-- Its last assertion.
unfoldable pub check_balance : Manager → Reservation → Outcome (Unit {0})
unfolding required_reservation
check_balance m r = do
  sum ← add_u64 r.amount m.borrowed_metadata_space
  required ← required_reservation m
  assert (sum == required)

module _ {S : Type 0} (owner_of : ReservationOwner S) where
  -- `did_commit_transaction`, `MetadataReservation::Borrowed`
  unfoldable pub did_commit_borrowed :
      ℕ → S → Manager → Reservation → Outcome (S × Manager × Reservation)
  unfolding note_end required_reservation check_balance Reservation.give_back
  did_commit_borrowed end_offset owner m r = do
    (txn_space, m1) ← note_end end_offset m
    borrowed ← add_u64 m1.borrowed_metadata_space txn_space
    let m2 : Manager = record m1 { borrowed_metadata_space = borrowed }
    total ← add_u64 r.amount borrowed
    required ← required_reservation m2
    (owner', r') ←
        if ltb 0 (total - required)
        then Reservation.give_back owner_of owner r (total - required)
        else ok (owner, r)
    check_balance m2 r'
    ok (owner', m2, r')

-- `did_commit_transaction`, `MetadataReservation::Reservation`: the manager, its reservation, and that
-- of the transaction.
unfoldable pub did_commit_reservation :
    ℕ → Manager → Reservation → Reservation → Outcome (Manager × Reservation × Reservation)
unfolding note_end check_balance Reservation.move_to
did_commit_reservation end_offset m r txn = do
  (txn_space, m') ← note_end end_offset m
  (txn', r') ← Reservation.move_to txn r txn_space
  check_balance m' r'
  ok (m', r', txn')

-- `did_commit_transaction`, `MetadataReservation::Hold`: the counters of the allocator, the manager, its
-- reservation, that of the transaction, and what the transaction holds of that.
unfoldable pub did_commit_hold :
    ℕ
    → Inner
    → Manager
    → Reservation
    → Reservation
    → ℕ
    → Outcome (Inner × Manager × Reservation × Reservation × ℕ)
unfolding note_end check_balance Reservation.commit Reservation.add disown_reservation
did_commit_hold end_offset allocator m r txn hold_amount = do
  (txn_space, m') ← note_end end_offset m
  txn' ← Reservation.commit txn txn_space
  allocator' ← if same_id txn.owner_object_id r.owner_object_id then ok allocator else (do
    assert (same_id r.owner_object_id none)
    disown_reservation allocator txn.owner_object_id txn_space)
  hold' ← sub_u64 hold_amount txn_space
  r' ← Reservation.add r txn_space
  check_balance m' r'
  ok (allocator', m', r', txn', hold')

-- What `init_metadata_reservation` reserves.
unfoldable pub initial_reservation : Manager → Outcome ℕ
unfolding required_reservation
initial_reservation m = do
  required ← required_reservation m
  ensure (leb m.borrowed_metadata_space required) inconsistent
  sub_u64 required m.borrowed_metadata_space

abbrev pub update_reservation : ℕ → ℕ → Manager → Manager
update_reservation object_id amount m = record m {
  reservations = put object_id amount m.reservations;
}

-- The checkpoint with the lower offset; the one before it where they are the same.
abbrev pub lower : Option JournalCheckpoint → JournalCheckpoint → JournalCheckpoint
lower none c = c
lower (some m) c = if ltb c.file_offset m.file_offset then c else m

abbrev pub file_offsets_from :
    Map ℕ → Option JournalCheckpoint → Map Checkpoints → Map ℕ × Option JournalCheckpoint
file_offsets_from offsets min_checkpoint [] = (offsets, min_checkpoint)
file_offsets_from offsets min_checkpoint ((object_id, c) ∷ m) =
    file_offsets_from (put object_id (earliest c).file_offset offsets)
      (some (lower min_checkpoint (earliest c))) m

-- The offset that each object depends on, and the checkpoint of the least.
abbrev pub journal_file_offsets : Map Checkpoints → Map ℕ × Option JournalCheckpoint
journal_file_offsets m = file_offsets_from [] none m
