-- ===== src/Allocator/Reservation.antt =====
-- `ReservationOwner` and `ReservationImpl` of src/object_store/allocator.rs. The state behind the
-- mutex is passed on. The owner of a reservation is any implementation of the trait; a reservation
-- is one itself, for the holds that are taken from it.
pub mod Holds
use fxfs_on_linux.Common.{
  ℕ, ◌+◌, ◌-◌, Bool, true, false, Option, none, some, min, ltb, leb, ◌==◌, if◌then◌else◌, Outcome,
  ok, assert, ◌>>◌, ◌>>=◌, sub_u64, add_u64,
}

pub record Reservation : Type 0 where
  pub owner_object_id : Option ℕ
  -- Amount held.
  pub amount : ℕ
  -- Amount reserved by holds.
  pub reserved : ℕ

pub record ReservationOwner {ℓ} (S : Type ℓ) : Type ℓ where
  pub release_reservation : S → Option ℕ → ℕ → Outcome S

-- `==` on `Option<u64>`
abbrev pub same_id : Option ℕ → Option ℕ → Bool
same_id none none = true
same_id (some i) (some j) = i == j
same_id _ _ = false

abbrev pub new : Option ℕ → ℕ → Reservation
new owner_object_id amount = record {
  owner_object_id = owner_object_id;
  amount = amount;
  reserved = 0;
}

unfoldable pub avail : Reservation → Outcome ℕ
avail r = sub_u64 r.amount r.reserved

unfoldable pub add : Reservation → ℕ → Outcome Reservation
add r amount = do sum ← add_u64 r.amount amount; ok (record r { amount = sum })

-- The whole amount, which is taken from the reservation.
unfoldable pub forget : Reservation → Outcome (ℕ × Reservation)
forget r = do assert (r.reserved == 0); ok (r.amount, record r { amount = 0 })

unfoldable pub forget_some : Reservation → ℕ → Outcome Reservation
forget_some r amount = do
  left ← sub_u64 r.amount amount
  assert (leb r.reserved left)
  ok (record r { amount = left })

-- The reservation after it, and the hold.
unfoldable pub reserve_at_most : Reservation → ℕ → Outcome (Reservation × Reservation)
reserve_at_most r amount = do
  left ← sub_u64 r.amount r.reserved
  reserved ← add_u64 r.reserved (min amount left)
  ok (record r { reserved = reserved }, new r.owner_object_id (min amount left))

unfoldable pub reserve : Reservation → ℕ → Outcome (Reservation × Option Reservation)
reserve r amount = do
  left ← sub_u64 r.amount r.reserved
  if ltb left amount then ok (r, none) else (do
    reserved ← add_u64 r.reserved amount
    ok (record r { reserved = reserved }, some (new r.owner_object_id amount)))

unfoldable pub commit : Reservation → ℕ → Outcome Reservation
commit r amount = do
  reserved ← sub_u64 r.reserved amount
  left ← sub_u64 r.amount amount
  ok (record r { amount = left; reserved = reserved })

-- The reservation, now empty, and the one that has its amount.
unfoldable pub take : Reservation → Outcome (Reservation × Reservation)
take r = do assert (r.reserved == 0); ok (record r { amount = 0 }, new r.owner_object_id r.amount)

unfoldable pub move_to : Reservation → Reservation → ℕ → Outcome (Reservation × Reservation)
unfolding add
move_to r other amount = do
  assert (same_id r.owner_object_id other.owner_object_id)
  left ← sub_u64 r.amount amount
  other' ← add other amount
  ok (record r { amount = left }, other')

module _ {ℓ} {S : Type ℓ} (owner_of : ReservationOwner S) where
  -- The owner and the reservation after it.
  unfoldable pub give_back : S → Reservation → ℕ → Outcome (S × Reservation)
  give_back owner r amount = do
    owner' ← owner_of.release_reservation owner r.owner_object_id amount
    left ← sub_u64 r.amount amount
    assert (leb r.reserved left)
    ok (owner', record r { amount = left })

  -- `Drop`
  unfoldable pub drop : S → Reservation → Outcome S
  drop owner r = do
    assert (r.reserved == 0)
    if ltb 0 r.amount
        then owner_of.release_reservation owner r.owner_object_id r.amount
        else ok owner

-- A reservation as the owner of its holds.
unfoldable pub release_reservation : Reservation → Option ℕ → ℕ → Outcome Reservation
release_reservation r owner_object_id amount = do
  assert (same_id owner_object_id r.owner_object_id)
  assert (leb amount r.reserved)
  ok (record r { reserved = r.reserved - amount })

abbrev pub Reservation_owner : ReservationOwner Reservation
unfolding release_reservation
Reservation_owner = record { release_reservation = release_reservation }
