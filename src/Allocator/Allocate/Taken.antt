-- ===== src/Allocator/Allocate/Taken.antt =====
-- What taking the range that was found does to the counters.
use fxfs_on_linux.Common.{
  ℕ, ◌+◌, ◌-◌, ◌≤◌, ◌≡◌, ◌∙◌, refl, subst, sym, true, Option, none, some, ◌==◌, sub_u64-eq,
  add_u64-eq, u64_max, arith, le→leb, Returns, Returns-bind,
}
use fxfs_on_linux.Util.Range
use fxfs_on_linux.Util.Range.{Range}
use fxfs_on_linux.Allocator.Reservation.{Reservation, forget_some}
use fxfs_on_linux.Allocator.Accounting.{Inner, entry, set_entry, remove_reservation}
use fxfs_on_linux.Allocator.Accounting.Totals.{
  used_total, used_total-set_entry, used-le, reserved_for, remove_reservation-Returns,
}
use fxfs_on_linux.Allocator.Flushed.Released.{reserved-same}
use fxfs_on_linux.Allocator.Allocate.{take_space, owner_or}

-- The hold is the owner's, or of no owner.
abbrev pub IsFor : ℕ → Option ℕ → Type 0
IsFor owner none = Unit
IsFor owner (some o) = owner ≡ o

owner_or-IsFor : (owner : ℕ) (o : Option ℕ) → IsFor owner o → (owner == owner_or owner o) ≡ true
owner_or-IsFor owner none h = ground arith
owner_or-IsFor owner (some o) h = ground arith

-- Where a hold, of the owner or of none, without holds of its own, has as many bytes as the range
-- that was found, and they are reserved for its owner, taking the range returns. As many bytes are
-- taken as before, and the hold has the bytes of the range less.
pub take_space-Moves :
    (i : Inner) (hold : Reservation) (owner : ℕ) (r : Range)
    → r.start ≤ r.end
    → r.end - r.start ≤ hold.amount
    → hold.reserved ≡ 0
    → IsFor owner hold.owner_object_id
    → r.end - r.start ≤ reserved_for i hold.owner_object_id
    → used_total i + (r.end - r.start) ≤ u64_max
    → Returns (take_space i hold owner r) λ (i', hold').
      (used_total i' ≡ used_total i)
      × (reserved_for i' hold.owner_object_id + (r.end - r.start)
          ≡ reserved_for i hold.owner_object_id)
      × (hold'.amount + (r.end - r.start) ≡ hold.amount)
      × (hold'.reserved ≡ 0)
unfolding take_space Range.length Range.is_valid forget_some
take_space-Moves i hold owner r valid enough free for reserved small =
    let b = record (entry i owner) {
      uncommitted_allocated_bytes = (entry i owner).uncommitted_allocated_bytes + (r.end - r.start);
    } in
    let below = used-le i owner in
    let more = used_total-set_entry i owner b in
    let kept = reserved-same i owner b refl hold.owner_object_id in
    rw
      (
        le→leb r.start r.end valid,
        sub_u64-eq hold.amount (r.end - r.start) enough,
        free,
        le→leb 0 (hold.amount - (r.end - r.start)) (omega arith),
        add_u64-eq (entry i owner).uncommitted_allocated_bytes (r.end - r.start) (omega arith),
        owner_or-IsFor owner hold.owner_object_id for,
      )
      (Returns-bind _
        (remove_reservation (set_entry i owner b) hold.owner_object_id (r.end - r.start)) _
        (remove_reservation-Returns (set_entry i owner b) hold.owner_object_id (r.end - r.start)
          (subst (λ n. r.end - r.start ≤ n) (sym kept) reserved))
        λ i' (total, less, same). (omega (arith, total, more), less ∙ kept, omega arith, refl))
