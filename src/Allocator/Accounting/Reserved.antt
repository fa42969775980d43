-- ===== src/Allocator/Accounting/Reserved.antt =====
-- What reserving bytes guarantees: no more is taken than the device and the owner's limit allow.
use fxfs_on_linux.Common.{
  ℕ, zero, suc, get_or_default, total-get, get_or_default-put_same, le→leb, add_u64-eq, ◌+◌, ◌-◌,
  ◌≤◌, ◌<◌, ◌≡◌, ◌⊎◌, refl, ap, inl, inr, Option, none, some, Bool-cases, min, ltb, ◌==◌, ok,
  sub_u64-eq, u64_max, arith, Returns, Returns-bind, Returns-imp,
}
use fxfs_on_linux.Allocator.Reservation
use fxfs_on_linux.Allocator.Reservation.{Reservation}
use fxfs_on_linux.Allocator.Accounting.{
  Inner, owner_id_limit_bytes, owner_id_bytes_left, limit_of, add_reservation, remove_reservation,
  reserve, reserve_at_most, disown_reservation, entry, no_bytes,
}
use fxfs_on_linux.Allocator.Accounting.Totals.{
  used_total, used_bytes-eq, used_by-eq, used_for, used, used_total-set_entry, reserved_for,
  Changes, add_reservation-Returns,
}

-- The limit of an owner; without an owner there is none.
abbrev pub limit_for : Inner → Option ℕ → ℕ
limit_for i none = u64_max
limit_for i (some owner) = owner_id_limit_bytes i owner

-- What is free, for an owner.
abbrev pub free_for : ℕ → Inner → Option ℕ → ℕ
free_for device_size i none = device_size - used_total i
free_for device_size i (some owner) =
    min (owner_id_limit_bytes i owner - used_for i (some owner)) (device_size - used_total i)

limit_of-eq :
    (device_size : ℕ) (i : Inner) (owner : Option ℕ)
    → used_total i ≤ device_size
    → device_size ≤ u64_max
    → limit_of device_size i owner ≡ ok (free_for device_size i owner)
unfolding limit_of owner_id_bytes_left
limit_of-eq device_size i none h k =
    rw (used_bytes-eq i (omega arith), sub_u64-eq device_size (used_total i) h) refl
limit_of-eq device_size i (some owner) h k =
    rw
      (
        used_by-eq i owner (omega arith),
        used_bytes-eq i (omega arith),
        sub_u64-eq device_size (used_total i) h,
      )
      (elim (Bool-cases (ltb (used_for i (some owner)) (owner_id_limit_bytes i owner))) [
        | inl e ↦ rw e refl
        | inr e ↦
            let nothing : owner_id_limit_bytes i owner - used_for i (some owner) ≡ 0 =
              ground arith in
            rw (e, nothing) refl
      ])

-- The counters after `amount` bytes have been reserved.
abbrev pub Holds : ℕ → Inner → Option ℕ → ℕ → Inner → Type 0
Holds device_size i owner amount i' =
    (used_total i' ≡ used_total i + amount)
    × (used_total i' ≤ device_size)
    × (reserved_for i' owner ≡ reserved_for i owner + amount)
    × ((amount ≡ 0) ⊎ (used_for i' owner ≤ limit_for i' owner))
    × Changes i i'

-- What a call that reserves answers.
abbrev pub Reserved : ℕ → Inner → Option ℕ → ℕ → Inner × Option Reservation → Type 0
Reserved device_size i owner amount (i', none) =
    (i' ≡ i)
    × ((device_size < used_total i + amount) ⊎ (limit_for i owner < used_for i owner + amount))
Reserved device_size i owner amount (i', some r) =
    (r ≡ Reservation.new owner amount) × Holds device_size i owner amount i'

within :
    (amount now before limit' limit : ℕ)
    → now ≤ before + amount
    → amount ≤ limit - before
    → limit' ≡ limit
    → (amount ≡ 0) ⊎ (now ≤ limit')
within zero now before limit' limit h k e = inl refl
within (suc amount) now before limit' limit h k e = inr (omega arith)

add_reservation-Holds :
    (device_size : ℕ) (i : Inner) (owner : Option ℕ) (amount : ℕ)
    → used_total i ≤ device_size
    → device_size ≤ u64_max
    → amount ≤ free_for device_size i owner
    → Returns (add_reservation i owner amount) (Holds device_size i owner amount)
unfolding owner_id_limit_bytes
add_reservation-Holds device_size i none amount h k l =
    Returns-imp (add_reservation i none amount)
      (λ i' (total, held, below, same). (total, omega arith, held, inr (omega arith), same))
      (add_reservation-Returns i none amount (omega arith))
add_reservation-Holds device_size i (some owner) amount h k l =
    Returns-imp (add_reservation i (some owner) amount)
      (λ i' (total, held, below, same). (
        total,
        ground arith,
        held,
        within amount (used_for i' (some owner)) (used_for i (some owner))
            (limit_for i' (some owner)) (limit_for i (some owner)) below (ground arith)
            (ap (λ x. get_or_default u64_max owner x.limit_bytes) same.0),
        same,
      ))
      (add_reservation-Returns i (some owner) amount (ground arith))

refused :
    (device_size : ℕ) (i : Inner) (owner : Option ℕ) (amount : ℕ)
    → free_for device_size i owner < amount
    → (device_size < used_total i + amount) ⊎ (limit_for i owner < used_for i owner + amount)
unfolding owner_id_limit_bytes
refused device_size i none amount h = inl (omega arith)
refused device_size i (some owner) amount h = ground arith

-- Where no more than the device has is taken, reserving bytes returns. If it gives a reservation, it
-- is of that amount, the counter of its owner, or of none, and the total are higher by just the
-- amount, the total is still within the device, and the owner within its limit unless the amount is
-- zero. If it gives none, nothing is changed, and the amount would exceed the device or the limit.
pub reserve-Reserved :
    (device_size : ℕ) (i : Inner) (owner : Option ℕ) (amount : ℕ)
    → used_total i ≤ device_size
    → device_size ≤ u64_max
    → Returns (reserve device_size i owner amount) (Reserved device_size i owner amount)
unfolding reserve
reserve-Reserved device_size i owner amount h k =
    rw (limit_of-eq device_size i owner h k)
      (elim (Bool-cases (ltb (free_for device_size i owner) amount)) [
        | inl e ↦ rw e (refl, refused device_size i owner amount (ground arith))
        | inr e ↦ rw e (
            Returns-bind (Reserved device_size i owner amount) (add_reservation i owner amount) _
              (add_reservation-Holds device_size i owner amount h k (ground arith))
              λ i' held. (refl, held))
      ])

-- Where no more than the device has is taken, reserving bytes as far as possible returns a
-- reservation of at most the amount, for which the counters change as for a reservation of just its
-- amount: the total stays within the device, and the owner within its limit.
pub reserve_at_most-Holds :
    (device_size : ℕ) (i : Inner) (owner : Option ℕ) (amount : ℕ)
    → used_total i ≤ device_size
    → device_size ≤ u64_max
    → Returns (reserve_at_most device_size i owner amount) λ (i', r).
      (r ≡ Reservation.new owner (min (free_for device_size i owner) amount))
      × Holds device_size i owner r.amount i'
unfolding reserve_at_most
reserve_at_most-Holds device_size i owner amount h k = rw (limit_of-eq device_size i owner h k) (
    Returns-bind _ (add_reservation i owner (min (free_for device_size i owner) amount)) _
      (add_reservation-Holds device_size i owner (min (free_for device_size i owner) amount) h k
        (ground arith))
      λ i' held. (refl, held))

-- Disowning a reservation of an owner, of at most the bytes that are reserved for it, returns, leaves
-- the total as it was, and moves the amount to the bytes that are reserved for none.
pub disown_reservation-Moves :
    (i : Inner) (owner : ℕ) (amount : ℕ)
    → used_total i ≤ u64_max
    → amount ≤ reserved_for i (some owner)
    → Returns (disown_reservation i (some owner) amount) λ i'.
      (used_total i' ≡ used_total i)
      × (reserved_for i' none ≡ reserved_for i none + amount)
      × (reserved_for i' (some owner) + amount ≡ reserved_for i (some owner))
unfolding disown_reservation remove_reservation add_reservation
disown_reservation-Moves i owner amount h k =
    let b = record (entry i owner) { reserved_bytes = (entry i owner).reserved_bytes - amount } in
    let below = total-get used no_bytes owner i.owner_bytes refl in
    let now = get_or_default-put_same no_bytes owner b i.owner_bytes in
    elim (Bool-cases (amount == 0)) [
      | inl e ↦ rw e (refl, ground arith, ground arith)
      | inr e ↦
          rw
            (
              e,
              le→leb amount (entry i owner).reserved_bytes k,
              add_u64-eq i.unattributed_reserved_bytes amount (omega arith),
            )
            (
              omega (arith, used_total-set_entry i owner b),
              refl,
              rw (reserved_for, now) (omega arith),
            )
    ]
