-- ===== src/Allocator/Accounting/Totals.antt =====
-- The checked sums of the byte counters, as plain sums.
use fxfs_on_linux.Common.{
  ℕ, ◌+◌, ◌-◌, ◌≤◌, ◌≡◌, refl, subst, inl, inr, Option, none, some, Option-cases, [], ◌∷◌, Outcome,
  ok, add_u64-eq, u64_max, le→leb, Map, get, get_or_default, total, total-put, total-get,
  get_or_default-put_same, as_u64, arith, Returns,
}
use fxfs_on_linux.Allocator.Accounting.{
  ByteTracking, no_bytes, tracked_used, sum_u64, Inner, entry, set_entry, used_by, used_bytes,
  add_reservation, remove_reservation,
}

-- The bytes of an owner that are taken.
abbrev pub used : ByteTracking → ℕ
used b = as_u64 b.allocated_bytes + b.uncommitted_allocated_bytes + b.reserved_bytes

abbrev pub used_total : Inner → ℕ
used_total i = total used i.owner_bytes + i.unattributed_reserved_bytes

pub tracked_used-eq : (b : ByteTracking) → used b ≤ u64_max → tracked_used b ≡ ok (used b)
unfolding tracked_used
tracked_used-eq b h =
    rw
      (
        add_u64-eq (as_u64 b.allocated_bytes) b.uncommitted_allocated_bytes (omega arith),
        add_u64-eq (as_u64 b.allocated_bytes + b.uncommitted_allocated_bytes) b.reserved_bytes h,
      )
      refl

sum_u64-eq :
    {V : Type 0} (f : V → Outcome ℕ) (g : V → ℕ) (m : Map V)
    → ((v : V) → g v ≤ u64_max → f v ≡ ok (g v))
    → total g m ≤ u64_max
    → sum_u64 f m ≡ ok (total g m)
unfolding sum_u64
sum_u64-eq f g [] e h = refl
sum_u64-eq f g ((k, v) ∷ m) e h =
    rw (sum_u64-eq f g m e (omega arith), e v (omega arith), add_u64-eq (g v) (total g m) h) refl

pub used_bytes-eq : (i : Inner) → used_total i ≤ u64_max → used_bytes i ≡ ok (used_total i)
unfolding used_bytes
used_bytes-eq i h =
    rw
      (
        sum_u64-eq tracked_used used i.owner_bytes tracked_used-eq (omega arith),
        add_u64-eq (total used i.owner_bytes) i.unattributed_reserved_bytes h,
      )
      refl

pub used-le : (i : Inner) (owner : ℕ) → used (entry i owner) ≤ used_total i
used-le i owner = omega (arith, total-get used no_bytes owner i.owner_bytes refl)

pub used_by-eq :
    (i : Inner) (owner : ℕ) → used_total i ≤ u64_max → used_by i owner ≡ ok (used (entry i owner))
unfolding used_by
used_by-eq i owner h =
    let small = used-le i owner in
    elim (Option-cases (get owner i.owner_bytes)) [
      | inl e ↦ rw (used_by, get_or_default, e) refl
      | inr (b, e) ↦
          let same : entry i owner ≡ b = rw (get_or_default, e) refl in
          rw (used_by, e, same)
            (tracked_used-eq b (subst (λ t. used t ≤ u64_max) same (omega arith)))
    ]

-- A new entry for an owner.
pub used_total-set_entry :
    (i : Inner) (owner : ℕ) (b : ByteTracking)
    → used_total (set_entry i owner b) + used (entry i owner) ≡ used_total i + used b
used_total-set_entry i owner b = omega (arith, total-put used no_bytes owner b i.owner_bytes refl)

-- What a reservation changes: the counter of its owner, or of none.
abbrev pub Changes : (Inner → Inner → Type 0)
Changes i i' =
    (i'.info ≡ i.info)
    × (i'.committed_deallocated ≡ i.committed_deallocated)
    × (i'.dropped_allocations ≡ i.dropped_allocations)
    × (i'.committed_marked_for_deletion ≡ i.committed_marked_for_deletion)

-- What is reserved for an owner, or for none.
abbrev pub reserved_for : Inner → Option ℕ → ℕ
reserved_for i none = i.unattributed_reserved_bytes
reserved_for i (some owner) = (entry i owner).reserved_bytes

abbrev pub used_for : Inner → Option ℕ → ℕ
used_for i none = 0
used_for i (some owner) = used (entry i owner)

pub add_reservation-Returns :
    (i : Inner) (owner : Option ℕ) (amount : ℕ)
    → used_total i + amount ≤ u64_max
    → Returns (add_reservation i owner amount) λ i'.
      (used_total i' ≡ used_total i + amount)
      × (reserved_for i' owner ≡ reserved_for i owner + amount)
      × (used_for i' owner ≤ used_for i owner + amount)
      × Changes i i'
unfolding add_reservation
add_reservation-Returns i none amount h =
    rw (add_u64-eq i.unattributed_reserved_bytes amount (omega arith))
      (omega arith, refl, omega arith, (refl, refl, refl, refl))
add_reservation-Returns i (some owner) amount h =
    let below = used-le i owner in
    let b : ByteTracking = record (entry i owner) {
      reserved_bytes = (entry i owner).reserved_bytes + amount;
    } in
    let now = get_or_default-put_same no_bytes owner b i.owner_bytes in
    rw (add_u64-eq (entry i owner).reserved_bytes amount (omega arith)) (
      omega (arith, used_total-set_entry i owner b),
      rw (reserved_for, now) refl,
      rw (used_for, now) (omega arith),
      (refl, refl, refl, refl),
    )

pub remove_reservation-Returns :
    (i : Inner) (owner : Option ℕ) (amount : ℕ)
    → amount ≤ reserved_for i owner
    → Returns (remove_reservation i owner amount) λ i'.
      (used_total i' + amount ≡ used_total i)
      × (reserved_for i' owner + amount ≡ reserved_for i owner)
      × Changes i i'
unfolding remove_reservation
remove_reservation-Returns i none amount h =
    rw (le→leb amount i.unattributed_reserved_bytes h)
      (omega arith, omega arith, (refl, refl, refl, refl))
remove_reservation-Returns i (some owner) amount h =
    let below = used-le i owner in
    let b : ByteTracking = record (entry i owner) {
      reserved_bytes = (entry i owner).reserved_bytes - amount;
    } in
    let now = get_or_default-put_same no_bytes owner b i.owner_bytes in
    rw (le→leb amount (entry i owner).reserved_bytes h) (
      omega (arith, used_total-set_entry i owner b),
      rw (reserved_for, now) (omega arith),
      (refl, refl, refl, refl),
    )
