-- ===== src/Allocator/Mutations/Conserved.antt =====
-- Where the bytes of an owner go when its mutations are applied or dropped: from one counter to
-- another, so that no more is taken than before.
use fxfs_on_linux.Common.{
  ℕ, zero, suc, min, [], ◌∷◌, ◌++◌, ◌+◌, ◌-◌, ◌≤◌, ◌≡◌, refl, ap, Option, none, some, sub_u64-eq,
  add_u64-eq, u64_max, arith, le→leb, pos, i64_max, saturating_add, saturating_sub, as_i64, as_u64,
  get_or_default-put_same, Returns, Returns-bind, Returns-imp,
}
use fxfs_on_linux.Util.Range
use fxfs_on_linux.Util.Range.{Range}
use fxfs_on_linux.Allocator.Reservation
use fxfs_on_linux.Allocator.Reservation.{Reservation, add, commit}
use fxfs_on_linux.Allocator.Accounting.{
  CommittedDeallocation, no_bytes, Inner, entry, set_entry, add_reservation,
}
use fxfs_on_linux.Allocator.Accounting.Totals.{
  used_total, used_total-set_entry, add_reservation-Returns,
}
use fxfs_on_linux.Allocator.Mutations.{
  live, in_reservation, count_allocated, count_freed, add_freed,
}

-- The reservation that is left of another, which may be none: `P` is true of both.
abbrev pub Leaves :
    (Reservation → Reservation → Type 0) → Option Reservation → Option Reservation → Type 0
Leaves P none none = Unit
Leaves P (some r) (some r') = P r r'
Leaves P _ _ = ⊥

-- The reservation, if there is one, has a hold on the bytes.
abbrev pub HasHold : ℕ → Option Reservation → Type 0
HasHold len none = Unit
HasHold len (some r) = (len ≤ r.reserved) × (r.reserved ≤ r.amount)

-- The bytes of the owner are counted, without being negative, in the range of the counters.
abbrev pub Counts : Inner → ℕ → ℕ → ℕ → Type 0
Counts i owner allocated len =
    ((entry i owner).allocated_bytes ≡ pos allocated) × (allocated + len ≤ i64_max)

as_i64-pos : (n : ℕ) → n ≤ i64_max → as_i64 n ≡ pos n
as_i64-pos n h = rw (le→leb n i64_max h) refl

saturating_add-pos : (m n : ℕ) → m + n ≤ i64_max → saturating_add (pos m) (pos n) ≡ pos (m + n)
saturating_add-pos m n h = let least : min (m + n) i64_max ≡ m + n = omega arith in ap pos least

saturating_sub-pos : (m n : ℕ) → n ≤ m → m ≤ i64_max → saturating_sub (pos m) (pos n) ≡ pos (m - n)
saturating_sub-pos m zero h k =
    let least : min (m + 0) i64_max ≡ m - 0 = omega arith in ap pos least
saturating_sub-pos m (suc n) h k =
    let least : min (m - suc n) i64_max ≡ m - suc n = omega arith in
    rw (le→leb (suc n) m h) (ap pos least)

-- What a reservation has after a commit.
abbrev pub Committed : ℕ → Reservation → Reservation → Type 0
Committed len r r' = (r'.amount + len ≡ r.amount) × (r'.reserved + len ≡ r.reserved)

commit-Committed :
    (len : ℕ) (reservation : Option Reservation)
    → HasHold len reservation
    → Returns (in_reservation (λ x. commit x len) reservation) (Leaves (Committed len) reservation)
unfolding commit
commit-Committed len none h = tt
commit-Committed len (some r) (h, k) =
    rw (sub_u64-eq r.reserved len h, sub_u64-eq r.amount len (omega arith))
      (omega arith, omega arith)

-- Applying a live allocation whose bytes are uncommitted, of an owner whose allocated bytes are
-- counted in the range of the counters, returns. The bytes are allocated and no longer uncommitted,
-- so that as many bytes are taken as before; the reservation's hold on them is used up.
pub count_allocated-Moves :
    (i : Inner) (offset : ℕ) (reservation : Option Reservation) (owner allocated len : ℕ)
    → Counts i owner allocated len
    → len ≤ (entry i owner).uncommitted_allocated_bytes
    → HasHold len reservation
    → Returns
        (count_allocated i (record { mode = live reservation; file_offset = offset }) owner len)
        λ (i', left).
          (used_total i' ≡ used_total i)
          × ((entry i' owner).allocated_bytes ≡ pos (allocated + len))
          × ((entry i' owner).uncommitted_allocated_bytes + len
              ≡ (entry i owner).uncommitted_allocated_bytes)
          × Leaves (Committed len) reservation left
unfolding count_allocated commit
count_allocated-Moves i offset reservation owner allocated len (counted, fits) enough hold =
    let b = record (entry i owner) {
      allocated_bytes = pos (allocated + len);
      uncommitted_allocated_bytes = (entry i owner).uncommitted_allocated_bytes - len;
    } in
    let now = get_or_default-put_same no_bytes owner b i.owner_bytes in
    let same = used_total-set_entry i owner b in
    let before = ap (λ a. as_u64 a) counted in
    rw
      (
        as_i64-pos len (omega arith),
        counted,
        saturating_add-pos allocated len fits,
        sub_u64-eq (entry i owner).uncommitted_allocated_bytes len enough,
      )
      (Returns-bind _ (in_reservation (λ x. commit x len) reservation) _
        (commit-Committed len reservation hold)
        λ left committed. (
          omega (arith, same, before),
          ap (λ x. x.allocated_bytes) now,
          omega (arith, ap (λ x. x.uncommitted_allocated_bytes) now),
          committed,
        ))

-- What goes to a reservation, if there is one.
abbrev pub given : Option Reservation → ℕ → ℕ
given none len = 0
given (some r) len = len

-- The hold on dropped bytes is given up, the reservation keeps its amount.
abbrev pub Released : ℕ → Reservation → Reservation → Type 0
Released len r r' = (r'.amount ≡ r.amount) × (r'.reserved + len ≡ r.reserved)

-- The freed bytes are added to the reservation.
abbrev pub Grown : ℕ → Reservation → Reservation → Type 0
Grown len r r' = (r'.amount ≡ r.amount + len) × (r'.reserved ≡ r.reserved)

abbrev pub HasRoom : ℕ → Option Reservation → Type 0
HasRoom len none = Unit
HasRoom len (some r) = r.amount + len ≤ u64_max

add_freed-Grown :
    (i : Inner) (reservation : Option Reservation) (len : ℕ)
    → used_total i + len ≤ u64_max
    → HasRoom len reservation
    → Returns (add_freed i reservation len) λ (i', left).
      (used_total i' ≡ used_total i + given reservation len) × Leaves (Grown len) reservation left
unfolding add_freed add
add_freed-Grown i none len h room = (omega arith, tt)
add_freed-Grown i (some r) len h room =
    Returns-bind _ (add_reservation i r.owner_object_id len) _
      (add_reservation-Returns i r.owner_object_id len h)
      λ i' (more, held, below, same). rw (add_u64-eq r.amount len room) (more, (refl, refl))

-- Counting a live deallocation of bytes that an owner has allocated, within the range of the
-- counters, returns. Without a reservation the bytes are no longer taken. With one, they are
-- reserved, so that as many bytes are taken as before, and the reservation grows by them.
pub count_freed-Grown :
    (i : Inner) (offset : ℕ) (reservation : Option Reservation) (r : Range)
    (owner allocated len : ℕ)
    → Counts i owner allocated 0
    → len ≤ allocated
    → (entry i owner).committed_deallocated_bytes + len ≤ u64_max
    → used_total i ≤ u64_max
    → HasRoom len reservation
    → Returns
        (count_freed i (record { mode = live reservation; file_offset = offset }) r owner len)
        λ (i', left).
          (used_total i' + len ≡ used_total i + given reservation len)
          × Leaves (Grown len) reservation left
unfolding count_freed
count_freed-Grown i offset reservation r owner allocated len (counted, fits) enough room small
      grow =
    let b = record (entry i owner) {
      allocated_bytes = pos (allocated - len);
      committed_deallocated_bytes = (entry i owner).committed_deallocated_bytes + len;
    } in
    let less = used_total-set_entry i owner b in
    let before = ap (λ a. as_u64 a) counted in
    let waiting : CommittedDeallocation = record {
      log_file_offset = offset;
      range = r;
      owner_object_id = owner;
    } in
    let i'' : Inner = record (set_entry i owner b) {
      committed_deallocated = i.committed_deallocated ++ waiting ∷ [];
    } in
    rw
      (
        as_i64-pos len (omega arith),
        counted,
        saturating_sub-pos allocated len enough (omega arith),
        add_u64-eq (entry i owner).committed_deallocated_bytes len room,
      )
      (Returns-imp
        {P = λ (i', left).
          (used_total i' ≡ used_total i'' + given reservation len)
          × Leaves (Grown len) reservation left}
        (add_freed i'' reservation len)
        (λ (i', left) (total, grown). (omega (arith, total, less, before), grown))
        (add_freed-Grown i'' reservation len (omega (arith, less, before)) grow))
