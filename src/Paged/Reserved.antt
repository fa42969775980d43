-- ===== src/Paged/Reserved.antt =====
-- The space that is reserved for dirty pages (src/platform/fuchsia/paged_object_handle.rs): what a
-- flush takes and puts back is conserved.
use fxfs_on_linux.Common.{
  ℕ, ◌+◌, ◌-◌, ◌*◌, ◌/◌, ◌%◌, ◌≤◌, ◌<◌, ◌≡◌, refl, ◌∙◌, inl, inr, Bool-cases, true, min, ltb, leb,
  ◌==◌, if◌then◌else◌, lt→ltb, le→leb, Option, ok, ◌>>=◌, Returns, u64_max, add_u64-eq, sub_u64-eq,
  div_u64-eq, arith,
}
use fxfs_on_linux.Util.Range.{range}
use fxfs_on_linux.Util.Round.{how_many}
use fxfs_on_linux.Allocator.Reservation
use fxfs_on_linux.Allocator.Reservation.{Reservation}
use fxfs_on_linux.Paged.{
  flush_batch_size, metadata_max_amount, spare_size, mul_u64, Inner, reservation_needed,
  reservation, move_to, put_back, take, marked, page_count,
}

-- The least number of parts of size `k` that hold `n`.
unfoldable pub ceil : ℕ → ℕ → ℕ
ceil n k = if n % k == 0 then n / k else n / k + 1

pub ceil_least : (n k : ℕ) → 0 < k → (n ≤ ceil n k * k) × ((m : ℕ) → n ≤ m * k → ceil n k ≤ m)
unfolding ceil
ceil_least n k h = elim (Bool-cases (n % k == 0)) [
  | inl exact ↦ rw exact (grind arith, λ m l. grind arith)
  | inr more ↦ rw more (grind arith, λ m l. grind arith)
]

ceil-add : (a b k : ℕ) → 0 < k → ceil (a + b) k ≤ ceil a k + ceil b k
ceil-add a b k h =
    let x = (ceil_least a k h).0 in
    let y = (ceil_least b k h).0 in (ceil_least (a + b) k h).1 (ceil a k + ceil b k) (grind arith)

ceil_mono : (a b k : ℕ) → 0 < k → a ≤ b → ceil a k ≤ ceil b k
ceil_mono a b k h l =
    let y = (ceil_least b k h).0 in (ceil_least a k h).1 (ceil b k) (omega (arith, l, y))

-- A transaction for each batch of pages, and the pages.
unfoldable pub needed : ℕ → ℕ → ℕ
needed page_size pages =
    ceil pages (flush_batch_size / page_size) * metadata_max_amount + pages * page_size

abbrev pub held : ℕ → Inner → ℕ
held page_size i = needed page_size i.dirty_page_count + i.spare

-- The space of the pages and the reservation together, and whose it is, stay.
abbrev pub IsConserved : ℕ → Inner → ℕ → Reservation → Inner × Reservation → Type 0
IsConserved page_size i count r (i', r') =
    (i'.dirty_page_count ≡ i.dirty_page_count + count)
    × (held page_size i' + r'.amount ≡ held page_size i + r.amount)
    × (i'.spare ≤ spare_size)
    × (r'.reserved ≡ 0)
    × (r'.owner_object_id ≡ r.owner_object_id)

pub mul_u64-eq : (a b : ℕ) → a * b ≤ u64_max → mul_u64 a b ≡ ok (a * b)
mul_u64-eq a b h = rw (le→leb (a * b) u64_max h) refl

pub how_many-eq : (n k : ℕ) → 0 < k → how_many n k ≡ ok (ceil n k)
unfolding how_many ceil
how_many-eq n k h = rw (div_u64-eq n k h) refl

module _ (page_size : ℕ) (some_size : 0 < page_size) (fits : page_size ≤ flush_batch_size) where
  pages_positive : 0 < flush_batch_size / page_size
  pages_positive = grind arith

  pub reservation_needed-eq :
      (pages : ℕ)
      → needed page_size pages ≤ u64_max
      → reservation_needed page_size pages ≡ ok (needed page_size pages)
  unfolding reservation_needed needed
  reservation_needed-eq pages h =
      let k : ℕ = flush_batch_size / page_size in
      let a =
        mul_u64-eq (ceil pages (flush_batch_size / page_size)) metadata_max_amount (omega arith) in
      let b = mul_u64-eq pages page_size (omega arith) in
      rw
        (
          div_u64-eq flush_batch_size page_size some_size,
          how_many-eq pages (flush_batch_size / page_size) pages_positive,
          a,
          b,
          add_u64-eq (ceil pages (flush_batch_size / page_size) * metadata_max_amount)
              (pages * page_size) h,
        )
        refl

  needed-add : (a b : ℕ) → needed page_size (a + b) ≤ needed page_size a + needed page_size b
  unfolding needed
  needed-add a b =
      let c = ceil-add a b (flush_batch_size / page_size) pages_positive in
      let e : (a + b) * page_size ≡ a * page_size + b * page_size = grind arith in
      omega (arith, c, e)

  needed_mono : (a b : ℕ) → a ≤ b → needed page_size a ≤ needed page_size b
  unfolding needed
  needed_mono a b l =
      let c = ceil_mono a b (flush_batch_size / page_size) pages_positive l in
      let e : a * page_size ≤ b * page_size = grind arith in omega (arith, c, e)

  pages-le-needed : (a : ℕ) → a ≤ needed page_size a
  unfolding needed
  pages-le-needed a = let e : a ≤ a * page_size = grind arith in omega (arith, e)

  reservation-eq :
      (i : Inner) → held page_size i ≤ u64_max → reservation page_size i ≡ ok (held page_size i)
  unfolding reservation
  reservation-eq i h =
      rw
        (
          reservation_needed-eq i.dirty_page_count (omega arith),
          add_u64-eq (needed page_size i.dirty_page_count) i.spare h,
        )
        refl

  forget_some-eq :
      (r : Reservation) (amount : ℕ)
      → r.reserved ≡ 0
      → amount ≤ r.amount
      → Reservation.forget_some r amount ≡ ok (record r { amount = r.amount - amount })
  unfolding Reservation.forget_some
  forget_some-eq r amount z h =
      let l : leb r.reserved (r.amount - amount) ≡ true =
        le→leb r.reserved (r.amount - amount) (omega (arith, z)) in
      rw (sub_u64-eq r.amount amount h, l) refl

  module _ (i : Inner) (count : ℕ) (r : Reservation) where
    spare_after : ℕ
    spare_after =
        min (r.amount + held page_size i - needed page_size (i.dirty_page_count + count)) spare_size

    taken : ℕ
    taken = (needed page_size (i.dirty_page_count + count) + spare_after) - held page_size i

    put_back-eq :
        i.spare ≤ spare_size
        → r.reserved ≡ 0
        → needed page_size count ≤ r.amount
        → held page_size i + r.amount ≤ u64_max
        → 0 < count
        → put_back page_size i count r
          ≡ ok (
            record { dirty_page_count = i.dirty_page_count + count; spare = spare_after },
            record r { amount = r.amount - taken },
          )
    unfolding put_back spare_after taken
    put_back-eq s z n b c =
        let more = needed-add i.dirty_page_count count in
        let less = needed_mono i.dirty_page_count (i.dirty_page_count + count) (omega arith) in
        let size = pages-le-needed (i.dirty_page_count + count) in
        rw
          (
            lt→ltb 0 count c,
            reservation-eq i (omega arith),
            add_u64-eq i.dirty_page_count count (omega arith),
            reservation_needed-eq (i.dirty_page_count + count) (omega arith),
            add_u64-eq r.amount (held page_size i) (omega arith),
            sub_u64-eq (r.amount + held page_size i) (needed page_size (i.dirty_page_count + count))
                (omega arith),
            add_u64-eq (needed page_size (i.dirty_page_count + count)) spare_after (omega arith),
            sub_u64-eq (needed page_size (i.dirty_page_count + count) + spare_after)
                (held page_size i) (omega arith),
            forget_some-eq r taken z (omega arith),
          )
          refl

    -- Where pages are at most the flush batch's size, what is spare does not exceed its limit, the
    -- reservation has no holds and has what the pages that are put back need, and all of it is in the
    -- u64 range: putting pages back returns; they are dirty again, the space held for dirty pages and
    -- the reservation's amount are together what they were, what is spare is within its limit, and the
    -- reservation still has no holds and the same owner.
    pub put_back-IsConserved :
        i.spare ≤ spare_size
        → r.reserved ≡ 0
        → needed page_size count ≤ r.amount
        → held page_size i + r.amount ≤ u64_max
        → Returns (put_back page_size i count r) (IsConserved page_size i count r)
    put_back-IsConserved s z n b = elim (Bool-cases (ltb 0 count)) [
      | inl c ↦
          let positive : 0 < count = ground arith in
          let more = needed-add i.dirty_page_count count in
          let less = needed_mono i.dirty_page_count (i.dirty_page_count + count) (omega arith) in
          rw (put_back-eq s z n b positive)
            (unfold spare_after taken in (refl, omega arith, omega arith, z, refl))
      | inr c ↦ unfold put_back in rw c (ground arith, refl, s, z, refl)
    ]

  -- A flush takes all dirty pages and their space.
  pub move_to-IsTaken :
      (i : Inner) (r : Reservation)
      → held page_size i + r.amount ≤ u64_max
      → Returns (move_to page_size i r) λ t.
        (t.0 ≡ i.dirty_page_count)
        × (t.1.dirty_page_count ≡ 0)
        × (t.1.spare ≡ 0)
        × (t.2.amount ≡ held page_size i + r.amount)
        × (needed page_size t.0 ≤ t.2.amount)
        × (t.2.reserved ≡ r.reserved)
  unfolding move_to Reservation.add
  move_to-IsTaken i r b =
      rw (reservation-eq i (omega arith), add_u64-eq r.amount (held page_size i) (omega arith))
        (refl, refl, refl, omega arith, omega arith, refl)

  needed_zero : needed page_size 0 ≡ 0
  unfolding needed
  needed_zero =
      let c = (ceil_least 0 (flush_batch_size / page_size) pages_positive).1 0 (omega arith) in
      omega (arith, c)

  -- Where there are dirty pages, what is spare is within its limit, and the space held for both is in
  -- the u64 range: a flush that takes the pages, and puts all of them back as it fails, returns, and leaves the counters as they were and the reservation empty.
  pub put_back-take :
      (i : Inner) (owner : Option ℕ)
      → i.spare ≤ spare_size
      → 0 < i.dirty_page_count
      → held page_size i ≤ u64_max
      → (take page_size i owner >>= λ t. put_back page_size t.1 t.0 t.2)
        ≡ ok (i, Reservation.new owner 0)
  unfolding take move_to Reservation.add
  put_back-take i owner s d b =
      let empty : Inner = record { dirty_page_count = 0; spare = 0 } in
      let full : Reservation = Reservation.new owner (0 + held page_size i) in
      let zero_needed = needed_zero in
      let back =
        put_back-eq empty i.dirty_page_count full (omega arith) refl (omega arith) (omega arith)
          d in
      let pages : 0 + i.dirty_page_count ≡ i.dirty_page_count = omega arith in
      let spare : spare_after empty i.dirty_page_count full ≡ i.spare =
        unfold spare_after in rw pages (omega arith) in
      let left : 0 + held page_size i - taken empty i.dirty_page_count full ≡ 0 =
        unfold taken in rw (pages, spare) (omega arith) in
      rw (reservation-eq i b, add_u64-eq 0 (held page_size i) (omega arith))
        (back ∙ rw (pages, spare, left) refl)

  -- Where what is spare is within its limit, the range is whole pages, and the space held for the pages
  -- is in the u64 range with those of the range: marking it counts its pages, makes what is spare the
  -- limit, and reserves just what is held in addition.
  pub marked-IsHeld :
      (i : Inner) (start end : ℕ)
      → i.spare ≤ spare_size
      → page_count page_size (range start end) ≡ ok ((end - start) / page_size)
      → needed page_size (i.dirty_page_count + (end - start) / page_size) + spare_size ≤ u64_max
      → Returns (marked page_size i (range start end)) λ t.
        (t.0.dirty_page_count ≡ i.dirty_page_count + (end - start) / page_size)
        × (t.0.spare ≡ spare_size)
        × (held page_size t.0 ≡ held page_size i + t.1)
  unfolding marked
  marked-IsHeld i start end s p b =
      let n = (end - start) / page_size in
      let less =
        needed_mono i.dirty_page_count (i.dirty_page_count + (end - start) / page_size)
          (omega arith) in
      let count = pages-le-needed (i.dirty_page_count + (end - start) / page_size) in
      let after : Inner = record {
        dirty_page_count = i.dirty_page_count + (end - start) / page_size;
        spare = spare_size;
      } in
      rw
        (
          p,
          add_u64-eq i.dirty_page_count ((end - start) / page_size) (omega (arith, count, b)),
          reservation-eq i (omega (arith, less, b, s)),
          reservation-eq after b,
          sub_u64-eq (held page_size after) (held page_size i) (omega (arith, less, s)),
        )
        (refl, refl, omega (arith, less, s))
