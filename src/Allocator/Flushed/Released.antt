-- ===== src/Allocator/Flushed/Released.antt =====
-- Deallocations wait for the device in the counters, and are released when it has flushed them.
use fxfs_on_linux.Common.{
  ℕ, ◌+◌, ◌-◌, ◌≤◌, ◌<◌, ◌≡◌, ◌≢◌, ◌∙◌, refl, ap, sym, subst, inl, inr, Bool-cases, Option, none,
  some, List, [], ◌∷◌, ◌++◌, All, ◌==◌, if◌then◌else◌, add_u64-eq, u64_max, arith, saturating_sub,
  as_i64, Map, put, get_or_default, get_or_default-put_same, get_or_default-put_other, Returns,
  Returns-bind, Returns-imp,
}
use fxfs_on_linux.Util.Range.{Range}
use fxfs_on_linux.Allocator.Reservation.{Reservation, add}
use fxfs_on_linux.Allocator.Accounting.{
  ByteTracking, no_bytes, CommittedDeallocation, Inner, entry, set_entry, add_reservation,
}
use fxfs_on_linux.Allocator.Accounting.Totals.{used_total, reserved_for}
use fxfs_on_linux.Allocator.Mutations.{SimpleAllocator, live, count_freed, add_freed}
use fxfs_on_linux.Allocator.Flushed.{
  split_flushed, release_deallocs, subtract_totals, did_flush_device,
}
use fxfs_on_linux.Allocator.Flushed.Pending.{
  bytes_of, IsWaiting, IsTracked, Sums, Covers, split_flushed-bytes, split_flushed-All, IsFlushed,
  split_flushed-IsFlushed, release_deallocs-Sums, subtract_totals-Subtracted,
}

-- The counters of what waits, and the deallocations that wait, are those of `i`.
abbrev pub SameWaiting : Inner → Inner → Type 0
SameWaiting i i' =
    ((o : ℕ) → (entry i' o).committed_deallocated_bytes ≡ (entry i o).committed_deallocated_bytes)
    × (i'.committed_deallocated ≡ i.committed_deallocated)

add_zero : (n : ℕ) → n ≡ n + 0
add_zero n = omega arith

-- A new entry, in which a counter is higher by `n`.
entry-raised :
    (f : ByteTracking → ℕ) (i : Inner) (owner o n : ℕ) (b : ByteTracking)
    → f b ≡ f (entry i owner) + n
    → f (entry (set_entry i owner b) o) ≡ f (entry i o) + (if o == owner then n else 0)
entry-raised f i owner o n b raised = elim (Bool-cases (o == owner)) [
  | inl e ↦
      let at : o ≡ owner = ground arith in
      let new =
        ap (λ x. f (get_or_default no_bytes x (put owner b i.owner_bytes))) at
        ∙ ap f (get_or_default-put_same no_bytes owner b i.owner_bytes) in
      rw e (new ∙ raised ∙ ap (λ x. f (entry i x) + n) (sym at))
  | inr e ↦
      let differs : o ≢ owner = λ s. ground arith in
      rw e (
        ap f (get_or_default-put_other no_bytes o owner b i.owner_bytes differs)
        ∙ add_zero (f (entry i o)))
]

entry-same :
    (f : ByteTracking → ℕ) (i : Inner) (owner o : ℕ) (b : ByteTracking)
    → f b ≡ f (entry i owner)
    → f (entry (set_entry i owner b) o) ≡ f (entry i o)
entry-same f i owner o b same =
    let raised = entry-raised f i owner o 0 b (same ∙ add_zero (f (entry i owner))) in
    elim (Bool-cases (o == owner)) [
      | inl e ↦ (rw e at raised) ∙ sym (add_zero (f (entry i o)))
      | inr e ↦ (rw e at raised) ∙ sym (add_zero (f (entry i o)))
    ]

Covers-Sums :
    (i : Inner) (ds : List CommittedDeallocation) (totals : Map ℕ)
    → Sums ds [] totals
    → ((o : ℕ) → bytes_of o ds ≤ (entry i o).committed_deallocated_bytes)
    → Covers totals i
Covers-Sums i ds totals (unique, sums, positive) below o t e =
    let value : get_or_default 0 o totals ≡ t = rw (get_or_default, e) refl in
    (positive o t e, omega (arith, sums o, below o))

nothing : (t : ℕ) → Path (Option ℕ) none (some t) → 0 < t
nothing t e = let wrong : ⊥ = cc in elim wrong [ ]

-- Where the counter of each owner's deallocated bytes is the sum of its deallocations that wait for
-- the device, none of them empty, telling the allocator what the device has flushed returns. The
-- flushed deallocations at the front, with log offsets below that of the flush, are gone, up to the
-- first that is not flushed, which waits with those behind it; the counters are again their sums, and the bytes that are taken are as many as before.
pub did_flush_device-IsTracked :
    (a : SimpleAllocator) (offset : ℕ)
    → IsTracked a.inner
    → Returns (did_flush_device a offset) λ a'.
      IsTracked a'.inner
      × IsFlushed offset a.inner.committed_deallocated a'.inner.committed_deallocated
      × (used_total a'.inner ≡ used_total a.inner)
unfolding did_flush_device
did_flush_device-IsTracked a offset (waiting, tracked, small) =
    let parts = split_flushed offset a.inner.committed_deallocated in
    let (gone, kept) = split_flushed-All offset a.inner.committed_deallocated waiting in
    let sum = λ (o : ℕ). split_flushed-bytes offset o a.inner.committed_deallocated in
    Returns-bind _ (release_deallocs parts.0 a.reserved_allocations []) _
      (release_deallocs-Sums parts.0 a.reserved_allocations [] gone tt (λ o t e. nothing t e)
        (λ o. omega (arith, sum o, tracked o, small o)))
      λ (reserved, totals) sums.
        Returns-bind _ (subtract_totals totals (record a.inner { committed_deallocated = parts.1 }))
          _
          (subtract_totals-Subtracted totals (record a.inner { committed_deallocated = parts.1 })
            sums.0
            (Covers-Sums (record a.inner { committed_deallocated = parts.1 }) parts.0 totals sums
              (λ o. omega (arith, sum o, tracked o))))
          λ i' (bytes, same, taken). (
            (
              subst (All IsWaiting) (sym same) kept,
              λ o. omega (arith, bytes o, sums.1 o, sum o, tracked o, ap (bytes_of o) same),
              λ o. omega (arith, bytes o, small o),
            ),
            subst (IsFlushed offset a.inner.committed_deallocated) (sym same)
                (split_flushed-IsFlushed offset a.inner.committed_deallocated),
            taken,
          )

-- The bytes that a reservation takes over stay in the range of its counters.
abbrev pub Fits : Inner → Option Reservation → ℕ → Type 0
Fits i none len = Unit
Fits i (some r) len =
    (reserved_for i r.owner_object_id + len ≤ u64_max) × (r.amount + len ≤ u64_max)

add_reservation-SameWaiting :
    (i : Inner) (owner : Option ℕ) (amount : ℕ)
    → reserved_for i owner + amount ≤ u64_max
    → Returns (add_reservation i owner amount) (SameWaiting i)
unfolding add_reservation
add_reservation-SameWaiting i none amount h =
    rw (add_u64-eq i.unattributed_reserved_bytes amount h) (λ o. refl, refl)
add_reservation-SameWaiting i (some owner) amount h =
    rw (add_u64-eq (entry i owner).reserved_bytes amount h) (
      λ o.
          entry-same (λ x. x.committed_deallocated_bytes) i owner o
            (record (entry i owner) { reserved_bytes = (entry i owner).reserved_bytes + amount })
            refl,
      refl,
    )

add_freed-SameWaiting :
    (i : Inner) (r : Option Reservation) (len : ℕ)
    → Fits i r len
    → Returns (add_freed i r len) λ (i', r'). SameWaiting i i'
unfolding add add_freed
add_freed-SameWaiting i none len h = (λ o. refl, refl)
add_freed-SameWaiting i (some r) len (h, k) =
    Returns-bind _ (add_reservation i r.owner_object_id len) _
      (add_reservation-SameWaiting i r.owner_object_id len h)
      λ i' same. rw (add_u64-eq r.amount len k) same

bytes_of-snoc :
    (o : ℕ) (ds : List CommittedDeallocation) (d : CommittedDeallocation)
    → bytes_of o (ds ++ d ∷ []) ≡ bytes_of o ds + bytes_of o (d ∷ [])
bytes_of-snoc o [] d = omega arith
bytes_of-snoc o (e ∷ ds) d = omega (arith, bytes_of-snoc o ds d)

IsWaiting-snoc :
    (ds : List CommittedDeallocation) (d : CommittedDeallocation)
    → All IsWaiting ds
    → IsWaiting d
    → All IsWaiting (ds ++ d ∷ [])
IsWaiting-snoc [] d h k = (k, tt)
IsWaiting-snoc (e ∷ ds) d (h, hs) k = (h, IsWaiting-snoc ds d hs k)

-- What counting a deallocation writes.
abbrev pub freed : ByteTracking → ℕ → ByteTracking
freed b len = record b {
  allocated_bytes = saturating_sub b.allocated_bytes (as_i64 len);
  committed_deallocated_bytes = b.committed_deallocated_bytes + len;
}

abbrev pub dealloc : ℕ → Range → ℕ → CommittedDeallocation
dealloc offset r owner = record { log_file_offset = offset; range = r; owner_object_id = owner }

raised-fits :
    (i : Inner) (owner o len n : ℕ)
    → n ≡ (entry i o).committed_deallocated_bytes + (if o == owner then len else 0)
    → (entry i owner).committed_deallocated_bytes + len ≤ u64_max
    → (entry i o).committed_deallocated_bytes ≤ u64_max
    → n ≤ u64_max
raised-fits i owner o len n e h k = elim (Bool-cases (o == owner)) [
  | inl same ↦
      let at : o ≡ owner = ground arith in
      let value = rw same at e in
      omega (arith, value, ap (λ x. (entry i x).committed_deallocated_bytes) at)
  | inr other ↦ let value = rw other at e in omega (arith, value)
]

Fits-same :
    (i i' : Inner) (r : Option Reservation) (len : ℕ)
    → ((o : Option ℕ) → reserved_for i' o ≡ reserved_for i o)
    → Fits i r len
    → Fits i' r len
Fits-same i i' none len same h = tt
Fits-same i i' (some r) len same (h, k) = (omega (arith, same r.owner_object_id), k)

pub reserved-same :
    (i : Inner) (owner : ℕ) (b : ByteTracking)
    → b.reserved_bytes ≡ (entry i owner).reserved_bytes
    → (o : Option ℕ) → reserved_for (set_entry i owner b) o ≡ reserved_for i o
reserved-same i owner b same none = refl
reserved-same i owner b same (some o) = entry-same (λ x. x.reserved_bytes) i owner o b same

-- Where the counters track what waits for the device, counting a live deallocation of a range that is
-- not empty, within the range of the counters, returns; the deallocation waits behind the others, and
-- the counters track what waits.
pub count_freed-IsTracked :
    (i : Inner) (offset : ℕ) (reservation : Option Reservation) (r : Range) (owner len : ℕ)
    → IsTracked i
    → r.start < r.end
    → len ≡ r.end - r.start
    → (entry i owner).committed_deallocated_bytes + len ≤ u64_max
    → Fits i reservation len
    → Returns
        (count_freed i (record { mode = live reservation; file_offset = offset }) r owner len)
        λ (i', r').
          IsTracked i'
          × (i'.committed_deallocated ≡ i.committed_deallocated ++ dealloc offset r owner ∷ [])
unfolding count_freed
count_freed-IsTracked i offset reservation r owner len (waiting, tracked, small) h size fits more =
    let raised = λ (o : ℕ).
      entry-raised (λ x. x.committed_deallocated_bytes) i owner o len (freed (entry i owner) len)
        refl in
    rw (add_u64-eq (entry i owner).committed_deallocated_bytes len fits) (
      Returns-imp
        (add_freed
          (record (set_entry i owner (freed (entry i owner) len)) {
            committed_deallocated = i.committed_deallocated ++ dealloc offset r owner ∷ [];
          })
          reservation len)
        (λ (i', r') (bytes, same). (
          (
            subst (All IsWaiting) (sym same)
                (IsWaiting-snoc i.committed_deallocated (dealloc offset r owner) waiting h),
            λ o. omega (
              arith,
              bytes o,
              raised o,
              tracked o,
              ap (bytes_of o) same,
              bytes_of-snoc o i.committed_deallocated (dealloc offset r owner),
              ap (λ n. if o == owner then n else 0) size,
            ),
            λ o. omega (arith, bytes o, raised-fits i owner o len _ (raised o) fits (small o)),
          ),
          same,
        ))
        (add_freed-SameWaiting _ reservation len (
          Fits-same i (set_entry i owner (freed (entry i owner) len)) reservation len
            (reserved-same i owner (freed (entry i owner) len) refl) more)))
