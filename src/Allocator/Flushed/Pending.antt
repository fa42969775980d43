-- ===== src/Allocator/Flushed/Pending.antt =====
-- The counter of the deallocated bytes that wait for the device, against the deallocations that wait.
use fxfs_on_linux.Common.{
  ℕ, ◌+◌, ◌-◌, ◌≤◌, ◌<◌, ◌≡◌, ◌≢◌, ◌∙◌, refl, ap, sym, subst, inl, inr, true, false, Bool-cases,
  none, some, Option-cases, List, [], ◌∷◌, ◌++◌, All, leb, ◌==◌, if◌then◌else◌, sub_u64-eq,
  add_u64-eq, u64_max, le→leb, arith, Map, get, put, get_or_default, get-put_same, get-put_other,
  get_or_default-put_same, get_or_default-put_other, Returns, Returns-imp,
}
use fxfs_on_linux.Util.Range
use fxfs_on_linux.Util.Range.{Range}
use fxfs_on_linux.Allocator.Key.{AllocatorItem}
use fxfs_on_linux.Allocator.Accounting.{
  ByteTracking, no_bytes, CommittedDeallocation, Inner, entry, set_entry,
}
use fxfs_on_linux.Allocator.Accounting.Totals.{used, used_total, used_total-set_entry}
use fxfs_on_linux.Allocator.Flushed.{split_flushed, release_deallocs, subtract_totals}

-- The bytes of an owner among the deallocations.
abbrev pub bytes_of : ℕ → List CommittedDeallocation → ℕ
bytes_of owner [] = 0
bytes_of owner (d ∷ ds) =
    (if owner == d.owner_object_id then d.range.end - d.range.start else 0) + bytes_of owner ds

-- A range that waits is not empty.
abbrev pub IsWaiting : CommittedDeallocation → Type 0
IsWaiting d = d.range.start < d.range.end

-- The counter of each owner is what waits for the device.
abbrev pub IsTracked : Inner → Type 0
IsTracked i =
    All IsWaiting i.committed_deallocated
    × ((owner : ℕ)
        → (entry i owner).committed_deallocated_bytes ≡ bytes_of owner i.committed_deallocated)
    × ((owner : ℕ) → (entry i owner).committed_deallocated_bytes ≤ u64_max)

pub split_flushed-bytes :
    (offset owner : ℕ) (ds : List CommittedDeallocation)
    → bytes_of owner (split_flushed offset ds).0 + bytes_of owner (split_flushed offset ds).1
      ≡ bytes_of owner ds
unfolding split_flushed
split_flushed-bytes offset owner [] = refl
split_flushed-bytes offset owner (d ∷ ds) = elim (Bool-cases (leb offset d.log_file_offset)) [
  | inl e ↦ rw e (omega arith)
  | inr e ↦ rw e (omega (arith, split_flushed-bytes offset owner ds))
]

-- The list starts with a deallocation that is not flushed, or is empty.
abbrev IsUnflushed : ℕ → List CommittedDeallocation → Type 0
IsUnflushed offset [] = Unit {0}
IsUnflushed offset (d ∷ ds) = offset ≤ d.log_file_offset

-- The flushed ones at the front are gone, up to the first that is not flushed.
abbrev pub IsFlushed : ℕ → (before after : List CommittedDeallocation) → Type 0
IsFlushed offset before after =
    (gone : List CommittedDeallocation) × ((before ≡ gone ++ after)
      × All (λ d. d.log_file_offset < offset) gone
      × IsUnflushed offset after)

pub split_flushed-IsFlushed :
    (offset : ℕ) (ds : List CommittedDeallocation) → IsFlushed offset ds (split_flushed offset ds).1
unfolding split_flushed
split_flushed-IsFlushed offset [] = ([], (refl, tt, tt))
split_flushed-IsFlushed offset (d ∷ ds) = elim (Bool-cases (leb offset d.log_file_offset)) [
  | inl e ↦
      let unflushed : offset ≤ d.log_file_offset = ground arith in rw e ([], (refl, tt, unflushed))
  | inr e ↦
      let flushed : d.log_file_offset < offset = ground arith in
      let rest = split_flushed-IsFlushed offset ds in
      rw e (d ∷ rest.0, (ap (◌∷◌ d) rest.1.0, (flushed, rest.1.1), rest.1.2))
]

pub split_flushed-All :
    (offset : ℕ) (ds : List CommittedDeallocation)
    → All IsWaiting ds
    → All IsWaiting (split_flushed offset ds).0 × All IsWaiting (split_flushed offset ds).1
unfolding split_flushed
split_flushed-All offset [] h = (tt, tt)
split_flushed-All offset (d ∷ ds) (h, hs) = elim (Bool-cases (leb offset d.log_file_offset)) [
  | inl e ↦ rw e (tt, (h, hs))
  | inr e ↦ let (p, q) = split_flushed-All offset ds hs in rw e ((h, p), q)
]

-- No key stands twice.
abbrev pub IsUnique {ℓ} : {V : Type ℓ} → Map V → Type ℓ
IsUnique [] = Unit
IsUnique ((k, v) ∷ m) = (get k m ≡ none) × IsUnique m

put-IsUnique : {V : Type 0} (k : ℕ) (v : V) (m : Map V) → IsUnique m → IsUnique (put k v m)
put-IsUnique k v [] u = (refl, tt)
put-IsUnique k v ((j, w) ∷ m) (u, us) = elim (Bool-cases (k == j)) [
  | inl e ↦ rw e (u, us)
  | inr e ↦
      let other : j ≢ k = λ same. ground arith in
      rw e (get-put_other j k v m other ∙ u, put-IsUnique k v m us)
]

-- The sums that are collected, from others: they grow by the bytes of the deallocations, no owner
-- stands twice, and none has zero bytes.
abbrev pub Sums : List CommittedDeallocation → Map ℕ → Map ℕ → Type 0
Sums ds totals totals' =
    IsUnique totals'
    × ((o : ℕ) → get_or_default 0 o totals' ≡ get_or_default 0 o totals + bytes_of o ds)
    × ((o t : ℕ) → get o totals' ≡ some t → 0 < t)

put-positive :
    (k v : ℕ) (m : Map ℕ)
    → 0 < v
    → ((o t : ℕ) → get o m ≡ some t → 0 < t)
    → (o t : ℕ) → get o (put k v m) ≡ some t
    → 0 < t
put-positive k v m h p o t e = elim (Bool-cases (o == k)) [
  | inl same ↦
      let at : o ≡ k = ground arith in
      let value : some v ≡ some t =
        sym (get-put_same k v m) ∙ ap (λ x. get x (put k v m)) (sym at) ∙ e in
      let eq : v ≡ t = cc in omega arith
  | inr other ↦
      let differs : o ≢ k = λ same. ground arith in p o t (sym (get-put_other o k v m differs) ∙ e)
]

default-put :
    (k v : ℕ) (m : Map ℕ) (o : ℕ)
    → get_or_default 0 o (put k v m) ≡ (if o == k then v else get_or_default 0 o m)
default-put k v m o = elim (Bool-cases (o == k)) [
  | inl same ↦
      let at : o ≡ k = ground arith in
      rw same (ap (λ x. get_or_default 0 x (put k v m)) at ∙ get_or_default-put_same 0 k v m)
  | inr other ↦
      let differs : o ≢ k = λ same. ground arith in
      rw other (get_or_default-put_other 0 o k v m differs)
]

grows :
    (totals : Map ℕ) (d : CommittedDeallocation) (ds : List CommittedDeallocation) (o : ℕ)
    → get_or_default 0 o (
          put d.owner_object_id
            (get_or_default 0 d.owner_object_id totals + (d.range.end - d.range.start))
            totals)
        + bytes_of o ds
      ≡ get_or_default 0 o totals + bytes_of o (d ∷ ds)
grows totals d ds o =
    let size = d.range.end - d.range.start in
    let new =
      default-put d.owner_object_id (get_or_default 0 d.owner_object_id totals + size) totals o in
    elim (Bool-cases (o == d.owner_object_id)) [
      | inl e ↦
          let at : o ≡ d.owner_object_id = ground arith in
          let old = ap (λ x. get_or_default 0 x totals) at in rw (new, e) (omega arith)
      | inr e ↦ rw (new, e) (omega arith)
    ]

pub release_deallocs-Sums :
    (ds : List CommittedDeallocation) (reserved : List AllocatorItem) (totals : Map ℕ)
    → All IsWaiting ds
    → IsUnique totals
    → ((o t : ℕ) → get o totals ≡ some t → 0 < t)
    → ((o : ℕ) → get_or_default 0 o totals + bytes_of o ds ≤ u64_max)
    → Returns (release_deallocs ds reserved totals) λ (reserved', totals'). Sums ds totals totals'
unfolding release_deallocs Range.length Range.is_valid
release_deallocs-Sums [] reserved totals w u p h = (u, λ o. omega arith, p)
release_deallocs-Sums (d ∷ ds) reserved totals (w, ws) u p h =
    let owner = d.owner_object_id in
    let size = d.range.end - d.range.start in
    let grown = grows totals d ds in
    let fits : get_or_default 0 owner totals + size ≤ u64_max = omega (
      arith,
      h owner,
      grown owner,
      get_or_default-put_same 0 owner (get_or_default 0 owner totals + size) totals,
    ) in
    rw
      (
        le→leb d.range.start d.range.end (omega arith),
        add_u64-eq (get_or_default 0 owner totals) size fits,
      )
      (Returns-imp (release_deallocs ds _ (put owner (get_or_default 0 owner totals + size) totals))
        (λ (reserved', totals') (unique, sums, positive). (unique, λ o. sums o ∙ grown o, positive))
        (release_deallocs-Sums ds _ (put owner (get_or_default 0 owner totals + size) totals) ws
          (put-IsUnique owner (get_or_default 0 owner totals + size) totals u)
          (put-positive owner (get_or_default 0 owner totals + size) totals (omega arith) p)
          (λ o. subst (λ n. n ≤ u64_max) (sym (grown o)) (h o))))

-- No owner has less in the counter than is taken from it, or nothing.
abbrev pub Covers : Map ℕ → Inner → Type 0
Covers m i = (o t : ℕ) → get o m ≡ some t → (0 < t) × (t ≤ (entry i o).committed_deallocated_bytes)

-- The counters after the sums are taken off; nothing else changes.
abbrev pub Subtracted : Map ℕ → Inner → Inner → Type 0
Subtracted m i i' =
    ((o : ℕ)
      → (entry i' o).committed_deallocated_bytes + get_or_default 0 o m
        ≡ (entry i o).committed_deallocated_bytes)
    × (i'.committed_deallocated ≡ i.committed_deallocated)
    × (used_total i' ≡ used_total i)

known :
    (i : Inner) (owner t : ℕ)
    → 0 < t
    → t ≤ (entry i owner).committed_deallocated_bytes
    → (b : ByteTracking) × (get owner i.owner_bytes ≡ some b) × (entry i owner ≡ b)
known i owner t h k = elim (Option-cases (get owner i.owner_bytes)) [
  | inl e ↦
      let nothing : entry i owner ≡ no_bytes = rw (get_or_default, e) refl in
      let zero_bytes = ap (λ b. b.committed_deallocated_bytes) nothing in
      let wrong : ⊥ = omega arith in elim wrong [ ]
  | inr (b, e) ↦ (b, e, rw (get_or_default, e) refl)
]

-- The counter of an owner, after that of `k` was lowered.
entry-lowered :
    (k t : ℕ) (i : Inner) (b : ByteTracking) (o : ℕ)
    → entry i k ≡ b
    → t ≤ b.committed_deallocated_bytes
    → (entry
          (set_entry i k
            (record b { committed_deallocated_bytes = b.committed_deallocated_bytes - t }))
          o).committed_deallocated_bytes
        + (if o == k then t else 0)
      ≡ (entry i o).committed_deallocated_bytes
entry-lowered k t i b o at enough =
    let b' = record b { committed_deallocated_bytes = b.committed_deallocated_bytes - t } in
    elim (Bool-cases (o == k)) [
      | inl e ↦
          let same : o ≡ k = ground arith in
          let new =
            ap (λ x. x.committed_deallocated_bytes)
              (ap (λ x. get_or_default no_bytes x (put k b' i.owner_bytes)) same
                ∙ get_or_default-put_same no_bytes k b' i.owner_bytes) in
          let old = ap (λ x. x.committed_deallocated_bytes) (ap (entry i) same ∙ at) in
          rw e (omega (arith, new, old))
      | inr e ↦
          let differs : o ≢ k = λ s. ground arith in
          let new =
            ap (λ x. x.committed_deallocated_bytes)
              (get_or_default-put_other no_bytes o k b' i.owner_bytes differs) in
          rw e (omega (arith, new))
    ]

default-cons :
    (k t : ℕ) (m : Map ℕ) (o : ℕ)
    → get k m ≡ none
    → get_or_default 0 o ((k, t) ∷ m) ≡ get_or_default 0 o m + (if o == k then t else 0)
default-cons k t m o u = elim (Bool-cases (o == k)) [
  | inl e ↦
      let same : o ≡ k = ground arith in
      let nothing : get_or_default 0 o m ≡ 0 =
        rw (get_or_default, ap (λ x. get x m) same, u) refl in
      rw (nothing, get_or_default, e) (omega arith)
  | inr e ↦ rw (get_or_default, e) (omega arith)
]

Covers-rest :
    (k t : ℕ) (m : Map ℕ) (i : Inner) (b : ByteTracking)
    → get k m ≡ none
    → entry i k ≡ b
    → t ≤ b.committed_deallocated_bytes
    → Covers ((k, t) ∷ m) i
    → Covers m (
        set_entry i k
          (record b { committed_deallocated_bytes = b.committed_deallocated_bytes - t }))
Covers-rest k t m i b u at enough h o t' f =
    let other : (o == k) ≡ false = elim (Bool-cases (o == k)) [
      | inl e ↦
          let same : o ≡ k = ground arith in
          let wrong : none ≡ some t' = sym u ∙ ap (λ x. get x m) (sym same) ∙ f in
          let absurd : ⊥ = cc in elim absurd [ ]
      | inr e ↦ e
    ] in
    let old = h o t' (rw other f) in
    let lowered = rw other at (entry-lowered k t i b o at enough) in (old.0, omega (arith, lowered))

pub subtract_totals-Subtracted :
    (m : Map ℕ) (i : Inner)
    → IsUnique m
    → Covers m i
    → Returns (subtract_totals m i) (Subtracted m i)
unfolding subtract_totals
subtract_totals-Subtracted [] i u h = (λ o. omega arith, refl, refl)
subtract_totals-Subtracted ((k, t) ∷ m) i (u, us) h =
    let same : (k == k) ≡ true = ground arith in
    let here = h k t (rw same refl) in
    let (b, e, at) = known i k t here.0 here.1 in
    let i' =
      set_entry i k
        (record b { committed_deallocated_bytes = b.committed_deallocated_bytes - t }) in
    let c = ap (λ x. x.committed_deallocated_bytes) at in
    let enough : t ≤ b.committed_deallocated_bytes = omega (arith, here.1) in
    rw (subtract_totals, e, sub_u64-eq b.committed_deallocated_bytes t enough)
      (Returns-imp (subtract_totals m i')
        (λ i'' (bytes, kept, taken). (
          λ o. omega (arith, bytes o, entry-lowered k t i b o at enough, default-cons k t m o u),
          kept,
          taken
              ∙ omega (
                arith,
                used_total-set_entry i k
                    (record b { committed_deallocated_bytes = b.committed_deallocated_bytes - t }),
                ap used at,
              ),
        ))
        (subtract_totals-Subtracted m i' us (Covers-rest k t m i b u at enough h)))
