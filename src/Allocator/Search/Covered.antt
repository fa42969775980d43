-- ===== src/Allocator/Search/Covered.antt =====
-- What `deallocate` collects: the bytes up to the range's end, which are all of the owner's extents.
use fxfs_on_linux.Common.{
  ℕ, ◌+◌, ◌-◌, ◌%◌, ◌<◌, ◌≤◌, ◌≡◌, ◌⊎◌, ◌∙◌, inl, inr, refl, ap, true, false, Bool-cases, Option,
  none, some, List, [], ◌∷◌, All, min, ltb, leb, ◌==◌, ok, inconsistent, sub_u64-eq, add_u64-eq,
  Ends, Ends-imp, FxfsError, u64_max, arith, lt→ltb, le→leb, leb→le,
}
use fxfs_on_linux.Util.Range.{Range, is_aligned, is_valid}
use fxfs_on_linux.Allocator.Key.{AllocatorItem, AllocatorValue, abs}
use fxfs_on_linux.Allocator.Search.{collect, deallocate, extend, check_owner}
use fxfs_on_linux.Allocator.Search.Gaps.{InOrder}

abbrev pub Has : AllocatorItem → ℕ → Type 0
Has item o = (item.key.device_range.start ≤ o) × (o < item.key.device_range.end)

-- The byte is in an extent of the owner.
abbrev pub IsOwned : ℕ → ℕ → List AllocatorItem → Type 0
IsOwned owner o [] = ⊥
IsOwned owner o (item ∷ items) = ((item.value ≡ abs 1 owner) × Has item o) ⊎ IsOwned owner o items

-- The byte is in no extent.
abbrev pub IsUnused : ℕ → AllocatorItem → Type 0
IsUnused o item = (o < item.key.device_range.start) ⊎ (item.key.device_range.end ≤ o)

abbrev pub SitsOnBlocks : ℕ → AllocatorItem → Type 0
SitsOnBlocks bs item = (item.key.device_range.start % bs ≡ 0) × (item.key.device_range.end % bs ≡ 0)

-- An extent that begins before `end` is the owner's.
abbrev pub OwnedBefore : ℕ → ℕ → AllocatorItem → Type 0
OwnedBefore owner end item = (end ≤ item.key.device_range.start) ⊎ (item.value ≡ abs 1 owner)

-- What is collected, up to `stop`.
abbrev pub Collects :
    (owner start end deallocated : ℕ)
    → Option Range
    → List AllocatorItem
    → ℕ × Option Range
    → Type 0
Collects owner start end deallocated mutation items (n, m) =
    (stop : ℕ) × (start ≤ stop)
    × (stop ≤ end)
    × (n ≡ deallocated + (stop - start))
    × ((o : ℕ) → start ≤ o → o < stop → IsOwned owner o items)
    × ((m ≡ some (extend mutation start stop)) ⊎ ((m ≡ mutation) × (stop ≡ start)))
    × ((stop ≡ end) ⊎ All (λ item. item.key.device_range.end ≤ stop) items)

-- A byte of the range is in no extent.
abbrev pub HasHole : ℕ → ℕ → List AllocatorItem → FxfsError → Type 0
HasHole start end items e =
    (e ≡ inconsistent) × (o : ℕ) × (start ≤ o) × (o < end) × All (IsUnused o) items

IsUnused-All :
    (o last : ℕ) (items : List AllocatorItem)
    → o < last
    → InOrder last items
    → All (IsUnused o) items
IsUnused-All o last [] h r = tt
IsUnused-All o last (item ∷ items) h (a, b, r) =
    (inl (omega arith), IsUnused-All o item.key.device_range.end items (omega arith) r)

extend-extend : (m : Option Range) (a b c : ℕ) → extend (some (extend m a b)) b c ≡ extend m a c
extend-extend none a b c = refl
extend-extend (some r) a b c = refl

ends-after :
    (upto last : ℕ) (items : List AllocatorItem)
    → upto ≤ last
    → InOrder last items
    → All (λ item. upto < item.key.device_range.end) items
ends-after upto last [] h r = tt
ends-after upto last (item ∷ items) h (a, b, r) =
    (omega arith, ends-after upto item.key.device_range.end items (omega arith) r)

not-leb : (m n : ℕ) → n < m → leb m n ≡ false
not-leb m n h = ground arith

same-true : (m : ℕ) → (m == m) ≡ true
same-true m = ground arith

check_owner-ok :
    (owner : ℕ) (value : AllocatorValue) → value ≡ abs 1 owner → check_owner owner value ≡ ok tt
check_owner-ok owner value e = rw (e, same-true owner) refl

-- What is collected behind an extent of the owner is collected with it.
collected-later :
    (owner start end deallocated : ℕ) (mutation : Option Range) (item : AllocatorItem)
    (items : List AllocatorItem)
    → item.value ≡ abs 1 owner
    → item.key.device_range.start ≤ start
    → start < item.key.device_range.end
    → (result : ℕ × Option Range)
    → Collects owner item.key.device_range.end end
        (deallocated + (item.key.device_range.end - start))
        (some (extend mutation start item.key.device_range.end))
        items
        result
    → Collects owner start end deallocated mutation (item ∷ items) result
collected-later owner start end deallocated mutation item items mine h k (n, m)
      (stop, p, q, total, own, mut, fin) =
    (
      stop,
      omega arith,
      q,
      omega arith,
      λ o x y. elim (Bool-cases (ltb o item.key.device_range.end)) [
        | inl here ↦ inl (mine, (omega arith, ground arith))
        | inr later ↦ inr (own o (ground arith) y)
      ],
      inl (elim mut [
        | inl e ↦ e ∙ ap some (extend-extend mutation start item.key.device_range.end stop)
        | inr (e, at) ↦ rw at e
      ]),
      elim fin [ inl e ↦ inl e | inr all ↦ inr (p, all) ],
    )

collect-Collects :
    (bs owner start end deallocated last : ℕ) (mutation : Option Range) (items : List AllocatorItem)
    → 0 < bs
    → start < end
    → deallocated + (end - start) ≤ u64_max
    → InOrder last items
    → All (λ item. start < item.key.device_range.end) items
    → All (SitsOnBlocks bs) items
    → All (OwnedBefore owner end) items
    → Ends
        (collect bs owner start end deallocated mutation items)
        (Collects owner start end deallocated mutation items)
        (HasHole start end items)
unfolding collect is_aligned
collect-Collects bs owner start end deallocated last mutation [] b h u o a f w =
    (start, omega arith, omega arith, omega arith, λ x p q. omega arith, inr (refl, refl), inr tt)
collect-Collects bs owner start end deallocated last mutation (item ∷ items) b h u (o, k, os)
      (a, rest) ((f, g), fs) (w, ws) =
    rw (lt→ltb 0 bs b, f, g)
      (elim (Bool-cases (leb item.key.device_range.start start)) [
        | inr e ↦ rw e (
          refl,
          start,
          omega arith,
          h,
          (inl (ground arith), IsUnused-All start item.key.device_range.end items a os),
        )
        | inl e ↦ elim w [
          | inl beyond ↦
              let wrong : ⊥ = omega (arith, leb→le item.key.device_range.start start e) in
              elim wrong [ ]
          | inr mine ↦
              let begins = leb→le item.key.device_range.start start e in
              let upto = min item.key.device_range.end end in
              rw
                (
                  e,
                  check_owner-ok owner item.value mine,
                  sub_u64-eq upto start (ground arith),
                  add_u64-eq deallocated (upto - start) (ground arith),
                )
                (elim (Bool-cases (upto == end)) [
                  | inl last_one ↦ rw last_one (
                    upto,
                    ground arith,
                    ground arith,
                    refl,
                    λ x p q. inl (mine, (omega arith, ground arith)),
                    inl refl,
                    inl (ground arith),
                  )
                  | inr more ↦
                      let inner : upto ≡ item.key.device_range.end = ground arith in
                      rw (more, inner)
                        (Ends-imp
                          (collect bs owner item.key.device_range.end end
                            (deallocated + (item.key.device_range.end - start))
                            (some (extend mutation start item.key.device_range.end)) items)
                          (collected-later owner start end deallocated mutation item items mine
                            begins a)
                          (λ x (same, at, p, q, un).
                            (same, at, omega arith, q, (inr (omega arith), un)))
                          (collect-Collects bs owner item.key.device_range.end end
                            (deallocated + (item.key.device_range.end - start))
                            item.key.device_range.end
                            (some (extend mutation start item.key.device_range.end)) items b
                            (ground arith) (ground arith) os
                            (ends-after item.key.device_range.end item.key.device_range.end items
                              (omega arith) os)
                            fs ws))
                ])
        ]
      ])

-- Where the extents that the iterator yields are in order, without overlap, behind the range's start,
-- sit on blocks, and are the owner's unless they begin behind the range's end, deallocating a range
-- that is not empty returns the length of a prefix of it, all of which the owner's extents have, and
-- a mutation for just that prefix, or none where it is empty; the prefix is the whole range, or no
-- extent reaches behind it. Or it fails with `Inconsistent`, and then a byte of the range is in no
-- extent.
pub deallocate-Collects :
    (bs owner : ℕ) (r : Range) (last : ℕ) (items : List AllocatorItem)
    → 0 < bs
    → r.start < r.end
    → r.end ≤ u64_max
    → InOrder last items
    → All (λ item. r.start < item.key.device_range.end) items
    → All (SitsOnBlocks bs) items
    → All (OwnedBefore owner r.end) items
    → Ends
        (deallocate bs owner r items)
        (Collects owner r.start r.end 0 none items)
        (HasHole r.start r.end items)
unfolding deallocate is_valid
deallocate-Collects bs owner r last items b h u o a f w =
    rw (le→leb r.start r.end (omega arith))
      (collect-Collects bs owner r.start r.end 0 last none items b h (omega arith) o a f w)
