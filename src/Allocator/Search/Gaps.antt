-- ===== src/Allocator/Search/Gaps.antt =====
-- What `allocate` finds: a range that no extent has, or nothing if there is none.
use fxfs_on_linux.Common.{
  ℕ, ◌+◌, ◌%◌, ◌<◌, ◌≤◌, ◌≡◌, ◌⊎◌, ◌∙◌, inl, inr, refl, Bool-cases, List, [], ◌∷◌, All, min, ltb,
  leb, ok, no_space, add_u64-eq, Ends, Ends-imp, u64_max, arith, lt→ltb, le→leb, ltb→lt,
}
use native.Mathlib.Nat.{add-mod}
use fxfs_on_linux.Util.Range.{Range, is_aligned}
use fxfs_on_linux.Allocator.Key.{AllocatorItem}
use fxfs_on_linux.Allocator.Search.{find_gap, check_extent}

-- The extents are in order from `last` on, none is empty, and none overlaps another.
abbrev pub InOrder : ℕ → List AllocatorItem → Type 0
InOrder last [] = Unit
InOrder last (item ∷ items) =
    (last ≤ item.key.device_range.start)
    × (item.key.device_range.start < item.key.device_range.end)
    × InOrder item.key.device_range.end items

-- The extent sits on blocks of the device.
abbrev pub FitsDevice : ℕ → ℕ → AllocatorItem → Type 0
FitsDevice bs ds item =
    (item.key.device_range.start % bs ≡ 0)
    × (item.key.device_range.end % bs ≡ 0)
    × (item.key.device_range.end ≤ ds)

-- No byte of the range is the extent's.
abbrev pub IsApart : Range → AllocatorItem → Type 0
IsApart r item = (item.key.device_range.end ≤ r.start) ⊎ (r.end ≤ item.key.device_range.start)

-- The extents have every byte from `last` to the end of the device.
abbrev pub IsFull : (device_size last : ℕ) → List AllocatorItem → Type 0
IsFull ds last [] = ds ≤ last
IsFull ds last (item ∷ items) =
    (item.key.device_range.start ≡ last) × IsFull ds item.key.device_range.end items

-- A range that an allocation of `len` bytes may have.
abbrev pub IsFree : (bs ds len last : ℕ) → List AllocatorItem → Range → Type 0
IsFree bs ds len last items r =
    (last ≤ r.start)
    × (r.start < r.end)
    × (r.end ≤ r.start + len)
    × (r.end ≤ ds)
    × (r.start % bs ≡ 0)
    × (r.end % bs ≡ 0)
    × All (IsApart r) items

IsApart-All :
    (r : Range) (last : ℕ) (items : List AllocatorItem)
    → r.end ≤ last
    → InOrder last items
    → All (IsApart r) items
IsApart-All r last [] h o = tt
IsApart-All r last (item ∷ items) h (a, b, o) =
    (inr (omega arith), IsApart-All r item.key.device_range.end items (omega arith) o)

sum-mod : (m n bs : ℕ) → m % bs ≡ 0 → n % bs ≡ 0 → (m + n) % bs ≡ 0
sum-mod m n bs h k = add-mod m n bs ∙ rw (h, k) (grind arith)

min-mod : (m n bs : ℕ) → m % bs ≡ 0 → n % bs ≡ 0 → min m n % bs ≡ 0
min-mod m n bs h k = ground arith

check_extent-ok :
    (bs ds : ℕ) (item : AllocatorItem)
    → 0 < bs
    → FitsDevice bs ds item
    → check_extent bs ds item.key.device_range ≡ ok tt
unfolding is_aligned
check_extent-ok bs ds item h (a, b, c) =
    rw (lt→ltb 0 bs h, a, b, le→leb item.key.device_range.end ds c) refl

-- Where the block size is not zero, the extents are in order, without overlap, and sit on blocks of
-- the device, whose size is, like the length that is asked for, a whole number of blocks, the search
-- for a gap returns a range of whole blocks on the device, not longer than was asked for, that no
-- extent has a byte of; or it fails with `NoSpace`, if the extents have every byte of the device.
pub find_gap-IsFree :
    (bs ds len last : ℕ) (items : List AllocatorItem)
    → 0 < bs
    → 0 < len
    → ds + len ≤ u64_max
    → ds % bs ≡ 0
    → len % bs ≡ 0
    → last ≤ ds
    → last % bs ≡ 0
    → InOrder last items
    → All (FitsDevice bs ds) items
    → Ends
        (find_gap bs ds len last items)
        (IsFree bs ds len last items)
        λ e. (e ≡ no_space) × IsFull ds last items
unfolding find_gap
find_gap-IsFree bs ds len last [] b l u d n h a o f =
    rw (add_u64-eq last len (omega arith)) (elim (Bool-cases (leb (min (last + len) ds) last)) [
      | inl e ↦ rw e (refl, ground arith)
      | inr e ↦ rw e (
        omega arith,
        ground arith,
        ground arith,
        ground arith,
        a,
        min-mod (last + len) ds bs (sum-mod last len bs a n) d,
        tt,
      )
    ])
find_gap-IsFree bs ds len last (item ∷ items) b l u d n h a (o, k, os) ((f, g, i), fs) =
    rw (check_extent-ok bs ds item b (f, g, i))
      (elim (Bool-cases (ltb last item.key.device_range.start)) [
        | inl e ↦
            let gap = ltb→lt last item.key.device_range.start e in
            rw (e, add_u64-eq last len (omega arith))
              (
                omega arith,
                ground arith,
                ground arith,
                ground arith,
                a,
                min-mod (last + len) item.key.device_range.start bs (sum-mod last len bs a n) f,
                (
                  inr (ground arith),
                  IsApart-All _ item.key.device_range.end items (ground arith) os,
                ),
              )
        | inr e ↦
            let start : item.key.device_range.start ≡ last = ground arith in
            rw e (
              Ends-imp (find_gap bs ds len item.key.device_range.end items)
                (λ r (p, q, s, t, v, w, apart). (omega arith, q, s, t, v, w, (inl p, apart)))
                (λ x (same, full). (same, (start, full)))
                (find_gap-IsFree bs ds len item.key.device_range.end items b l u d n i g os fs))
      ])
