-- ===== src/ObjectStore/ExtentValue/Cut.antt =====
-- Cutting an extent at a block boundary: `offset_by` and `shrunk` keep, for the bytes that are left,
-- their place on the device and their checksum.
use fxfs_on_linux.Common.{
  ℕ, zero, suc, ◌+◌, ◌-◌, ◌*◌, ◌/◌, ◌≤◌, ◌<◌, ◌≡◌, refl, Option, List, [], ◌∷◌, length, get_elem?,
  take, drop, ok, arith, u64_max, Returns, length-take, length-drop,
}
use native.Mathlib.Nat.{zero-add, suc-add, mul-add-div_right, mul-div_cancel, mul-div_cancel_left}
use fxfs_on_linux.Common.{lt→ltb, le→leb, add_u64-eq, div_u64-eq}
use fxfs_on_linux.ObjectStore.ExtentValue.{Checksums, fletcher, ExtentValue, offset_by, shrunk}

-- Where a byte of an extent lies: on the device, with the checksum of its block, and with the key.
-- Nothing for a deleted extent.
pub record Place : Type 0 where
  pub device_offset : ℕ
  pub checksum : Option ℕ
  pub key_id : ℕ

-- The checksum of byte `x`, with `bs` bytes to a checksum.
abbrev pub checksum_at : ℕ → Checksums → ℕ → Option ℕ
checksum_at bs Checksums.none x = Option.none
checksum_at bs (fletcher sums) x = get_elem? sums (x / bs)

abbrev pub place : ℕ → ExtentValue → ℕ → Option Place
place bs ExtentValue.none x = Option.none
place bs (ExtentValue.some d c k) x =
    Option.some (record { device_offset = d + x; checksum = checksum_at bs c x; key_id = k })

-- An extent of `n` blocks that lies below the end of the device's offsets, with a checksum for each
-- block if it has checksums.
abbrev pub ChecksumsFit : ℕ → Checksums → Type 0
ChecksumsFit n Checksums.none = Unit
ChecksumsFit n (fletcher sums) = length sums ≡ n

abbrev pub IsBlocks : ℕ → ℕ → ExtentValue → Type 0
IsBlocks bs n ExtentValue.none = Unit
IsBlocks bs n (ExtentValue.some d c k) = ChecksumsFit n c × (d + n * bs ≤ u64_max)

get_elem?-drop : (k j : ℕ) (xs : List ℕ) → get_elem? (drop k xs) j ≡ get_elem? xs (k + j)
get_elem?-drop zero j xs = rw zero-add
get_elem?-drop (suc k) j [] = refl
get_elem?-drop (suc k) j (x ∷ xs) = rw suc-add (get_elem?-drop k j xs)

get_elem?-take : (k j : ℕ) (xs : List ℕ) → j < k → get_elem? (take k xs) j ≡ get_elem? xs j
get_elem?-take zero j xs h = elim h [ ]
get_elem?-take (suc k) j [] h = refl
get_elem?-take (suc k) zero (x ∷ xs) h = refl
get_elem?-take (suc k) (suc j) (x ∷ xs) h = get_elem?-take k j xs (omega arith)

div-lt : (k b y : ℕ) → 0 < b → y < k * b → y / b < k
div-lt k b y h l = grind arith

blocks-le : (k n b : ℕ) → k ≤ n → k * b ≤ n * b
blocks-le k n b h = grind arith

-- The room that a move needs: `k` of `n` blocks further on.
sum-le : (d k n b : ℕ) → k ≤ n → d + n * b ≤ u64_max → d + k * b ≤ u64_max
sum-le d k n b h f = omega (arith, blocks-le k n b h)

rest-le : (d k n b : ℕ) → k ≤ n → d + n * b ≤ u64_max → d + k * b + (n - k) * b ≤ u64_max
rest-le d k n b h f = grind arith

offset_by-plain :
    (d x len key : ℕ)
    → d + x ≤ u64_max
    → offset_by (ExtentValue.some d Checksums.none key) x len
      ≡ ok (ExtentValue.some (d + x) Checksums.none key)
unfolding offset_by
offset_by-plain d x len key h = rw (add_u64-eq d x h)

offset_by-fletcher :
    (bs n k d key : ℕ) (sums : List ℕ)
    → 0 < bs
    → 0 < n
    → k ≤ n
    → length sums ≡ n
    → d + k * bs ≤ u64_max
    → offset_by (ExtentValue.some d (fletcher sums) key) (k * bs) (n * bs)
      ≡ ok (ExtentValue.some (d + k * bs) (fletcher (drop k sums)) key)
unfolding offset_by
offset_by-fletcher bs n k d key sums hb hn hk e h = rw (
  lt→ltb 0 (length sums) (omega arith),
  e,
  mul-div_cancel_left bs hn,
  div_u64-eq (k * bs) bs hb,
  mul-div_cancel k hb,
  add_u64-eq d (k * bs) h,
  le→leb k n (omega arith),
)

shrunk-fletcher :
    (bs n k d key : ℕ) (sums : List ℕ)
    → 0 < bs
    → 0 < n
    → k ≤ n
    → length sums ≡ n
    → shrunk (ExtentValue.some d (fletcher sums) key) (n * bs) (k * bs)
      ≡ ok (ExtentValue.some d (fletcher (take k sums)) key)
unfolding shrunk
shrunk-fletcher bs n k d key sums hb hn hk e = rw (
  lt→ltb 0 (length sums) (omega arith),
  e,
  mul-div_cancel_left bs hn,
  div_u64-eq (k * bs) bs hb,
  mul-div_cancel k hb,
  le→leb k n hk,
)

place-eq :
    {d d' key : ℕ} {c c' : Option ℕ}
    → d ≡ d'
    → c ≡ c'
    → Path
        (Option Place)
        (Option.some (record { device_offset = d; checksum = c; key_id = key }))
        (Option.some (record { device_offset = d'; checksum = c'; key_id = key }))
place-eq e f = rw (e, f)

-- An extent of `n` blocks that is moved on by `k` of them, fewer than `n`, returns an extent of the
-- `n - k` blocks that are left, each byte of which lies where it lay, with the checksum of its block.
pub place-offset_by :
    (bs n k : ℕ) (v : ExtentValue)
    → 0 < bs
    → k < n
    → IsBlocks bs n v
    → Returns
        (offset_by v (k * bs) (n * bs))
        λ w. IsBlocks bs (n - k) w × ((y : ℕ) → place bs w y ≡ place bs v (k * bs + y))
unfolding offset_by
place-offset_by bs n k ExtentValue.none hb hk f = (tt, λ y. refl)
place-offset_by bs n k (ExtentValue.some d Checksums.none key) hb hk f =
    rw (offset_by-plain d (k * bs) (n * bs) key (sum-le d k n bs (omega arith) f.1))
      ((tt, rest-le d k n bs (omega arith) f.1), λ y. place-eq (omega arith) refl)
place-offset_by bs n k (ExtentValue.some d (fletcher sums) key) hb hk f =
    rw
      (offset_by-fletcher bs n k d key sums hb (omega arith) (omega arith) f.0
        (sum-le d k n bs (omega arith) f.1))
      (
        (omega (arith, length-drop k sums, f.0), rest-le d k n bs (omega arith) f.1),
        λ y.
            place-eq (omega arith) (rw (mul-add-div_right hb k y) (get_elem?-drop k (y / bs) sums)),
      )

-- An extent of `n` blocks, at least one, that is cut to its first `k` returns an extent of `k`
-- blocks, each byte of which lies where it lay, with the checksum of its block.
pub place-shrunk :
    (bs n k : ℕ) (v : ExtentValue)
    → 0 < bs
    → 0 < n
    → k ≤ n
    → IsBlocks bs n v
    → Returns
        (shrunk v (n * bs) (k * bs))
        λ w. IsBlocks bs k w × ((y : ℕ) → y < k * bs → place bs w y ≡ place bs v y)
unfolding shrunk
place-shrunk bs n k ExtentValue.none hb hn hk f = (tt, λ y h. refl)
place-shrunk bs n k (ExtentValue.some d Checksums.none key) hb hn hk f =
    ((tt, sum-le d k n bs hk f.1), λ y h. refl)
place-shrunk bs n k (ExtentValue.some d (fletcher sums) key) hb hn hk f =
    rw (shrunk-fletcher bs n k d key sums hb hn hk f.0) (
      (omega (arith, length-take k sums, f.0), sum-le d k n bs hk f.1),
      λ y h. place-eq refl (get_elem?-take k (y / bs) sums (div-lt k bs y hb h)),
    )
