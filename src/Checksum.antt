-- ===== src/Checksum.antt =====
-- src/checksum.rs: the Fletcher checksum that covers journal blocks and file extents. A buffer is
-- a list of bytes.
use fxfs_on_linux.Common.{
  ℕ, ◌+◌, ◌*◌, ◌/◌, ◌%◌, ◌^◌, ◌<◌, ◌≡◌, ap, List, [], ◌∷◌, ◌++◌, length, length-append, arith, ◌==◌,
  Outcome, ok, assert, ◌>>◌, refl, ◌>>=◌, zero, suc,
}

-- `LittleEndian::read_u32`
abbrev pub read_u32 : ℕ → ℕ → ℕ → ℕ → ℕ
read_u32 a b c d = a + 256 * b + 65536 * c + 16777216 * d

-- The two running sums `lo` and `hi` over the chunks of four bytes.
unfoldable pub sums : List ℕ → ℕ × ℕ → ℕ × ℕ
sums (a ∷ b ∷ c ∷ d ∷ rest) (lo, hi) =
    let lo' = (lo + read_u32 a b c d) % 2 ^ 32 in sums rest (lo', (hi + lo') % 2 ^ 32)
sums _ s = s

-- `hi << 32 | lo`, and the seed taken apart.
abbrev pub pack : ℕ × ℕ → ℕ
pack (lo, hi) = hi * 2 ^ 32 + lo

abbrev pub unpack : ℕ → ℕ × ℕ
unpack c = (c % 2 ^ 32, (c / 2 ^ 32) % 2 ^ 32)

unfoldable pub fletcher64 : List ℕ → ℕ → Outcome ℕ
unfolding sums
fletcher64 buf previous = do assert (length buf % 4 == 0); ok (pack (sums buf (unpack previous)))

-- `lo` and `hi` stay below 2 ^ 32.
abbrev InRange : ℕ × ℕ → Type 0
InRange (lo, hi) = (lo < 2 ^ 32) × (hi < 2 ^ 32)

sums-InRange : (buf : List ℕ) (lo hi : ℕ) → InRange (lo, hi) → InRange (sums buf (lo, hi))
unfolding sums
sums-InRange (a ∷ b ∷ c ∷ d ∷ rest) lo hi h = sums-InRange rest _ _ (omega arith, omega arith)
sums-InRange [] lo hi h = h
sums-InRange (a ∷ []) lo hi h = h
sums-InRange (a ∷ b ∷ []) lo hi h = h
sums-InRange (a ∷ b ∷ c ∷ []) lo hi h = h

unpack-pack : (s : ℕ × ℕ) → InRange s → unpack (pack s) ≡ s
unpack-pack (lo, hi) h = ground arith

-- A whole number of chunks can be summed in two goes.
sums-append :
    (n : ℕ) (xs ys : List ℕ) (s : ℕ × ℕ)
    → length xs ≡ n * 4
    → sums (xs ++ ys) s ≡ sums ys (sums xs s)
unfolding sums
sums-append zero [] ys s h = refl
sums-append zero (x ∷ xs) ys s h = absurd (omega arith)
sums-append (suc n) (a ∷ b ∷ c ∷ d ∷ xs) ys (lo, hi) h = sums-append n xs ys _ (omega arith)
sums-append (suc n) [] ys s h = absurd (omega arith)
sums-append (suc n) (a ∷ []) ys s h = absurd (omega arith)
sums-append (suc n) (a ∷ b ∷ []) ys s h = absurd (omega arith)
sums-append (suc n) (a ∷ b ∷ c ∷ []) ys s h = absurd (omega arith)

-- On a whole number of chunks `fletcher64` returns a `u64`.
pub fletcher64_total :
    (buf : List ℕ) (previous : ℕ)
    → length buf % 4 ≡ 0
    → (c : ℕ) × (fletcher64 buf previous ≡ ok c) × (c < 2 ^ 64)
unfolding fletcher64
fletcher64_total buf previous h = (
  pack (sums buf (unpack previous)),
  rw h,
  omega (
    arith,
    sums-InRange buf (previous % 2 ^ 32) ((previous / 2 ^ 32) % 2 ^ 32) (omega arith, omega arith),
  ),
)

-- The checksum of a buffer is the checksum of its second part, seeded by that of its first part:
-- this is how each journal block is chained to the one before it.
pub fletcher64-append :
    (xs ys : List ℕ) (previous : ℕ)
    → length xs % 4 ≡ 0
    → (length ys % 4 ≡ 0)
    → fletcher64 (xs ++ ys) previous ≡ (fletcher64 xs previous >>= fletcher64 ys)
unfolding fletcher64
fletcher64-append xs ys previous hx hy =
    let s = sums xs (unpack previous) in
    let whole : length (xs ++ ys) % 4 ≡ 0 = omega (arith, length-append xs ys) in
    let seed : unpack (pack s) ≡ s =
      unpack-pack s (sums-InRange xs _ _ (omega arith, omega arith)) in
    rw (whole, hx, hy, seed)
      (ap (λ t. ok (pack t)) (sums-append (length xs / 4) xs ys (unpack previous) (omega arith)))
