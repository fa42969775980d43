-- ===== src/Util/Round.antt =====
-- src/round.rs: rounding a `u64` to a block size, and counting items.
use fxfs_on_linux.Common.{
  ℕ, ◌+◌, ◌-◌, ◌*◌, ◌%◌, ◌≤◌, ◌<◌, ◌≡◌, ◌⊎◌, Option, none, some, arith, leb, ltb, ◌==◌,
  if◌then◌else◌, Outcome, ok, panic, ◌>>=◌, u64_max, sub_u64, div_u64, ◌/◌, inl, inr, Bool-cases,
}

-- A block size of 0 is a remainder by zero, which panics.
unfoldable pub round_down : ℕ → ℕ → Outcome ℕ
round_down offset block_size = if ltb 0 block_size then ok (offset - offset % block_size) else panic

unfoldable pub round_up : ℕ → ℕ → Outcome (Option ℕ)
unfolding round_down
round_up offset block_size = do
  less_one ← sub_u64 block_size 1
  if leb (offset + less_one) u64_max
      then (do down ← round_down (offset + less_one) block_size; ok (some down))
      else ok none

unfoldable pub how_many : ℕ → ℕ → Outcome ℕ
how_many value item_size = do
  items ← div_u64 value item_size
  ok (if value % item_size == 0 then items else items + 1)

sub_mod-mod : (x b : ℕ) → 0 < b → (x - x % b) % b ≡ 0
sub_mod-mod x b h = grind arith

-- With a positive block size, `round_up` returns the least multiple of the block size that is not
-- below the offset, and returns `none` exactly when `offset + block_size - 1` leaves the `u64`
-- range.
pub round_up_least :
    (offset bs : ℕ)
    → 0 < bs
    → ((u64_max < offset + (bs - 1)) × (round_up offset bs ≡ ok none))
      ⊎ ((offset + (bs - 1) ≤ u64_max)
          × ((r : ℕ) × (round_up offset bs ≡ ok (some r))
              × (offset ≤ r)
              × (r < offset + bs)
              × (r % bs ≡ 0)))
unfolding round_up
round_up_least offset bs h = elim (Bool-cases (leb (offset + (bs - 1)) u64_max)) [
  | inl fits ↦ inr (
    ground arith,
    (
      (offset + (bs - 1)) - (offset + (bs - 1)) % bs,
      ground arith,
      grind arith,
      grind arith,
      sub_mod-mod _ bs h,
    ),
  )
  | inr over ↦ inl (ground arith, ground arith)
]

-- With a positive item size, `how_many` returns the least number of items that holds the value.
pub how_many_least :
    (value size : ℕ)
    → 0 < size
    → (n : ℕ) × (how_many value size ≡ ok n)
      × (value ≤ n * size)
      × ((m : ℕ) → value ≤ m * size → n ≤ m)
unfolding how_many
how_many_least value size h = elim (Bool-cases (value % size == 0)) [
  | inl exact ↦ (value / size, ground arith, grind arith, λ m k. grind arith)
  | inr more ↦ (value / size + 1, ground arith, grind arith, λ m k. grind arith)
]
