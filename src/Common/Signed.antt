-- ===== src/Common/Signed.antt =====
-- `i64`, as an integer, and its conversions.
use Prim.Native.Nat.{ℕ, zero, suc, ◌+◌, ◌-◌, min}
use fxfs_on_linux.Common.Tests.{leb, if◌then◌else◌}
use fxfs_on_linux.Common.Results.{Outcome, ok, panic, u64_max}

pub data ℤ : Type 0 where
  pos : ℕ → ℤ
  -- Of `n`, the number -1 - n.
  negsuc : ℕ → ℤ

abbrev pub i64_max : ℕ
i64_max = 9223372036854775807

-- The difference of two numbers.
abbrev pub sub_nat : ℕ → ℕ → ℤ
sub_nat m n = if leb n m then pos (m - n) else negsuc (n - m - 1)

infixl 60 ◌+ℤ◌
abbrev pub ◌+ℤ◌ : ℤ → ℤ → ℤ
pos m +ℤ pos n = pos (m + n)
pos m +ℤ negsuc n = sub_nat m (suc n)
negsuc m +ℤ pos n = sub_nat n (suc m)
negsuc m +ℤ negsuc n = negsuc (suc (m + n))

abbrev pub negate : ℤ → ℤ
negate (pos zero) = pos zero
negate (pos (suc n)) = negsuc n
negate (negsuc n) = pos (suc n)

abbrev pub clamp_i64 : ℤ → ℤ
clamp_i64 (pos n) = pos (min n i64_max)
clamp_i64 (negsuc n) = negsuc (min n i64_max)

abbrev pub saturating_add : ℤ → ℤ → ℤ
saturating_add a b = clamp_i64 (a +ℤ b)

abbrev pub saturating_sub : ℤ → ℤ → ℤ
saturating_sub a b = clamp_i64 (a +ℤ negate b)

-- `a + b` and `a - b`, with the checks on.
abbrev pub check_i64 : ℤ → Outcome ℤ
check_i64 (pos n) = if leb n i64_max then ok (pos n) else panic
check_i64 (negsuc n) = if leb n i64_max then ok (negsuc n) else panic

abbrev pub sub_i64 : ℤ → ℤ → Outcome ℤ
sub_i64 a b = check_i64 (a +ℤ negate b)

abbrev pub add_i64 : ℤ → ℤ → Outcome ℤ
add_i64 a b = check_i64 (a +ℤ b)

-- `as u64` and `as i64`
abbrev pub as_u64 : ℤ → ℕ
as_u64 (pos n) = n
as_u64 (negsuc n) = u64_max - n

abbrev pub as_i64 : ℕ → ℤ
as_i64 n = if leb n i64_max then pos n else negsuc (u64_max - n)
