-- ===== src/Util/Range.antt =====
-- src/range.rs: `Range<u64>` and the extension trait `RangeExt`.
use fxfs_on_linux.Common.{
  ℕ, ◌-◌, ◌%◌, Bool, ◌&&◌, leb, ltb, ◌==◌, Outcome, ok, panic, inconsistent, ensure, ◌>>◌,
  if◌then◌else◌,
}

pub record Range : Type 0 where
  pub start : ℕ
  pub end : ℕ

unfoldable pub is_valid : Range → Bool
is_valid r = leb r.start r.end

unfoldable pub length : Range → Outcome ℕ
unfolding is_valid
length r = do ensure (is_valid r) inconsistent; ok (r.end - r.start)

-- `x % 0` panics.
unfoldable pub is_aligned : Range → ℕ → Outcome Bool
is_aligned r bs = if ltb 0 bs then ok ((r.start % bs == 0) && (r.end % bs == 0)) else panic

-- `a..b`
abbrev pub range : ℕ → ℕ → Range
range a b = record { start = a; end = b }
