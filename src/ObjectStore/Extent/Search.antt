-- ===== src/ObjectStore/Extent/Search.antt =====
-- What the overlaps and the search keys of extents mean.
use Prim.Native.Nat.Ordering.{lt, gt}
use fxfs_on_linux.Common.{
  ℕ, ◌+◌, ◌≤◌, ◌<◌, ◌≡◌, ◌↔◌, Bool, false, ◌&&◌, Option, none, some, ok, arith, ◌≢◌, u64_max,
}
use fxfs_on_linux.Util.Range.{Range, range}
use fxfs_on_linux.Allocator.Merge.View.{covers}
use fxfs_on_linux.ObjectStore.Extent.{
  ExtentKey, overlap, search_key, search_key_from_offset, key_for_merge_into, cmp_upper_bound,
  cmp_lower_bound, cmp,
}

abbrev pub covers_option : Option Range → ℕ → Bool
covers_option none x = false
covers_option (some r) x = covers r x

-- The overlap of two extents covers exactly the bytes that both cover.
pub overlap-covers :
    (a b : ExtentKey) (x : ℕ)
    → covers_option (overlap a b) x ≡ (covers a.bytes x && covers b.bytes x)
unfolding overlap
overlap-covers a b x = ground arith

-- A search for the search key of an extent `k` that is not empty and ends in the u64 range passes, in the order of the layers,
-- exactly the extents that end at or before the start of `k`; and the search key is not above `k`,
-- in the lower-bound order and in the full order.
pub search_key-passes :
    (k e : ExtentKey)
    → k.bytes.start < k.bytes.end
    → k.bytes.end ≤ u64_max
    → (s : ExtentKey) × (search_key k ≡ ok s)
      × ((cmp_upper_bound e s ≡ lt) ↔ (e.bytes.end ≤ k.bytes.start))
      × (cmp_lower_bound s k ≢ gt)
      × (cmp s k ≢ gt)
unfolding search_key search_key_from_offset cmp_upper_bound cmp_lower_bound cmp
search_key-passes k e h m = (
  record { bytes = range 0 (k.bytes.start + 1) },
  ground arith,
  ground arith,
  ground arith,
  ground arith,
)

-- The key for `merge_into` of an extent `k` passes exactly the extents that end before the start of
-- `k`, so those that touch `k` are met.
pub key_for_merge_into-passes :
    (k e : ExtentKey)
    → (cmp_upper_bound e (key_for_merge_into k) ≡ lt) ↔ (e.bytes.end < k.bytes.start)
unfolding key_for_merge_into cmp_upper_bound
key_for_merge_into-passes k e = ground arith
