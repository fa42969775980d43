-- ===== src/ObjectStore/Extent.antt =====
-- `ExtentKey` of src/object_store/extent_record.rs: the range of an attribute's bytes that an extent
-- covers.
pub mod Search
use Prim.Native.Nat.{compare, Ordering}
use fxfs_on_linux.Common.{
  ℕ, ◌+◌, Bool, not, ◌||◌, Option, none, some, leb, ◌==◌, if◌then◌else◌, min, max, Outcome, ok,
  assert, ◌>>◌, ◌>>=◌, add_u64,
}
use fxfs_on_linux.Util.Range.{Range, range}
use fxfs_on_linux.Allocator.Key.{then_with}

abbrev pub default_data_attribute_id : ℕ
default_data_attribute_id = 0

pub record ExtentKey : Type 0 where
  pub bytes : Range

-- The common bytes of two extents.
unfoldable pub overlap : ExtentKey → ExtentKey → Option Range
overlap a b =
    if leb a.bytes.end b.bytes.start || leb b.bytes.end a.bytes.start
    then none
    else some (range (max a.bytes.start b.bytes.start) (min a.bytes.end b.bytes.end))

unfoldable pub search_key_from_offset : ℕ → Outcome ExtentKey
search_key_from_offset offset = do after ← add_u64 offset 1; ok (record { bytes = range 0 after })

-- `assert_ne!`: an empty extent panics.
unfoldable pub search_key : ExtentKey → Outcome ExtentKey
unfolding search_key_from_offset
search_key k = do assert (not (k.bytes.start == k.bytes.end)); search_key_from_offset k.bytes.start

unfoldable pub key_for_merge_into : ExtentKey → ExtentKey
key_for_merge_into k = record { bytes = range 0 k.bytes.start }

unfoldable pub cmp_upper_bound : ExtentKey → ExtentKey → Ordering
cmp_upper_bound a b = compare a.bytes.end b.bytes.end

unfoldable pub cmp_lower_bound : ExtentKey → ExtentKey → Ordering
cmp_lower_bound a b = compare a.bytes.start b.bytes.start

unfoldable pub cmp : ExtentKey → ExtentKey → Ordering
cmp a b = then_with (compare a.bytes.start b.bytes.start) (compare a.bytes.end b.bytes.end)
