-- ===== src/Allocator/Key.antt =====
-- `AllocatorKey` and `AllocatorValue` of src/object_store/allocator.rs, with the orders on keys.
use Prim.Native.Nat.{compare, Ordering}
use Prim.Native.Nat.Ordering.{eq}
use fxfs_on_linux.Common.{ℕ, Bool, true, false, ◌&&◌, ltb, ◌==◌}
use fxfs_on_linux.Util.Range.{Range, range}
use fxfs_on_linux.Lsm.Types.{Item, OrdLowerBound}

pub record AllocatorKey : Type 0 where
  pub device_range : Range

pub data AllocatorValue : Type 0 where
  -- A tombstone: the range is no longer allocated.
  none : AllocatorValue
  -- A count of references, and the object that owns the range.
  abs : (count owner_object_id : ℕ) → AllocatorValue

-- `==` on values
abbrev pub same_value : AllocatorValue → AllocatorValue → Bool
same_value none none = true
same_value (abs c o) (abs d p) = c == d && o == p
same_value _ _ = false

abbrev pub AllocatorItem : Type 0
AllocatorItem = Item AllocatorKey AllocatorValue

-- `Ordering::then`
abbrev pub then_with : Ordering → Ordering → Ordering
then_with eq second = second
then_with first _ = first

unfoldable pub lower_bound_for_merge_into : AllocatorKey → AllocatorKey
lower_bound_for_merge_into k = record { device_range = range 0 k.device_range.start }

unfoldable pub cmp_upper_bound : AllocatorKey → AllocatorKey → Ordering
cmp_upper_bound j k = compare j.device_range.end k.device_range.end

unfoldable pub cmp_lower_bound : AllocatorKey → AllocatorKey → Ordering
cmp_lower_bound j k =
    then_with (compare j.device_range.start k.device_range.start)
      (compare j.device_range.end k.device_range.end)

instance abbrev pub AllocatorKey_lower_bound : OrdLowerBound AllocatorKey
AllocatorKey_lower_bound = record { cmp_lower_bound = cmp_lower_bound }

unfoldable pub overlaps : AllocatorKey → AllocatorKey → Bool
overlaps j k =
    ltb j.device_range.start k.device_range.end && ltb k.device_range.start j.device_range.end
