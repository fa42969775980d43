-- ===== src/Allocator/MergeInto.antt =====
-- Inserting an item into the mutable layer of the allocator's tree, as
-- `SimpleAllocator::apply_mutation` does: `merge_into` with the allocator's merge function.
pub mod Layers
pub mod States
pub mod Rounds
pub mod Result
use fxfs_on_linux.Common.{ℕ, List, Option}
use fxfs_on_linux.Lsm.MergeInto.{layer_merge_into}
use fxfs_on_linux.Allocator.Key.{
  AllocatorItem, cmp_upper_bound, lower_bound_for_merge_into, AllocatorKey_lower_bound,
}
use fxfs_on_linux.Allocator.Merge.{merge}

unfoldable pub insert_into_layer :
    ℕ → List AllocatorItem → AllocatorItem → Option (List AllocatorItem)
insert_into_layer fuel layer item =
    layer_merge_into cmp_upper_bound fuel merge layer item (lower_bound_for_merge_into item.key)
