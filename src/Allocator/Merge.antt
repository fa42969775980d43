-- ===== src/Allocator/Merge.antt =====
-- src/object_store/allocator/merge.rs: the merge function of the allocator's tree, and the filters
-- over what a merge yields. The layer with the lower index is the newer.
pub mod View
pub mod Progress
use fxfs_on_linux.Common.{
  ℕ, Option, none, some, Bool, not, List, [], ◌∷◌, ltb, ◌==◌, ◌||◌, true, false, if◌then◌else◌, min,
}
use fxfs_on_linux.Util.Range.{Range, range}
use fxfs_on_linux.Lsm.Types.{
  Item, new_with_sequence, ItemOp, keep, discard, replace, MergeResult, emit_left, other, LayerItem,
}
use fxfs_on_linux.Allocator.Key.{AllocatorKey, AllocatorValue, AllocatorItem, same_value}

abbrev Layer : Type 0
Layer = LayerItem AllocatorKey AllocatorValue

abbrev pub start_of : Layer → ℕ
start_of l = l.item.key.device_range.start

abbrev pub end_of : Layer → ℕ
end_of l = l.item.key.device_range.end

-- The item of `l` with another range.
abbrev pub with_range : Layer → ℕ → ℕ → AllocatorItem
with_range l a b =
    new_with_sequence (record { device_range = range a b }) l.item.value l.item.sequence

-- Case 2: the ranges touch.
unfoldable pub merge_touching : Layer → Layer → MergeResult AllocatorKey AllocatorValue
merge_touching left right =
    if same_value left.item.value right.item.value
    then other none discard (
        replace (
          new_with_sequence (record { device_range = range (start_of left) (end_of right) })
            left.item.value (min left.item.sequence right.item.sequence)))
    else emit_left

-- Case 3: the same start, and `left` ends first.
unfoldable pub merge_left_shorter : Layer → Layer → MergeResult AllocatorKey AllocatorValue
merge_left_shorter left right =
    if ltb left.layer_index right.layer_index
    then other none keep (
        if end_of left == end_of right
        then discard
        else replace (with_range right (end_of left) (end_of right)))
    else other none discard keep

-- Case 4: the same start, and `left` does not end first.
unfoldable pub merge_left_longer : Layer → Layer → MergeResult AllocatorKey AllocatorValue
merge_left_longer left right =
    if ltb right.layer_index left.layer_index
    then other none
        (if end_of right == end_of left
          then discard
          else replace (with_range left (end_of right) (end_of left)))
        keep
    else other none keep discard

-- Case 5: the prefix of `left` before the start of `right` is split off. The source's debug
-- assertion, `right` starts at or before the end of `left`, holds since case 1 is excluded.
unfoldable pub split_prefix : Layer → Layer → MergeResult AllocatorKey AllocatorValue
split_prefix left right =
    other (some (with_range left (start_of left) (start_of right)))
      (replace (with_range left (start_of right) (end_of left))) keep

unfoldable pub merge : Layer → Layer → MergeResult AllocatorKey AllocatorValue
unfolding merge_touching merge_left_shorter merge_left_longer split_prefix
merge left right =
    -- Case 1: disjoint.
    if ltb (end_of left) (start_of right)
    then emit_left
    else if end_of left == start_of right
    then merge_touching left right
    else if start_of left == start_of right
    then (if ltb (end_of left) (end_of right)
        then merge_left_shorter left right
        else merge_left_longer left right)
    else split_prefix left right

-- `i.value != AllocatorValue::None`
abbrev pub is_allocated : AllocatorValue → Bool
is_allocated v = not (same_value v AllocatorValue.none)

unfoldable pub filter_tombstones : List AllocatorItem → List AllocatorItem
filter_tombstones [] = []
filter_tombstones (i ∷ is) =
    let rest = filter_tombstones is in if is_allocated i.value then i ∷ rest else rest

-- `HashSet::contains`
abbrev pub contains : List ℕ → ℕ → Bool
contains [] x = false
contains (y ∷ ys) x = y == x || contains ys x

abbrev pub is_live : List ℕ → AllocatorValue → Bool
is_live marked AllocatorValue.none = true
is_live marked (AllocatorValue.abs count owner_object_id) = not (contains marked owner_object_id)

unfoldable pub filter_marked_for_deletion : List AllocatorItem → List ℕ → List AllocatorItem
filter_marked_for_deletion [] marked = []
filter_marked_for_deletion (i ∷ is) marked =
    let rest = filter_marked_for_deletion is marked in
    if is_live marked i.value then i ∷ rest else rest
