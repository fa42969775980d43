-- ===== src/ObjectStore/Merge.antt =====
-- src/object_store/merge.rs: the merge function of an object store's tree. The layer with the lower
-- index is the newer.
pub mod Extents
use fxfs_on_linux.Common.{
  ℕ, ◌+◌, Bool, ◌&&◌, ◌||◌, not, false, Option, none, some, ltb, leb, ◌==◌, if◌then◌else◌, min,
  Outcome, ok, assert, ◌>>◌, ◌>>=◌, sub_u64,
}
use fxfs_on_linux.Util.Range.{Range, range}
use fxfs_on_linux.Lsm.Types.{
  Item, new_with_sequence, keep, discard, replace, MergeResult, emit_left, other, LayerItem,
}
use fxfs_on_linux.ObjectStore.Extent.{ExtentKey}
use fxfs_on_linux.ObjectStore.ExtentValue.{ExtentValue, shrunk, offset_by, deleted_extent}
use fxfs_on_linux.ObjectStore.Record.Data.{AttributeKey, ObjectKeyData, ObjectKey}
use fxfs_on_linux.ObjectStore.Record.Key.{extent, same_key, same_key_data}
use fxfs_on_linux.ObjectStore.Record.Value.{ObjectValue}

-- A layer's item and a merge's result, with the wrapped keys of src/crypt.rs.
abbrev pub Layer : Type 0 → Type 0
Layer W = LayerItem ObjectKey (ObjectValue W)

abbrev pub Merged : Type 0 → Type 0
Merged W = MergeResult ObjectKey (ObjectValue W)

module _ {W : Type 0} where
  abbrev pub extent_item : ℕ → ℕ → Range → ExtentValue → ℕ → Item ObjectKey (ObjectValue W)
  extent_item object_id attribute_id r v sequence =
      new_with_sequence (extent object_id attribute_id r) (ObjectValue.extent v) sequence

  unfoldable pub merge_deleted_extents : ℕ → ℕ → ExtentKey → ExtentKey → ℕ → Merged W
  merge_deleted_extents object_id attribute_id left_key right_key sequence =
      if ltb left_key.bytes.end right_key.bytes.start
      then emit_left
      else if leb right_key.bytes.end left_key.bytes.end
      then other none keep discard
      else other none discard (
          replace (
            extent_item object_id attribute_id (range left_key.bytes.start right_key.bytes.end)
              deleted_extent sequence))

  -- The right layer is newer: the left extent is cut where the right one starts.
  unfoldable pub cut_left : ℕ → ℕ → ExtentKey → ExtentKey → ExtentValue → ℕ → Outcome (Merged W)
  cut_left object_id attribute_id left_key right_key left_value sequence = do
    assert (ltb left_key.bytes.start right_key.bytes.start)
    original_len ← sub_u64 left_key.bytes.end left_key.bytes.start
    new_len ← sub_u64 right_key.bytes.start left_key.bytes.start
    first ← shrunk left_value original_len new_len
    amount ← sub_u64 right_key.bytes.start left_key.bytes.start
    extent_len ← sub_u64 left_key.bytes.end left_key.bytes.start
    rest ← offset_by left_value amount extent_len
    ok (
        other
          (some (
            extent_item object_id attribute_id (range left_key.bytes.start right_key.bytes.start)
              first sequence))
          (replace (
            extent_item object_id attribute_id (range right_key.bytes.start left_key.bytes.end) rest
              sequence))
          keep)

  -- The left layer is newer, and the right extent ends behind the left one.
  unfoldable pub cut_right : ℕ → ℕ → ExtentKey → ExtentKey → ExtentValue → ℕ → Outcome (Merged W)
  cut_right object_id attribute_id left_key right_key right_value sequence = do
    amount ← sub_u64 left_key.bytes.end right_key.bytes.start
    extent_len ← sub_u64 right_key.bytes.end right_key.bytes.start
    rest ← offset_by right_value amount extent_len
    ok (
        other none keep (
          replace (
            extent_item object_id attribute_id (range left_key.bytes.end right_key.bytes.end) rest
              sequence)))

  -- Both are deleted, and `(left.layer_index - right.layer_index).abs() == 1`.
  abbrev pub are_adjacent_deletions : Layer W → Layer W → ExtentValue → ExtentValue → Bool
  are_adjacent_deletions left right ExtentValue.none ExtentValue.none =
      (left.layer_index + 1 == right.layer_index) || (right.layer_index + 1 == left.layer_index)
  are_adjacent_deletions left right v w = false

  unfoldable pub merge_extents :
      ℕ
      → ℕ
      → Layer W
      → Layer W
      → ExtentKey
      → ExtentKey
      → ExtentValue
      → ExtentValue
      → Outcome (Merged W)
  unfolding merge_deleted_extents cut_left cut_right
  merge_extents object_id attribute_id left right left_key right_key left_value right_value =
      assert (not (right.layer_index == left.layer_index))
      >> let sequence = min left.item.sequence right.item.sequence in
        if are_adjacent_deletions left right left_value right_value
        then ok (merge_deleted_extents object_id attribute_id left_key right_key sequence)
        else if leb left_key.bytes.end right_key.bytes.start
        then ok emit_left
        else if ltb right.layer_index left.layer_index
        then cut_left object_id attribute_id left_key right_key left_value sequence
        else if leb right_key.bytes.end left_key.bytes.end
        then ok (other none keep discard)
        else cut_right object_id attribute_id left_key right_key right_value sequence

  -- The newer left item stands for both.
  abbrev pub keep_left : Layer W → Layer W → Outcome (Merged W)
  keep_left left right = do
    assert (ltb left.layer_index right.layer_index)
    ok (other none keep discard)

  -- The last arms of the match: the same key, or anything else.
  abbrev pub merge_keys : Layer W → Layer W → Outcome (Merged W)
  merge_keys left right =
      if same_key left.item.key right.item.key then keep_left left right else ok emit_left

  -- The match on the data of the keys and on the values, for one object.
  unfoldable pub merge_object :
      Layer W
      → Layer W
      → ObjectKeyData
      → ObjectKeyData
      → ObjectValue W
      → ObjectValue W
      → Outcome (Merged W)
  unfolding merge_extents
  merge_object left right (ObjectKeyData.attribute a (AttributeKey.extent e))
        (ObjectKeyData.attribute b (AttributeKey.extent f)) (ObjectValue.extent v)
        (ObjectValue.extent w) =
      if a == b
      then merge_extents left.item.key.object_id a left right e f v w
      else merge_keys left right
  merge_object left right ObjectKeyData.object y ObjectValue.none w = keep_left left right
  merge_object left right x y v w = merge_keys left right

  unfoldable pub merge : Layer W → Layer W → Outcome (Merged W)
  unfolding merge_object
  merge left right =
      if left.item.key.object_id == right.item.key.object_id
      then merge_object left right left.item.key.data_of right.item.key.data_of left.item.value
          right.item.value
      else ok emit_left
