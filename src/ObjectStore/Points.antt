-- ===== src/ObjectStore/Points.antt =====
-- The records of an object store (src/object_store/object_record.rs) other than extents: their keys do
-- not overlap. They merge as all records do (src/object_store/merge.rs).
pub mod Names
pub mod Order
pub mod Newer
use fxfs_on_linux.Common.{ℕ, List, Option, none, Bool, true, false, Outcome, ok}
use fxfs_on_linux.Lsm.Types.{
  Item, new_with_sequence, keep, discard, MergeResult, emit_left, other, LayerItem, MergeFn,
}
use fxfs_on_linux.Lsm.Merger.{MergeableKey}
use fxfs_on_linux.Lsm.Merger.Heap.{Permitted}
use fxfs_on_linux.ObjectStore.Record.Data.{AttributeKey, ObjectKeyData, ObjectKey}
use fxfs_on_linux.ObjectStore.Record.Key.{cmp_upper_bound, cmp_lower_bound, same_key, same_key_data}
use fxfs_on_linux.ObjectStore.Record.Value.{ObjectValue}
use fxfs_on_linux.ObjectStore.Merge.{Layer, Merged, merge}

-- The data of the keys but those of extents.
pub data PointData : Type 0 where
  object keys : PointData
  size_of : (attribute_id : ℕ) → PointData
  child : (name : List ℕ) → PointData
  graveyard_entry : (object_id : ℕ) → PointData

pub record PointKey : Type 0 where
  pub object_id : ℕ
  pub data_of : PointData

abbrev pub as_data : PointData → ObjectKeyData
as_data PointData.object = ObjectKeyData.object
as_data PointData.keys = ObjectKeyData.keys
as_data (PointData.size_of a) = ObjectKeyData.attribute a AttributeKey.size
as_data (PointData.child n) = ObjectKeyData.child n
as_data (PointData.graveyard_entry o) = ObjectKeyData.graveyard_entry o

abbrev pub as_key : PointKey → ObjectKey
as_key k = record { object_id = k.object_id; data_of = as_data k.data_of }

-- The orders, `==` and `next_key` of an object store's keys.
instance abbrev pub point_keys : MergeableKey PointKey
point_keys = record {
  cmp_upper_bound = λ j k. cmp_upper_bound (as_key j) (as_key k);
  cmp_lower_bound = λ j k. cmp_lower_bound (as_key j) (as_key k);
  same = λ j k. same_key (as_key j) (as_key k);
  next_key = λ k. none;
}

module _ {W : Type 0} where
  abbrev pub as_item : Item PointKey (ObjectValue W) → Item ObjectKey (ObjectValue W)
  as_item i = new_with_sequence (as_key i.key) i.value i.sequence

  abbrev pub as_layer : LayerItem PointKey (ObjectValue W) → Layer W
  as_layer l = record { layer_index = l.layer_index; item = as_item l.item }

  -- A result of the merge function, of the two that it has for these records.
  abbrev pub as_point : Outcome (Merged W) → MergeResult PointKey (ObjectValue W)
  as_point (ok (other none keep discard)) = other none keep discard
  as_point _ = emit_left

  -- The merge function of an object store's tree.
  unfoldable pub point_merge : MergeFn PointKey (ObjectValue W)
  unfolding merge
  point_merge l r = as_point (merge (as_layer l) (as_layer r))

  -- Not the tombstone of an object, which discards all that follows of the object.
  abbrev pub is_no_tombstone : PointData → ObjectValue W → Bool
  is_no_tombstone PointData.object ObjectValue.none = false
  is_no_tombstone _ _ = true

  instance abbrev pub no_tombstones : Permitted PointKey (ObjectValue W)
  no_tombstones = record { allows = λ i. is_no_tombstone i.key.data_of i.value }
