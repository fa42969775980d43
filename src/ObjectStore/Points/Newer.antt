-- ===== src/ObjectStore/Points/Newer.antt =====
-- The merge function of an object store (src/object_store/merge.rs), for records other than extents: of
-- two records with one key the newer stands, and others are left alone.
use Prim.Native.Nat.Ordering.{lt}
use fxfs_on_linux.Common.{
  ◌<◌, ◌≡◌, refl, ap, inl, inr, true, false, Bool-cases, none, lt→ltb, ◌==◌, ok, arith,
}
use fxfs_on_linux.Lsm.Types.{keep, discard, emit_left, other, LayerItem}
use fxfs_on_linux.Lsm.Merger.Next.{NewerStands}
use fxfs_on_linux.Lsm.Merger.Reads.{differs, ne-of_lt}
use fxfs_on_linux.ObjectStore.Record.Key.{same_key}
use fxfs_on_linux.ObjectStore.Record.Value.{ObjectValue}
use fxfs_on_linux.ObjectStore.Merge.{Layer, keep_left, merge_keys, merge_object, merge}
use fxfs_on_linux.ObjectStore.Points.{
  PointData, PointKey, as_data, as_key, as_layer, point_keys, point_merge, is_no_tombstone,
  no_tombstones,
}
use fxfs_on_linux.ObjectStore.Points.Order.{point_keys-PointKeys}

module _ {W : Type 0} where
  merge_object-keys :
      (l r : Layer W) (x y : PointData) (v w : ObjectValue W)
      → is_no_tombstone x v ≡ true
      → merge_object l r (as_data x) (as_data y) v w ≡ merge_keys l r
  unfolding merge_object
  merge_object-keys l r PointData.object y ObjectValue.none w p = cc
  merge_object-keys l r PointData.object y ObjectValue.some w p = refl
  merge_object-keys l r PointData.object y (ObjectValue.object k a) w p = refl
  merge_object-keys l r PointData.object y (ObjectValue.keys k) w p = refl
  merge_object-keys l r PointData.object y (ObjectValue.attribute n) w p = refl
  merge_object-keys l r PointData.object y (ObjectValue.extent e) w p = refl
  merge_object-keys l r PointData.object y (ObjectValue.child o d) w p = refl
  merge_object-keys l r PointData.object y ObjectValue.trim w p = refl
  merge_object-keys l r PointData.keys y v w p = refl
  merge_object-keys l r (PointData.size_of a) y v w p = refl
  merge_object-keys l r (PointData.child n) y v w p = refl
  merge_object-keys l r (PointData.graveyard_entry o) y v w p = refl

  merge_object-tombstone :
      (l r : Layer W) (x y : PointData) (v w : ObjectValue W)
      → is_no_tombstone x v ≡ false
      → merge_object l r (as_data x) (as_data y) v w ≡ keep_left l r
  unfolding merge_object
  merge_object-tombstone l r PointData.object y ObjectValue.none w p = refl
  merge_object-tombstone l r PointData.object y ObjectValue.some w p = cc
  merge_object-tombstone l r PointData.object y (ObjectValue.object k a) w p = cc
  merge_object-tombstone l r PointData.object y (ObjectValue.keys k) w p = cc
  merge_object-tombstone l r PointData.object y (ObjectValue.attribute n) w p = cc
  merge_object-tombstone l r PointData.object y (ObjectValue.extent e) w p = cc
  merge_object-tombstone l r PointData.object y (ObjectValue.child o d) w p = cc
  merge_object-tombstone l r PointData.object y ObjectValue.trim w p = cc
  merge_object-tombstone l r PointData.keys y v w p = cc
  merge_object-tombstone l r (PointData.size_of a) y v w p = cc
  merge_object-tombstone l r (PointData.child n) y v w p = cc
  merge_object-tombstone l r (PointData.graveyard_entry o) y v w p = cc

  -- An item that is no tombstone, before one with a higher key, is emitted.
  pub merge-lower :
      (l r : LayerItem PointKey (ObjectValue W))
      → point_keys.cmp_lower_bound l.item.key r.item.key ≡ lt
      → is_no_tombstone l.item.key.data_of l.item.value ≡ true
      → merge (as_layer l) (as_layer r) ≡ ok emit_left
  unfolding merge
  merge-lower l r o p =
      let other_key : same_key (as_key l.item.key) (as_key r.item.key) ≡ false =
        differs point_keys-PointKeys l.item.key r.item.key
          (ne-of_lt point_keys-PointKeys l.item.key r.item.key o) in
      elim (Bool-cases (l.item.key.object_id == r.item.key.object_id)) [
        | inl e ↦
            rw
              (
                e,
                merge_object-keys (as_layer l) (as_layer r) l.item.key.data_of r.item.key.data_of
                    l.item.value r.item.value p,
                other_key,
              )
              refl
        | inr e ↦ rw e refl
      ]

  -- Of two items with one key that of the newer layer is kept.
  pub merge-same :
      (l r : LayerItem PointKey (ObjectValue W))
      → l.item.key ≡ r.item.key
      → l.layer_index < r.layer_index
      → merge (as_layer l) (as_layer r) ≡ ok (other none keep discard)
  unfolding merge
  merge-same l r e h =
      let id : (l.item.key.object_id == r.item.key.object_id) ≡ true =
        let ids = ap (λ k. k.object_id) e in ground arith in
      let same = (point_keys-PointKeys.same_iff l.item.key r.item.key).1 e in
      let newer = lt→ltb l.layer_index r.layer_index h in
      elim (Bool-cases (is_no_tombstone l.item.key.data_of l.item.value)) [
        | inl p ↦
            rw
              (
                id,
                merge_object-keys (as_layer l) (as_layer r) l.item.key.data_of r.item.key.data_of
                    l.item.value r.item.value p,
                same,
                newer,
              )
              refl
        | inr p ↦
            rw
              (
                id,
                merge_object-tombstone (as_layer l) (as_layer r) l.item.key.data_of
                    r.item.key.data_of l.item.value r.item.value p,
                newer,
              )
              refl
      ]

  pub point_merge-NewerStands : NewerStands (point_merge {W = W})
  unfolding point_merge
  point_merge-NewerStands = record {
    same_key = λ l r o h. rw (merge-same l r (point_keys-PointKeys.cmp_eq _ _ o) h) refl;
    lower_key = λ l r o p. rw (merge-lower l r o p) refl;
  }
