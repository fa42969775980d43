-- ===== src/Examples/Lsm.antt =====
-- A tree of several layers of an object store's records (src/lsm_tree.rs, src/lsm_tree/merge.rs), with
-- the keys and the merge function of the object store.
use fxfs_on_linux.Common.{
  ℕ, ◌≡◌, refl, [], ◌∷◌, true, none, some, arith, internal, Ends, if◌then◌else◌,
}
use fxfs_on_linux.Lsm.Types.{Item, new}
use fxfs_on_linux.Lsm.Layer.{LsmTree, layer_set, set_layers, tree_insert, tree_replace_or_insert}
use fxfs_on_linux.Lsm.Merger.Heap.{IsAscending}
use fxfs_on_linux.Lsm.Merger.Reads.{lookup}
use fxfs_on_linux.Lsm.Query.{find, compact}
use fxfs_on_linux.Lsm.Query.Opened.{newest}
use fxfs_on_linux.Lsm.Query.Compacted.{Gives, compact-newest}
use fxfs_on_linux.Lsm.Query.Found.{find-newest}
use fxfs_on_linux.Lsm.Query.View.{
  layer_key, IsSorted, is_some, view, view-replace_or_insert, insert-replace_or_insert,
  view-compact,
}
use fxfs_on_linux.ObjectStore.Record.Key.{
  cmp_lower_bound, cmp_upper_bound, cmp_data, cmp_name, same_key_data,
}
use fxfs_on_linux.ObjectStore.Record.Value.{ObjectValue, ObjectDescriptor, ObjectKind, epoch}
use fxfs_on_linux.ObjectStore.Merge.{merge}
use fxfs_on_linux.ObjectStore.Points.{PointData, PointKey, point_keys, point_merge, no_tombstones}
use fxfs_on_linux.ObjectStore.Points.Order.{point_keys-PointKeys}
use fxfs_on_linux.ObjectStore.Points.Newer.{point_merge-NewerStands}

-- The directory 2 has the entries `a` and `b`.
abbrev entry_key : ℕ → PointKey
entry_key c = record { object_id = 2; data_of = PointData.child (c ∷ []) }

abbrev file : ℕ → ObjectValue ℕ
file n = ObjectValue.child n ObjectDescriptor.file

abbrev directory : Item PointKey (ObjectValue ℕ)
directory =
    new (record { object_id = 2; data_of = PointData.object })
      (ObjectValue.object (ObjectKind.directory 0)
        (record { creation_time = epoch; modification_time = epoch }))

-- The entry `a` was deleted, and `b` replaced.
abbrev three_layers : LsmTree PointKey (ObjectValue ℕ)
three_layers = record {
  mutable_layer = new (entry_key 97) ObjectValue.none ∷ [];
  layers =
      (new (entry_key 97) (file 5) ∷ new (entry_key 98) (file 6) ∷ [])
      ∷ (directory ∷ new (entry_key 98) (file 4) ∷ [])
      ∷ [];
}

three_layers-IsSorted : IsSorted three_layers
unfolding layer_set cmp_lower_bound cmp_data cmp_name
three_layers-IsSorted =
    ((tt, tt, refl), (((refl, tt), (tt, tt, refl), refl), (((refl, tt), (tt, tt, refl), refl), tt)))

compact_three :
    compact 9 point_merge three_layers
    ≡ some (directory ∷ new (entry_key 97) (file 5) ∷ new (entry_key 98) (file 6) ∷ [])
unfolding compact point_merge merge cmp_lower_bound cmp_data cmp_name same_key_data
compact_three = refl

find_a :
    find 9 point_merge three_layers (entry_key 97)
    ≡ some (some (new (entry_key 97) ObjectValue.none))
unfolding find point_merge merge cmp_lower_bound cmp_upper_bound cmp_data cmp_name same_key_data
find_a = refl

find-newest_example :
    find 9 point_merge three_layers (entry_key 98)
    ≡ some (newest (layer_set three_layers) (entry_key 98))
unfolding layer_set
find-newest_example =
    find-newest point_keys-PointKeys (entry_key 98) point_merge point_merge-NewerStands 9
      three_layers three_layers-IsSorted (omega arith)

compact-newest_example :
    Gives
      (compact 9 point_merge three_layers)
      λ out. IsAscending out × ((key : PointKey) → lookup key out ≡ newest three_layers.layers key)
unfolding layer_set
compact-newest_example =
    compact-newest point_keys-PointKeys point_merge point_merge-NewerStands 9 three_layers
      three_layers-IsSorted.1 (omega arith)

view-replace_or_insert_example :
    IsSorted (tree_replace_or_insert three_layers (new (entry_key 98) (file 7)))
    × ((key : PointKey)
        → view (tree_replace_or_insert three_layers (new (entry_key 98) (file 7))) key ≡ (
            if point_keys.same (entry_key 98) key
            then some (new (entry_key 98) (file 7))
            else view three_layers key))
view-replace_or_insert_example =
    view-replace_or_insert point_keys-PointKeys three_layers (new (entry_key 98) (file 7))
      three_layers-IsSorted refl

insert-replace_or_insert_example :
    Ends
      (tree_insert three_layers (new (entry_key 98) (file 7)))
      (λ t'.
        (t' ≡ tree_replace_or_insert three_layers (new (entry_key 98) (file 7)))
        × (lookup (entry_key 98) three_layers.mutable_layer ≡ none))
      λ e. (e ≡ internal) × (is_some (lookup (entry_key 98) three_layers.mutable_layer) ≡ true)
insert-replace_or_insert_example =
    insert-replace_or_insert point_keys-PointKeys three_layers (new (entry_key 98) (file 7))
      three_layers-IsSorted

view-compact_example : Gives (compact 9 point_merge three_layers) λ out.
    IsSorted (set_layers three_layers (out ∷ []))
    × ((key : PointKey) → view (set_layers three_layers (out ∷ [])) key ≡ view three_layers key)
view-compact_example =
    view-compact point_keys-PointKeys point_merge point_merge-NewerStands 9 three_layers
      three_layers-IsSorted (omega arith)
