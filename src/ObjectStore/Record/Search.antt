-- ===== src/ObjectStore/Record/Search.antt =====
-- What the search keys and the overlaps of object keys mean.
use Prim.Native.Nat.Ordering.{lt, gt}
use fxfs_on_linux.Common.{ℕ, ◌+◌, ◌≤◌, ◌<◌, ◌≡◌, ◌≢◌, ◌↔◌, refl, true, some, ok, arith, u64_max}
use fxfs_on_linux.Util.Range.{Range, range}
use fxfs_on_linux.ObjectStore.Extent
use fxfs_on_linux.ObjectStore.Extent.{ExtentKey}
use fxfs_on_linux.ObjectStore.Record.Data.{AttributeKey, ObjectKeyData, ObjectKey}
use fxfs_on_linux.ObjectStore.Record.Key.{
  object, extent, cmp_data, cmp_upper_bound, cmp_lower_bound, overlaps, same_key_data, search_key,
  key_for_merge_into, next_key,
}

-- A key whose extent, if it is one, is not empty and ends in the u64 range.
abbrev pub IsSearchable : ObjectKeyData → Type 0
IsSearchable (ObjectKeyData.attribute a (AttributeKey.extent e)) =
    (e.bytes.start < e.bytes.end) × (e.bytes.end ≤ u64_max)
IsSearchable _ = Unit

same-not-lt : (x y : ObjectKeyData) → same_key_data x y ≡ true → cmp_data x y ≢ lt
unfolding same_key_data
same-not-lt x y h = ground arith

finds-data :
    (o p : ℕ) (x y : ObjectKeyData)
    → IsSearchable y
    → overlaps (record { object_id = o; data_of = x }) (record { object_id = p; data_of = y })
      ≡ true
    → ((s : ObjectKey) × (search_key (record { object_id = p; data_of = y }) ≡ ok s)
        × (cmp_upper_bound (record { object_id = o; data_of = x }) s ≢ lt))
      × (cmp_upper_bound
            (record { object_id = o; data_of = x })
            (key_for_merge_into (record { object_id = p; data_of = y }))
          ≢ lt)
unfolding search_key key_for_merge_into overlaps cmp_upper_bound same_key_data cmp_data
    Extent.search_key Extent.search_key_from_offset Extent.key_for_merge_into Extent.cmp_upper_bound
finds-data o p (ObjectKeyData.attribute a (AttributeKey.extent e))
      (ObjectKeyData.attribute b (AttributeKey.extent f)) v h =
    ((extent p b (range 0 (f.bytes.start + 1)), ground arith, ground arith), ground arith)
finds-data o p ObjectKeyData.object (ObjectKeyData.attribute b (AttributeKey.extent f)) v h =
    ground arith
finds-data o p ObjectKeyData.keys (ObjectKeyData.attribute b (AttributeKey.extent f)) v h =
    ground arith
finds-data o p (ObjectKeyData.attribute a AttributeKey.size)
      (ObjectKeyData.attribute b (AttributeKey.extent f)) v h =
    ground arith
finds-data o p (ObjectKeyData.child m) (ObjectKeyData.attribute b (AttributeKey.extent f)) v h =
    ground arith
finds-data o p (ObjectKeyData.graveyard_entry m) (ObjectKeyData.attribute b (AttributeKey.extent f))
      v h =
    ground arith
finds-data o p x ObjectKeyData.object v h = ((_, refl, ground arith), ground arith)
finds-data o p x ObjectKeyData.keys v h = ((_, refl, ground arith), ground arith)
finds-data o p x (ObjectKeyData.attribute b AttributeKey.size) v h =
    ((_, refl, ground arith), ground arith)
finds-data o p x (ObjectKeyData.child n) v h = ((_, refl, ground arith), ground arith)
finds-data o p x (ObjectKeyData.graveyard_entry n) v h = ((_, refl, ground arith), ground arith)

-- The search key of a key is found without a panic where the key's extent, if it is one, is not empty
-- and ends in the u64 range, and no key that overlaps the key lies before its search key, or before
-- its key for `merge_into`, in the order of the layers.
pub search_key-finds :
    (j k : ObjectKey)
    → IsSearchable k.data_of
    → overlaps j k ≡ true
    → ((s : ObjectKey) × (search_key k ≡ ok s) × (cmp_upper_bound j s ≢ lt))
      × (cmp_upper_bound j (key_for_merge_into k) ≢ lt)
unfolding search_key key_for_merge_into overlaps cmp_upper_bound Extent.search_key
    Extent.search_key_from_offset Extent.key_for_merge_into Extent.cmp_upper_bound
search_key-finds j k v h = finds-data j.object_id k.object_id j.data_of k.data_of v h

-- The next key of an extent that ends below the u64 range's end exists: exactly the extents of the attribute that start behind the end of the
-- extent are above it in the lower-bound order, and exactly those that end behind that end are not
-- before it in the order of the layers.
pub next_key-bounds :
    (o a : ℕ) (r q : Range)
    → r.end < u64_max
    → (n : ObjectKey) × (next_key (extent o a r) ≡ ok (some n))
      × ((cmp_lower_bound (extent o a q) n ≡ gt) ↔ (r.end < q.start))
      × ((cmp_upper_bound (extent o a q) n ≢ lt) ↔ (r.end < q.end))
unfolding next_key cmp_lower_bound cmp_upper_bound Extent.cmp_lower_bound Extent.cmp_upper_bound
next_key-bounds o a r q h =
    (extent o a (range r.end (r.end + 1)), ground arith, ground arith, ground arith)

object-first-data :
    (o : ℕ) (y : ObjectKeyData)
    → (cmp_upper_bound (object o) (record { object_id = o; data_of = y }) ≢ gt)
      × (cmp_lower_bound (object o) (record { object_id = o; data_of = y }) ≢ gt)
unfolding cmp_upper_bound cmp_lower_bound cmp_data
object-first-data o ObjectKeyData.object = (ground arith, ground arith)
object-first-data o ObjectKeyData.keys = (ground arith, ground arith)
object-first-data o (ObjectKeyData.attribute a k) = (ground arith, ground arith)
object-first-data o (ObjectKeyData.child n) = (ground arith, ground arith)
object-first-data o (ObjectKeyData.graveyard_entry p) = (ground arith, ground arith)

-- The key of an object, under which its tombstone stands, is not above any key of the object, in the
-- order of the layers or in the lower-bound order.
pub object-first :
    (k : ObjectKey)
    → (cmp_upper_bound (object k.object_id) k ≢ gt) × (cmp_lower_bound (object k.object_id) k ≢ gt)
unfolding cmp_upper_bound cmp_lower_bound cmp_data
object-first k = object-first-data k.object_id k.data_of
