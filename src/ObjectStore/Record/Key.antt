-- ===== src/ObjectStore/Record/Key.antt =====
-- `impl ObjectKey` of src/object_store/object_record.rs and the orders on keys.
use Prim.Native.Nat.{compare, Ordering}
use Prim.Native.Nat.Ordering.{lt, eq, gt}
use fxfs_on_linux.Common.{
  ℕ, Bool, true, false, ◌&&◌, List, [], ◌∷◌, Option, none, some, ltb, ◌==◌, if◌then◌else◌, Outcome,
  ok, ◌>>=◌, add_u64,
}
use fxfs_on_linux.Util.Range.{Range, range}
use fxfs_on_linux.Allocator.Key.{then_with}
use fxfs_on_linux.ObjectStore.Extent
use fxfs_on_linux.ObjectStore.Extent.{ExtentKey}
use fxfs_on_linux.ObjectStore.Record.Data.{AttributeKey, ObjectKeyData, ObjectKey}

abbrev pub object : ℕ → ObjectKey
object object_id = record { object_id = object_id; data_of = ObjectKeyData.object }

abbrev pub keys : ℕ → ObjectKey
keys object_id = record { object_id = object_id; data_of = ObjectKeyData.keys }

abbrev pub attribute : ℕ → ℕ → AttributeKey → ObjectKey
attribute object_id attribute_id key = record {
  object_id = object_id;
  data_of = ObjectKeyData.attribute attribute_id key;
}

abbrev pub from_extent : ℕ → ℕ → ExtentKey → ObjectKey
from_extent object_id attribute_id e = attribute object_id attribute_id (AttributeKey.extent e)

abbrev pub extent : ℕ → ℕ → Range → ObjectKey
extent object_id attribute_id r = from_extent object_id attribute_id (record { bytes = r })

abbrev pub child : ℕ → List ℕ → ObjectKey
child object_id name = record { object_id = object_id; data_of = ObjectKeyData.child name }

abbrev pub graveyard_entry : ℕ → ℕ → ObjectKey
graveyard_entry graveyard_object_id object_id = record {
  object_id = graveyard_object_id;
  data_of = ObjectKeyData.graveyard_entry object_id;
}

-- The order of two strings, byte by byte.
unfoldable pub cmp_name : List ℕ → List ℕ → Ordering
cmp_name [] [] = eq
cmp_name [] (y ∷ ys) = lt
cmp_name (x ∷ xs) [] = gt
cmp_name (x ∷ xs) (y ∷ ys) = then_with (compare x y) (cmp_name xs ys)

-- The derived orders: the constructors in the order of their declaration, then the fields.
unfoldable pub cmp_attribute : AttributeKey → AttributeKey → Ordering
unfolding Extent.cmp
cmp_attribute AttributeKey.size AttributeKey.size = eq
cmp_attribute AttributeKey.size (AttributeKey.extent f) = lt
cmp_attribute (AttributeKey.extent e) AttributeKey.size = gt
cmp_attribute (AttributeKey.extent e) (AttributeKey.extent f) = Extent.cmp e f

-- The place of a constructor in that order.
abbrev pub variant_index : ObjectKeyData → ℕ
variant_index ObjectKeyData.object = 0
variant_index ObjectKeyData.keys = 1
variant_index (ObjectKeyData.attribute a k) = 2
variant_index (ObjectKeyData.child n) = 3
variant_index (ObjectKeyData.graveyard_entry o) = 4

unfoldable pub cmp_data : ObjectKeyData → ObjectKeyData → Ordering
unfolding cmp_name cmp_attribute
cmp_data (ObjectKeyData.attribute a j) (ObjectKeyData.attribute b k) =
    then_with (compare a b) (cmp_attribute j k)
cmp_data (ObjectKeyData.child m) (ObjectKeyData.child n) = cmp_name m n
cmp_data (ObjectKeyData.graveyard_entry o) (ObjectKeyData.graveyard_entry p) = compare o p
cmp_data x y = compare (variant_index x) (variant_index y)

unfoldable pub cmp : ObjectKey → ObjectKey → Ordering
cmp j k = then_with (compare j.object_id k.object_id) (cmp_data j.data_of k.data_of)

-- `==`
unfoldable pub same_key_data : ObjectKeyData → ObjectKeyData → Bool
same_key_data x y = elim (cmp_data x y) [ eq ↦ true | _ ↦ false ]

abbrev pub same_key : ObjectKey → ObjectKey → Bool
same_key j k = j.object_id == k.object_id && same_key_data j.data_of k.data_of

unfoldable pub search_key : ObjectKey → Outcome ObjectKey
search_key k = elim k.data_of [
  | ObjectKeyData.attribute a (AttributeKey.extent e) ↦ do
    s ← Extent.search_key e
    ok (from_extent k.object_id a s)
  | _ ↦ ok k
]

unfoldable pub key_for_merge_into : ObjectKey → ObjectKey
key_for_merge_into k = elim k.data_of [
  | ObjectKeyData.attribute a (AttributeKey.extent e) ↦
      from_extent k.object_id a (Extent.key_for_merge_into e)
  | _ ↦ k
]

-- The order of two data by an order of extents.
abbrev pub cmp_bound : (ExtentKey → ExtentKey → Ordering) → ObjectKeyData → ObjectKeyData → Ordering
cmp_bound by (ObjectKeyData.attribute a (AttributeKey.extent e))
      (ObjectKeyData.attribute b (AttributeKey.extent f)) =
    then_with (compare a b) (by e f)
cmp_bound by x y = cmp_data x y

unfoldable pub cmp_upper_bound : ObjectKey → ObjectKey → Ordering
cmp_upper_bound j k =
    then_with (compare j.object_id k.object_id)
      (cmp_bound Extent.cmp_upper_bound j.data_of k.data_of)

unfoldable pub cmp_lower_bound : ObjectKey → ObjectKey → Ordering
cmp_lower_bound j k =
    then_with (compare j.object_id k.object_id)
      (cmp_bound Extent.cmp_lower_bound j.data_of k.data_of)

-- `range.end + 1` may overflow.
unfoldable pub next_key : ObjectKey → Outcome (Option ObjectKey)
next_key k = elim k.data_of [
  | ObjectKeyData.attribute a (AttributeKey.extent e) ↦ do
    after ← add_u64 e.bytes.end 1
    ok (some (extent k.object_id a (range e.bytes.end after)))
  | _ ↦ ok none
]

abbrev pub overlaps_data : ObjectKeyData → ObjectKeyData → Bool
overlaps_data (ObjectKeyData.attribute a (AttributeKey.extent e))
      (ObjectKeyData.attribute b (AttributeKey.extent f)) =
    if a == b then ltb f.bytes.start e.bytes.end && ltb e.bytes.start f.bytes.end else false
overlaps_data x y = same_key_data x y

unfoldable pub overlaps : ObjectKey → ObjectKey → Bool
overlaps j k = j.object_id == k.object_id && overlaps_data j.data_of k.data_of
