-- ===== src/ObjectStore/Record/Item.antt =====
-- `impl ObjectValue` and `impl ObjectItem` of src/object_store/object_record.rs.
use fxfs_on_linux.Common.{ℕ, Bool, true, false, Option}
use fxfs_on_linux.ObjectStore.Extent.{ExtentKey}
use fxfs_on_linux.ObjectStore.ExtentValue
use fxfs_on_linux.ObjectStore.ExtentValue.{Checksums, ExtentValue}
use fxfs_on_linux.ObjectStore.Record.Data.{AttributeKey, ObjectKeyData}
use fxfs_on_linux.ObjectStore.Record.Value.{
  ObjectDescriptor, Timestamp, ObjectKind, EncryptionKeys, ObjectValue, ObjectItem,
}

module _ {W : Type 0} where
  abbrev pub file : ℕ → ℕ → Timestamp → Timestamp → ObjectValue W
  file refs allocated_size creation_time modification_time =
      ObjectValue.object (ObjectKind.file refs allocated_size)
        (record { creation_time = creation_time; modification_time = modification_time })

  abbrev pub keys : EncryptionKeys W → ObjectValue W
  keys k = ObjectValue.keys k

  abbrev pub attribute : ℕ → ObjectValue W
  attribute size = ObjectValue.attribute size

  abbrev pub extent_with_checksum : ℕ → Checksums → ObjectValue W
  extent_with_checksum device_offset checksum =
      ObjectValue.extent
        (package.fxfs_on_linux.ObjectStore.ExtentValue.with_checksum device_offset checksum)

  abbrev pub extent : ℕ → ObjectValue W
  extent device_offset = extent_with_checksum device_offset Checksums.none

  abbrev pub deleted_extent : ObjectValue W
  deleted_extent = ObjectValue.extent package.fxfs_on_linux.ObjectStore.ExtentValue.deleted_extent

  abbrev pub child : ℕ → ObjectDescriptor → ObjectValue W
  child object_id object_descriptor = ObjectValue.child object_id object_descriptor

  unfoldable pub is_tombstone : ObjectItem W → Bool
  is_tombstone i = elim i.key.data_of [
    | ObjectKeyData.object ↦ elim i.value [ ObjectValue.none ↦ true | _ ↦ false ]
    | _ ↦ false
  ]

  -- The object, the attribute, the key and the value of an item that describes an extent.
  unfoldable pub extent_of_item : ObjectItem W → Option (ℕ × ℕ × ExtentKey × ExtentValue)
  extent_of_item i = elim i.key.data_of [
    | ObjectKeyData.attribute a (AttributeKey.extent e) ↦ elim i.value [
      | ObjectValue.extent v ↦ Option.some (i.key.object_id, a, e, v)
      | _ ↦ Option.none
    ]
    | _ ↦ Option.none
  ]
