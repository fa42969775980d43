-- ===== src/ObjectStore/Record/Data.antt =====
-- `AttributeKey`, `ObjectKeyData` and `ObjectKey` of src/object_store/object_record.rs. A name is the
-- list of its bytes.
use fxfs_on_linux.Common.{ℕ, List}
use fxfs_on_linux.ObjectStore.Extent.{ExtentKey}

pub data AttributeKey : Type 0 where
  size : AttributeKey
  extent : ExtentKey → AttributeKey

-- `object` comes first: it is also the tombstone of all that follows it.
pub data ObjectKeyData : Type 0 where
  object : ObjectKeyData
  keys : ObjectKeyData
  attribute : (attribute_id : ℕ) → AttributeKey → ObjectKeyData
  child : (name : List ℕ) → ObjectKeyData
  graveyard_entry : (object_id : ℕ) → ObjectKeyData

pub record ObjectKey : Type 0 where
  pub object_id : ℕ
  pub data_of : ObjectKeyData
