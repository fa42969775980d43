-- ===== src/Journal/Validate.antt =====
-- `validate_mutation` and `update_checksum_list` of src/object_store/journal.rs: what the replay lets
-- through, and what it notes of it.
pub mod Accepted
use fxfs_on_linux.Common.{
  ℕ, ◌+◌, ◌-◌, Bool, true, false, not, ◌&&◌, ◌||◌, List, length, ltb, leb, ◌==◌, if◌then◌else◌,
  Outcome, unwrap, ok, ◌>>=◌, sub_u64, add_u64, rem_u64, div_u64,
}
use fxfs_on_linux.Util.Range
use fxfs_on_linux.Util.Range.{Range, range, is_aligned}
use fxfs_on_linux.Lsm.Types.{Item}
use fxfs_on_linux.ObjectStore.ExtentValue.{Checksums, fletcher, ExtentValue}
use fxfs_on_linux.ObjectStore.Record.Data.{AttributeKey, ObjectKeyData, ObjectKey}
use fxfs_on_linux.ObjectStore.Record.Value.{ObjectValue, ObjectItem}
use fxfs_on_linux.Transaction.{
  AllocatorMutation, allocate, deallocate, set_limit, mark_for_deletion, Mutation, object_store,
  allocator,
}
use fxfs_on_linux.Journal.ChecksumList.{ChecksumList, push, mark_deallocated}

-- `Range::is_empty`
abbrev pub is_empty : Range → Bool
is_empty r = leb r.end r.start

unfoldable pub validate_extent :
    (block_size device_size : ℕ) → Range → (device_offset : ℕ) → List ℕ → Outcome Bool
unfolding is_aligned Range.length
validate_extent block_size device_size r device_offset checksums = do
  aligned ← (if is_empty r then ok false else is_aligned r block_size)
  if not aligned then ok false else (do
    if length checksums == 0 then ok false else (do
      len ← unwrap (Range.length r)
      rest ← rem_u64 len (length checksums)
      if not (rest == 0) then ok false else (do
        chunk ← div_u64 len (length checksums)
        part ← rem_u64 chunk block_size
        if not (part == 0) then ok false else (do
          offset_part ← rem_u64 device_offset block_size
          if not (offset_part == 0) || leb device_size device_offset
              then ok false
              else ok (not (ltb (device_size - device_offset) len))))))

-- The id 0 is invalid.
abbrev pub validate_range : (device_size : ℕ) → Range → ℕ → Bool
validate_range device_size r owner = not (is_empty r) && not (owner == 0) && leb r.end device_size

module _ {W : Type 0} where
  unfoldable pub validate_item :
      (block_size device_size : ℕ) → ObjectKeyData → ObjectValue W → Outcome Bool
  unfolding validate_extent
  validate_item block_size device_size (ObjectKeyData.attribute id (AttributeKey.extent key))
        (ObjectValue.extent (ExtentValue.some device_offset (fletcher checksums) key_id)) =
      validate_extent block_size device_size key.bytes device_offset checksums
  validate_item block_size device_size _ _ = ok true

  unfoldable pub validate_mutation : Mutation W → (block_size device_size : ℕ) → Outcome Bool
  unfolding validate_item
  validate_mutation (object_store item op) block_size device_size =
      validate_item block_size device_size item.key.data_of item.value
  validate_mutation (allocator (allocate r owner)) block_size device_size =
      ok (validate_range device_size r owner)
  validate_mutation (allocator (deallocate r owner)) block_size device_size =
      ok (validate_range device_size r owner)
  validate_mutation (allocator (mark_for_deletion owner)) block_size device_size =
      ok (not (owner == 0))
  validate_mutation (allocator (set_limit owner bytes)) block_size device_size =
      ok (not (owner == 0))
  validate_mutation _ block_size device_size = ok true

  unfoldable pub note_item :
      ℕ → ℕ → ObjectKeyData → ObjectValue W → ChecksumList → Outcome ChecksumList
  unfolding push Range.length
  note_item journal_offset owner (ObjectKeyData.attribute id (AttributeKey.extent key))
        (ObjectValue.extent (ExtentValue.some device_offset (fletcher checksums) key_id)) list =
      do
        len ← unwrap (Range.length key.bytes)
        end ← add_u64 device_offset len
        push list journal_offset owner (range device_offset end) checksums
  note_item journal_offset owner _ _ list = ok list

  unfoldable pub update_checksum_list :
      (journal_offset owner_object_id : ℕ) → Mutation W → ChecksumList → Outcome ChecksumList
  unfolding note_item mark_deallocated
  update_checksum_list journal_offset owner (object_store item op) list =
      note_item journal_offset owner item.key.data_of item.value list
  update_checksum_list journal_offset owner (allocator (deallocate r o)) list =
      mark_deallocated list journal_offset r
  update_checksum_list journal_offset owner _ list = ok list
