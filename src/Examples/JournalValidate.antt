-- ===== src/Examples/JournalValidate.antt =====
-- Validating mutations and noting their checksums (src/object_store/journal.rs) at concrete extents.
use fxfs_on_linux.Common.{◌≡◌, refl, [], ◌∷◌, true, false, All, ok, Returns, arith}
use fxfs_on_linux.Util.Range
use fxfs_on_linux.Util.Range.{range}
use fxfs_on_linux.ObjectStore.ExtentValue.{fletcher, ExtentValue}
use fxfs_on_linux.ObjectStore.Record.Data.{AttributeKey, ObjectKeyData}
use fxfs_on_linux.ObjectStore.Record.Value.{ObjectValue, ObjectItem}
use fxfs_on_linux.Transaction.{Operation, object_store, allocator, deallocate}
use fxfs_on_linux.Journal.ChecksumList
use fxfs_on_linux.Journal.ChecksumList.Total.{IsReady}
use fxfs_on_linux.Journal.Validate.{validate_mutation, update_checksum_list}
use fxfs_on_linux.Journal.Validate.Accepted.{update_checksum_list-IsReady}

-- Two blocks of 512 bytes at 4096 on the device, with a checksum for each.
abbrev extent : ObjectItem (Unit {0})
extent = record {
  key = record {
    object_id = 3;
    data_of = ObjectKeyData.attribute 0 (AttributeKey.extent (record { bytes = range 0 1024 }));
  };
  value = ObjectValue.extent (ExtentValue.some 4096 (fletcher (7 ∷ 8 ∷ [])) 0);
  sequence = 0;
}

extent_valid : validate_mutation (object_store extent Operation.insert) 512 8192 ≡ ok true
unfolding validate_mutation Range.length Range.is_valid Range.is_aligned
extent_valid = refl

-- The device ends within the extent.
extent_beyond : validate_mutation (object_store extent Operation.insert) 512 4608 ≡ ok false
unfolding validate_mutation Range.length Range.is_valid Range.is_aligned
extent_beyond = refl

deallocate_invalid_owner :
    validate_mutation {W = Unit {0}} (allocator (deallocate (range 0 512) 0)) 512 8192 ≡ ok false
unfolding validate_mutation
deallocate_invalid_owner = refl

update_checksum_list-IsReady_example :
    Returns
      (update_checksum_list 10 3 (object_store extent Operation.insert) (ChecksumList.new 0))
      λ l'. All (IsReady l'.max_chunk_size) l'.checksum_entries
update_checksum_list-IsReady_example =
    update_checksum_list-IsReady 512 8192 10 3 extent Operation.insert (ChecksumList.new 0)
      (omega arith) refl (omega arith) extent_valid tt
