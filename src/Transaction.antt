-- ===== src/Transaction.antt =====
-- The mutations of src/object_store/transaction.rs. The wrapped keys are third-party data, and a
-- parameter. The derived orders are left out.
use fxfs_on_linux.Common.{ℕ, List}
use fxfs_on_linux.Util.Range.{Range}
use fxfs_on_linux.ObjectStore.Record.Value.{ObjectItem}

pub data AllocatorMutation : Type 0 where
  allocate : (device_range : Range) → (owner_object_id : ℕ) → AllocatorMutation
  deallocate : (device_range : Range) → (owner_object_id : ℕ) → AllocatorMutation
  set_limit : (owner_object_id bytes : ℕ) → AllocatorMutation
  mark_for_deletion : (owner_object_id : ℕ) → AllocatorMutation

pub data Operation : Type 0 where
  insert replace_or_insert merge : Operation

module _ (WrappedKeys : Type 0) where
  pub data Mutation : Type 0 where
    object_store : (item : ObjectItem WrappedKeys) → (op : Operation) → Mutation
    encrypted_object_store : List ℕ → Mutation
    allocator : AllocatorMutation → Mutation
    begin_flush end_flush delete_volume : Mutation
    update_borrowed : ℕ → Mutation
    update_mutations_key : WrappedKeys → Mutation
