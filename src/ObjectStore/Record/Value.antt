-- ===== src/ObjectStore/Record/Value.antt =====
-- The values and items of src/object_store/object_record.rs, and its timestamps. The wrapped keys
-- are a parameter: they belong to src/crypt.rs.
use fxfs_on_linux.Common.{
  ℕ, ◌+◌, ◌*◌, ◌/◌, ◌%◌, ◌^◌, ◌≤◌, ◌≡◌, Option, leb, if◌then◌else◌, u64_max, arith,
}
use fxfs_on_linux.Lsm.Types.{Item}
use fxfs_on_linux.ObjectStore.ExtentValue.{ExtentValue}
use fxfs_on_linux.ObjectStore.Record.Data.{ObjectKey}

pub data ObjectDescriptor : Type 0 where
  file directory volume : ObjectDescriptor

pub record Timestamp : Type 0 where
  pub secs : ℕ
  pub nanos : ℕ

abbrev pub nsec_per_sec : ℕ
nsec_per_sec = 1000000000

abbrev pub epoch : Timestamp
epoch = record { secs = 0; nanos = 0 }

unfoldable pub from_nanos : ℕ → Timestamp
from_nanos nanos = record { secs = nanos / nsec_per_sec; nanos = nanos % nsec_per_sec % 2 ^ 32 }

-- `checked_mul` and `checked_add`
abbrev pub checked : ℕ → Option ℕ
checked n = if leb n u64_max then Option.some n else Option.none

abbrev pub unwrap_or : Option ℕ → ℕ → ℕ
unwrap_or Option.none d = d
unwrap_or (Option.some n) d = n

unfoldable pub as_nanos : Timestamp → ℕ
as_nanos t =
    unwrap_or
      (elim (checked (nsec_per_sec * t.secs)) [
        | Option.none ↦ Option.none
        | Option.some val ↦ checked (val + t.nanos)
      ])
      0

-- A number of nanoseconds in the u64 range comes back from its timestamp.
pub as_nanos-from_nanos : (n : ℕ) → n ≤ u64_max → as_nanos (from_nanos n) ≡ n
unfolding as_nanos from_nanos
as_nanos-from_nanos n h = grind arith

pub data ObjectKind : Type 0 where
  file : (refs allocated_size : ℕ) → ObjectKind
  directory : (sub_dirs : ℕ) → ObjectKind
  graveyard : ObjectKind

pub record ObjectAttributes : Type 0 where
  pub creation_time : Timestamp
  pub modification_time : Timestamp

module _ (WrappedKeys : Type 0) where
  pub data EncryptionKeys : Type 0 where
    aes256xts : WrappedKeys → EncryptionKeys

  pub data ObjectValue : Type 0 where
    none : ObjectValue
    some : ObjectValue
    object : (kind : ObjectKind) → (attributes : ObjectAttributes) → ObjectValue
    keys : EncryptionKeys → ObjectValue
    attribute : (size : ℕ) → ObjectValue
    extent : ExtentValue → ObjectValue
    child : (object_id : ℕ) → (object_descriptor : ObjectDescriptor) → ObjectValue
    trim : ObjectValue

  abbrev pub ObjectItem : Type 0
  ObjectItem = Item ObjectKey ObjectValue
