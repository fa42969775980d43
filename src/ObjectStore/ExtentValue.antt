-- ===== src/ObjectStore/ExtentValue.antt =====
-- `Checksums` and `ExtentValue` of src/object_store/extent_record.rs: where an extent lies on the
-- device.
pub mod Cut
pub mod Ranges
use fxfs_on_linux.Common.{
  ℕ, ◌+◌, Bool, true, false, List, length, take, drop, ltb, leb, if◌then◌else◌, Outcome, ok, assert,
  ◌>>◌, ◌>>=◌, add_u64, div_u64,
}

pub data Checksums : Type 0 where
  none : Checksums
  -- One checksum for each block.
  fletcher : List ℕ → Checksums

-- The checksums that are kept, and those that are split off: `Vec::split_off` panics past the end.
unfoldable pub split_off : Checksums → ℕ → Outcome (Checksums × Checksums)
split_off Checksums.none at = ok (Checksums.none, Checksums.none)
split_off (fletcher sums) at = do
  assert (leb at (length sums))
  ok (fletcher (take at sums), fletcher (drop at sums))

pub data ExtentValue : Type 0 where
  -- The range is deleted.
  none : ExtentValue
  some : (device_offset : ℕ) → (checksums : Checksums) → (key_id : ℕ) → ExtentValue

abbrev pub new : ℕ → ExtentValue
new device_offset = ExtentValue.some device_offset Checksums.none 0

abbrev pub with_checksum : ℕ → Checksums → ExtentValue
with_checksum device_offset checksums = ExtentValue.some device_offset checksums 0

abbrev pub deleted_extent : ExtentValue
deleted_extent = ExtentValue.none

abbrev pub is_deleted : ExtentValue → Bool
is_deleted ExtentValue.none = true
is_deleted (ExtentValue.some d c k) = false

-- `&checksums[index..]` and `&checksums[..index]`, which panic past the end.
abbrev pub slice_from : List ℕ → ℕ → Outcome (List ℕ)
slice_from sums index = do assert (leb index (length sums)); ok (drop index sums)

abbrev pub slice_to : List ℕ → ℕ → Outcome (List ℕ)
slice_to sums index = do assert (leb index (length sums)); ok (take index sums)

-- `amount / (extent_len / checksums.len())`
abbrev pub checksum_index : ℕ → ℕ → List ℕ → Outcome ℕ
checksum_index amount extent_len sums = do
  chunk ← div_u64 extent_len (length sums)
  div_u64 amount chunk

unfoldable pub offset_by : ExtentValue → ℕ → ℕ → Outcome ExtentValue
offset_by ExtentValue.none amount extent_len = ok deleted_extent
offset_by (ExtentValue.some d Checksums.none k) amount extent_len = do
  moved ← add_u64 d amount
  ok (ExtentValue.some moved Checksums.none k)
offset_by (ExtentValue.some d (fletcher sums) k) amount extent_len =
    if ltb 0 (length sums)
    then (do
      index ← checksum_index amount extent_len sums
      moved ← add_u64 d amount
      rest ← slice_from sums index
      ok (ExtentValue.some moved (fletcher rest) k))
    else (do moved ← add_u64 d amount; ok (ExtentValue.some moved Checksums.none k))

unfoldable pub shrunk : ExtentValue → ℕ → ℕ → Outcome ExtentValue
shrunk ExtentValue.none original_len new_len = ok deleted_extent
shrunk (ExtentValue.some d Checksums.none k) original_len new_len =
    ok (ExtentValue.some d Checksums.none k)
shrunk (ExtentValue.some d (fletcher sums) k) original_len new_len =
    if ltb 0 (length sums)
    then (do
      index ← checksum_index new_len original_len sums
      first ← slice_to sums index
      ok (ExtentValue.some d (fletcher first) k))
    else ok (ExtentValue.some d Checksums.none k)
