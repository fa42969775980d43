-- ===== src/Journal/ChecksumList.antt =====
-- src/object_store/journal/checksum_list.rs: the checksums of the extents that the journal wrote,
-- which `verify` compares with the device before the journal is replayed.
pub mod Verify
pub mod Passes
pub mod Sound
pub mod Total
pub mod Marks
use fxfs_on_linux.Common.{
  ℕ, zero, suc, ◌+◌, Bool, true, false, ◌&&◌, List, [], ◌∷◌, ◌++◌, map, Option, none, some, length,
  get_elem?, set, take, drop, ltb, leb, ◌==◌, if◌then◌else◌, Outcome, unwrap, ok, err, panic,
  assert, ◌>>◌, ◌>>=◌, sub_u64, add_u64, div_u64, u64_max,
}
use fxfs_on_linux.Util.Range.{Range, range}
use fxfs_on_linux.Util.Range
use fxfs_on_linux.Checksum.{fletcher64}

pub data ChecksumState : Type 0 where
  unverified : ℕ → ChecksumState
  valid invalid : ChecksumState

pub record ChecksumEntry : Type 0 where
  pub start_journal_offset : ℕ
  pub owner_object_id : ℕ
  pub device_range : Range
  -- Each with the journal offset at which its range was deallocated.
  pub checksums : List (ChecksumState × ℕ)

-- The map from an end on the device to an index is a list of pairs in the order of the keys.
pub record ChecksumList : Type 0 where
  pub flushed_offset : ℕ
  pub checksum_entries : List ChecksumEntry
  pub device_offset_to_checksum_entry : List (ℕ × ℕ)
  pub max_chunk_size : ℕ

abbrev pub new : ℕ → ChecksumList
new flushed_offset = record {
  flushed_offset = flushed_offset;
  checksum_entries = [];
  device_offset_to_checksum_entry = [];
  max_chunk_size = 0;
}

-- `BTreeMap::entry` and the insertion of a key that is vacant.
unfoldable pub insert_vacant : ℕ → ℕ → List (ℕ × ℕ) → List (ℕ × ℕ)
insert_vacant k v [] = (k, v) ∷ []
insert_vacant k v (e ∷ es) =
    let rest = insert_vacant k v es in
    if ltb k e.0 then (k, v) ∷ e ∷ es else if k == e.0 then e ∷ es else e ∷ rest

abbrev pub unwrap_length : Range → Outcome ℕ
unwrap_length r = unwrap (Range.length r)

-- `device_range.length().unwrap() / checksums.len()`
abbrev pub chunk_size_of {ℓ} : {A : Type ℓ} → Range → List A → Outcome ℕ
chunk_size_of r sums = do len ← unwrap_length r; div_u64 len (length sums)

abbrev pub fresh : ℕ → ChecksumState × ℕ
fresh c = (unverified c, u64_max)

unfoldable pub push : ChecksumList → ℕ → ℕ → Range → List ℕ → Outcome ChecksumList
unfolding insert_vacant
push l journal_offset owner_object_id device_range sums =
    if ltb journal_offset l.flushed_offset then ok l else (do
      chunk_size ← chunk_size_of device_range sums
      ok (record l {
        device_offset_to_checksum_entry =
            insert_vacant device_range.end (length l.checksum_entries)
              l.device_offset_to_checksum_entry;
        max_chunk_size = if ltb l.max_chunk_size chunk_size then chunk_size else l.max_chunk_size;
        checksum_entries =
            l.checksum_entries
            ++ record {
              start_journal_offset = journal_offset;
              owner_object_id = owner_object_id;
              device_range = device_range;
              checksums = map fresh sums;
            }
              ∷ [];
      }))

-- `c.1 = journal_offset` for the checksums from `first` and before `last`: the slice panics past the
-- end, or where it starts behind its end.
abbrev pub mark : ℕ → ChecksumState × ℕ → ChecksumState × ℕ
mark journal_offset c = (c.0, journal_offset)

abbrev pub mark_slice : List (ChecksumState × ℕ) → ℕ → ℕ → ℕ → Outcome (List (ChecksumState × ℕ))
mark_slice cs first last journal_offset = do
  assert (leb first last)
  assert (leb last (length cs))
  ok (take first cs ++ map (mark journal_offset) (drop first (take last cs)) ++ drop last cs)

-- The checksum of an entry at which a range that starts at `start` begins.
abbrev pub checksum_index_start : ChecksumEntry → ℕ → ℕ → Outcome ℕ
checksum_index_start e start chunk_size =
    if ltb start e.device_range.start
    then ok 0
    else (do amount ← sub_u64 start e.device_range.start; div_u64 amount chunk_size)

-- `self.checksum_entries[index]`, which panics past the end.
abbrev pub or_panic {ℓ} : {A : Type ℓ} → Option A → Outcome A
or_panic none = panic
or_panic (some a) = ok a

abbrev pub entry_at : List ChecksumEntry → ℕ → Outcome ChecksumEntry
entry_at es i = or_panic (get_elem? es i)

-- The loop of `mark_deallocated` over the indices that the map gives, with what is left of the range.
unfoldable pub mark_entries :
    List (ℕ × ℕ) → List ChecksumEntry → ℕ → Range → Outcome (List ChecksumEntry)
mark_entries [] es journal_offset r = ok es
mark_entries (k ∷ ks) es journal_offset r = do
  e ← entry_at es k.1
  if leb r.end e.device_range.start then ok es else (do
    chunk_size ← chunk_size_of e.device_range e.checksums
    first ← checksum_index_start e r.start chunk_size
    if leb r.end e.device_range.end
        then (do
          amount ← sub_u64 r.end e.device_range.start
          last ← div_u64 amount chunk_size
          cs ← mark_slice e.checksums first last journal_offset
          ok (set es k.1 (record e { checksums = cs })))
        else (do
          cs ← mark_slice e.checksums first (length e.checksums) journal_offset
          mark_entries ks (set es k.1 (record e { checksums = cs })) journal_offset
              (range e.device_range.end r.end)))

-- `range(from..)` of the map
abbrev pub keys_from : ℕ → List (ℕ × ℕ) → List (ℕ × ℕ)
keys_from from [] = []
keys_from from (e ∷ es) = if ltb e.0 from then keys_from from es else e ∷ es

unfoldable pub mark_deallocated : ChecksumList → ℕ → Range → Outcome ChecksumList
unfolding mark_entries
mark_deallocated l journal_offset device_range =
    if ltb journal_offset l.flushed_offset then ok l else (do
      from ← add_u64 device_range.start 1
      es ←
          mark_entries (keys_from from l.device_offset_to_checksum_entry) l.checksum_entries
            journal_offset device_range
      ok (record l { checksum_entries = es }))
