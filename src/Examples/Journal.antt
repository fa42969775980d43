-- ===== src/Examples/Journal.antt =====
-- The checksum list of the journal at concrete entries (src/object_store/journal/checksum_list.rs).
use fxfs_on_linux.Common.{
  ℕ, ◌≡◌, refl, [], ◌∷◌, All, Option, none, some, ok, Returns, replicate, length-replicate, arith,
  u64_max,
}
use fxfs_on_linux.Util.Range
use fxfs_on_linux.Util.Range.{range}
use fxfs_on_linux.Checksum.{fletcher64}
use fxfs_on_linux.Journal.ChecksumList.{
  unverified, valid, invalid, ChecksumEntry, ChecksumList, new, push, mark_deallocated,
}
use fxfs_on_linux.Journal.ChecksumList.Verify.{Device, verify}
use fxfs_on_linux.Journal.ChecksumList.Passes.{Ensures}
use fxfs_on_linux.Journal.ChecksumList.Sound.{VerifyEnds, verify-EntriesVerified}
use fxfs_on_linux.Journal.ChecksumList.Total.{IsReady, IsSome, verify-Returns, push-IsReady}

-- A device of zeroes: the checksum of any chunk is zero.
abbrev zeroes : Device
zeroes offset n = ok (replicate n 0)

abbrev nothing_marked : ℕ → Option ℕ
nothing_marked owner = none

-- Two chunks of eight bytes at 16..32, written at 5, the first of them wrong.
abbrev entry : ChecksumEntry
entry = record {
  start_journal_offset = 5;
  owner_object_id = 1;
  device_range = range 16 32;
  checksums = (unverified 7, u64_max) ∷ (unverified 0, u64_max) ∷ [];
}

abbrev one_entry : ChecksumList
one_entry = record {
  flushed_offset = 0;
  checksum_entries = entry ∷ [];
  device_offset_to_checksum_entry = (32, 0) ∷ [];
  max_chunk_size = 8;
}

-- Pushed, the range is one entry.
push_once : push (new 0) 5 1 (range 16 32) (7 ∷ 0 ∷ []) ≡ ok one_entry
unfolding push Range.length Range.is_valid
push_once = refl

-- The first checksum fails, so the replay has to stop at the entry.
verify_stops :
    verify one_entry zeroes nothing_marked 9
    ≡ ok (
        some (
          record one_entry {
            checksum_entries =
                record entry { checksums = (invalid, u64_max) ∷ (unverified 0, u64_max) ∷ [] } ∷ [];
          },
          5,
        ))
unfolding verify fletcher64 Range.length Range.is_valid
verify_stops = refl

-- Deallocated before 9, the wrong chunk is not looked at.
verify_goes_on :
    verify
      (record one_entry {
        checksum_entries =
            record entry { checksums = (unverified 7, 8) ∷ (unverified 0, u64_max) ∷ [] } ∷ [];
      })
      zeroes
      nothing_marked
      9
    ≡ ok (
        some (
          record one_entry {
            checksum_entries =
                record entry { checksums = (unverified 7, 8) ∷ (valid, u64_max) ∷ [] } ∷ [];
          },
          9,
        ))
unfolding verify fletcher64 Range.length Range.is_valid
verify_goes_on = refl

mark_first :
    mark_deallocated one_entry 8 (range 16 24)
    ≡ ok (record one_entry {
      checksum_entries =
          record entry { checksums = (unverified 7, 8) ∷ (unverified 0, u64_max) ∷ [] } ∷ [];
    })
unfolding mark_deallocated Range.length Range.is_valid
mark_first = refl

verify-EntriesVerified_example :
    Ensures
      (verify one_entry zeroes nothing_marked 9)
      (VerifyEnds one_entry zeroes nothing_marked 9)
verify-EntriesVerified_example = verify-EntriesVerified one_entry zeroes nothing_marked 9

verify-Returns_example : Returns (verify one_entry zeroes nothing_marked 9) IsSome
unfolding Range.length Range.is_valid
verify-Returns_example =
    verify-Returns one_entry zeroes nothing_marked 9
      (λ offset n. (replicate n 0, refl, length-replicate n 0))
      ((8, refl, refl, omega arith, omega arith), tt)

push-IsReady_example :
    Returns
      (push (new 0) 5 1 (range 16 32) (7 ∷ 0 ∷ []))
      λ l. All (IsReady l.max_chunk_size) l.checksum_entries
push-IsReady_example =
    push-IsReady (new 0) 5 1 (range 16 32) (7 ∷ 0 ∷ []) (omega arith) (omega arith) (omega arith)
      refl tt
