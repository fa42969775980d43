-- ===== src/Journal/ChecksumList/Verify.antt =====
-- `ChecksumList::verify` of src/object_store/journal/checksum_list.rs. The device is a parameter, the
-- bytes that a read of an offset and a length returns, which do not change while `verify` runs; so is
-- the map of the objects that are marked for deletion.
use fxfs_on_linux.Common.{
  ℕ, zero, suc, Bool, true, false, ◌&&◌, List, [], ◌∷◌, Option, none, some, ltb, leb, ◌==◌,
  if◌then◌else◌, Outcome, ok, assert, ◌>>◌, ◌>>=◌, add_u64,
}
use fxfs_on_linux.Checksum.{fletcher64}
use fxfs_on_linux.Journal.ChecksumList.{
  ChecksumState, unverified, valid, invalid, ChecksumEntry, ChecksumList, chunk_size_of,
}

abbrev pub Device : Type 0
Device = ℕ → ℕ → Outcome (List ℕ)

abbrev pub is_invalid : ChecksumState → Bool
is_invalid invalid = true
is_invalid _ = false

-- `marked_for_deletion.get(&e.owner_object_id)` is before `journal_offset`.
abbrev pub is_marked : Option ℕ → ℕ → Bool
is_marked none journal_offset = false
is_marked (some mark_deletion_offset) journal_offset = ltb mark_deletion_offset journal_offset

module _ (read : Device) (marked_for_deletion : ℕ → Option ℕ) (max_chunk_size : ℕ) where
  -- A checksum that is not verified yet is compared with the device. The buffer holds
  -- `max_chunk_size` bytes.
  unfoldable pub verify_state : ChecksumState → ℕ → ℕ → Outcome ChecksumState
  verify_state (unverified checksum) offset chunk_size = do
    assert (leb chunk_size max_chunk_size)
    bytes ← read offset chunk_size
    sum ← fletcher64 bytes 0
    ok (if sum == checksum then valid else invalid)
  verify_state state offset chunk_size = ok state

  -- The state of a checksum that is needed if the journal is replayed up to `journal_offset`.
  unfoldable pub verify_needed : ℕ → ℕ → ChecksumState → ℕ → ℕ → Outcome ChecksumState
  unfolding verify_state
  verify_needed journal_offset dependency state offset chunk_size =
      if leb journal_offset dependency then verify_state state offset chunk_size else ok state

  -- The loop over the checksums of an entry: their states after it, and whether one failed.
  unfoldable pub verify_chunks :
      ℕ → List (ChecksumState × ℕ) → ℕ → ℕ → Outcome (List (ChecksumState × ℕ) × Bool)
  unfolding verify_needed
  verify_chunks journal_offset [] offset chunk_size = ok ([], false)
  verify_chunks journal_offset (c ∷ cs) offset chunk_size = do
    state ← verify_needed journal_offset c.1 c.0 offset chunk_size
    if leb journal_offset c.1 && is_invalid state then ok ((state, c.1) ∷ cs, true) else (do
      next ← add_u64 offset chunk_size
      rest ← verify_chunks journal_offset cs next chunk_size
      ok ((state, c.1) ∷ rest.0, rest.1))

  -- One pass over the entries: the entries after it, and the offset to try again with, if a checksum
  -- failed.
  unfoldable pub verify_entries : ℕ → List ChecksumEntry → Outcome (List ChecksumEntry × Option ℕ)
  unfolding verify_chunks
  verify_entries journal_offset [] = ok ([], none)
  verify_entries journal_offset (e ∷ es) =
      let rest = verify_entries journal_offset es in
      if leb journal_offset e.start_journal_offset
      then ok (e ∷ es, none)
      else if is_marked (marked_for_deletion e.owner_object_id) journal_offset
      then (do r ← rest; ok (e ∷ r.0, r.1))
      else (do
        chunk_size ← chunk_size_of e.device_range e.checksums
        cs ← verify_chunks journal_offset e.checksums e.device_range.start chunk_size
        if cs.1
            then ok (record e { checksums = cs.0 } ∷ es, some e.start_journal_offset)
            else (do r ← rest; ok (record e { checksums = cs.0 } ∷ r.0, r.1)))

  -- The loop `'try_again`, on fuel: nothing if the fuel runs out.
  unfoldable pub verify_loop :
      ℕ → ℕ → List ChecksumEntry → Outcome (Option (List ChecksumEntry × ℕ))
  unfolding verify_entries
  verify_loop zero journal_offset es = ok none
  verify_loop (suc fuel) journal_offset es = do
    pass ← verify_entries journal_offset es
    elim pass.1 [
      | none ↦ ok (some (pass.0, journal_offset))
      | some start ↦ verify_loop fuel start pass.0
    ]

-- Each pass that fails lowers the offset, so `journal_offset + 1` passes are enough.
unfoldable pub verify :
    ChecksumList → Device → (ℕ → Option ℕ) → ℕ → Outcome (Option (ChecksumList × ℕ))
unfolding verify_loop
verify l read marked_for_deletion journal_offset = do
  result ←
      verify_loop read marked_for_deletion l.max_chunk_size (suc journal_offset) journal_offset
        l.checksum_entries
  elim result [ none ↦ ok none | some r ↦ ok (some (record l { checksum_entries = r.0 }, r.1)) ]
