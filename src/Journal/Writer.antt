-- ===== src/Journal/Writer.antt =====
-- src/object_store/journal/writer.rs: the buffer of the journal's writer. The metric of the
-- checkpoint's offset and the warning on drop are left out; what `serialize_into` writes is a list
-- of bytes, given by the caller.
pub mod Blocks
pub mod Payload
use fxfs_on_linux.Common.{
  ℕ, zero, suc, ◌+◌, ◌-◌, ◌%◌, List, [], ◌∷◌, ◌++◌, Bool, true, false, Option, none, some, length,
  take, drop, replicate, min, ltb, leb, ◌==◌, if◌then◌else◌, Outcome, ok, assert, ◌>>◌, ◌>>=◌,
  sub_u64, add_u64, rem_u64,
}
use fxfs_on_linux.Checksum.{fletcher64}
use fxfs_on_linux.Journal.Stream.{JournalCheckpoint, checksum_size, le_bytes}

pub record JournalWriter : Type 0 where
  pub block_size : ℕ
  pub checkpoint : JournalCheckpoint
  pub last_checksum : ℕ
  pub buf : List ℕ

abbrev pub new : (latest_version block_size last_checksum : ℕ) → JournalWriter
new latest_version block_size last_checksum = record {
  block_size = block_size;
  checkpoint = record { file_offset = 0; checksum = 0; version = latest_version };
  last_checksum = last_checksum;
  buf = [];
}

-- The end of a block: its checksum is taken and written.
unfoldable pub seal_block : JournalWriter → Outcome JournalWriter
seal_block w = do
  start ← sub_u64 (length w.buf + checksum_size) w.block_size
  sum ← fletcher64 (drop start w.buf) w.last_checksum
  ok (record w { last_checksum = sum; buf = w.buf ++ le_bytes 8 sum })

-- One round of the loop in `write`: the writer after it, and the bytes that are left.
unfoldable pub write_chunk : JournalWriter → List ℕ → Outcome (JournalWriter × List ℕ)
unfolding seal_block
write_chunk w bytes = do
  payload ← sub_u64 w.block_size checksum_size
  used ← rem_u64 (length w.buf) w.block_size
  space ← sub_u64 payload used
  let to_copy = min space (length bytes)
  let copied = record w { buf = w.buf ++ take to_copy bytes }
  w' ← if to_copy == space then seal_block copied else ok copied
  ok (w', drop to_copy bytes)

-- The loop, on fuel: nothing if the fuel runs out.
unfoldable pub write_loop : ℕ → JournalWriter → List ℕ → Outcome (Option JournalWriter)
unfolding write_chunk
write_loop fuel w [] = ok (some w)
write_loop zero w (b ∷ bs) = ok none
write_loop (suc fuel) w (b ∷ bs) = do (w', rest) ← write_chunk w (b ∷ bs); write_loop fuel w' rest

-- Each round copies a byte at least.
unfoldable pub write : JournalWriter → List ℕ → Outcome (Option JournalWriter)
unfolding write_loop
write w bytes = write_loop (length bytes) w bytes

-- The record must fit a block.
unfoldable pub write_record : JournalWriter → List ℕ → Outcome (Option JournalWriter)
write_record w bytes = do
  written ← write w bytes
  elim written [
    | none ↦ ok none
    | some w' ↦ do
      grown ← sub_u64 (length w'.buf) (length w.buf)
      assert (leb grown w.block_size)
      ok (some w')
  ]

unfoldable pub pad_to_block : JournalWriter → Outcome (Option JournalWriter)
pad_to_block w = do
  align ← rem_u64 (length w.buf) w.block_size
  if ltb 0 align
      then (do
        payload ← sub_u64 w.block_size checksum_size
        padding ← sub_u64 payload align
        write w (replicate padding 0))
      else ok (some w)

unfoldable pub journal_file_checkpoint : JournalWriter → Outcome JournalCheckpoint
journal_file_checkpoint w = do
  file_offset ← add_u64 w.checkpoint.file_offset (length w.buf)
  ok (record {
    file_offset = file_offset;
    checksum = w.last_checksum;
    version = w.checkpoint.version;
  })

-- The offset and the bytes that are to be written there, if there is a whole block.
unfoldable pub take_buffer : JournalWriter → Outcome (JournalWriter × Option (ℕ × List ℕ))
take_buffer w = do
  part ← rem_u64 (length w.buf) w.block_size
  to_do ← sub_u64 (length w.buf) part
  if to_do == 0 then ok (w, none) else (do
    file_offset ← add_u64 w.checkpoint.file_offset to_do
    ok (
      record w {
        buf = drop to_do w.buf;
        checkpoint = record w.checkpoint { file_offset = file_offset; checksum = w.last_checksum };
      },
      some (w.checkpoint.file_offset, take to_do w.buf),
    ))

abbrev is_empty : List ℕ → Bool
is_empty [] = true
is_empty (b ∷ bs) = false

unfoldable pub seek : JournalWriter → JournalCheckpoint → Outcome JournalWriter
seek w checkpoint = do
  assert (is_empty w.buf)
  offset ← rem_u64 checkpoint.file_offset w.block_size
  assert (offset == 0)
  ok (record w { checkpoint = checkpoint; last_checksum = checkpoint.checksum })
