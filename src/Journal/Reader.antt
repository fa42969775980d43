-- ===== src/Journal/Reader.antt =====
-- src/object_store/journal/reader.rs: reading the blocks of the journal file and checking them. The
-- file is a parameter: the bytes that a read of an offset and a length returns.
pub mod Blocks
pub mod Filled
use Prim.Native.Nat.{bit_xor}
use fxfs_on_linux.Common.{
  ℕ, zero, suc, ◌+◌, ◌-◌, ◌%◌, List, [], ◌∷◌, ◌++◌, Bool, true, false, not, ◌&&◌, ◌||◌, Option,
  length, take, drop, replicate, ltb, leb, ◌==◌, if◌then◌else◌, Outcome, ok, err, panic, assert,
  ◌>>◌, ◌>>=◌, sub_u64, add_u64, rem_u64, internal, FxfsError,
}
use fxfs_on_linux.Util.Range.{Range, range}
use fxfs_on_linux.Checksum.{fletcher64}
use fxfs_on_linux.Journal.Stream.{JournalCheckpoint, checksum_size, reset_xor, from_le}

pub record JournalReader : Type 0 where
  pub block_size : ℕ
  pub buf : List ℕ
  -- The part of the buffer with outstanding data.
  pub buf_range : Range
  pub read_offset : ℕ
  pub buf_file_offset : ℕ
  -- Of the block before the buffered data, and of the blocks of the buffered data.
  pub checksums : List ℕ
  pub version : ℕ
  pub bad_checksum : Bool
  pub found_reset : Bool
  pub first_read : Bool

unfoldable pub new : ℕ → JournalCheckpoint → Outcome JournalReader
new block_size checkpoint = do
  within ← rem_u64 checkpoint.file_offset block_size
  ok (record {
    block_size = block_size;
    buf = [];
    buf_range = range 0 0;
    read_offset = checkpoint.file_offset - within;
    buf_file_offset = checkpoint.file_offset;
    checksums = checkpoint.checksum ∷ [];
    version = checkpoint.version;
    bad_checksum = false;
    found_reset = false;
    first_read = true;
  })

-- `checksums[0]` and `checksums.last().unwrap()`
abbrev pub first_of : List ℕ → Outcome ℕ
first_of [] = panic
first_of (x ∷ xs) = ok x

unfoldable pub last_of : List ℕ → Outcome ℕ
last_of [] = panic
last_of (x ∷ []) = ok x
last_of (x ∷ y ∷ ys) = last_of (y ∷ ys)

unfoldable pub journal_file_checkpoint : JournalReader → Outcome JournalCheckpoint
journal_file_checkpoint r = do
  checksum ← first_of r.checksums
  ok (record { file_offset = r.buf_file_offset; checksum = checksum; version = r.version })

unfoldable pub last_read_checksum : JournalReader → Outcome ℕ
last_read_checksum r = last_of r.checksums

abbrev pub set_version : JournalReader → ℕ → JournalReader
set_version r version = record r { version = version }

-- `drain(0..1)`
abbrev pub drop_first : List ℕ → Outcome (List ℕ)
drop_first [] = panic
drop_first (x ∷ xs) = ok xs

unfoldable pub consume : JournalReader → ℕ → Outcome JournalReader
consume r amount = do
  assert (ltb amount r.block_size)
  before ← rem_u64 r.buf_file_offset r.block_size
  moved ← add_u64 r.buf_file_offset amount
  payload ← sub_u64 r.block_size checksum_size
  (file_offset, checksums) ←
      (if leb payload (before + amount)
        then (do past ← add_u64 moved checksum_size; left ← drop_first r.checksums; ok (past, left))
        else ok (moved, r.checksums))
  ok (record r {
    buf_file_offset = file_offset;
    checksums = checksums;
    buf_range = range (r.buf_range.start + amount) r.buf_range.end;
  })

unfoldable pub skip_to_end_of_block : JournalReader → Outcome JournalReader
unfolding consume
skip_to_end_of_block r = do
  block_offset ← rem_u64 r.buf_file_offset r.block_size
  if ltb 0 block_offset
      then (do amount ← sub_u64 (r.block_size - block_offset) checksum_size; consume r amount)
      else ok r

-- `&self.buf[self.buf_range.clone()]`, which panics outside the buffer.
abbrev pub slice : List ℕ → Range → Outcome (List ℕ)
slice bytes r = do
  assert (leb r.start r.end)
  assert (leb r.end (length bytes))
  ok (take (r.end - r.start) (drop r.start bytes))

unfoldable pub buffer : JournalReader → Outcome (List ℕ)
buffer r = slice r.buf r.buf_range

-- How many bytes are buffered.
abbrev pub outstanding : JournalReader → Outcome ℕ
outstanding r = sub_u64 r.buf_range.end r.buf_range.start

-- `copy_within` to the start of the buffer: what is behind the copy stays.
abbrev pub shuffle : JournalReader → Outcome JournalReader
shuffle r = do
  kept ← slice r.buf r.buf_range
  ok (record r { buf = kept ++ drop (length kept) r.buf; buf_range = range 0 (length kept) })

-- A block, taken apart into what it holds and its checksum.
abbrev pub contents_of : ℕ → List ℕ → List ℕ
contents_of bs block = take (bs - checksum_size) block

abbrev pub stored_of : ℕ → List ℕ → ℕ
stored_of bs block = from_le (drop (bs - checksum_size) block)

-- A block whose checksum does not match: a reset of the journal, or the end of what can be read.
unfoldable pub reject_block : JournalReader → List ℕ → ℕ → Outcome JournalReader
reject_block r block last = do
  reset_sum ← fletcher64 (contents_of r.block_size block) (bit_xor last reset_xor)
  if not r.first_read && (stored_of r.block_size block == reset_sum)
      then (do
        read_offset ← add_u64 r.read_offset r.block_size
        ok (record r {
          found_reset = true;
          checksums = r.checksums ++ stored_of r.block_size block ∷ [];
          read_offset = read_offset;
        }))
      else ok (record r { bad_checksum = true })

-- Where the buffered data begins: the first read may start within a block.
abbrev pub accepted_range : JournalReader → Outcome Range
accepted_range r =
    if ltb r.read_offset r.buf_file_offset
    then (do
      assert (r.buf_range.start == 0)
      end ← sub_u64 (length r.buf) checksum_size
      ok (range (r.buf_file_offset - r.read_offset) end))
    else (do end ← sub_u64 (length r.buf) checksum_size; ok (range r.buf_range.start end))

unfoldable pub accept_block : JournalReader → ℕ → Outcome JournalReader
accept_block r stored = do
  buf_range ← accepted_range r
  read_offset ← add_u64 r.read_offset r.block_size
  ok (record r {
    first_read = false;
    checksums = r.checksums ++ stored ∷ [];
    buf_range = buf_range;
    read_offset = read_offset;
  })

module _ (read : ℕ → ℕ → Outcome (List ℕ)) where
  -- One round of the loop in `fill_buf`, and whether it goes on. A read that is short is
  -- an error, which is not of `FxfsError`: `internal` stands for it.
  unfoldable pub fill_block : JournalReader → Outcome (JournalReader × Bool)
  unfolding last_read_checksum reject_block accept_block
  fill_block r = do
    last ← last_read_checksum r
    offset ← rem_u64 r.read_offset r.block_size
    assert (offset == 0)
    block ← read r.read_offset r.block_size
    if length block == r.block_size
        then (do
          let filled = record r { buf = take r.buf_range.end r.buf ++ block }
          computed ← fletcher64 (contents_of r.block_size block) last
          if stored_of r.block_size block == computed
              then (do
                accepted ← accept_block filled (stored_of r.block_size block)
                ok (accepted, true))
              else (do rejected ← reject_block filled block last; ok (rejected, false)))
        else err internal

  -- The loop, on fuel: nothing if the fuel runs out.
  unfoldable pub fill_loop : ℕ → ℕ → JournalReader → Outcome (Option JournalReader)
  unfolding fill_block
  fill_loop zero min_required r = do
    buffered ← outstanding r
    if leb min_required buffered then ok (Option.some r) else ok Option.none
  fill_loop (suc fuel) min_required r = do
    buffered ← outstanding r
    elim (leb min_required buffered) [
      | true ↦ ok (Option.some r)
      | false ↦ do
        (r', more) ← fill_block r
        elim more [ true ↦ fill_loop fuel min_required r' | false ↦ ok (Option.some r') ]
    ]

  unfoldable pub fill_buf : ℕ → JournalReader → Outcome (Option JournalReader)
  unfolding fill_loop
  fill_buf fuel r = do
    min_required ← sub_u64 r.block_size checksum_size
    if r.found_reset || r.bad_checksum then ok (Option.some r) else (do
      buffered ← outstanding r
      if leb min_required buffered
          then ok (Option.some r)
          else (do shuffled ← shuffle r; fill_loop fuel min_required shuffled))

pub data ReadResult (T : Type 0) : Type 0 where
  reset : ReadResult T
  some : T → ReadResult T
  checksum_mismatch : ReadResult T

-- What `deserialize_from_version` answers: a record with the number of bytes that it took, the end of
-- the bytes, or another error.
pub data Deserialized (T : Type 0) : Type 0 where
  parsed : T → (consumed : ℕ) → Deserialized T
  unexpected_eof : Deserialized T
  failed : FxfsError → Deserialized T

module _ {T : Type 0} (deserialize_from_version : List ℕ → ℕ → Deserialized T) where
  -- Behind a reset, the data of the block that was read last.
  unfoldable pub take_reset : JournalReader → Outcome (JournalReader × ReadResult T)
  take_reset r = do
    buffered ← outstanding r
    consumed ← consume (record r { found_reset = false }) buffered
    start ← sub_u64 (length r.buf) r.block_size
    end ← sub_u64 (length r.buf) checksum_size
    ok (record consumed { buf_range = range start end }, reset)

  abbrev end_of_data : JournalReader → Deserialized T → Outcome (JournalReader × ReadResult T)
  end_of_data r unexpected_eof = if r.bad_checksum then ok (r, checksum_mismatch) else err internal
  end_of_data r (failed e) = err e
  end_of_data r (parsed t consumed) = ok (r, some t)

  abbrev finish : JournalReader → Deserialized T → Outcome (JournalReader × ReadResult T)
  finish r (parsed t consumed) = do r' ← consume r consumed; ok (r', some t)
  finish r answer = if r.found_reset then take_reset r else end_of_data r answer

  unfoldable pub deserialize :
      (ℕ → ℕ → Outcome (List ℕ))
      → ℕ
      → JournalReader
      → Outcome (Option (JournalReader × ReadResult T))
  unfolding fill_buf take_reset consume
  deserialize read fuel r = do
    filled ← fill_buf read fuel r
    elim filled [
      | Option.none ↦ ok Option.none
      | Option.some r' ↦ do
        bytes ← buffer r'
        result ← finish r' (deserialize_from_version bytes r'.version)
        ok (Option.some result)
    ]
