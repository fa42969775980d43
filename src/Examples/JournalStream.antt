-- ===== src/Examples/JournalStream.antt =====
-- The journal's writer and reader at concrete bytes (src/object_store/journal/writer.rs and
-- src/object_store/journal/reader.rs).
use fxfs_on_linux.Common.{
  ℕ, ◌≡◌, refl, List, [], ◌∷◌, some, Outcome, ok, Returns, take, drop, arith, false, true,
}
use fxfs_on_linux.Util.Range.{range}
use fxfs_on_linux.Checksum.{fletcher64, sums}
use fxfs_on_linux.Journal.Stream.{le_bytes, from_le, encode, concat, last_sum, block_sum}
use fxfs_on_linux.Journal.Writer
use fxfs_on_linux.Journal.Writer.{JournalWriter, write, take_buffer, pad_to_block, seal_block}
use fxfs_on_linux.Journal.Writer.Blocks.{Carries, Written}
use fxfs_on_linux.Journal.Writer.Payload.{Taken, write-Carries, take_buffer-Taken}
use fxfs_on_linux.Journal.Reader
use fxfs_on_linux.Journal.Reader.{
  JournalReader, fill_block, fill_loop, deserialize, Deserialized, parsed, unexpected_eof,
  ReadResult,
}
use fxfs_on_linux.Journal.Reader.Blocks.{Stopped, fill_block-Stopped, IsAt}
use fxfs_on_linux.Journal.Reader.Filled.{Filled, fill_loop-Filled}

-- Blocks of twelve bytes, four of them of payload.
abbrev empty : JournalWriter
empty = Writer.new 1 12 0

empty-Carries : Carries 0 [] empty
unfolding encode concat last_sum
empty-Carries = ([], [], (refl, tt, omega arith, refl), refl)

-- Five bytes fill a block, and begin another.
abbrev five_written : JournalWriter
five_written = record empty {
  buf = 1 ∷ 2 ∷ 3 ∷ 4 ∷ 1 ∷ 2 ∷ 3 ∷ 4 ∷ 1 ∷ 2 ∷ 3 ∷ 4 ∷ 5 ∷ [];
  last_checksum = 289077004467372545;
}

write_five : write empty (1 ∷ 2 ∷ 3 ∷ 4 ∷ 5 ∷ []) ≡ ok (some five_written)
unfolding write fletcher64 le_bytes
write_five = refl

write-Carries_example :
    Returns (write empty (1 ∷ 2 ∷ 3 ∷ 4 ∷ 5 ∷ [])) (Written 0 (1 ∷ 2 ∷ 3 ∷ 4 ∷ 5 ∷ []) empty)
write-Carries_example =
    write-Carries 0 [] empty (1 ∷ 2 ∷ 3 ∷ 4 ∷ 5 ∷ []) (refl, omega arith) empty-Carries

five-Carries : Carries 0 (1 ∷ 2 ∷ 3 ∷ 4 ∷ 5 ∷ []) five_written
unfolding encode concat last_sum le_bytes block_sum sums
five-Carries = ((1 ∷ 2 ∷ 3 ∷ 4 ∷ []) ∷ [], 5 ∷ [], (refl, (refl, tt), omega arith, refl), refl)

take_buffer-Taken_example :
    Returns (take_buffer five_written) (Taken 0 (1 ∷ 2 ∷ 3 ∷ 4 ∷ 5 ∷ []) five_written)
take_buffer-Taken_example =
    take_buffer-Taken 0 (1 ∷ 2 ∷ 3 ∷ 4 ∷ 5 ∷ []) five_written (refl, omega arith) five-Carries
      (omega arith)

abbrev payloads : List (List ℕ)
payloads = (1 ∷ 2 ∷ 3 ∷ 4 ∷ []) ∷ (5 ∷ 6 ∷ 7 ∷ 8 ∷ []) ∷ []

-- A file of two blocks.
abbrev file : List ℕ
file = encode 0 payloads

abbrev read_file : ℕ → ℕ → Outcome (List ℕ)
read_file offset n = ok (take n (drop offset file))

abbrev start : JournalReader
start = record {
  block_size = 12;
  buf = [];
  buf_range = range 0 0;
  read_offset = 0;
  buf_file_offset = 0;
  checksums = 0 ∷ [];
  version = 1;
  bad_checksum = false;
  found_reset = false;
  first_read = true;
}

new_reader : Reader.new 12 (record { file_offset = 0; checksum = 0; version = 1 }) ≡ ok start
unfolding Reader.new
new_reader = refl

start-IsAt : IsAt 0 [] start
unfolding Reader.last_of
start-IsAt = (refl, refl, omega arith, omega arith, omega arith, refl)

fill_loop-Filled_example :
    Returns
      (fill_loop read_file 2 8 start)
      (Filled (last_sum 0 payloads) (1 ∷ 2 ∷ 3 ∷ 4 ∷ 5 ∷ 6 ∷ 7 ∷ 8 ∷ []) 24)
unfolding encode concat le_bytes block_sum sums
fill_loop-Filled_example =
    fill_loop-Filled read_file file (λ offset n h. refl) 0 [] [] payloads [] start
      (refl, omega arith) start-IsAt (refl, (refl, tt)) refl refl (omega arith)

-- A file whose blocks have a checksum that is not theirs.
abbrev read_ones : ℕ → ℕ → Outcome (List ℕ)
read_ones offset n = ok (9 ∷ 9 ∷ 9 ∷ 9 ∷ le_bytes 8 7)

fill_block-Stopped_example :
    Returns (fill_block read_ones start) (Stopped read_ones 0 [] (9 ∷ 9 ∷ 9 ∷ 9 ∷ []) 7 start)
unfolding block_sum le_bytes sums
fill_block-Stopped_example =
    fill_block-Stopped read_ones 0 [] (9 ∷ 9 ∷ 9 ∷ 9 ∷ []) 7 start (refl, omega arith) start-IsAt
      (omega arith) refl (omega arith) (λ h. ground arith) refl

-- A record of two bytes.
abbrev two_bytes : List ℕ → ℕ → Deserialized (List ℕ)
two_bytes (a ∷ b ∷ rest) version = parsed (a ∷ b ∷ []) 2
two_bytes _ version = unexpected_eof

-- The first record of the file, of which the block is read.
deserialize_first :
    deserialize two_bytes read_file 1 start
    ≡ ok (
        some (
          record start {
            buf = take 12 file;
            buf_range = range 2 4;
            read_offset = 12;
            buf_file_offset = 2;
            checksums = 0 ∷ block_sum (1 ∷ 2 ∷ 3 ∷ 4 ∷ []) 0 ∷ [];
            first_read = false;
          },
          ReadResult.some (1 ∷ 2 ∷ []),
        ))
unfolding deserialize fletcher64 encode le_bytes from_le block_sum sums Reader.buffer Reader.last_of
deserialize_first = refl

-- A file whose first block has another checksum.
deserialize_bad :
    deserialize two_bytes read_ones 1 start
    ≡ ok (
        some (
          record start { buf = 9 ∷ 9 ∷ 9 ∷ 9 ∷ le_bytes 8 7; bad_checksum = true },
          ReadResult.checksum_mismatch,
        ))
unfolding deserialize fletcher64 le_bytes from_le Reader.buffer Reader.last_of
deserialize_bad = refl

-- Part of a block is padded, and its checksum follows.
pad_part :
    pad_to_block (record empty { buf = 1 ∷ 2 ∷ 3 ∷ [] })
    ≡ ok (
        some (record empty {
          buf = 1 ∷ 2 ∷ 3 ∷ 0 ∷ le_bytes 8 (block_sum (1 ∷ 2 ∷ 3 ∷ 0 ∷ []) 0);
          last_checksum = block_sum (1 ∷ 2 ∷ 3 ∷ 0 ∷ []) 0;
        }))
unfolding pad_to_block write fletcher64 le_bytes block_sum sums
pad_part = refl

-- After a replay, the writer goes on behind the checksum of the block before.
seek_to_block :
    Writer.seek empty (record { file_offset = 24; checksum = 77; version = 1 })
    ≡ ok (record empty {
      checkpoint = record { file_offset = 24; checksum = 77; version = 1 };
      last_checksum = 77;
    })
unfolding Writer.seek
seek_to_block = refl
