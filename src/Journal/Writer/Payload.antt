-- ===== src/Journal/Writer/Payload.antt =====
-- What the writer's calls do to the payload that it carries.
use fxfs_on_linux.Common.{
  ℕ, ◌+◌, ◌-◌, ◌<◌, ◌≤◌, ◌≡◌, ◌∙◌, sym, ap, refl, List, ◌++◌, Option, none, some, length,
  length-append, length-take, take, drop, ◌==◌, u64_max, sub_u64-eq, rem_u64-eq, add_u64-eq,
  Returns, Bool-cases, inl, inr, arith,
}
use fxfs_on_linux.Journal.Stream.{encode, last_sum, concat}
use fxfs_on_linux.Journal.Writer.{JournalWriter, write, take_buffer}
use fxfs_on_linux.Journal.Writer.Blocks.{
  IsBlockSize, Carries, Written, write_loop-Carries, used-eq, length-encode, drop-at, take-at,
}

-- Writing bytes to a writer whose block size is a multiple of four above eight, and whose buffer is a
-- stream of whole blocks, each with the checksum of its payload seeded by the checksum before, and a
-- part of a block, returns such a writer; its payload has the bytes behind the old payload.
pub write-Carries :
    (c : ℕ) (payload : List ℕ) (w : JournalWriter) (bytes : List ℕ)
    → IsBlockSize w.block_size
    → Carries c payload w
    → Returns (write w bytes) (Written c (payload ++ bytes) w)
unfolding write
write-Carries c payload w bytes bs carried =
    write_loop-Carries (length bytes) c payload w bytes bs carried (omega arith)

-- What `take_buffer` leaves and gives: the whole blocks go out at the checkpoint's offset, and the
-- rest of the payload stays, behind the checksum of the last of them.
abbrev pub Taken : ℕ → List ℕ → JournalWriter → JournalWriter × Option (ℕ × List ℕ) → Type 0
Taken c payload w (w', none) = (w' ≡ w) × (length w.buf < w.block_size)
Taken c payload w (w', some (offset, out)) =
    (ps : List (List ℕ)) × (tail : List ℕ) × (payload ≡ concat ps ++ tail)
    × (out ≡ encode c ps)
    × (offset ≡ w.checkpoint.file_offset)
    × (w'.checkpoint.file_offset ≡ offset + length out)
    × (w'.checkpoint.checksum ≡ last_sum c ps)
    × (w'.buf ≡ tail)
    × (w'.last_checksum ≡ last_sum c ps)
    × (length tail + 8 < w'.block_size)

-- Taking the buffer of a writer that carries a payload returns; the whole blocks are given with the
-- offset of the checkpoint, if there are any; the checkpoint moves behind them, with the checksum of
-- the last of them, and the rest of the payload stays in the buffer.
pub take_buffer-Taken :
    (c : ℕ) (payload : List ℕ) (w : JournalWriter)
    → IsBlockSize w.block_size
    → Carries c payload w
    → w.checkpoint.file_offset + length w.buf ≤ u64_max
    → Returns (take_buffer w) (Taken c payload w)
unfolding take_buffer
take_buffer-Taken c payload w bs (ps, tail, st, eq) fits =
    let (e, h, t, s) = st in
    let whole = length-encode w.block_size c ps h in
    let total = ap length e ∙ length-append (encode c ps) tail in
    rw
      (
        rem_u64-eq (length w.buf) w.block_size (omega arith),
        used-eq c ps tail w st,
        sub_u64-eq (length w.buf) (length tail) (omega arith),
      )
      (elim (Bool-cases (length w.buf - length tail == 0)) [
        | inl f ↦ rw f (refl, ground arith)
        | inr f ↦
            rw (f, add_u64-eq w.checkpoint.file_offset (length w.buf - length tail) (omega arith))
              (
                ps,
                tail,
                sym eq,
                ap (take (length w.buf - length tail)) e
                    ∙ take-at _ (encode c ps) tail (omega arith),
                refl,
                omega (arith, length-take (length w.buf - length tail) w.buf),
                s,
                ap (drop (length w.buf - length tail)) e
                    ∙ drop-at _ (encode c ps) tail (omega arith),
                s,
                t,
              )
      ])
