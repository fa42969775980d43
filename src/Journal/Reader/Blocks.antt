-- ===== src/Journal/Reader/Blocks.antt =====
-- Reading back what the writer wrote, block by block, and what a block with a wrong checksum does.
use Prim.Native.Nat.{bit_xor}
use mathlib.Core.List.{append-nil}
use native.Mathlib.Nat.{add-mod_right}
use fxfs_on_linux.Common.{
  ℕ, zero, suc, ◌+◌, ◌-◌, ◌%◌, ◌^◌, ◌<◌, ◌≤◌, ◌≡◌, ◌≢◌, ◌∙◌, ap, refl, List, [], ◌∷◌, ◌++◌, Bool,
  true, false, length, length-append, length-take, length-drop, take, drop, take-append_length, ltb,
  ◌==◌, u64_max, le→leb, Outcome, ok, sub_u64-eq, rem_u64-eq, add_u64-eq, Returns, Bool-cases, ◌⊎◌,
  inl, inr, arith,
}
use fxfs_on_linux.Util.Range.{range}
use fxfs_on_linux.Journal.Stream.{
  le_bytes, length-le_bytes, from_le-le_bytes, block_sum, block_sum-lt, reset_xor,
}
use fxfs_on_linux.Journal.Writer.Blocks.{IsBlockSize, fletcher64-block, drop-at, take-at}
use fxfs_on_linux.Journal.Reader.{
  JournalReader, last_of, slice, buffer, fill_block, accept_block, reject_block, last_read_checksum,
}

-- The reader stands at a block's start behind a block with the checksum `c`, with `kept` buffered.
abbrev pub IsAt : ℕ → List ℕ → JournalReader → Type 0
IsAt c kept r =
    (last_of r.checksums ≡ ok c)
    × (r.read_offset % r.block_size ≡ 0)
    × (r.buf_file_offset ≤ r.read_offset)
    × (r.buf_range.start ≤ r.buf_range.end)
    × (r.buf_range.end ≤ length r.buf)
    × (take (r.buf_range.end - r.buf_range.start) (drop r.buf_range.start r.buf) ≡ kept)

-- The slice, with a block put behind it.
slice-block :
    (s e : ℕ) (buf block : List ℕ) (n : ℕ)
    → s ≤ e
    → e ≤ length buf
    → n ≤ length block
    → take (e + n - s) (drop s (take e buf ++ block)) ≡ take (e - s) (drop s buf) ++ take n block
slice-block zero zero buf block n h k l = let i : 0 + n - 0 ≡ n = omega arith in rw i refl
slice-block zero (suc e) [] block n h k l = elim k [ ]
slice-block zero (suc e) (x ∷ buf) block n h k l =
    let i : suc e + n - 0 ≡ suc (e + n - 0) = omega arith in
    let j : suc e - 0 ≡ suc (e - 0) = omega arith in
    rw (i, j) (ap (λ t. x ∷ t) (slice-block zero e buf block n (omega arith) (omega arith) l))
slice-block (suc s) zero buf block n h k l = elim h [ ]
slice-block (suc s) (suc e) [] block n h k l = elim k [ ]
slice-block (suc s) (suc e) (x ∷ buf) block n h k l =
    let i : suc e + n - suc s ≡ e + n - s = omega arith in
    let j : suc e - suc s ≡ e - s = omega arith in
    rw (i, j) (slice-block s e buf block n (omega arith) (omega arith) l)

test-true : (m n : ℕ) → m ≡ n → (m == n) ≡ true
test-true m n h = ground arith

test-false : (m n : ℕ) → m ≢ n → (m == n) ≡ false
test-false m n h = ground arith

not-ltb : (m n : ℕ) → n ≤ m → ltb m n ≡ false
not-ltb m n h = ground arith

last_of-snoc : (xs : List ℕ) (x : ℕ) → last_of (xs ++ x ∷ []) ≡ ok x
unfolding last_of
last_of-snoc [] x = refl
last_of-snoc (y ∷ []) x = refl
last_of-snoc (y ∷ z ∷ zs) x = last_of-snoc (z ∷ zs) x

-- The block with the payload `p`, behind a block with the checksum `c`.
abbrev pub block_of : ℕ → List ℕ → List ℕ
block_of c p = p ++ le_bytes 8 (block_sum p c)

-- The reader after a block has been accepted, with `kept` buffered.
abbrev pub Accepted : ℕ → List ℕ → JournalReader → JournalReader × Bool → Type 0
Accepted c kept r (r', more) =
    IsAt c kept r'
    × (r'.block_size ≡ r.block_size)
    × (r'.read_offset ≡ r.read_offset + r.block_size)
    × (r'.buf_range.end - r'.buf_range.start ≡ length kept)
    × (more ≡ true)

slice-ok :
    (bytes kept : List ℕ) (s e : ℕ)
    → s ≤ e
    → e ≤ length bytes
    → take (e - s) (drop s bytes) ≡ kept
    → slice bytes (range s e) ≡ ok kept
slice-ok bytes kept s e h k keep = rw (le→leb s e h, le→leb e (length bytes) k, keep) refl

-- A block behind the outstanding data leaves it alone.
slice-still :
    (s e : ℕ) (buf block kept : List ℕ)
    → s ≤ e
    → e ≤ length buf
    → take (e - s) (drop s buf) ≡ kept
    → slice (take e buf ++ block) (range s e) ≡ ok kept
slice-still s e buf block kept h k keep =
    let i : e + 0 ≡ e = omega arith in
    let total : e ≤ length (take e buf ++ block) =
      omega (arith, length-append (take e buf) block, length-take e buf) in
    let same = rw i at (slice-block s e buf block 0 h k (omega arith)) in
    slice-ok (take e buf ++ block) kept s e h total
      (same ∙ append-nil (take (e - s) (drop s buf)) ∙ keep)

-- What is outstanding.
pub buffer-IsAt : (c : ℕ) (kept : List ℕ) (r : JournalReader) → IsAt c kept r → buffer r ≡ ok kept
unfolding buffer
buffer-IsAt c kept r (a, o, f, s, e, k) =
    slice-ok r.buf kept r.buf_range.start r.buf_range.end s e k

pub length-IsAt :
    (c : ℕ) (kept : List ℕ) (r : JournalReader)
    → IsAt c kept r
    → r.buf_range.end - r.buf_range.start ≡ length kept
length-IsAt c kept r (a, o, f, s, e, k) = omega (
  arith,
  ap length k,
  length-take (r.buf_range.end - r.buf_range.start) (drop r.buf_range.start r.buf),
  length-drop r.buf_range.start r.buf,
)

module _ (read : ℕ → ℕ → Outcome (List ℕ)) where
  -- A block that follows on the stream is accepted.
  pub fill_block-IsAt :
      (c : ℕ) (kept p : List ℕ) (r : JournalReader)
      → IsBlockSize r.block_size
      → IsAt c kept r
      → r.read_offset + r.block_size ≤ u64_max
      → length p + 8 ≡ r.block_size
      → read r.read_offset r.block_size ≡ ok (block_of c p)
      → Returns (fill_block read r) (Accepted (block_sum p c) (kept ++ p) r)
  unfolding fill_block last_read_checksum accept_block
  fill_block-IsAt c kept p r bs (a, o, f, s, e, k) m l g =
      let whole = length-append p (le_bytes 8 (block_sum p c)) in
      let tail = length-le_bytes 8 (block_sum p c) in
      let filled : length (take r.buf_range.end r.buf ++ block_of c p)
          ≡ r.buf_range.end + length p + 8 =
        omega (
          arith,
          length-append (take r.buf_range.end r.buf) (block_of c p),
          length-take r.buf_range.end r.buf,
        ) in
      let fits : r.buf_range.end + length p + 8 - 8 ≡ r.buf_range.end + length p = omega arith in
      let keeps : take (r.buf_range.end + length p - r.buf_range.start)
            (drop r.buf_range.start (take r.buf_range.end r.buf ++ block_of c p))
          ≡ kept ++ p =
        slice-block r.buf_range.start r.buf_range.end r.buf (block_of c p) (length p) s e
          (omega arith)
        ∙ rw (k, take-append_length p (le_bytes 8 (block_sum p c))) refl in
      rw
        (
          a,
          rem_u64-eq r.read_offset r.block_size (omega arith),
          o,
          g,
          test-true (length (block_of c p)) r.block_size (omega arith),
          take-at (r.block_size - 8) p (le_bytes 8 (block_sum p c)) (omega arith),
          drop-at (r.block_size - 8) p (le_bytes 8 (block_sum p c)) (omega arith),
          from_le-le_bytes (block_sum p c) (block_sum-lt p c (omega arith)),
          fletcher64-block p c (omega arith),
          test-true (block_sum p c) (block_sum p c) refl,
        )
        (rw
          (
            not-ltb r.read_offset r.buf_file_offset f,
            filled,
            sub_u64-eq (r.buf_range.end + length p + 8) 8 (omega arith),
            fits,
            add_u64-eq r.read_offset r.block_size m,
          )
          (
            (
              last_of-snoc r.checksums (block_sum p c),
              add-mod_right r.read_offset r.block_size ∙ o,
              omega arith,
              omega arith,
              omega arith,
              keeps,
            ),
            refl,
            refl,
            omega (
              arith,
              length-append kept p,
              ap length k,
              length-take (r.buf_range.end - r.buf_range.start) (drop r.buf_range.start r.buf),
              length-drop r.buf_range.start r.buf,
            ),
            refl,
          ))

  -- What becomes of a block with the wrong checksum `s`.
  abbrev pub Stopped : ℕ → List ℕ → List ℕ → ℕ → JournalReader → JournalReader × Bool → Type 0
  Stopped c kept p s r (r', more) =
      (more ≡ false)
      × (buffer r' ≡ ok kept)
      × (((r.first_read ≡ false)
            × (s ≡ block_sum p (bit_xor c reset_xor))
            × (r'.found_reset ≡ true)
            × (r'.bad_checksum ≡ r.bad_checksum)
            × (last_of r'.checksums ≡ ok s)
            × (r'.read_offset ≡ r.read_offset + r.block_size))
          ⊎ (((r.first_read ≡ true) ⊎ (s ≢ block_sum p (bit_xor c reset_xor)))
              × (r'.bad_checksum ≡ true)
              × (r'.found_reset ≡ r.found_reset)
              × (r'.checksums ≡ r.checksums)
              × (r'.read_offset ≡ r.read_offset)))

  -- Where the next block does not have the checksum of its contents, the round of the loop ends the
  -- loop and the buffered data stays. Past the first read, a checksum that is the one of the contents
  -- behind a reset makes the reader stand behind the block, with its checksum, and a reset found;
  -- with any other, or at the first read, it does not advance and a bad checksum is noted.
  pub fill_block-Stopped :
      (c : ℕ) (kept p : List ℕ) (s : ℕ) (r : JournalReader)
      → IsBlockSize r.block_size
      → IsAt c kept r
      → r.read_offset + r.block_size ≤ u64_max
      → length p + 8 ≡ r.block_size
      → s < 2 ^ 64
      → s ≢ block_sum p c
      → read r.read_offset r.block_size ≡ ok (p ++ le_bytes 8 s)
      → Returns (fill_block read r) (Stopped c kept p s r)
  unfolding fill_block last_read_checksum reject_block buffer
  fill_block-Stopped c kept p s r bs (a, o, f, st, e, k) m l small differs g =
      let whole = length-append p (le_bytes 8 s) in
      let tail = length-le_bytes 8 s in
      let still : slice (take r.buf_range.end r.buf ++ (p ++ le_bytes 8 s)) r.buf_range ≡ ok kept =
        slice-still r.buf_range.start r.buf_range.end r.buf (p ++ le_bytes 8 s) kept st e k in
      rw
        (
          a,
          rem_u64-eq r.read_offset r.block_size (omega arith),
          o,
          g,
          test-true (length (p ++ le_bytes 8 s)) r.block_size (omega arith),
          take-at (r.block_size - 8) p (le_bytes 8 s) (omega arith),
          drop-at (r.block_size - 8) p (le_bytes 8 s) (omega arith),
          from_le-le_bytes s small,
          fletcher64-block p c (omega arith),
          test-false s (block_sum p c) differs,
          fletcher64-block p (bit_xor c reset_xor) (omega arith),
        )
        (elim (Bool-cases r.first_read) [
          | inl first ↦ rw first (refl, still, inr (inl refl, refl, refl, refl, refl))
          | inr later ↦ elim (Bool-cases (s == block_sum p (bit_xor c reset_xor))) [
            | inl same ↦
                rw (later, same, add_u64-eq r.read_offset r.block_size m)
                  (
                    refl,
                    still,
                    inl (refl, ground arith, refl, refl, last_of-snoc r.checksums s, refl),
                  )
            | inr other ↦
                rw (later, other) (refl, still, inr (inr (ground arith), refl, refl, refl, refl))
          ]
        ])
