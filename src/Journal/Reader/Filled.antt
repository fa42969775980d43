-- ===== src/Journal/Reader/Filled.antt =====
-- What the loop of `fill_buf` buffers of a stream (src/object_store/journal/reader.rs).
use mathlib.Core.List.{append_assoc, append-nil}
use fxfs_on_linux.Common.{
  ℕ, suc, ◌+◌, ◌-◌, ◌<◌, ◌≤◌, ◌≡◌, ◌∙◌, sym, ap, subst, List, [], ◌∷◌, ◌++◌, Option, none, some,
  length, length-append, take, drop, All, leb, u64_max, le→leb, sub_u64-eq, Outcome, ◌>>=◌, Bool,
  true, false, ok, Returns, Returns-bind, arith,
}
use fxfs_on_linux.Journal.Stream.{le_bytes, length-le_bytes, block_sum, encode, last_sum, concat}
use fxfs_on_linux.Journal.Writer.Blocks.{IsBlockSize, drop-at, take-at}
use fxfs_on_linux.Journal.Reader.{JournalReader, fill_block, fill_loop}
use fxfs_on_linux.Journal.Reader.Blocks.{IsAt, block_of, fill_block-IsAt, length-IsAt}

-- A file: a read within it gives what is there.
abbrev pub Reads : (ℕ → ℕ → Outcome (List ℕ)) → List ℕ → Type 0
Reads read file =
    (offset n : ℕ) → offset + n ≤ length file → read offset n ≡ ok (take n (drop offset file))

-- The reader after the loop: it has buffered `kept`, up to the block's end at `offset`.
abbrev pub Filled : ℕ → List ℕ → ℕ → Option JournalReader → Type 0
Filled c kept offset none = ⊥
Filled c kept offset (some r) = IsAt c kept r × (r.read_offset ≡ offset)

ordered :
    (c : ℕ) (kept : List ℕ) (r : JournalReader)
    → IsAt c kept r
    → r.buf_range.start ≤ r.buf_range.end
ordered c kept r (a, o, f, s, e, k) = s

not-leb : (m n : ℕ) → n < m → leb m n ≡ false
not-leb m n h = ground arith

module _ (read : ℕ → ℕ → Outcome (List ℕ)) (file : List ℕ) (reads : Reads read file) where
  -- The first block of the rest of the file.
  read-block :
      (before p : List ℕ) (c offset bs : ℕ) (rest : List ℕ)
      → file ≡ before ++ (block_of c p ++ rest)
      → length before ≡ offset
      → length p + 8 ≡ bs
      → read offset bs ≡ ok (block_of c p)
  read-block before p c offset bs rest e l k =
      let whole = length-append p (le_bytes 8 (block_sum p c)) in
      let tail = length-le_bytes 8 (block_sum p c) in
      let total : offset + bs ≤ length file = omega (
        arith,
        ap length e,
        length-append before (block_of c p ++ rest),
        length-append (block_of c p) rest,
      ) in
      reads offset bs total
      ∙ ap (λ t. ok (take bs (drop offset t))) e
      ∙ ap (λ t. ok (take bs t)) (drop-at offset before (block_of c p ++ rest) (omega arith))
      ∙ ap ok (take-at bs (block_of c p) rest (omega arith))

  encode-split :
      (before p : List ℕ) (c : ℕ) (ps : List (List ℕ)) (rest : List ℕ)
      → before ++ (encode c (p ∷ ps) ++ rest)
        ≡ before ++ (block_of c p ++ (encode (block_sum p c) ps ++ rest))
  unfolding encode
  encode-split before p c ps rest = simp append_assoc

  -- What the loop does where enough is buffered, and where it is not.
  next : ℕ → ℕ → JournalReader → Bool → Outcome (Option JournalReader)
  unfolding fill_loop
  next fuel m r enough = elim enough [
    | true ↦ ok (some r)
    | false ↦ fill_block read r >>= λ (r', more). elim more [
      | true ↦ fill_loop read fuel m r'
      | false ↦ ok (some r')
    ]
  ]

  -- A round of the loop, where not enough is buffered.
  fill_loop-step :
      (fuel m : ℕ) (r : JournalReader)
      → r.buf_range.start ≤ r.buf_range.end
      → leb m (r.buf_range.end - r.buf_range.start) ≡ false
      → fill_loop read (suc fuel) m r ≡ (
          fill_block read r >>= λ (r', more). elim more [
            | true ↦ fill_loop read fuel m r'
            | false ↦ ok (some r')
          ])
  unfolding fill_loop next
  fill_loop-step fuel m r h e =
      ap (λ o. o >>= λ n. next fuel m r (leb m n)) (sub_u64-eq r.buf_range.end r.buf_range.start h)
      ∙ ap (next fuel m r) e

  further :
      (r r' : JournalReader)
      → r'.read_offset ≡ r.read_offset + r.block_size
      → (ps : List (List ℕ)) (c : ℕ)
      → r.read_offset + (r.block_size + length (encode c ps))
        ≡ r'.read_offset + length (encode c ps)
  further r r' moved ps c = omega arith

  -- Where a file has the blocks with the payloads `ps` at the offset at which a reader stands behind a
  -- block with the checksum `c`, with `kept` buffered, reading until all of the payloads are buffered
  -- takes as many rounds as there are blocks: all of their payload is behind `kept`, the reader has
  -- the checksum of the last, and stands behind it.
  pub fill_loop-Filled :
      (c : ℕ) (kept before : List ℕ) (ps : List (List ℕ)) (rest : List ℕ) (r : JournalReader)
      → IsBlockSize r.block_size
      → IsAt c kept r
      → All (λ p. length p + 8 ≡ r.block_size) ps
      → file ≡ before ++ (encode c ps ++ rest)
      → length before ≡ r.read_offset
      → length file ≤ u64_max
      → Returns
          (fill_loop read (length ps) (length kept + length (concat ps)) r)
          (Filled (last_sum c ps) (kept ++ concat ps) (r.read_offset + length (encode c ps)))
  unfolding fill_loop encode concat last_sum
  fill_loop-Filled c kept before [] rest r bs at whole e l fits =
      rw
        (
          sub_u64-eq r.buf_range.end r.buf_range.start (ordered c kept r at),
          length-IsAt c kept r at,
          le→leb (length kept + 0) (length kept) (omega arith),
        )
        (rw (append-nil kept) (at, omega arith))
  fill_loop-Filled c kept before (p ∷ ps) rest r bs at (k, whole) e l fits =
      let tail = length-le_bytes 8 (block_sum p c) in
      let block = length-append p (le_bytes 8 (block_sum p c)) in
      let split = e ∙ encode-split before p c ps rest in
      let size =
        ap length split
        ∙ length-append before (block_of c p ++ (encode (block_sum p c) ps ++ rest)) in
      let room = length-append (block_of c p) (encode (block_sum p c) ps ++ rest) in
      let need : length kept + length (p ++ concat ps) ≡ length (kept ++ p) + length (concat ps) =
        omega (arith, length-append kept p, length-append p (concat ps)) in
      let more_needed : leb (length kept + length (p ++ concat ps)) (length kept) ≡ false =
        not-leb (length kept + length (p ++ concat ps)) (length kept)
          (omega (arith, length-append p (concat ps))) in
      let ends : length (p ++ (le_bytes 8 (block_sum p c) ++ encode (block_sum p c) ps))
          ≡ r.block_size + length (encode (block_sum p c) ps) =
        omega (
          arith,
          length-append p (le_bytes 8 (block_sum p c) ++ encode (block_sum p c) ps),
          length-append (le_bytes 8 (block_sum p c)) (encode (block_sum p c) ps),
        ) in
      let all =
        Filled (last_sum (block_sum p c) ps) (kept ++ (p ++ concat ps)) (
          r.read_offset
          + length (p ++ (le_bytes 8 (block_sum p c) ++ encode (block_sum p c) ps))) in
      subst (λ o. Returns o all)
        (sym (
          fill_loop-step (length ps) (length kept + length (p ++ concat ps)) r (ordered c kept r at)
            (rw (length-IsAt c kept r at) more_needed)))
        (Returns-bind all (fill_block read r) _
          (fill_block-IsAt read c kept p r bs at (omega arith) k (
            read-block before p c r.read_offset r.block_size (encode (block_sum p c) ps ++ rest)
              split l k))
          λ (r', more) (at', same, moved, n, goes).
            rw
              (
                goes,
                need,
                ends,
                sym (append_assoc kept p (concat ps)),
                further r r' moved ps (block_sum p c),
              )
              (fill_loop-Filled (block_sum p c) (kept ++ p) (before ++ block_of c p) ps rest r'
                (subst IsBlockSize (sym same) bs) at'
                (subst (λ b. All (λ q. length q + 8 ≡ b) ps) (sym same) whole)
                (split
                  ∙ sym (append_assoc before (block_of c p) (encode (block_sum p c) ps ++ rest)))
                (omega (arith, length-append before (block_of c p))) fits))
