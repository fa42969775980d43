-- ===== src/Journal/Writer/Blocks.antt =====
-- What the writer's buffer holds: whole blocks in the format of the stream, and the part of the
-- next. What was written is their payload.
use fxfs_on_linux.Common.{
  ℕ, zero, suc, ◌+◌, ◌-◌, ◌*◌, ◌%◌, ◌<◌, ◌≤◌, ◌≡◌, ◌∙◌, sym, ap, subst, refl, List, [], ◌∷◌, ◌++◌,
  Bool, true, false, Option, none, some, length, length-append, take, drop, length-take,
  length-drop, take-append-drop, take-append_length, drop-append_length, All, min, ◌==◌,
  if◌then◌else◌, ok, ◌>>=◌, sub_u64-eq, rem_u64-eq, Returns, Returns-bind, Returns-imp, arith,
}
use mathlib.Core.List.{append_assoc, append-nil}
use native.Mathlib.Nat.{mul-add-mod_self_right, mod-eq_of_lt}
use fxfs_on_linux.Checksum.{fletcher64}
use fxfs_on_linux.Journal.Stream.{le_bytes, length-le_bytes, block_sum, encode, last_sum, concat}
use fxfs_on_linux.Journal.Writer.{JournalWriter, seal_block, write_chunk, write_loop}

-- A block holds a whole number of words besides its checksum, at least one.
abbrev pub IsBlockSize : ℕ → Type 0
IsBlockSize bs = (bs % 4 ≡ 0) × (8 < bs)

-- The buffer has the blocks with the payloads `ps`, behind a block with the checksum `c`, and `tail`.
abbrev pub IsStream : ℕ → List (List ℕ) → List ℕ → JournalWriter → Type 0
IsStream c ps tail w =
    (w.buf ≡ encode c ps ++ tail)
    × All (λ p. length p + 8 ≡ w.block_size) ps
    × (length tail + 8 < w.block_size)
    × (w.last_checksum ≡ last_sum c ps)

pub length-encode :
    (bs c : ℕ) (ps : List (List ℕ))
    → All (λ p. length p + 8 ≡ bs) ps
    → length (encode c ps) ≡ length ps * bs
unfolding encode
length-encode bs c [] h = omega arith
length-encode bs c (p ∷ ps) h =
    rw
      (
        length-append p (le_bytes 8 (block_sum p c) ++ encode (block_sum p c) ps),
        length-append (le_bytes 8 (block_sum p c)) (encode (block_sum p c) ps),
        length-le_bytes 8 (block_sum p c),
        length-encode bs (block_sum p c) ps h.1,
      )
      (grind arith)

encode-snoc :
    (c : ℕ) (ps : List (List ℕ)) (p : List ℕ)
    → encode c (ps ++ p ∷ []) ≡ (encode c ps ++ p) ++ le_bytes 8 (block_sum p (last_sum c ps))
unfolding encode last_sum
encode-snoc c [] p = rw (append-nil (le_bytes 8 (block_sum p c))) refl
encode-snoc c (q ∷ ps) p = simp (encode-snoc (block_sum q c) ps p, append_assoc)

last_sum-snoc :
    (c : ℕ) (ps : List (List ℕ)) (p : List ℕ)
    → last_sum c (ps ++ p ∷ []) ≡ block_sum p (last_sum c ps)
unfolding last_sum
last_sum-snoc c [] p = refl
last_sum-snoc c (q ∷ ps) p = last_sum-snoc (block_sum q c) ps p

concat-snoc : (ps : List (List ℕ)) (p : List ℕ) → concat (ps ++ p ∷ []) ≡ concat ps ++ p
unfolding concat
concat-snoc [] p = append-nil p
concat-snoc (q ∷ ps) p = ap (λ t. q ++ t) (concat-snoc ps p) ∙ sym (append_assoc q (concat ps) p)

All-snoc :
    (P : List ℕ → Type 0) (xs : List (List ℕ)) (x : List ℕ) → All P xs → P x → All P (xs ++ x ∷ [])
All-snoc P [] x h p = (p, tt)
All-snoc P (y ∷ ys) x h p = (h.0, All-snoc P ys x h.1 p)

pub fletcher64-block : (p : List ℕ) (c : ℕ) → length p % 4 ≡ 0 → fletcher64 p c ≡ ok (block_sum p c)
unfolding fletcher64 block_sum
fletcher64-block p c h = rw h refl

pub drop-at : (n : ℕ) (xs ys : List ℕ) → n ≡ length xs → drop n (xs ++ ys) ≡ ys
drop-at n xs ys e = rw e (drop-append_length xs ys)

pub take-at : (n : ℕ) (xs ys : List ℕ) → n ≡ length xs → take n (xs ++ ys) ≡ xs
take-at n xs ys e = rw e (take-append_length xs ys)

-- The part of the writer that writing leaves alone.
abbrev pub SameFile : JournalWriter → JournalWriter → Type 0
SameFile w w' = (w'.block_size ≡ w.block_size) × (w'.checkpoint ≡ w.checkpoint)

seal_block-IsStream :
    (c : ℕ) (ps : List (List ℕ)) (p : List ℕ) (w : JournalWriter)
    → IsBlockSize w.block_size
    → w.buf ≡ encode c ps ++ p
    → All (λ q. length q + 8 ≡ w.block_size) ps
    → length p + 8 ≡ w.block_size
    → w.last_checksum ≡ last_sum c ps
    → Returns (seal_block w) λ w'. IsStream c (ps ++ p ∷ []) [] w' × SameFile w w'
unfolding seal_block
seal_block-IsStream c ps p w bs e h l s =
    let total : length w.buf ≡ length (encode c ps) + length p =
      ap length e ∙ length-append (encode c ps) p in
    rw
      (
        sub_u64-eq (length w.buf + 8) w.block_size (omega arith),
        ap (drop (length w.buf + 8 - w.block_size)) e,
        drop-at (length w.buf + 8 - w.block_size) (encode c ps) p (omega arith),
        fletcher64-block p w.last_checksum (omega arith),
      )
      (
        (
          rw (append-nil (encode c (ps ++ p ∷ [])), e, s, encode-snoc c ps p) refl,
          All-snoc (λ q. length q + 8 ≡ w.block_size) ps p h l,
          bs.1,
          rw s (sym (last_sum-snoc c ps p)),
        ),
        (refl, refl),
      )

-- The writer carries a payload, in the stream behind a block with the checksum `c`.
abbrev pub Carries : ℕ → List ℕ → JournalWriter → Type 0
Carries c payload w =
    (ps : List (List ℕ)) × (tail : List ℕ) × IsStream c ps tail w × (concat ps ++ tail ≡ payload)

pub used-eq :
    (c : ℕ) (ps : List (List ℕ)) (tail : List ℕ) (w : JournalWriter)
    → IsStream c ps tail w
    → length w.buf % w.block_size ≡ length tail
used-eq c ps tail w (e, h, t, s) =
    rw
      (
        ap length e ∙ length-append (encode c ps) tail,
        length-encode w.block_size c ps h,
        mul-add-mod_self_right (length ps) w.block_size (length tail),
      )
      (mod-eq_of_lt (omega arith))

-- What a round leaves: the bytes written are behind the payload, and fewer are left.
abbrev Advances : ℕ → List ℕ → JournalWriter → List ℕ → JournalWriter × List ℕ → Type 0
Advances c payload w bytes (w', rest) =
    (front : List ℕ) × Carries c (payload ++ front) w'
    × SameFile w w'
    × (front ++ rest ≡ bytes)
    × (length rest < length bytes)

-- A round that copies `n` bytes, and fills the block if `full`.
copy-Advances :
    (c : ℕ) (payload : List ℕ) (w : JournalWriter) (bytes : List ℕ) (n : ℕ) (full : Bool)
    → IsBlockSize w.block_size
    → (carried : Carries c payload w) → 0 < n
    → n ≤ length bytes
    → (full ≡ true → length (carried.1) + n + 8 ≡ w.block_size)
    → (full ≡ false → length (carried.1) + n + 8 < w.block_size)
    → Returns
        ((if full
            then seal_block (record w { buf = w.buf ++ take n bytes })
            else ok (record w { buf = w.buf ++ take n bytes }))
          >>= λ w'. ok (w', drop n bytes))
        (Advances c payload w bytes)
copy-Advances c payload w bytes n false bs (ps, tail, (e, h, t, s), eq) pos fits on off = (
  take n bytes,
  (
    ps,
    tail ++ take n bytes,
    (
      rw (e, append_assoc (encode c ps) tail (take n bytes)) refl,
      h,
      omega (arith, off refl, length-append tail (take n bytes), length-take n bytes),
      s,
    ),
    sym (append_assoc (concat ps) tail (take n bytes)) ∙ ap (λ x. x ++ take n bytes) eq,
  ),
  (refl, refl),
  take-append-drop n bytes,
  omega (arith, length-drop n bytes),
)
copy-Advances c payload w bytes n true bs (ps, tail, (e, h, t, s), eq) pos fits on off =
    Returns-bind (Advances c payload w bytes)
      (seal_block (record w { buf = w.buf ++ take n bytes })) _
      (seal_block-IsStream c ps (tail ++ take n bytes) (record w { buf = w.buf ++ take n bytes }) bs
        (rw (e, append_assoc (encode c ps) tail (take n bytes)) refl) h
        (omega (arith, on refl, length-append tail (take n bytes), length-take n bytes)) s)
      λ w' (st, same). (
        take n bytes,
        (
          ps ++ (tail ++ take n bytes) ∷ [],
          [],
          st,
          append-nil (concat (ps ++ (tail ++ take n bytes) ∷ []))
              ∙ concat-snoc ps (tail ++ take n bytes)
              ∙ sym (append_assoc (concat ps) tail (take n bytes))
              ∙ ap (λ x. x ++ take n bytes) eq,
        ),
        same,
        take-append-drop n bytes,
        omega (arith, length-drop n bytes),
      )

write_chunk-Advances :
    (c : ℕ) (payload : List ℕ) (w : JournalWriter) (b : ℕ) (bytes : List ℕ)
    → IsBlockSize w.block_size
    → Carries c payload w
    → Returns (write_chunk w (b ∷ bytes)) (Advances c payload w (b ∷ bytes))
unfolding write_chunk
write_chunk-Advances c payload w b bytes bs (ps, tail, st, eq) =
    let (e, h, t, s) = st in
    rw
      (
        sub_u64-eq w.block_size 8 (omega arith),
        rem_u64-eq (length w.buf) w.block_size (omega arith),
        used-eq c ps tail w st,
        sub_u64-eq (w.block_size - 8) (length tail) (omega arith),
      )
      (let space = w.block_size - 8 - length tail in
        copy-Advances c payload w (b ∷ bytes) (min space (suc (length bytes)))
          (min space (suc (length bytes)) == space) bs (ps, tail, st, eq) (omega arith)
          (omega arith) (λ f. ground arith) (λ f. ground arith))

-- The writer that a call of `write` ends with: it carries the payload, in the same file.
abbrev pub Written : ℕ → List ℕ → JournalWriter → Option JournalWriter → Type 0
Written c payload w none = ⊥
Written c payload w (some w') = Carries c payload w' × SameFile w w'

Written-same :
    (c : ℕ) (payload : List ℕ) (w w' : JournalWriter) (o : Option JournalWriter)
    → SameFile w w'
    → Written c payload w' o
    → Written c payload w o
Written-same c payload w w' none same done = done
Written-same c payload w w' (some v) same done = (done.0, (done.1.0 ∙ same.0, done.1.1 ∙ same.1))

pub write_loop-Carries :
    (fuel c : ℕ) (payload : List ℕ) (w : JournalWriter) (bytes : List ℕ)
    → IsBlockSize w.block_size
    → Carries c payload w
    → length bytes ≤ fuel
    → Returns (write_loop fuel w bytes) (Written c (payload ++ bytes) w)
unfolding write_loop
write_loop-Carries fuel c payload w [] bs carried h =
    (subst (λ x. Carries c x w) (sym (append-nil payload)) carried, (refl, refl))
write_loop-Carries zero c payload w (b ∷ bytes) bs carried h = elim h [ ]
write_loop-Carries (suc fuel) c payload w (b ∷ bytes) bs carried h =
    Returns-bind (Written c (payload ++ b ∷ bytes) w) (write_chunk w (b ∷ bytes)) _
      (write_chunk-Advances c payload w b bytes bs carried)
      λ (w', rest) (front, now, same, split, less).
        Returns-imp (write_loop fuel w' rest)
          (λ o done. Written-same c (payload ++ b ∷ bytes) w w' o same (
            subst (λ x. Written c x w' o)
              (append_assoc payload front rest ∙ ap (λ x. payload ++ x) split) done))
          (write_loop-Carries fuel c (payload ++ front) w' rest (rw same.0 bs) now (omega arith))
