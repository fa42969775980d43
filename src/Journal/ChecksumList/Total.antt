-- ===== src/Journal/ChecksumList/Total.antt =====
-- `verify` returns, on a device that reads without errors and a list that `push` built.
use fxfs_on_linux.Common.{
  ℕ, zero, suc, ◌+◌, ◌-◌, ◌*◌, ◌/◌, ◌%◌, ◌≤◌, ◌<◌, ◌≡◌, refl, ap, ◌&&◌, List, [], ◌∷◌, ◌++◌, length,
  map, All, All-imp, Option, none, some, ltb, leb, if◌then◌else◌, ok, u64_max, Bool-cases, arith,
  Returns, Returns-bind, inl, inr, lt→ltb, le→leb,
}
use native.Mathlib.Nat.{mul-div-le}
use fxfs_on_linux.Util.Range
use fxfs_on_linux.Util.Range.{Range}
use fxfs_on_linux.Checksum.{fletcher64}
use fxfs_on_linux.Journal.ChecksumList.{
  ChecksumState, unverified, valid, invalid, ChecksumEntry, ChecksumList, chunk_size_of, push,
  fresh,
}
use fxfs_on_linux.Journal.ChecksumList.Verify.{
  Device, is_invalid, is_marked, verify_state, verify_needed, verify_chunks, verify_entries,
  verify_loop, verify,
}

-- A device that reads every range that it is asked for.
abbrev pub IsReadable : Device → Type 0
IsReadable read =
    (offset n : ℕ) → (bytes : List ℕ) × (read offset n ≡ ok bytes) × (length bytes ≡ n)

-- An entry whose chunks are whole words, fit the buffer, and end in the u64 range.
abbrev pub IsReady : ℕ → ChecksumEntry → Type 0
IsReady max_chunk_size e =
    (size : ℕ) × (chunk_size_of e.device_range e.checksums ≡ ok size)
    × (size % 4 ≡ 0)
    × (size ≤ max_chunk_size)
    × (e.device_range.start + length e.checksums * size ≤ u64_max)

abbrev pub IsLower : ℕ → Option ℕ → Type 0
IsLower j none = Unit
IsLower j (some start) = start < j

abbrev pub IsSome {ℓ} : {A : Type ℓ} → Option A → Type 0
IsSome none = ⊥
IsSome (some a) = Unit

fletcher64-Returns :
    (bytes : List ℕ) (seed : ℕ)
    → length bytes % 4 ≡ 0
    → Returns (fletcher64 bytes seed) λ sum. Unit {0}
unfolding fletcher64
fletcher64-Returns bytes seed h = rw h tt

module _ (read : Device) (marked : ℕ → Option ℕ) (max_chunk_size : ℕ)
    (can_read : IsReadable read) where
  verify_state-Returns :
      (s : ChecksumState) (offset size : ℕ)
      → size % 4 ≡ 0
      → size ≤ max_chunk_size
      → Returns (verify_state read marked max_chunk_size s offset size) λ s'. Unit {0}
  unfolding verify_state
  verify_state-Returns valid offset size a b = tt
  verify_state-Returns invalid offset size a b = tt
  verify_state-Returns (unverified c) offset size a b =
      let (bytes, e, l) = can_read offset size in
      rw (le→leb size max_chunk_size b, e)
        (Returns-bind (λ s. Unit) (fletcher64 bytes 0) _ (fletcher64-Returns bytes 0 (rw l a))
          λ sum u. tt)

  needed-Returns :
      (j d : ℕ) (s : ChecksumState) (offset size : ℕ)
      → size % 4 ≡ 0
      → size ≤ max_chunk_size
      → Returns (verify_needed read marked max_chunk_size j d s offset size) λ s'. Unit {0}
  unfolding verify_needed
  needed-Returns j d s offset size a b = elim (Bool-cases (leb j d)) [
    | inl e ↦ rw e (verify_state-Returns s offset size a b)
    | inr e ↦ rw e tt
  ]

  verify_chunks-Returns :
      (j : ℕ) (cs : List (ChecksumState × ℕ)) (offset size : ℕ)
      → size % 4 ≡ 0
      → size ≤ max_chunk_size
      → offset + length cs * size ≤ u64_max
      → Returns
          (verify_chunks read marked max_chunk_size j cs offset size)
          λ r. length r.0 ≡ length cs
  unfolding verify_chunks
  verify_chunks-Returns j [] offset size a b h = refl
  verify_chunks-Returns j (c ∷ cs) offset size a b h =
      Returns-bind (λ r. length r.0 ≡ suc (length cs))
        (verify_needed read marked max_chunk_size j c.1 c.0 offset size) _
        (needed-Returns j c.1 c.0 offset size a b)
        λ state u. elim (Bool-cases (leb j c.1 && is_invalid state)) [
          | inl e ↦ rw e refl
          | inr e ↦
              rw (e, le→leb (offset + size) u64_max (omega arith))
                (Returns-bind (λ r. length r.0 ≡ suc (length cs))
                  (verify_chunks read marked max_chunk_size j cs (offset + size) size) _
                  (verify_chunks-Returns j cs (offset + size) size a b (omega arith))
                  λ rest l. ap suc l)
        ]

  -- What a pass leaves: ready entries, and a lower offset if it failed.
  abbrev Passed : ℕ → List ChecksumEntry × Option ℕ → Type 0
  Passed j r = All (IsReady max_chunk_size) r.0 × IsLower j r.1

  marked-Passed :
      (j : ℕ) (e : ChecksumEntry) (r : List ChecksumEntry × Option ℕ)
      → IsReady max_chunk_size e
      → Passed j r
      → Passed j (e ∷ r.0, r.1)
  marked-Passed j e r h p = ((h, p.0), p.1)

  checked-IsReady :
      (e : ChecksumEntry) (cs : List (ChecksumState × ℕ))
      → IsReady max_chunk_size e
      → length cs ≡ length e.checksums
      → IsReady max_chunk_size (record e { checksums = cs })
  checked-IsReady e cs (size, c, w, m, h) l = (size, rw l c, w, m, rw l h)

  verify_entries-Returns :
      (j : ℕ) (es : List ChecksumEntry)
      → All (IsReady max_chunk_size) es
      → Returns (verify_entries read marked max_chunk_size j es) (Passed j)
  unfolding verify_entries
  verify_entries-Returns j [] h = (tt, tt)
  verify_entries-Returns j (e ∷ es) (h, hs) = elim (Bool-cases (leb j e.start_journal_offset)) [
    | inl a ↦ rw a ((h, hs), tt)
    | inr a ↦ elim (Bool-cases (is_marked (marked e.owner_object_id) j)) [
      | inl m ↦
          rw (a, m)
            (Returns-bind (Passed j) (verify_entries read marked max_chunk_size j es) _
              (verify_entries-Returns j es hs) λ r p. marked-Passed j e r h p)
      | inr m ↦
          let (size, c, w, b, k) = h in
          rw (a, m, c)
            (Returns-bind (Passed j)
              (verify_chunks read marked max_chunk_size j e.checksums e.device_range.start size) _
              (verify_chunks-Returns j e.checksums e.device_range.start size w b k)
              λ cs l. elim (Bool-cases cs.1) [
                | inl f ↦ rw f ((checked-IsReady e cs.0 h l, hs), ground arith)
                | inr f ↦ rw f (
                    Returns-bind (Passed j) (verify_entries read marked max_chunk_size j es) _
                      (verify_entries-Returns j es hs)
                      λ r p.
                        marked-Passed j (record e { checksums = cs.0 }) r
                          (checked-IsReady e cs.0 h l) p)
              ])
    ]
  ]

  pass-Returns :
      (fuel j : ℕ) (es : List ChecksumEntry) (retry : Option ℕ)
      → IsLower j retry
      → ((k : ℕ) → k < j → Returns (verify_loop read marked max_chunk_size fuel k es) IsSome)
      → Returns
          (elim retry [
            | none ↦ ok (some (es, j))
            | some start ↦ verify_loop read marked max_chunk_size fuel start es
          ])
          (IsSome {A = List ChecksumEntry × ℕ})
  pass-Returns fuel j es none l again = tt
  pass-Returns fuel j es (some start) l again = again start l

  verify_loop-Returns :
      (fuel j : ℕ) (es : List ChecksumEntry)
      → j < fuel
      → All (IsReady max_chunk_size) es
      → Returns (verify_loop read marked max_chunk_size fuel j es) IsSome
  unfolding verify_loop
  verify_loop-Returns zero j es h hs = elim h [ ]
  verify_loop-Returns (suc fuel) j es h hs =
      Returns-bind IsSome (verify_entries read marked max_chunk_size j es) _
        (verify_entries-Returns j es hs)
        λ pass p.
          pass-Returns fuel j pass.0 pass.1 p.1
            λ k l. verify_loop-Returns fuel k pass.0 (omega arith) p.0

end-Returns :
    (l : ChecksumList) (o : Option (List ChecksumEntry × ℕ))
    → IsSome o
    → Returns
        (elim o [ none ↦ ok none | some r ↦ ok (some (record l { checksum_entries = r.0 }, r.1)) ])
        (IsSome {A = ChecksumList × ℕ})
end-Returns l none h = h
end-Returns l (some r) h = tt

-- On a device that reads without errors, with a list whose entries have chunks of whole words that
-- fit the buffer and end in the u64 range, `verify` returns, without running out of passes.
pub verify-Returns :
    (l : ChecksumList) (read : Device) (marked : ℕ → Option ℕ) (journal_offset : ℕ)
    → IsReadable read
    → All (IsReady l.max_chunk_size) l.checksum_entries
    → Returns (verify l read marked journal_offset) IsSome
unfolding verify
verify-Returns l read marked j can_read hs =
    Returns-bind IsSome (verify_loop read marked l.max_chunk_size (suc j) j l.checksum_entries) _
      (verify_loop-Returns read marked l.max_chunk_size can_read (suc j) j l.checksum_entries
        (omega arith) hs)
      (end-Returns l)

length-eq : (r : Range) → r.start ≤ r.end → Range.length r ≡ ok (r.end - r.start)
unfolding Range.length Range.is_valid
length-eq r h = rw (le→leb r.start r.end h) refl

chunk_size_of-eq :
    {A : Type 0} (r : Range) (sums : List A)
    → r.start ≤ r.end
    → 0 < length sums
    → chunk_size_of r sums ≡ ok ((r.end - r.start) / length sums)
chunk_size_of-eq r sums h k = rw (length-eq r h, lt→ltb 0 (length sums) k) refl

length-fresh : (sums : List ℕ) → length (map fresh sums) ≡ length sums
length-fresh [] = refl
length-fresh (c ∷ cs) = ap suc (length-fresh cs)

All-snoc :
    {A : Type 0} (P : A → Type 0) (xs : List A) (x : A) → All P xs → P x → All P (xs ++ x ∷ [])
All-snoc P [] x h p = (p, tt)
All-snoc P (y ∷ ys) x h p = (h.0, All-snoc P ys x h.1 p)

-- A larger buffer serves as well.
IsReady-mono : (m n : ℕ) (e : ChecksumEntry) → m ≤ n → IsReady m e → IsReady n e
IsReady-mono m n e l (size, c, w, b, h) = (size, c, w, omega arith, h)

fresh-IsReady :
    (max journal_offset owner : ℕ) (r : Range) (sums : List ℕ)
    → 0 < length sums
    → r.start ≤ r.end
    → r.end ≤ u64_max
    → (r.end - r.start) / length sums % 4 ≡ 0
    → (r.end - r.start) / length sums ≤ max
    → IsReady max (record {
      start_journal_offset = journal_offset;
      owner_object_id = owner;
      device_range = r;
      checksums = map fresh sums;
    })
fresh-IsReady max j owner r sums hs hr hm hw hb = (
  (r.end - r.start) / length sums,
  rw (length-fresh sums) (chunk_size_of-eq r sums hr hs),
  hw,
  hb,
  rw (length-fresh sums) (omega (arith, mul-div-le (r.end - r.start) (length sums))),
)

-- Pushing the checksums of a range that starts at or before its end, ends in the u64 range, and
-- gives each checksum a whole number of words returns a list; if all entries of the old list are
-- ready to be verified, so are those of the new.
pub push-IsReady :
    (l : ChecksumList) (journal_offset owner : ℕ) (r : Range) (sums : List ℕ)
    → 0 < length sums
    → r.start ≤ r.end
    → r.end ≤ u64_max
    → (r.end - r.start) / length sums % 4 ≡ 0
    → All (IsReady l.max_chunk_size) l.checksum_entries
    → Returns
        (push l journal_offset owner r sums)
        λ l'. All (IsReady l'.max_chunk_size) l'.checksum_entries
unfolding push
push-IsReady l j owner r sums hs hr hm hw all = elim (Bool-cases (ltb j l.flushed_offset)) [
  | inl e ↦ rw e all
  | inr e ↦
      let size = (r.end - r.start) / length sums in
      let max = if ltb l.max_chunk_size size then size else l.max_chunk_size in
      rw (e, chunk_size_of-eq r sums hr hs)
        (All-snoc (IsReady max) l.checksum_entries _
          (All-imp (IsReady l.max_chunk_size) (IsReady max)
            (λ x. IsReady-mono l.max_chunk_size max x (ground arith)) l.checksum_entries all)
          (fresh-IsReady max j owner r sums hs hr hm hw (ground arith)))
]
