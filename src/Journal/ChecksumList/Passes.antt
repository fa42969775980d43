-- ===== src/Journal/ChecksumList/Passes.antt =====
-- One pass of `verify` over the entries: what it verifies, and what it leaves to be verified.
use fxfs_on_linux.Common.{
  ℕ, ok-injective, suc, ◌+◌, ◌≤◌, ◌<◌, ◌≡◌, ◌∙◌, inl, inr, u64_max, refl, sym, ap, subst, suc, Bool,
  true, false, ◌&&◌, List, [], ◌∷◌, length, Option, none, some, leb, ◌==◌, if◌then◌else◌, Outcome,
  ok, err, panic, ◌>>=◌, assert, add_u64, Bool-cases, arith,
}
use fxfs_on_linux.Checksum.{fletcher64}
use fxfs_on_linux.Journal.ChecksumList.{
  ChecksumState, unverified, valid, invalid, ChecksumEntry, chunk_size_of,
}
use fxfs_on_linux.Journal.ChecksumList.Verify.{
  Device, is_invalid, is_marked, verify_state, verify_needed, verify_chunks, verify_entries,
}

-- What is true of the value that a call returns, if it returns one.
abbrev pub Ensures {ℓ} : {A : Type ℓ} → Outcome A → (A → Type 0) → Type 0
Ensures (ok a) P = P a
Ensures _ P = Unit

pub Ensures-bind :
    {A B : Type 0} {P : A → Type 0} (Q : B → Type 0) (m : Outcome A) (f : A → Outcome B)
    → Ensures m P
    → ((a : A) → P a → Ensures (f a) Q)
    → Ensures (m >>= f) Q
Ensures-bind Q (ok a) f p g = g a p
Ensures-bind Q (err e) f p g = tt
Ensures-bind Q panic f p g = tt

pub Ensures-eq : {A : Type 0} (m : Outcome A) → Ensures m λ a. m ≡ ok a
Ensures-eq (ok a) = refl
Ensures-eq (err e) = tt
Ensures-eq panic = tt

pub Ensures-imp :
    {A : Type 0} {P Q : A → Type 0} (m : Outcome A)
    → ((a : A) → P a → Q a)
    → Ensures m P
    → Ensures m Q
Ensures-imp (ok a) f p = f a p
Ensures-imp (err e) f p = tt
Ensures-imp panic f p = tt

add_u64-Ensures : (a b : ℕ) → Ensures (add_u64 a b) λ n. n ≡ a + b
add_u64-Ensures a b = elim (Bool-cases (leb (a + b) u64_max)) [
  | inl e ↦ rw e refl
  | inr e ↦ rw e tt
]

same-eq : (a b : ℕ) → (a == b) ≡ true → a ≡ b
same-eq a b h = ground arith

leb-absurd : (a b : ℕ) → leb a b ≡ true → b < a → ⊥
leb-absurd a b h l = ground arith

module _ (read : Device) (marked : ℕ → Option ℕ) where
  -- The device holds, at an offset, a chunk with a checksum.
  abbrev pub Matches : ℕ → ℕ → ℕ → Type 0
  Matches offset chunk_size checksum =
      (bytes : List ℕ) × (read offset chunk_size ≡ ok bytes) × (fletcher64 bytes 0 ≡ ok checksum)

  abbrev pub StateVerified : ChecksumState → ℕ → ℕ → Type 0
  StateVerified (unverified checksum) offset chunk_size = Matches offset chunk_size checksum
  StateVerified valid offset chunk_size = Unit
  StateVerified invalid offset chunk_size = ⊥

  -- Every checksum of an entry that is needed for a replay up to `j` holds on the device.
  abbrev pub ChunksVerified : ℕ → List (ChecksumState × ℕ) → ℕ → ℕ → Type 0
  ChunksVerified j [] offset chunk_size = Unit
  ChunksVerified j (c ∷ cs) offset chunk_size =
      (j ≤ c.1 → StateVerified c.0 offset chunk_size)
      × ChunksVerified j cs (offset + chunk_size) chunk_size

  -- So do those of all entries that are not marked for deletion before `j`, up to the first entry
  -- that starts at `j` or behind it.
  abbrev pub EntriesVerified : ℕ → List ChecksumEntry → Type 0
  EntriesVerified j [] = Unit
  EntriesVerified j (e ∷ es) =
      e.start_journal_offset < j
      → (is_marked (marked e.owner_object_id) j ≡ false
          → (chunk_size : ℕ) → chunk_size_of e.device_range e.checksums ≡ ok chunk_size
          → ChunksVerified j e.checksums e.device_range.start chunk_size)
        × EntriesVerified j es

  -- A call on a state keeps what is to be verified, and verifies it if it does not fail.
  abbrev StateKept : ChecksumState → ℕ → ℕ → ChecksumState → Type 0
  StateKept s offset chunk_size s' =
      (StateVerified s' offset chunk_size → StateVerified s offset chunk_size)
      × (is_invalid s' ≡ false → StateVerified s offset chunk_size)

  abbrev ChunksKept :
      ℕ → List (ChecksumState × ℕ) → ℕ → ℕ → List (ChecksumState × ℕ) × Bool → Type 0
  ChunksKept j cs offset chunk_size (cs', failed) =
      (length cs' ≡ length cs)
      × ((k : ℕ) → ChunksVerified k cs' offset chunk_size → ChunksVerified k cs offset chunk_size)
      × (failed ≡ false → ChunksVerified j cs offset chunk_size)

  abbrev pub PassEnds : ℕ → List ChecksumEntry → Option ℕ → Type 0
  PassEnds j es none = EntriesVerified j es
  PassEnds j es (some start) = start < j

  abbrev pub EntriesKept : ℕ → List ChecksumEntry → List ChecksumEntry × Option ℕ → Type 0
  EntriesKept j es (es', retry) =
      ((k : ℕ) → EntriesVerified k es' → EntriesVerified k es) × PassEnds j es retry

  module _ (max_chunk_size : ℕ) where
    checked-StateKept :
        (b : Bool) (c offset chunk_size : ℕ)
        → (b ≡ true → Matches offset chunk_size c)
        → StateKept (unverified c) offset chunk_size (if b then valid else invalid)
    checked-StateKept true c offset chunk_size h = (λ u. h refl, λ u. h refl)
    checked-StateKept false c offset chunk_size h = (λ u. elim u [ ], λ u. cc)

    verify_state-StateKept :
        (s : ChecksumState) (offset chunk_size : ℕ)
        → Ensures
            (verify_state read marked max_chunk_size s offset chunk_size)
            (StateKept s offset chunk_size)
    unfolding verify_state
    verify_state-StateKept valid offset size = (λ h. tt, λ h. tt)
    verify_state-StateKept invalid offset size = (λ h. h, λ h. cc)
    verify_state-StateKept (unverified c) offset size =
        Ensures-bind _ (assert (leb size max_chunk_size)) _ (Ensures-eq _) λ u e.
          Ensures-bind (StateKept (unverified c) offset size) (read offset size) _ (Ensures-eq _)
            λ bytes f.
              Ensures-bind (StateKept (unverified c) offset size) (fletcher64 bytes 0) _
                (Ensures-eq _)
                λ sum g.
                  checked-StateKept (sum == c) c offset size
                    λ h. (bytes, f, g ∙ ap ok (same-eq sum c h))

    verify_needed-StateKept :
        (j d : ℕ) (s : ChecksumState) (offset chunk_size : ℕ)
        → Ensures (verify_needed read marked max_chunk_size j d s offset chunk_size) λ s'.
          (StateVerified s' offset chunk_size → StateVerified s offset chunk_size)
          × ((leb j d && is_invalid s') ≡ false → j ≤ d → StateVerified s offset chunk_size)
    unfolding verify_needed
    verify_needed-StateKept j d s offset size = elim (Bool-cases (leb j d)) [
      | inl e ↦ rw e (
          Ensures-imp (verify_state read marked max_chunk_size s offset size)
            (λ s' p. (p.0, λ h l. p.1 h)) (verify_state-StateKept s offset size))
      | inr e ↦ rw e (λ h. h, λ h l. ground arith)
    ]

    verify_chunks-ChunksKept :
        (j : ℕ) (cs : List (ChecksumState × ℕ)) (offset chunk_size : ℕ)
        → Ensures
            (verify_chunks read marked max_chunk_size j cs offset chunk_size)
            (ChunksKept j cs offset chunk_size)
    unfolding verify_chunks
    verify_chunks-ChunksKept j [] offset size = (refl, λ k h. tt, λ h. tt)
    verify_chunks-ChunksKept j (c ∷ cs) offset size =
        Ensures-bind (ChunksKept j (c ∷ cs) offset size)
          (verify_needed read marked max_chunk_size j c.1 c.0 offset size) _
          (verify_needed-StateKept j c.1 c.0 offset size)
          λ state p. elim (Bool-cases (leb j c.1 && is_invalid state)) [
            | inl e ↦ rw e (refl, λ k h. (λ l. p.0 (h.0 l), h.1), λ h. cc)
            | inr e ↦ rw e (
                Ensures-bind (ChunksKept j (c ∷ cs) offset size) (add_u64 offset size) _
                  (add_u64-Ensures offset size)
                  λ next f.
                    Ensures-bind (ChunksKept j (c ∷ cs) offset size)
                      (verify_chunks read marked max_chunk_size j cs next size) _
                      (verify_chunks-ChunksKept j cs next size)
                      λ rest q.
                        let (l, back, done) = subst (λ n. ChunksKept j cs n size rest) f q in
                        (ap suc l, λ k h. (λ l. p.0 (h.0 l), back k h.1), λ h. (p.1 e, done h)))
          ]

    sized-Verified :
        (e : ChecksumEntry) (cs : List (ChecksumState × ℕ)) (size n k : ℕ)
        → chunk_size_of e.device_range e.checksums ≡ ok size
        → chunk_size_of e.device_range e.checksums ≡ ok n
        → ChunksVerified k cs e.device_range.start size
        → ChunksVerified k cs e.device_range.start n
    sized-Verified e cs size n k c d h =
        subst (λ z. ChunksVerified k cs e.device_range.start z) (ok-injective (sym c ∙ d)) h

    -- An entry whose checksums were looked at, put back in front of the others.
    cons-Kept :
        (e : ChecksumEntry) (cs : List (ChecksumState × ℕ)) (size : ℕ) (es es' : List ChecksumEntry)
        → chunk_size_of e.device_range e.checksums ≡ ok size
        → length cs ≡ length e.checksums
        → ((k : ℕ)
            → ChunksVerified k cs e.device_range.start size
            → ChunksVerified k e.checksums e.device_range.start size)
        → ((k : ℕ) → EntriesVerified k es' → EntriesVerified k es)
        → (k : ℕ) → EntriesVerified k (record e { checksums = cs } ∷ es')
        → EntriesVerified k (e ∷ es)
    cons-Kept e cs size es es' c l back rest k h = λ before. (
      λ m n d. sized-Verified e e.checksums size n k c d (back k ((h before).0 m size (rw l c))),
      rest k (h before).1,
    )

    cons-PassEnds :
        (j : ℕ) (e : ChecksumEntry) (es : List ChecksumEntry) (retry : Option ℕ)
        → (is_marked (marked e.owner_object_id) j ≡ false
            → (n : ℕ) → chunk_size_of e.device_range e.checksums ≡ ok n
            → ChunksVerified j e.checksums e.device_range.start n)
        → PassEnds j es retry
        → PassEnds j (e ∷ es) retry
    cons-PassEnds j e es none h p = λ before. (h, p)
    cons-PassEnds j e es (some start) h p = p

    checked-EntriesKept :
        (j : ℕ) (e : ChecksumEntry) (es : List ChecksumEntry) (size : ℕ)
        → (cs : List (ChecksumState × ℕ) × Bool) → leb j e.start_journal_offset ≡ false
        → chunk_size_of e.device_range e.checksums ≡ ok size
        → ChunksKept j e.checksums e.device_range.start size cs
        → Ensures (verify_entries read marked max_chunk_size j es) (EntriesKept j es)
        → Ensures
            (if cs.1
              then ok (record e { checksums = cs.0 } ∷ es, some e.start_journal_offset)
              else (verify_entries read marked max_chunk_size j es >>= λ r.
                  ok (record e { checksums = cs.0 } ∷ r.0, r.1)))
            (EntriesKept j (e ∷ es))
    checked-EntriesKept j e es size (cs, true) a c (l, back, done) rest =
        (cons-Kept e cs size es es c l back (λ k h. h), ground arith)
    checked-EntriesKept j e es size (cs, false) a c (l, back, done) rest =
        Ensures-bind (EntriesKept j (e ∷ es)) (verify_entries read marked max_chunk_size j es) _
          rest
          λ r p. (
            cons-Kept e cs size es r.0 c l back p.0,
            cons-PassEnds j e es r.1
                (λ m n d. sized-Verified e e.checksums size n j c d (done refl)) p.1,
          )

    pub verify_entries-EntriesKept :
        (j : ℕ) (es : List ChecksumEntry)
        → Ensures (verify_entries read marked max_chunk_size j es) (EntriesKept j es)
    unfolding verify_entries
    verify_entries-EntriesKept j [] = (λ k h. tt, tt)
    verify_entries-EntriesKept j (e ∷ es) = elim (Bool-cases (leb j e.start_journal_offset)) [
      | inl a ↦ rw a (λ k h. h, λ before. elim (leb-absurd j e.start_journal_offset a before) [ ])
      | inr a ↦ elim (Bool-cases (is_marked (marked e.owner_object_id) j)) [
        | inl m ↦
            rw (a, m)
              (Ensures-bind (EntriesKept j (e ∷ es))
                (verify_entries read marked max_chunk_size j es) _ (verify_entries-EntriesKept j es)
                λ r p. (
                  λ k h before. ((h before).0, p.0 k (h before).1),
                  cons-PassEnds j e es r.1 (λ u. cc) p.1,
                ))
        | inr m ↦
            rw (a, m)
              (Ensures-bind (EntriesKept j (e ∷ es)) (chunk_size_of e.device_range e.checksums) _
                (Ensures-eq _)
                λ size c.
                  Ensures-bind (EntriesKept j (e ∷ es))
                    (verify_chunks read marked max_chunk_size j e.checksums e.device_range.start
                      size)
                    _ (verify_chunks-ChunksKept j e.checksums e.device_range.start size)
                    λ cs q.
                      checked-EntriesKept j e es size cs a c q (verify_entries-EntriesKept j es))
      ]
    ]
