-- ===== src/Paged/Batches.antt =====
-- What a flush writes (src/platform/fuchsia/paged_object_handle.rs): the batches have every byte of
-- the ranges as often as the ranges have it, and all batches but the last are full.
use fxfs_on_linux.Common.{
  ℕ, zero, suc, ◌+◌, ◌-◌, ◌≤◌, ◌<◌, ◌≡◌, refl, inl, inr, Bool, true, false, ◌&&◌, Bool-cases, List,
  [], ◌∷◌, Option, none, some, ltb, leb, if◌then◌else◌, lt→ltb, le→leb, leb→le, All, ◌>>=◌, Returns,
  Returns-bind, Returns-imp, u64_max, add_u64-eq, sub_u64-eq, arith,
}
use fxfs_on_linux.Util.Range.{range}
use fxfs_on_linux.Paged.{flush_batch_size, split_range}
use fxfs_on_linux.Paged.Flush.{
  FlushRange, FlushBatch, dirty_range, empty_batch, last_end, batch_add, spread, add_to_last,
}

-- 1 if the range has the byte, else 0.
unfoldable pub has_byte : ℕ → ℕ → ℕ → ℕ
has_byte x start end = if leb start x && ltb x end then 1 else 0

abbrev pub hit : Bool → ℕ → FlushRange → ℕ
hit true x r = if r.is_zero_range then has_byte x r.bytes.start r.bytes.end else 0
hit false x r = if r.is_zero_range then 0 else has_byte x r.bytes.start r.bytes.end

-- How often ranges have a byte, as one to be zeroed or as a dirty one.
abbrev pub hits : Bool → ℕ → List FlushRange → ℕ
hits zeroed x [] = 0
hits zeroed x (r ∷ rs) = hit zeroed x r + hits zeroed x rs

abbrev pub batch_hits : Bool → ℕ → List FlushBatch → ℕ
batch_hits zeroed x [] = 0
batch_hits zeroed x (b ∷ bs) = hits zeroed x b.ranges + batch_hits zeroed x bs

abbrev pub dirty_bytes : List FlushBatch → ℕ
dirty_bytes [] = 0
dirty_bytes (b ∷ bs) = b.dirty_byte_count + dirty_bytes bs

-- The dirty bytes of a range.
abbrev pub dirty_length : FlushRange → ℕ
dirty_length r = if r.is_zero_range then 0 else r.bytes.end - r.bytes.start

has_byte-split :
    (x start middle end : ℕ)
    → start ≤ middle
    → middle ≤ end
    → has_byte x start middle + has_byte x middle end ≡ has_byte x start end
unfolding has_byte
has_byte-split x start middle end h k = ground arith

hit-split :
    (z : Bool) (x start middle end : ℕ)
    → start ≤ middle
    → middle ≤ end
    → hit z x (dirty_range (range start middle)) + hit z x (dirty_range (range middle end))
      ≡ hit z x (dirty_range (range start end))
hit-split true x start middle end h k = omega arith
hit-split false x start middle end h k = has_byte-split x start middle end h k

abbrev IsAdded : FlushBatch → ℕ → ℕ → FlushBatch × Option FlushRange → Type 0
IsAdded b start end (b', none) =
    (b'.dirty_byte_count ≡ b.dirty_byte_count + (end - start))
    × (b'.dirty_byte_count ≤ flush_batch_size)
    × (last_end b'.ranges ≡ end)
    × ((z : Bool) (x : ℕ)
        → hits z x b'.ranges ≡ hits z x b.ranges + hit z x (dirty_range (range start end)))
IsAdded b start end (b', some q) =
    (b'.dirty_byte_count ≡ flush_batch_size)
    × (q ≡ dirty_range (range q.bytes.start end))
    × (q.bytes.start ≡ start + (flush_batch_size - b.dirty_byte_count))
    × (q.bytes.start < end)
    × ((z : Bool) (x : ℕ)
        → hits z x b'.ranges + hit z x (dirty_range (range q.bytes.start end))
          ≡ hits z x b.ranges + hit z x (dirty_range (range start end)))

batch_add-IsAdded :
    (b : FlushBatch) (start end : ℕ)
    → b.dirty_byte_count ≤ flush_batch_size
    → last_end b.ranges ≤ start
    → start < end
    → end + flush_batch_size ≤ u64_max
    → Returns (batch_add b (dirty_range (range start end))) (IsAdded b start end)
unfolding batch_add split_range
batch_add-IsAdded b start end d l h m =
    rw
      (
        le→leb (last_end b.ranges) start l,
        sub_u64-eq flush_batch_size b.dirty_byte_count d,
        add_u64-eq start (flush_batch_size - b.dirty_byte_count) (omega arith),
        lt→ltb start end h,
      )
      (elim (Bool-cases (leb (start + (flush_batch_size - b.dirty_byte_count)) start)) [
        | inl full ↦ rw full (ground arith, refl, ground arith, h, λ z x. refl)
        | inr room_left ↦
            elim (Bool-cases (leb end (start + (flush_batch_size - b.dirty_byte_count)))) [
              | inl fits ↦
                  let all = leb→le end (start + (flush_batch_size - b.dirty_byte_count)) fits in
                  rw
                    (
                      room_left,
                      fits,
                      sub_u64-eq end start (omega arith),
                      add_u64-eq b.dirty_byte_count (end - start) (omega (arith, all)),
                    )
                    (refl, omega (arith, all), refl, λ z x. omega arith)
              | inr over ↦
                  let less : start + (flush_batch_size - b.dirty_byte_count) < end = ground arith in
                  rw
                    (
                      room_left,
                      over,
                      sub_u64-eq (start + (flush_batch_size - b.dirty_byte_count)) start
                          (omega arith),
                      add_u64-eq b.dirty_byte_count
                          ((start + (flush_batch_size - b.dirty_byte_count)) - start) (omega arith),
                    )
                    (
                      omega arith,
                      refl,
                      refl,
                      less,
                      λ z x. omega (
                        arith,
                        hit-split z x start (start + (flush_batch_size - b.dirty_byte_count)) end
                            (omega arith) (omega (arith, less)),
                      ),
                    )
            ]
      ])

-- All batches but the last are full, and the last has something if there are others.
abbrev pub IsPacked : List FlushBatch → Type 0
IsPacked [] = Unit {0}
IsPacked (b ∷ bs) =
    (b.dirty_byte_count ≤ flush_batch_size)
    × All (λ c. c.dirty_byte_count ≡ flush_batch_size) bs
    × (b.dirty_byte_count ≡ 0 → bs ≡ [])

-- Where the ranges of the last batch end.
abbrev pub batches_end : List FlushBatch → ℕ
batches_end [] = 0
batches_end (b ∷ bs) = last_end b.ranges

-- The batches after a range was added to others.
abbrev pub IsSpread : List FlushBatch → FlushRange → List FlushBatch → Type 0
IsSpread before r after =
    IsPacked after
    × (batches_end after ≡ r.bytes.end)
    × ((z : Bool) (x : ℕ) → batch_hits z x after ≡ batch_hits z x before + hit z x r)
    × (dirty_bytes after ≡ dirty_bytes before + dirty_length r)

abbrev IsFull : List FlushBatch → Type 0
IsFull bs = All (λ c. c.dirty_byte_count ≡ flush_batch_size) bs

-- What is left of a range, after a part went into a batch, follows it.
spread_rest :
    (fuel : ℕ) (bs : List FlushBatch) (b : FlushBatch) (start end : ℕ)
    → IsFull bs
    → b.dirty_byte_count ≤ flush_batch_size
    → start < end
    → end - (start + (flush_batch_size - b.dirty_byte_count)) ≤ fuel
    → ((bs' : List FlushBatch) (start' : ℕ)
        → IsFull bs'
        → start' < end
        → end - start' ≤ fuel
        → Returns
            (spread fuel (some (dirty_range (range start' end))) bs')
            (IsSpread bs' (dirty_range (range start' end))))
    → (t : FlushBatch × Option FlushRange) → IsAdded b start end t
    → Returns (spread fuel t.1 (t.0 ∷ bs)) (IsSpread (b ∷ bs) (dirty_range (range start end)))
unfolding spread
spread_rest fuel bs b start end a d h f rest (b', none) g = (
  (g.1, a, λ z. absurd (omega (arith, z, g.0))),
  g.2,
  λ z x. omega (arith, g.3 z x),
  omega (arith, g.0),
)
spread_rest fuel bs b start end a d h f rest (b', some q) g =
    let next = rest (b' ∷ bs) q.bytes.start (g.0, a) g.3 (omega (arith, g.2)) in
    rw g.1 (
      Returns-imp {Q = IsSpread (b ∷ bs) (dirty_range (range start end))}
        (spread fuel (some (dirty_range (range q.bytes.start end))) (b' ∷ bs))
        (λ after n.
          (n.0, n.1, λ z x. omega (arith, n.2 z x, g.4 z x), omega (arith, n.3, g.0, g.2, g.3)))
        next)

-- The rest of a range that follows full batches.
spread-IsSpread :
    (fuel : ℕ) (bs : List FlushBatch) (start end : ℕ)
    → IsFull bs
    → start < end
    → end + flush_batch_size ≤ u64_max
    → end - start ≤ fuel
    → Returns
        (spread fuel (some (dirty_range (range start end))) bs)
        (IsSpread bs (dirty_range (range start end)))
unfolding spread
spread-IsSpread zero bs start end a h m f = absurd (omega arith)
spread-IsSpread (suc fuel) bs start end a h m f =
    Returns-bind (IsSpread bs (dirty_range (range start end)))
      (batch_add empty_batch (dirty_range (range start end))) (λ t. spread fuel t.1 (t.0 ∷ bs))
      (batch_add-IsAdded empty_batch start end (omega arith) (omega arith) h m)
      λ t g.
        Returns-imp (spread fuel t.1 (t.0 ∷ bs))
          (λ after n. (n.0, n.1, λ z x. omega (arith, n.2 z x), omega (arith, n.3)))
          (spread_rest fuel bs empty_batch start end a (omega arith) h (omega arith)
            (λ bs' start' a' h' f'. spread-IsSpread fuel bs' start' end a' h' m f') t g)

add_next-IsSpread :
    (b : FlushBatch) (bs : List FlushBatch) (zeroed : Bool) (start end : ℕ)
    → IsPacked (b ∷ bs)
    → last_end b.ranges ≤ start
    → start < end
    → end + flush_batch_size ≤ u64_max
    → let r : FlushRange = record { bytes = range start end; is_zero_range = zeroed } in
      Returns (batch_add b r >>= λ t. spread end t.1 (t.0 ∷ bs)) (IsSpread (b ∷ bs) r)
unfolding batch_add spread
add_next-IsSpread b bs true start end p l h m =
    rw (le→leb (last_end b.ranges) start l) (p, refl, λ z x. omega arith, omega arith)
add_next-IsSpread b bs false start end p l h m =
    Returns-bind (IsSpread (b ∷ bs) (dirty_range (range start end)))
      (batch_add b (dirty_range (range start end))) (λ t. spread end t.1 (t.0 ∷ bs))
      (batch_add-IsAdded b start end p.0 l h m)
      (spread_rest end bs b start end p.1 p.0 h (omega arith)
        (λ bs' start' a' h' f'. spread-IsSpread end bs' start' end a' h' m f'))

-- Where the batches are packed, a range that is not empty, that starts where they end or behind it and
-- that ends a batch below the end of the u64 range, is added to them, and they are packed again. They
-- have every byte as often as before and once more if it is in the range, as a byte to be zeroed or as
-- a dirty one, whichever the range is, and the dirty bytes are more by those of the range.
pub add_to_last-IsSpread :
    (bs : List FlushBatch) (r : FlushRange)
    → IsPacked bs
    → batches_end bs ≤ r.bytes.start
    → r.bytes.start < r.bytes.end
    → r.bytes.end + flush_batch_size ≤ u64_max
    → Returns (add_to_last r bs) (IsSpread bs r)
unfolding add_to_last
add_to_last-IsSpread [] r p l h m =
    Returns-imp {Q = IsSpread [] r} (add_to_last r (empty_batch ∷ []))
      (λ after n. (n.0, n.1, λ z x. omega (arith, n.2 z x), omega (arith, n.3)))
      (add_next-IsSpread empty_batch [] r.is_zero_range r.bytes.start r.bytes.end
        (omega arith, tt, λ z. refl) l h m)
add_to_last-IsSpread (b ∷ bs) r p l h m =
    add_next-IsSpread b bs r.is_zero_range r.bytes.start r.bytes.end p l h m
