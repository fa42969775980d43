-- ===== src/Paged/Added.antt =====
-- Adding a range to the batches of a flush and skipping one (src/platform/fuchsia/paged_object_handle.rs):
-- pages are whole, and their counts stay in the `u64` range.
use fxfs_on_linux.Common.{
  ℕ, ◌+◌, ◌-◌, ◌*◌, ◌/◌, ◌%◌, ◌≤◌, ◌<◌, ◌≡◌, refl, ap, ◌∙◌, inl, inr, Bool, true, Bool-cases, List,
  [], ◌∷◌, max, ltb, ◌==◌, if◌then◌else◌, le→leb, ok, Returns, Returns-bind, u64_max, add_u64-eq,
  sub_u64-eq, rem_u64-eq, arith,
}
use native.Mathlib.Nat.{div-add-mod', mul-mod_left}
use fxfs_on_linux.Util.Range.{range}
use fxfs_on_linux.Paged.{flush_batch_size, page_count}
use fxfs_on_linux.Paged.Flush.{
  FlushRange, FlushBatches, add_to_last, dirty_pages, add_range, skip_range,
}
use fxfs_on_linux.Paged.Reserved.{ceil, how_many-eq}
use fxfs_on_linux.Paged.Batches.{
  hit, hits, batch_hits, dirty_bytes, dirty_length, IsPacked, batches_end, add_to_last-IsSpread,
}

-- The bytes of dirty ranges that are past the content.
abbrev pub past_bytes : ℕ → List FlushRange → ℕ
past_bytes content [] = 0
past_bytes content (r ∷ rs) =
    (if r.is_zero_range then 0 else r.bytes.end - max r.bytes.start content) + past_bytes content rs

module _ (page_size : ℕ) where
  -- The ranges that the kernel gives: whole pages, in order from an offset on, and a batch below the
  -- end of the u64 range.
  abbrev pub AreModified : ℕ → List FlushRange → Type 0
  AreModified offset [] = Unit {0}
  AreModified offset (r ∷ rs) =
      ((offset ≤ r.bytes.start)
        × (r.bytes.start < r.bytes.end)
        × (r.bytes.end + flush_batch_size ≤ u64_max)
        × (r.bytes.start % page_size ≡ 0)
        × (r.bytes.end % page_size ≡ 0))
      × AreModified r.bytes.end rs

  -- The batches are packed and end at an offset at most, the dirty pages are those in them, and these
  -- and the skipped ones come to a number of bytes at most.
  abbrev pub IsReady : ℕ → ℕ → FlushBatches → Type 0
  IsReady offset bound fb =
      IsPacked fb.batches
      × (batches_end fb.batches ≤ offset)
      × (dirty_bytes fb.batches ≡ fb.dirty_page_count * page_size)
      × ((fb.dirty_page_count + fb.skipped_dirty_page_count) * page_size ≤ bound)

  -- After ranges were collected: the bytes of the content are in the batches once more for each range
  -- that has them, and the pages that were skipped are the dirty ones past the content.
  abbrev pub IsCollected : ℕ → List FlushRange → FlushBatches → FlushBatches → Type 0
  IsCollected content rs before after =
      ((z : Bool) (x : ℕ)
        → batch_hits z x after.batches
          ≡ batch_hits z x before.batches + (if ltb x content then hits z x rs else 0))
      × (after.skipped_dirty_page_count * page_size
          ≡ before.skipped_dirty_page_count * page_size + past_bytes content rs)

module _ (page_size : ℕ) where
  -- And the batches are packed, with as many bytes as there are dirty pages.
  abbrev pub IsGathered : ℕ → List FlushRange → FlushBatches → FlushBatches → Type 0
  IsGathered content rs before after =
      (IsPacked after.batches × (dirty_bytes after.batches ≡ after.dirty_page_count * page_size))
      × IsCollected page_size content rs before after

pub add-mul : (a b c : ℕ) → (a + b) * c ≡ a * c + b * c
add-mul a b c = grind arith

module _ (page_size : ℕ) (positive : 0 < page_size) where
  page_count-eq :
      (start end : ℕ)
      → start ≤ end
      → start % page_size ≡ 0
      → end % page_size ≡ 0
      → page_count page_size (range start end) ≡ ok ((end - start) / page_size)
  unfolding page_count
  page_count-eq start end h s e =
      rw
        (
          le→leb start end h,
          rem_u64-eq start page_size positive,
          s,
          rem_u64-eq end page_size positive,
          e,
        )
        refl

  whole_mod :
      (start end : ℕ)
      → start ≤ end
      → start % page_size ≡ 0
      → end % page_size ≡ 0
      → (end - start) % page_size ≡ 0
  whole_mod start end h s e =
      let first = div-add-mod' start page_size in
      let last = div-add-mod' end page_size in
      let order : start / page_size ≤ end / page_size = grind arith in
      let gap : end / page_size ≡ start / page_size + (end / page_size - start / page_size) =
        omega (arith, order) in
      let sum =
        ap (λ (t : ℕ). t * page_size) gap
        ∙ add-mul (start / page_size) (end / page_size - start / page_size) page_size in
      let eq : end - start ≡ (end / page_size - start / page_size) * page_size =
        omega (arith, first, last, sum) in
      rw eq (mul-mod_left (end / page_size - start / page_size) page_size)

  whole_pages :
      (start end : ℕ)
      → start ≤ end
      → start % page_size ≡ 0
      → end % page_size ≡ 0
      → ((end - start) / page_size) * page_size ≡ end - start
  whole_pages start end h s e =
      omega (arith, div-add-mod' (end - start) page_size, whole_mod start end h s e)

  ceil-whole : (n : ℕ) → n % page_size ≡ 0 → ceil n page_size * page_size ≡ n
  unfolding ceil
  ceil-whole n h =
      let whole : (n % page_size == 0) ≡ true = ground arith in
      rw whole (omega (arith, div-add-mod' n page_size, h))

  dirty_pages-eq :
      (r : FlushRange)
      → r.bytes.start ≤ r.bytes.end
      → r.bytes.start % page_size ≡ 0
      → r.bytes.end % page_size ≡ 0
      → (n : ℕ) × (dirty_pages page_size r ≡ ok n) × (n * page_size ≡ dirty_length r)
  unfolding dirty_pages
  dirty_pages-eq r h s e = elim (Bool-cases r.is_zero_range) [
    | inl z ↦ (0, rw z refl, rw z (omega arith))
    | inr d ↦ (
      ceil (r.bytes.end - r.bytes.start) page_size,
      rw
          (
            d,
            sub_u64-eq r.bytes.end r.bytes.start h,
            how_many-eq (r.bytes.end - r.bytes.start) page_size positive,
          )
          refl,
      rw d (ceil-whole (r.bytes.end - r.bytes.start) (whole_mod r.bytes.start r.bytes.end h s e)),
    )
  ]

  pages-le : (a b c : ℕ) → (a + b) * page_size ≤ c → a + b ≤ c
  pages-le a b c h = let e : a + b ≤ (a + b) * page_size = grind arith in omega (arith, e)

  module _ (offset bound : ℕ) (fb : FlushBatches) (ready : IsReady page_size offset bound fb) where
    module _ (start end : ℕ) (some_bytes : start < end) (in_range : bound + (end - start) ≤ u64_max)
        (first : start % page_size ≡ 0) (last : end % page_size ≡ 0) where
      sum_three :
          (d n k : ℕ) → (d + n + k) * page_size ≡ d * page_size + n * page_size + k * page_size
      sum_three d n k = omega (arith, add-mul (d + n) k page_size, add-mul d n page_size)

      add_pages :
          (r : FlushRange) (n : ℕ)
          → offset ≤ start
          → end + flush_batch_size ≤ u64_max
          → r.bytes ≡ range start end
          → dirty_pages page_size r ≡ ok n
          → n * page_size ≡ dirty_length r
          → Returns (add_range page_size fb r) λ fb'.
            IsReady page_size end (bound + (end - start)) fb'
            × (fb'.skipped_dirty_page_count ≡ fb.skipped_dirty_page_count)
            × ((z : Bool) (x : ℕ)
                → batch_hits z x fb'.batches ≡ batch_hits z x fb.batches + hit z x r)
      unfolding add_range
      add_pages r n follows below same pages bytes =
          let s : r.bytes.start ≡ start = ap (λ t. t.start) same in
          let e : r.bytes.end ≡ end = ap (λ t. t.end) same in
          let length : dirty_length r ≤ end - start = ground (arith, s, e) in
          let d = fb.dirty_page_count in
          let k = fb.skipped_dirty_page_count in
          let all : (d + n + k) * page_size ≤ bound + (end - start) =
            omega (arith, sum_three d n k, add-mul d k page_size, ready.3, bytes, length) in
          let count = pages-le (d + n) k (bound + (end - start)) all in
          rw (pages, add_u64-eq d n (omega (arith, count)))
            (Returns-bind
              (λ fb'.
                IsReady page_size end (bound + (end - start)) fb'
                × (fb'.skipped_dirty_page_count ≡ fb.skipped_dirty_page_count)
                × ((z : Bool) (x : ℕ)
                    → batch_hits z x fb'.batches ≡ batch_hits z x fb.batches + hit z x r))
              (add_to_last r fb.batches) _
              (add_to_last-IsSpread fb.batches r ready.0 (omega (arith, ready.1, s))
                (omega (arith, s, e)) (omega (arith, e)))
              λ bs t. (
                (
                  t.0,
                  omega (arith, t.1, e),
                  omega (arith, t.3, bytes, ready.2, add-mul d n page_size),
                  all,
                ),
                refl,
                t.2,
              ))

      pub skip_range-IsReady : Returns (skip_range page_size fb (range start end)) λ fb'.
          IsReady page_size offset (bound + (end - start)) fb'
          × (fb'.skipped_dirty_page_count * page_size
              ≡ fb.skipped_dirty_page_count * page_size + (end - start))
          × (fb'.batches ≡ fb.batches)
      unfolding skip_range
      skip_range-IsReady =
          let d = fb.dirty_page_count in
          let k = fb.skipped_dirty_page_count in
          let n : ℕ = (end - start) / page_size in
          let bytes = whole_pages start end (omega arith) first last in
          let all : (d + k + n) * page_size ≤ bound + (end - start) =
            omega (arith, sum_three d k n, add-mul d k page_size, ready.3, bytes) in
          let count = pages-le (d + k) n (bound + (end - start)) all in
          rw
            (
              page_count-eq start end (omega arith) first last,
              add_u64-eq fb.skipped_dirty_page_count ((end - start) / page_size)
                  (omega (arith, count)),
            )
            (
              (
                ready.0,
                ready.1,
                ready.2,
                omega (
                  arith,
                  all,
                  sum_three d k n,
                  add-mul d (k + n) page_size,
                  add-mul k n page_size,
                ),
              ),
              omega (arith, bytes, add-mul k n page_size),
              refl,
            )

      pub add_range-IsReady :
          (zeroed : Bool)
          → offset ≤ start
          → end + flush_batch_size ≤ u64_max
          → Returns
              (add_range page_size fb (record { bytes = range start end; is_zero_range = zeroed }))
              λ fb'.
                IsReady page_size end (bound + (end - start)) fb'
                × (fb'.skipped_dirty_page_count ≡ fb.skipped_dirty_page_count)
                × ((z : Bool) (x : ℕ)
                    → batch_hits z x fb'.batches
                      ≡ batch_hits z x fb.batches
                        + hit z x (record { bytes = range start end; is_zero_range = zeroed }))
      add_range-IsReady zeroed follows below =
          let r : FlushRange = record { bytes = range start end; is_zero_range = zeroed } in
          let pages = dirty_pages-eq r (omega arith) first last in
          add_pages r pages.0 follows below refl pages.1 pages.2
