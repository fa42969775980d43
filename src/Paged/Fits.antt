-- ===== src/Paged/Fits.antt =====
-- What is reserved for dirty pages is enough for the batches of a flush
-- (src/platform/fuchsia/paged_object_handle.rs).
use fxfs_on_linux.Common.{
  ℕ, suc, ◌+◌, ◌*◌, ◌/◌, ◌%◌, ◌≤◌, ◌<◌, ◌≡◌, ap, subst, ok, Returns, u64_max, inl, inr, Bool-cases,
  List, [], ◌∷◌, ◌==◌, length, All, arith,
}
use native.Mathlib.Nat.{div-add-mod'}
use fxfs_on_linux.Paged.{flush_batch_size, metadata_max_amount, reservation_needed}
use fxfs_on_linux.Paged.Flush.{
  FlushBatch, FlushRange, FlushBatches, empty_batches, collect_flush_batches,
}
use fxfs_on_linux.Paged.Reserved.{ceil, ceil_least, needed, reservation_needed-eq}
use fxfs_on_linux.Paged.Added.{AreModified, IsGathered}
use fxfs_on_linux.Paged.Collected.{collect-IsGathered}
use fxfs_on_linux.Paged.Batches.{dirty_bytes, IsPacked}

mul_mono : (a b c : ℕ) → a ≤ b → a * c ≤ b * c
mul_mono a b c h = grind arith

mul-positive : (a b : ℕ) → 0 < a → 0 < b → 0 < a * b
mul-positive a b h k = grind arith

full_bytes :
    (bs : List FlushBatch)
    → All (λ c. c.dirty_byte_count ≡ flush_batch_size) bs
    → dirty_bytes bs ≡ length bs * flush_batch_size
full_bytes [] a = omega arith
full_bytes (b ∷ bs) a = omega (arith, a.0, full_bytes bs a.1)

batches-le-needed :
    (page_size pages : ℕ) (bs : List FlushBatch)
    → 0 < page_size
    → flush_batch_size % page_size ≡ 0
    → page_size ≤ flush_batch_size
    → 0 < pages
    → IsPacked bs
    → dirty_bytes bs ≡ pages * page_size
    → length bs * metadata_max_amount + dirty_bytes bs ≤ needed page_size pages
unfolding needed
batches-le-needed page_size pages [] p m f h k e = omega (arith, e)
batches-le-needed page_size pages (b ∷ bs) p m f h k e =
    let per : ℕ = flush_batch_size / page_size in
    let c = ceil pages (flush_batch_size / page_size) in
    let whole = div-add-mod' flush_batch_size page_size in
    let positive : 0 < flush_batch_size / page_size = grind arith in
    let least = (ceil_least pages (flush_batch_size / page_size) positive).0 in
    let bytes : pages * page_size ≤ (c * (flush_batch_size / page_size)) * page_size =
      mul_mono pages (c * (flush_batch_size / page_size)) page_size least in
    let assoc : (c * (flush_batch_size / page_size)) * page_size
        ≡ c * ((flush_batch_size / page_size) * page_size) =
      grind arith in
    let size : (flush_batch_size / page_size) * page_size ≡ flush_batch_size =
      omega (arith, whole, m) in
    let all : pages * page_size ≤ c * flush_batch_size =
      omega (arith, bytes, assoc, ap (λ (t : ℕ). c * t) size) in
    let some_bytes = mul-positive pages page_size h p in
    let rest = full_bytes bs k.1 in
    elim (Bool-cases (b.dirty_byte_count == 0)) [
      | inl nothing ↦
          let empty : b.dirty_byte_count ≡ 0 = ground arith in
          absurd (omega (arith, e, empty, some_bytes, ap dirty_bytes (k.2 empty)))
      | inr something ↦
          let more : 0 < b.dirty_byte_count = ground arith in
          let count : suc (length bs) ≤ c = omega (arith, all, rest, e) in omega (arith, count, e)
    ]

-- Where a flush batch is a whole number of pages, the content ends at a page, the modified ranges are
-- whole pages, not empty, in order, and end a batch below the end of the u64 range, and the batches
-- collected of them have dirty pages, with what these need in the u64 range: what is reserved for the
-- dirty pages is enough for a transaction for each of the batches, and for their bytes.
pub collected-le-reserved :
    (page_size content : ℕ) (rs : List FlushRange) (b : FlushBatches)
    → 0 < page_size
    → flush_batch_size % page_size ≡ 0
    → page_size ≤ flush_batch_size
    → content % page_size ≡ 0
    → AreModified page_size 0 rs
    → collect_flush_batches page_size content rs empty_batches ≡ ok b
    → 0 < b.dirty_page_count
    → needed page_size b.dirty_page_count ≤ u64_max
    → Returns
        (reservation_needed page_size b.dirty_page_count)
        λ n. length b.batches * metadata_max_amount + dirty_bytes b.batches ≤ n
collected-le-reserved page_size content rs b p m f c a e d u =
    let gathered : IsGathered page_size content rs empty_batches b =
      subst (λ o. Returns o (IsGathered page_size content rs empty_batches)) e
        (collect-IsGathered page_size p content c rs a) in
    rw (reservation_needed-eq page_size p f b.dirty_page_count u)
      (batches-le-needed page_size b.dirty_page_count b.batches p m f d gathered.0.0 gathered.0.1)
