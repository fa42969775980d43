-- ===== src/Paged/Collected.antt =====
-- Collecting what a flush writes from the modified ranges
-- (src/platform/fuchsia/paged_object_handle.rs).
use fxfs_on_linux.Common.{
  ℕ, ◌+◌, ◌-◌, ◌*◌, ◌%◌, ◌≤◌, ◌<◌, ◌≡◌, refl, ap, inl, inr, Bool, true, false, Bool-cases, List, [],
  ◌∷◌, some, max, ltb, leb, leb→le, if◌then◌else◌, lt→ltb, ok, Returns, Returns-bind, Returns-imp,
  u64_max, arith,
}
use fxfs_on_linux.Util.Range.{range}
use fxfs_on_linux.Paged.{flush_batch_size, split_range}
use fxfs_on_linux.Paged.Flush.{
  FlushRange, FlushBatches, empty_batches, add_range, skip_past, collect_range,
  collect_flush_batches,
}
use fxfs_on_linux.Paged.Batches.{has_byte, hit, hits, batch_hits}
use fxfs_on_linux.Paged.Added.{
  AreModified, IsReady, IsCollected, IsGathered, add_range-IsReady, skip_range-IsReady,
}

hit-above :
    (z zeroed : Bool) (x start end content : ℕ)
    → end ≤ content
    → let r : FlushRange = record { bytes = range start end; is_zero_range = zeroed } in
      hit z x r ≡ (if ltb x content then hit z x r + 0 else 0)
unfolding has_byte
hit-above true true x start end content h = ground arith
hit-above true false x start end content h = ground arith
hit-above false true x start end content h = ground arith
hit-above false false x start end content h = ground arith

hit-below :
    (z zeroed : Bool) (x start end content : ℕ)
    → content ≤ start
    → let r : FlushRange = record { bytes = range start end; is_zero_range = zeroed } in
      0 ≡ (if ltb x content then hit z x r + 0 else 0)
unfolding has_byte
hit-below true true x start end content h = ground arith
hit-below true false x start end content h = ground arith
hit-below false true x start end content h = ground arith
hit-below false false x start end content h = ground arith

hit-cut :
    (z zeroed : Bool) (x start end content : ℕ)
    → start < content
    → content < end
    → let r : FlushRange = record { bytes = range start end; is_zero_range = zeroed } in
      let s : FlushRange = record { bytes = range start content; is_zero_range = zeroed } in
      hit z x s ≡ (if ltb x content then hit z x r + 0 else 0)
unfolding has_byte
hit-cut true true x start end content h k = ground arith
hit-cut true false x start end content h k = ground arith
hit-cut false true x start end content h k = ground arith
hit-cut false false x start end content h k = ground arith

past-below :
    (zeroed : Bool) (start end content : ℕ)
    → content ≤ start
    → (if zeroed then 0 else end - start) ≡ (if zeroed then 0 else end - max start content)
past-below true start end content h = refl
past-below false start end content h = omega arith

past-inside :
    (zeroed : Bool) (start end content : ℕ)
    → end ≤ content
    → 0 ≡ (if zeroed then 0 else end - max start content)
past-inside true start end content h = refl
past-inside false start end content h = omega arith

past-cut :
    (zeroed : Bool) (start end content : ℕ)
    → start < content
    → (if zeroed then 0 else end - content) ≡ (if zeroed then 0 else end - max start content)
past-cut true start end content h = refl
past-cut false start end content h = omega arith

module _ (page_size : ℕ) (positive : 0 < page_size) where
  -- What skipping the part of a range past the content does.
  abbrev IsSkipped : ℕ → ℕ → ℕ → FlushBatches → FlushBatches → Type 0
  IsSkipped offset bound bytes before after =
      IsReady page_size offset bound after
      × (after.skipped_dirty_page_count * page_size
          ≡ before.skipped_dirty_page_count * page_size + bytes)
      × (after.batches ≡ before.batches)

  skip_past-IsSkipped :
      (offset bound : ℕ) (fb : FlushBatches) (zeroed : Bool) (start end : ℕ)
      → IsReady page_size offset bound fb
      → start < end
      → bound + (end - start) ≤ u64_max
      → start % page_size ≡ 0
      → end % page_size ≡ 0
      → Returns
          (skip_past page_size zeroed fb (some (range start end)))
          (IsSkipped offset (bound + (end - start)) (if zeroed then 0 else end - start) fb)
  skip_past-IsSkipped offset bound fb true start end v h b s e =
      ((v.0, v.1, v.2, omega (arith, v.3)), omega arith, refl)
  skip_past-IsSkipped offset bound fb false start end v h b s e =
      skip_range-IsReady page_size positive offset bound fb v start end h b s e

  module _ (content : ℕ) (aligned : content % page_size ≡ 0) where
    collect_range-IsCollected :
        (offset bound : ℕ) (fb : FlushBatches) (zeroed : Bool) (start end : ℕ)
        → IsReady page_size offset bound fb
        → offset ≤ start
        → start < end
        → end + flush_batch_size ≤ u64_max
        → start % page_size ≡ 0
        → end % page_size ≡ 0
        → bound + (end - start) ≤ u64_max
        → let r : FlushRange = record { bytes = range start end; is_zero_range = zeroed } in
          Returns (collect_range page_size content fb r) λ fb'.
            IsReady page_size end (bound + (end - start)) fb'
            × IsCollected page_size content (r ∷ []) fb fb'
    unfolding collect_range split_range
    collect_range-IsCollected offset bound fb zeroed start end v o h b s e m =
        rw (lt→ltb start end h) (elim (Bool-cases (leb content start)) [
          | inl past ↦
              let below = leb→le content start past in
              rw past (
                Returns-bind
                  (λ fb'.
                    IsReady page_size end (bound + (end - start)) fb'
                    × IsCollected page_size content
                        (record { bytes = range start end; is_zero_range = zeroed } ∷ []) fb fb')
                  (skip_past page_size zeroed fb (some (range start end))) (λ fb'. ok fb')
                  (skip_past-IsSkipped offset bound fb zeroed start end v h m s e)
                  λ fb' g. (
                    (g.0.0, omega (arith, g.0.1), g.0.2, g.0.3),
                    (
                      λ z x. omega (
                        arith,
                        ap (batch_hits z x) g.2,
                        hit-below z zeroed x start end content below,
                      ),
                      omega (arith, g.1, past-below zeroed start end content below),
                    ),
                  ))
          | inr begins ↦ elim (Bool-cases (leb end content)) [
            | inl inside ↦
                let within = leb→le end content inside in
                rw (begins, inside)
                  (Returns-imp
                    {Q = λ fb'.
                      IsReady page_size end (bound + (end - start)) fb'
                      × IsCollected page_size content
                          (record { bytes = range start end; is_zero_range = zeroed } ∷ []) fb fb'}
                    (add_range page_size fb
                      (record { bytes = range start end; is_zero_range = zeroed }))
                    (λ fb' g. (
                      g.0,
                      (
                        λ z x.
                            omega (arith, g.2 z x, hit-above z zeroed x start end content within),
                        omega (
                          arith,
                          ap (λ (t : ℕ). t * page_size) g.1,
                          past-inside zeroed start end content within,
                        ),
                      ),
                    ))
                    (add_range-IsReady page_size positive offset bound fb v start end h m s e zeroed
                      o b))
            | inr cut ↦
                let after : start < content = ground arith in
                let before : content < end = ground arith in
                rw (begins, cut)
                  (Returns-bind
                    (λ fb'.
                      IsReady page_size end (bound + (end - start)) fb'
                      × IsCollected page_size content
                          (record { bytes = range start end; is_zero_range = zeroed } ∷ []) fb fb')
                    (skip_past page_size zeroed fb (some (range content end))) _
                    (skip_past-IsSkipped offset bound fb zeroed content end v before (omega arith)
                      aligned e)
                    λ fb' g.
                      Returns-imp
                        {Q = λ fb''.
                          IsReady page_size end (bound + (end - start)) fb''
                          × IsCollected page_size content
                              (record { bytes = range start end; is_zero_range = zeroed } ∷ []) fb
                              fb''}
                        (add_range page_size fb'
                          (record { bytes = range start content; is_zero_range = zeroed }))
                        (λ fb'' k. (
                          (k.0.0, omega (arith, k.0.1), k.0.2, omega (arith, k.0.3)),
                          (
                            λ z x. omega (
                              arith,
                              k.2 z x,
                              ap (batch_hits z x) g.2,
                              hit-cut z zeroed x start end content after before,
                            ),
                            omega (
                              arith,
                              ap (λ (t : ℕ). t * page_size) k.1,
                              g.1,
                              past-cut zeroed start end content after,
                            ),
                          ),
                        ))
                        (add_range-IsReady page_size positive offset (bound + (end - content)) fb'
                          g.0 start content after (omega arith) s aligned zeroed o (omega arith)))
          ]
        ])

if-nothing : (b : Bool) → ◌≡◌ {A = ℕ} (if b then 0 else 0) 0
if-nothing true = refl
if-nothing false = refl

if-sum :
    (b : Bool) (h k : ℕ)
    → (if b then h + 0 else 0) + (if b then k else 0) ≡ (if b then h + k else 0)
if-sum true h k = omega arith
if-sum false h k = omega arith

module _ (page_size : ℕ) (positive : 0 < page_size) (content : ℕ)
    (aligned : content % page_size ≡ 0) where
  collect_from :
      (rs : List FlushRange) (offset bound : ℕ) (fb : FlushBatches)
      → IsReady page_size offset bound fb
      → bound ≤ offset
      → AreModified page_size offset rs
      → Returns (collect_flush_batches page_size content rs fb) (IsGathered page_size content rs fb)
  unfolding collect_flush_batches
  collect_from [] offset bound fb v b a =
      ((v.0, v.2), ((λ z x. omega (arith, if-nothing (ltb x content))), omega arith))
  collect_from (r ∷ rs) offset bound fb v b a =
      let end : ℕ = r.bytes.end in
      Returns-bind (IsGathered page_size content (r ∷ rs) fb) (collect_range page_size content fb r)
        (collect_flush_batches page_size content rs)
        (collect_range-IsCollected page_size positive content aligned offset bound fb
          r.is_zero_range r.bytes.start r.bytes.end v a.0.0 a.0.1 a.0.2 a.0.3 a.0.4
          (omega (arith, a.0)))
        λ fb' g.
          Returns-imp {Q = IsGathered page_size content (r ∷ rs) fb}
            (collect_flush_batches page_size content rs fb')
            (λ fb'' n. (
              n.0,
              (
                λ z x.
                    omega (
                      arith,
                      n.1.0 z x,
                      g.1.0 z x,
                      if-sum (ltb x content) (hit z x r) (hits z x rs),
                    ),
                omega (arith, n.1.1, g.1.1),
              ),
            ))
            (collect_from rs r.bytes.end (bound + (r.bytes.end - r.bytes.start)) fb' g.0
              (omega (arith, a.0)) a.1)

  -- Where the content ends at a page, and the modified ranges are whole pages, not empty, in order, and
  -- end a batch below the end of the u64 range: collecting them returns. All batches but the last are
  -- full; they have every byte of the content as often as the ranges have it, as a byte to be zeroed or
  -- as a dirty one, and no byte past it; the dirty pages are counted, and so are those past the
  -- content.
  pub collect-IsGathered :
      (rs : List FlushRange)
      → AreModified page_size 0 rs
      → Returns
          (collect_flush_batches page_size content rs empty_batches)
          (IsGathered page_size content rs empty_batches)
  collect-IsGathered rs a =
      collect_from rs 0 0 empty_batches (tt, omega arith, omega arith, omega arith) (omega arith) a
