-- ===== src/Paged/Flush.antt =====
-- `FlushRange`, `FlushBatch`, `FlushBatches` and `collect_flush_batches` of
-- src/platform/fuchsia/paged_object_handle.rs. The lists of ranges and of batches are from the last to
-- the first.
use fxfs_on_linux.Common.{
  ℕ, zero, suc, Bool, true, false, List, [], ◌∷◌, Option, none, some, leb, if◌then◌else◌, Outcome,
  ok, panic, assert, ◌>>=◌, ◌>>◌, add_u64, sub_u64,
}
use fxfs_on_linux.Util.Range.{Range}
use fxfs_on_linux.Util.Round.{how_many}
use fxfs_on_linux.Paged.{flush_batch_size, split_range, page_count}

pub record FlushRange : Type 0 where
  pub bytes : Range
  pub is_zero_range : Bool

pub record FlushBatch : Type 0 where
  pub ranges : List FlushRange
  pub dirty_byte_count : ℕ

pub record FlushBatches : Type 0 where
  pub batches : List FlushBatch
  pub dirty_page_count : ℕ
  pub skipped_dirty_page_count : ℕ

abbrev pub empty_batch : FlushBatch
empty_batch = record { ranges = []; dirty_byte_count = 0 }

abbrev pub empty_batches : FlushBatches
empty_batches = record { batches = []; dirty_page_count = 0; skipped_dirty_page_count = 0 }

abbrev pub dirty_range : Range → FlushRange
dirty_range r = record { bytes = r; is_zero_range = false }

abbrev pub len : FlushRange → Outcome ℕ
len r = sub_u64 r.bytes.end r.bytes.start

abbrev pub last_end : List FlushRange → ℕ
last_end [] = 0
last_end (r ∷ rs) = r.bytes.end

-- The part of a range that fits.
abbrev pub add_first : FlushBatch → Option Range → Outcome FlushBatch
add_first b none = ok b
add_first b (some r) = do
  length ← len (dirty_range r)
  count ← add_u64 b.dirty_byte_count length
  ok (record { ranges = dirty_range r ∷ b.ranges; dirty_byte_count = count })

abbrev pub remaining : Option Range → Option FlushRange
remaining none = none
remaining (some r) = some (dirty_range r)

-- `FlushBatch::add_range`: the batch, and the part that does not fit.
unfoldable pub batch_add : FlushBatch → FlushRange → Outcome (FlushBatch × Option FlushRange)
unfolding split_range
batch_add b r = do
  assert (leb (last_end b.ranges) r.bytes.start)
  if r.is_zero_range then ok (record b { ranges = r ∷ b.ranges }, none) else (do
    room ← sub_u64 flush_batch_size b.dirty_byte_count
    split_point ← add_u64 r.bytes.start room
    (first, rest) ← split_range r.bytes split_point
    b' ← add_first b first
    ok (b', remaining rest))

-- The loop of `FlushBatches::add_range`. The fuel is above the number of bytes left; running out of
-- it counts as a panic.
unfoldable pub spread : ℕ → Option FlushRange → List FlushBatch → Outcome (List FlushBatch)
unfolding batch_add
spread fuel none batches = ok batches
spread zero (some r) batches = panic
spread (suc fuel) (some r) batches =
    batch_add empty_batch r >>= λ t. spread fuel t.1 (t.0 ∷ batches)

-- `FlushBatches::add_range` on its batches, of which there is one at least.
unfoldable pub add_to_last : FlushRange → List FlushBatch → Outcome (List FlushBatch)
unfolding batch_add spread
add_to_last r [] = batch_add empty_batch r >>= λ t. spread r.bytes.end t.1 (t.0 ∷ [])
add_to_last r (b ∷ bs) = batch_add b r >>= λ t. spread r.bytes.end t.1 (t.0 ∷ bs)

module _ (page_size : ℕ) where
  -- `FlushRange::page_count`, and nothing for a range of zeroes.
  unfoldable pub dirty_pages : FlushRange → Outcome ℕ
  unfolding how_many
  dirty_pages r = if r.is_zero_range then ok 0 else (do length ← len r; how_many length page_size)

  unfoldable pub add_range : FlushBatches → FlushRange → Outcome FlushBatches
  unfolding dirty_pages add_to_last
  add_range fb r = do
    pages ← dirty_pages r
    count ← add_u64 fb.dirty_page_count pages
    batches ← add_to_last r fb.batches
    ok (record fb { batches = batches; dirty_page_count = count })

  unfoldable pub skip_range : FlushBatches → Range → Outcome FlushBatches
  unfolding page_count
  skip_range fb r = do
    pages ← page_count page_size r
    count ← add_u64 fb.skipped_dirty_page_count pages
    ok (record fb { skipped_dirty_page_count = count })

  -- The part of a modified range that is past the content, and the part that is not.
  abbrev pub skip_past : Bool → FlushBatches → Option Range → Outcome FlushBatches
  skip_past is_zero_range fb none = ok fb
  skip_past true fb (some r) = ok fb
  skip_past false fb (some r) = skip_range fb r

  abbrev pub add_inside : Bool → FlushBatches → Option Range → Outcome FlushBatches
  add_inside is_zero_range fb none = ok fb
  add_inside is_zero_range fb (some r) =
      add_range fb (record { bytes = r; is_zero_range = is_zero_range })

  -- A round of the loop of `collect_flush_batches`, for the size of the content rounded up to pages.
  unfoldable pub collect_range : ℕ → FlushBatches → FlushRange → Outcome FlushBatches
  unfolding split_range skip_range add_range
  collect_range content_size fb r = do
    (inside, past) ← split_range r.bytes content_size
    fb' ← skip_past r.is_zero_range fb past
    add_inside r.is_zero_range fb' inside

  -- The loop over the modified ranges.
  unfoldable pub collect_flush_batches : ℕ → List FlushRange → FlushBatches → Outcome FlushBatches
  unfolding collect_range
  collect_flush_batches content_size [] fb = ok fb
  collect_flush_batches content_size (r ∷ rs) fb =
      collect_range content_size fb r >>= collect_flush_batches content_size rs
