-- ===== src/Paged.antt =====
-- src/platform/fuchsia/paged_object_handle.rs: the dirty pages of a file that the kernel pages, the
-- space that is reserved for them, and the batches that a flush writes. The size of a page is a
-- parameter, `zx::system_get_page_size()`.
pub mod Reserved
pub mod Flush
pub mod Batches
pub mod Added
pub mod Collected
pub mod Fits
use fxfs_on_linux.Common.{
  ℕ, zero, suc, ◌+◌, ◌-◌, ◌*◌, ◌/◌, ◌%◌, Bool, true, false, List, [], ◌∷◌, ◌++◌, Option, none, some,
  min, ltb, leb, ◌==◌, if◌then◌else◌, Outcome, ok, panic, assert, ◌>>=◌, ◌>>◌, u64_max, add_u64,
  sub_u64, div_u64, rem_u64,
}
use fxfs_on_linux.Util.Range.{Range, range}
use fxfs_on_linux.Util.Round.{how_many}
use fxfs_on_linux.Allocator.Reservation
use fxfs_on_linux.Allocator.Reservation.{Reservation}

abbrev pub flush_batch_size : ℕ
flush_batch_size = 524288

-- `TRANSACTION_METADATA_MAX_AMOUNT`, four times the most of the journal that a transaction uses.
abbrev pub metadata_max_amount : ℕ
metadata_max_amount = 4 * 24576

abbrev pub spare_size : ℕ
spare_size = metadata_max_amount

abbrev pub mul_u64 : ℕ → ℕ → Outcome ℕ
mul_u64 a b = if leb (a * b) u64_max then ok (a * b) else panic

-- The counters of `Inner`; the timestamps are left out.
pub record Inner : Type 0 where
  pub dirty_page_count : ℕ
  pub spare : ℕ

-- Both parts of a range that is not empty, without those that are.
unfoldable pub split_range : Range → ℕ → Outcome (Option Range × Option Range)
split_range r split_point =
    assert (ltb r.start r.end)
    >> ok (
        if leb split_point r.start
        then (none, some r)
        else if leb r.end split_point
        then (some r, none)
        else (some (range r.start split_point), some (range split_point r.end)))

module _ (page_size : ℕ) where
  unfoldable pub reservation_needed : ℕ → Outcome ℕ
  unfolding how_many
  reservation_needed page_count = do
    pages_per_transaction ← div_u64 flush_batch_size page_size
    transaction_count ← how_many page_count pages_per_transaction
    metadata ← mul_u64 transaction_count metadata_max_amount
    bytes ← mul_u64 page_count page_size
    add_u64 metadata bytes

  unfoldable pub page_count : Range → Outcome ℕ
  page_count r = do
    assert (leb r.start r.end)
    first ← rem_u64 r.start page_size
    assert (first == 0)
    last ← rem_u64 r.end page_size
    assert (last == 0)
    ok ((r.end - r.start) / page_size)

  unfoldable pub reservation : Inner → Outcome ℕ
  unfolding reservation_needed
  reservation i = do needed ← reservation_needed i.dirty_page_count; add_u64 needed i.spare

  -- Adds to a reservation that is empty, or that a flush has; gives the number of dirty pages.
  unfoldable pub move_to : Inner → Reservation → Outcome (ℕ × Inner × Reservation)
  unfolding reservation Reservation.add
  move_to i r = do
    amount ← reservation i
    r' ← Reservation.add r amount
    ok (i.dirty_page_count, record { dirty_page_count = 0; spare = 0 }, r')

  -- The pages that are put back, and their space, which comes out of the reservation.
  unfoldable pub put_back : Inner → ℕ → Reservation → Outcome (Inner × Reservation)
  unfolding reservation Reservation.forget_some
  put_back i count r =
      if ltb 0 count
      then (do
        before ← reservation i
        dirty_page_count ← add_u64 i.dirty_page_count count
        needed ← reservation_needed dirty_page_count
        sum ← add_u64 r.amount before
        rest ← sub_u64 sum needed
        let spare = min rest spare_size
        after ← add_u64 needed spare
        taken ← sub_u64 after before
        r' ← Reservation.forget_some r taken
        ok (record { dirty_page_count = dirty_page_count; spare = spare }, r'))
      else ok (i, r)

  -- The counters after pages are marked, and what has to be reserved in addition.
  unfoldable pub marked : Inner → Range → Outcome (Inner × ℕ)
  unfolding reservation page_count
  marked i r = do
    pages ← page_count r
    dirty_page_count ← add_u64 i.dirty_page_count pages
    let new_inner : Inner = record { dirty_page_count = dirty_page_count; spare = spare_size }
    previous ← reservation i
    new ← reservation new_inner
    delta ← sub_u64 new previous
    ok (new_inner, delta)

  -- `Inner::take`, with the reservation of nothing that the allocator gives it.
  unfoldable pub take : Inner → Option ℕ → Outcome (ℕ × Inner × Reservation)
  unfolding move_to
  take i store_object_id = move_to i (Reservation.new store_object_id 0)
