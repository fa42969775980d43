-- ===== src/Examples/Paged.antt =====
-- Dirty pages of 4096 bytes (src/platform/fuchsia/paged_object_handle.rs) at concrete numbers.
use fxfs_on_linux.Common.{
  ◌+◌, ◌*◌, ◌≤◌, ◌≡◌, refl, List, [], ◌∷◌, none, some, true, false, ok, ◌>>=◌, Returns, length,
  arith,
}
use fxfs_on_linux.Util.Range.{range}
use fxfs_on_linux.Allocator.Reservation
use fxfs_on_linux.Allocator.Reservation.{Reservation}
use fxfs_on_linux.Paged.{Inner, metadata_max_amount, reservation_needed, put_back, take}
use fxfs_on_linux.Paged.Flush.{FlushRange, FlushBatches, empty_batches, collect_flush_batches}
use fxfs_on_linux.Paged.Reserved.{ceil, needed, IsConserved, put_back-IsConserved, put_back-take}
use fxfs_on_linux.Paged.Batches.{dirty_bytes}
use fxfs_on_linux.Paged.Added.{IsGathered}
use fxfs_on_linux.Paged.Collected.{collect-IsGathered}
use fxfs_on_linux.Paged.Fits.{collected-le-reserved}

-- 129 pages need two transactions of 128 pages at most.
needed_two : reservation_needed 4096 129 ≡ ok (2 * metadata_max_amount + 129 * 4096)
unfolding reservation_needed
needed_two = refl

abbrev two_pages : Inner
two_pages = record { dirty_page_count = 2; spare = 98304 }

put_back-IsConserved_example :
    Returns
      (put_back 4096 two_pages 3 (Reservation.new none 120000))
      (IsConserved 4096 two_pages 3 (Reservation.new none 120000))
unfolding needed ceil
put_back-IsConserved_example =
    put_back-IsConserved 4096 (omega arith) (omega arith) two_pages 3 (Reservation.new none 120000)
      (omega arith) refl (omega arith) (omega arith)

put_back-take_example :
    (take 4096 two_pages (some 5) >>= λ t. put_back 4096 t.1 t.0 t.2)
    ≡ ok (two_pages, Reservation.new (some 5) 0)
unfolding needed ceil
put_back-take_example =
    put_back-take 4096 (omega arith) (omega arith) two_pages (some 5) (omega arith) (omega arith)
      (omega arith)

-- A page, a page of zeroes, and two pages of which one is past the content.
abbrev three_ranges : List FlushRange
three_ranges =
    record { bytes = range 0 4096; is_zero_range = false }
    ∷ record { bytes = range 4096 8192; is_zero_range = true }
    ∷ record { bytes = range 8192 16384; is_zero_range = false }
    ∷ []

collect-IsGathered_example :
    Returns
      (collect_flush_batches 4096 12288 three_ranges empty_batches)
      (IsGathered 4096 12288 three_ranges empty_batches)
collect-IsGathered_example =
    collect-IsGathered 4096 (omega arith) 12288 refl three_ranges (omega arith)

abbrev three_batches : FlushBatches
three_batches = record {
  batches =
      record {
        ranges =
            record { bytes = range 8192 12288; is_zero_range = false }
            ∷ record { bytes = range 4096 8192; is_zero_range = true }
            ∷ record { bytes = range 0 4096; is_zero_range = false }
            ∷ [];
        dirty_byte_count = 8192;
      }
      ∷ [];
  dirty_page_count = 2;
  skipped_dirty_page_count = 1;
}

collected-le-reserved_example :
    Returns (reservation_needed 4096 three_batches.dirty_page_count) λ n.
      length three_batches.batches * metadata_max_amount + dirty_bytes three_batches.batches ≤ n
unfolding needed ceil collect_flush_batches
collected-le-reserved_example =
    collected-le-reserved 4096 12288 three_ranges three_batches (omega arith) refl (omega arith)
      refl (omega arith) refl (omega arith) (omega arith)
