-- ===== src/Examples/Allocator.antt =====
-- The allocator's merge function and insertion at concrete items
-- (src/object_store/allocator/merge.rs).
use fxfs_on_linux.Common.{ℕ, ◌+◌, ◌<◌, ◌≡◌, refl, [], ◌∷◌, some, arith, ok, Returns}
use fxfs_on_linux.Util.Range.{range}
use fxfs_on_linux.Lsm.Types.{new}
use fxfs_on_linux.Lsm.MergeInto.{layer_merge_into}
use fxfs_on_linux.Allocator.Key.{
  AllocatorValue, AllocatorItem, cmp_lower_bound, cmp_upper_bound, lower_bound_for_merge_into,
}
use fxfs_on_linux.Allocator.Merge.{merge}
use fxfs_on_linux.Allocator.Merge.View.{Layer, seen, seen_after, value_at, or_else, merge-seen}
use fxfs_on_linux.Allocator.Merge.Progress.{weight, left_after, right_after, merge-weight}
use fxfs_on_linux.Allocator.MergeInto.{insert_into_layer}
use fxfs_on_linux.Allocator.MergeInto.Layers.{lookup}
use fxfs_on_linux.Allocator.MergeInto.Result.{Reads, insert_into_layer-Reads}
use fxfs_on_linux.Allocator.Reservation.{Reservation}
use fxfs_on_linux.Allocator.Reservation.Holds.{
  Held, perform, gives_back, commits, IsSound, perform-IsSound,
}

abbrev extent : ℕ → ℕ → ℕ → AllocatorItem
extent a b owner = new (record { device_range = range a b }) (AllocatorValue.abs 1 owner)

abbrev freed : ℕ → ℕ → AllocatorItem
freed a b = new (record { device_range = range a b }) AllocatorValue.none

-- 0..100 in the old layer, 50..150 in the new.
abbrev old : Layer
old = record { layer_index = 1; item = extent 0 100 1 }

abbrev recent : Layer
recent = record { layer_index = 0; item = extent 50 150 2 }

merge-seen_example :
    seen_after old recent (merge old recent) 70
    ≡ seen 1 (some (extent 0 100 1)) 0 (some (extent 50 150 2)) 70
merge-seen_example =
    merge-seen old recent 70 (omega arith) (omega arith) (omega arith) (omega arith)

merge-weight_example :
    weight (left_after old (merge old recent)) + weight (right_after recent (merge old recent))
    < weight (some old.item) + weight (some recent.item)
merge-weight_example = merge-weight old recent (omega arith) (omega arith) (omega arith)

-- Two extents of one owner that touch become one; the middle of the next is freed.
insert_runs :
    insert_into_layer 1000 (extent 0 100 1 ∷ extent 200 300 1 ∷ []) (extent 100 200 1)
    ≡ some (extent 0 300 1 ∷ [])
unfolding insert_into_layer layer_merge_into merge cmp_lower_bound cmp_upper_bound
    lower_bound_for_merge_into
insert_runs = refl

insert_splits :
    insert_into_layer 1000 (extent 0 300 1 ∷ []) (freed 100 200)
    ≡ some (extent 0 100 1 ∷ freed 100 200 ∷ extent 200 300 1 ∷ [])
unfolding insert_into_layer layer_merge_into merge cmp_lower_bound cmp_upper_bound
    lower_bound_for_merge_into
insert_splits = refl

insert_into_layer-Reads_example :
    Reads
      (insert_into_layer 1000 (extent 0 300 1 ∷ []) (freed 100 200))
      (λ x. or_else (value_at (freed 100 200) x) (lookup (extent 0 300 1 ∷ []) x))
insert_into_layer-Reads_example =
    insert_into_layer-Reads 1000 (extent 0 300 1 ∷ []) (freed 100 200)
      (omega arith, omega arith, tt) (omega arith) (omega arith)

abbrev ten_hold : Reservation
ten_hold = record { owner_object_id = some 7; amount = 4; reserved = 0 }

-- Ten bytes, of which a hold has four.
abbrev ten : Held
ten = record {
  parent = record { owner_object_id = some 7; amount = 10; reserved = 4 };
  holds = ten_hold ∷ [];
}

perform_commits :
    perform (commits 0) ten
    ≡ ok (record {
      parent = record { owner_object_id = some 7; amount = 6; reserved = 0 };
      holds = [];
    })
unfolding perform
perform_commits = refl

perform-IsSound_example : Returns (perform (gives_back 0 3) ten) IsSound
perform-IsSound_example =
    perform-IsSound (gives_back 0 3) ten (omega arith, omega arith, omega arith, ((refl, refl), tt))
      (ten_hold, refl, omega arith)
