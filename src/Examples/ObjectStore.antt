-- ===== src/Examples/ObjectStore.antt =====
-- The records of an object store and their merging at concrete items (src/object_store/merge.rs,
-- src/object_store/object_record.rs, src/object_store/extent_record.rs).
use fxfs_on_linux.Common.{Returns, ℕ, ◌+◌, ◌*◌, ◌≡◌, refl, [], ◌∷◌, some, ok, arith}
use fxfs_on_linux.Util.Range.{range}
use fxfs_on_linux.Lsm.Types.{keep, replace, other}
use fxfs_on_linux.ObjectStore.ExtentValue.{fletcher, ExtentValue, offset_by, shrunk}
use fxfs_on_linux.ObjectStore.ExtentValue.Cut.{place, IsBlocks, place-offset_by}
use fxfs_on_linux.ObjectStore.Merge.{merge, merge_object, merge_extents, cut_left, extent_item}
use fxfs_on_linux.ObjectStore.Merge.Extents.{IsKept, extent_layer, merge-IsKept}

-- Two blocks of 512 bytes, with checksums.
abbrev old : ExtentValue
old = ExtentValue.some 4096 (fletcher (7 ∷ 8 ∷ [])) 3

-- One block, of another place.
abbrev recent : ExtentValue
recent = ExtentValue.some 8192 (fletcher (9 ∷ [])) 3

place-offset_by_example :
    Returns
      (offset_by old (1 * 512) (2 * 512))
      λ w. IsBlocks 512 1 w × ((y : ℕ) → place 512 w y ≡ place 512 old (1 * 512 + y))
place-offset_by_example =
    place-offset_by 512 2 1 old (omega arith) (omega arith) (omega arith, omega arith)

merge-IsKept_example :
    Returns
      (merge
        (extent_layer {W = ℕ} 1 5 0 (range 0 1024) old 10)
        (extent_layer 0 5 0 (range 512 1024) recent 20))
      (IsKept ℕ 512 5 0 1 0 10 20 (range 0 1024) (range 512 1024) old recent)
merge-IsKept_example =
    merge-IsKept ℕ 512 5 0 1 0 10 20 (range 0 1024) (range 512 1024) old recent (omega arith)
      ((0, omega arith), (2, omega arith, omega arith, (omega arith, omega arith)))
      ((1, omega arith), (1, omega arith, omega arith, (omega arith, omega arith))) (omega arith)
      (omega arith, omega arith)

-- The older left extent is cut where the newer one starts.
merge_cuts :
    merge
      (extent_layer {W = ℕ} 1 5 0 (range 0 1024) old 10)
      (extent_layer 0 5 0 (range 512 1024) recent 20)
    ≡ ok (
        other
          (some (extent_item 5 0 (range 0 512) (ExtentValue.some 4096 (fletcher (7 ∷ [])) 3) 10))
          (replace
            (extent_item 5 0 (range 512 1024) (ExtentValue.some 4608 (fletcher (8 ∷ [])) 3) 10))
          keep)
unfolding merge merge_object merge_extents cut_left shrunk offset_by
merge_cuts = refl
