-- ===== src/Allocator/Merge/View.antt =====
-- Merging two items keeps the view from above: at each offset, the newest of the two that covers it.
use fxfs_on_linux.Common.{
  ℕ, ◌≤◌, ◌<◌, ◌≡◌, ◌≢◌, refl, Bool, true, ◌&&◌, Option, none, some, ltb, leb, if◌then◌else◌, arith,
}
use fxfs_on_linux.Util.Range.{Range}
use fxfs_on_linux.Lsm.Types.{MergeResult, emit_left, other, LayerItem, after_op}
use fxfs_on_linux.Allocator.Key.{AllocatorKey, AllocatorValue, AllocatorItem, same_value}
use fxfs_on_linux.Allocator.Merge.{start_of, end_of, merge}

abbrev pub Layer : Type 0
Layer = LayerItem AllocatorKey AllocatorValue

abbrev pub covers : Range → ℕ → Bool
covers r x = leb r.start x && ltb x r.end

-- The value of an item at an offset.
abbrev pub value_at : AllocatorItem → ℕ → Option AllocatorValue
value_at i x = if covers i.key.device_range x then some i.value else none

abbrev pub or_else : Option AllocatorValue → Option AllocatorValue → Option AllocatorValue
or_else none o = o
or_else (some v) o = some v

abbrev pub option_at : Option AllocatorItem → ℕ → Option AllocatorValue
option_at none x = none
option_at (some i) x = value_at i x

-- The view from above of an item in the layer `l` and one in the layer `r`.
abbrev pub seen : ℕ → Option AllocatorItem → ℕ → Option AllocatorItem → ℕ → Option AllocatorValue
seen l i r j x =
    if ltb l r
    then or_else (option_at i x) (option_at j x)
    else or_else (option_at j x) (option_at i x)

-- The view after a merge: what was emitted, then what is left of the two items.
abbrev pub seen_after :
    Layer → Layer → MergeResult AllocatorKey AllocatorValue → ℕ → Option AllocatorValue
seen_after l r emit_left x =
    or_else (value_at l.item x) (seen l.layer_index none r.layer_index (some r.item) x)
seen_after l r (other emit a b) x =
    or_else (option_at emit x)
      (seen l.layer_index (after_op a l.item) r.layer_index (after_op b r.item) x)

-- The order in which the merger presents two items: by start, then by end, then the newer first.
abbrev pub IsOrdered : Layer → Layer → Type 0
IsOrdered l r = (start_of l ≤ start_of r) × (start_of l ≡ start_of r → end_of l ≤ end_of r)

same_value_eq : (v w : AllocatorValue) → same_value v w ≡ true → v ≡ w
same_value_eq AllocatorValue.none AllocatorValue.none h = refl
same_value_eq (AllocatorValue.abs c o) (AllocatorValue.abs d p) h = ground arith
same_value_eq AllocatorValue.none (AllocatorValue.abs d p) h = cc
same_value_eq (AllocatorValue.abs c o) AllocatorValue.none h = cc

-- Merging two items that are not empty, of different layers and in the merger's order, keeps at each
-- offset the value of the newest item that covers it.
pub merge-seen :
    (l r : Layer) (x : ℕ)
    → start_of l < end_of l
    → start_of r < end_of r
    → IsOrdered l r
    → l.layer_index ≢ r.layer_index
    → seen_after l r (merge l r) x ≡ seen l.layer_index (some l.item) r.layer_index (some r.item) x
unfolding merge
merge-seen l r x hl hr o ne = ground (arith, same_value_eq l.item.value r.item.value)
