-- ===== src/Allocator/Merge/Progress.antt =====
-- What a merge leaves: shorter items, within the bounds that the merger relies on.
use fxfs_on_linux.Common.{ℕ, suc, ◌+◌, ◌-◌, ◌≤◌, ◌<◌, ◌≡◌, Option, none, some, arith}
use fxfs_on_linux.Lsm.Types.{MergeResult, emit_left, other, after_op}
use fxfs_on_linux.Allocator.Key.{AllocatorKey, AllocatorValue, AllocatorItem}
use fxfs_on_linux.Allocator.Merge.{start_of, end_of, merge}
use fxfs_on_linux.Allocator.Merge.View.{Layer, IsOrdered}

abbrev pub weight : Option AllocatorItem → ℕ
weight none = 0
weight (some i) = suc (i.key.device_range.end - i.key.device_range.start)

abbrev pub Within : ℕ → ℕ → Option AllocatorItem → Type 0
Within a b none = Unit
Within a b (some i) =
    (a ≤ i.key.device_range.start)
    × (i.key.device_range.start < i.key.device_range.end)
    × (i.key.device_range.end ≤ b)

abbrev pub emitted : Layer → MergeResult AllocatorKey AllocatorValue → Option AllocatorItem
emitted l emit_left = some l.item
emitted l (other emit a b) = emit

abbrev pub left_after : Layer → MergeResult AllocatorKey AllocatorValue → Option AllocatorItem
left_after l emit_left = none
left_after l (other emit a b) = after_op a l.item

abbrev pub right_after : Layer → MergeResult AllocatorKey AllocatorValue → Option AllocatorItem
right_after r emit_left = some r.item
right_after r (other emit a b) = after_op b r.item

-- Where what is left may start: behind what was emitted.
abbrev pub frontier : ℕ → Option AllocatorItem → ℕ
frontier a none = a
frontier a (some i) = i.key.device_range.end

-- Each round makes the two items shorter or fewer, so the merger cannot loop on them.
pub merge-weight :
    (l r : Layer)
    → start_of l < end_of l
    → start_of r < end_of r
    → IsOrdered l r
    → weight (left_after l (merge l r)) + weight (right_after r (merge l r))
      < weight (some l.item) + weight (some r.item)
unfolding merge
merge-weight l r hl hr o = ground arith

-- What is emitted starts where `l` starts and is not empty; what is left of each item lies behind
-- it, is not empty, and does not end behind the item that it replaces.
pub merge-Within :
    (l r : Layer)
    → start_of l < end_of l
    → start_of r < end_of r
    → IsOrdered l r
    → let m = merge l r in
      let f = frontier (start_of l) (emitted l m) in
      Within (start_of l) (end_of l) (emitted l m)
      × Within f (end_of l) (left_after l m)
      × Within f (end_of r) (right_after r m)
unfolding merge
merge-Within l r hl hr o = ground arith

-- What is emitted ends before either item does.
pub merge-frontier-le :
    (l r : Layer)
    → start_of l < end_of l
    → start_of r < end_of r
    → IsOrdered l r
    → let f = frontier (start_of l) (emitted l (merge l r)) in (f ≤ end_of l) × (f ≤ end_of r)
unfolding merge
merge-frontier-le l r hl hr o = ground arith

-- Only items that do not overlap are emitted whole.
pub merge-emit_left :
    (l r : Layer)
    → start_of l < end_of l
    → start_of r < end_of r
    → IsOrdered l r
    → merge l r ≡ emit_left
    → end_of l ≤ start_of r
unfolding merge
merge-emit_left l r hl hr o e = ground arith
