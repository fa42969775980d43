-- ===== src/Allocator/MergeInto/States.antt =====
-- The states of `merge_into`, and the lists that each round's operations leave.
use mathlib.Core.List.{append-nil}
use fxfs_on_linux.Common.{
  ℕ, ◌+◌, ◌≤◌, ◌<◌, ◌≡◌, refl, List, [], ◌∷◌, ◌++◌, Option, none, some, arith,
}
use fxfs_on_linux.Lsm.Types.{MergeResult, emit_left, other}
use fxfs_on_linux.Lsm.MergeInto.{
  MergeItem, nothing, held, iter, State, item_from_iter, after_mut_left, after_item_left,
}
use fxfs_on_linux.Allocator.Key.{
  AllocatorKey, AllocatorValue, AllocatorItem, AllocatorKey_lower_bound,
}
use fxfs_on_linux.Allocator.Merge.View.{Layer, or_else, option_at}
use fxfs_on_linux.Allocator.Merge.Progress.{weight, emitted, left_after, right_after}
use fxfs_on_linux.Allocator.MergeInto.Layers.{lookup, Above, Chain, list_of, weights}

abbrev pub MergeState : Type 0
MergeState = State AllocatorKey AllocatorValue

abbrev pub AllocatorMergeItem : Type 0
AllocatorMergeItem = MergeItem AllocatorKey AllocatorValue

-- What the mutable layer still holds.
abbrev pub pending : AllocatorMergeItem → List AllocatorItem → List AllocatorItem
pending (held i) ahead = i ∷ ahead
pending _ ahead = ahead

-- `MergeItem::Iter` stands for an item that the iterator has.
abbrev pub Coherent : AllocatorMergeItem → List AllocatorItem → Type 0
Coherent nothing (i ∷ is) = ⊥
Coherent iter [] = ⊥
Coherent _ _ = Unit

abbrev pub view : MergeState → ℕ → Option AllocatorValue
view s x =
    or_else (lookup s.passed x)
      (or_else (option_at s.item x) (lookup (pending s.mut_item s.ahead) x))

abbrev pub load : MergeState → ℕ
load s = weight s.item + weights (pending s.mut_item s.ahead)

abbrev pub From : ℕ → Option AllocatorItem → Type 0
From q none = Unit
From q (some i) =
    (q ≤ i.key.device_range.start) × (i.key.device_range.start < i.key.device_range.end)

pub record Inv (q : ℕ) (s : MergeState) : Type 0 where
  pub behind : Chain 0 s.passed q
  pub sorted : Above q (pending s.mut_item s.ahead)
  pub item_from : From q s.item
  pub coherent : Coherent s.mut_item s.ahead

-- A state in terms of the lists that it stands for.
pub record Parts (s : MergeState) (p : List AllocatorItem) (i : Option AllocatorItem)
    (rest : List AllocatorItem) : Type 0 where
  pub passed_eq : s.passed ≡ p
  pub item_eq : s.item ≡ i
  pub pending_eq : pending s.mut_item s.ahead ≡ rest
  pub is_coherent : Coherent s.mut_item s.ahead

item_from_iter-Coherent : (is : List AllocatorItem) → Coherent (item_from_iter is) is
item_from_iter-Coherent [] = tt
item_from_iter-Coherent (i ∷ is) = tt

pending-item_from_iter : (is : List AllocatorItem) → pending (item_from_iter is) is ≡ is
pending-item_from_iter [] = refl
pending-item_from_iter (i ∷ is) = refl

abbrev pub at_layer : ℕ → AllocatorItem → Layer
at_layer l i = record { layer_index = l; item = i }

module _ (p ahead : List AllocatorItem) (m i : AllocatorItem) where
  abbrev pub held_state : MergeState
  held_state = record { passed = p; ahead = ahead; mut_item = held m; item = some i }

  abbrev pub iter_state : MergeState
  iter_state = record { passed = p; ahead = m ∷ ahead; mut_item = iter; item = some i }

  pub after_mut_left-held :
      (r : MergeResult AllocatorKey AllocatorValue)
      → Parts
          (after_mut_left r held_state)
          (p ++ list_of (emitted (at_layer 1 m) r))
          (right_after (at_layer 0 i) r)
          (list_of (left_after (at_layer 1 m) r) ++ ahead)
  after_mut_left-held emit_left =
      ground (arith, item_from_iter-Coherent ahead, pending-item_from_iter ahead)
  after_mut_left-held (other e a b) =
      ground (arith, append-nil p, item_from_iter-Coherent ahead, pending-item_from_iter ahead)

  pub after_mut_left-iter :
      (r : MergeResult AllocatorKey AllocatorValue)
      → Parts
          (after_mut_left r iter_state)
          (p ++ list_of (emitted (at_layer 1 m) r))
          (right_after (at_layer 0 i) r)
          (list_of (left_after (at_layer 1 m) r) ++ ahead)
  after_mut_left-iter emit_left =
      ground (arith, item_from_iter-Coherent ahead, pending-item_from_iter ahead)
  after_mut_left-iter (other e a b) =
      ground (arith, append-nil p, item_from_iter-Coherent ahead, pending-item_from_iter ahead)

  -- What a round with the item on the left ends in.
  abbrev pub ItemLeft : MergeResult AllocatorKey AllocatorValue → Option MergeState → Type 0
  ItemLeft r none = r ≡ emit_left
  ItemLeft r (some s) =
      Parts s (p ++ list_of (emitted (at_layer 0 i) r)) (left_after (at_layer 0 i) r)
        (list_of (right_after (at_layer 1 m) r) ++ ahead)

  pub after_item_left-held :
      (r : MergeResult AllocatorKey AllocatorValue) → ItemLeft r (after_item_left r held_state)
  after_item_left-held emit_left = refl
  after_item_left-held (other e a b) =
      ground (arith, append-nil p, item_from_iter-Coherent ahead, pending-item_from_iter ahead)

  pub after_item_left-iter :
      (r : MergeResult AllocatorKey AllocatorValue) → ItemLeft r (after_item_left r iter_state)
  after_item_left-iter emit_left = refl
  after_item_left-iter (other e a b) =
      ground (arith, append-nil p, item_from_iter-Coherent ahead, pending-item_from_iter ahead)
