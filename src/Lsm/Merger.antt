-- ===== src/Lsm/Merger.antt =====
-- `Merger` and `MergerIterator` of src/lsm_tree/merge.rs, which merge several layers, the newest
-- first, and the searches of src/lsm_tree.rs that use them. The layers are those of
-- src/lsm_tree/skip_list_layer.rs, sorted lists of which a read does not fail.
-- `std::collections::BinaryHeap` is a list in the order of `Ord`, from which `pop` takes the first.
pub mod Heap
pub mod Reads
pub mod Next
use Prim.Native.Nat.{Ordering}
use fxfs_on_linux.Common.{
  ℕ, zero, suc, Bool, true, false, not, ◌&&◌, List, [], ◌∷◌, Option, none, some, leb, if◌then◌else◌,
}
use fxfs_on_linux.Lsm.Types.{
  Item, ItemOp, keep, discard, replace, MergeResult, emit_left, other, LayerItem, MergeFn,
}

-- What the merger asks of keys.
pub record MergeableKey (K : Type 0) : Type 0 where
  pub cmp_upper_bound : K → K → Ordering
  pub cmp_lower_bound : K → K → Ordering
  pub same : K → K → Bool
  pub next_key : K → Option K

pub data Bound (K : Type 0) : Type 0 where
  unbounded : Bound K
  included excluded : K → Bound K

-- A `MergeLayerIterator` that has an item: `at` is the item, held or that of the layer's iterator,
-- and `rest` is what the iterator gives after it.
pub record Cursor (K V : Type 0) : Type 0 where
  pub layer_index : ℕ
  pub at : Item K V
  pub rest : List (Item K V)

-- A `MergeLayerIterator` whose layer was not searched yet.
pub record Pending (K V : Type 0) : Type 0 where
  pub layer_index : ℕ
  pub layer : List (Item K V)

pub data CurrentItem (K V : Type 0) : Type 0 where
  nothing : CurrentItem K V
  item : Item K V → CurrentItem K V
  iterator : Cursor K V → CurrentItem K V

-- `pending` is `pending_iterators` from its end, where it is popped.
pub record MergerIterator (K V : Type 0) : Type 0 where
  pub pending : List (Pending K V)
  pub heap : List (Cursor K V)
  pub current : CurrentItem K V

-- A round of the inner loop ends it with an item, or not.
pub data Round (K V : Type 0) : Type 0 where
  yields : CurrentItem K V → List (Cursor K V) → Round K V
  again : List (Cursor K V) → Round K V

module _ {K V : Type 0} where
  -- `MergeLayerIterator::set_item_from_iter`, where the iterator gives these items.
  abbrev pub item_from_iter : ℕ → List (Item K V) → Option (Cursor K V)
  item_from_iter n [] = none
  item_from_iter n (i ∷ is) = some (record { layer_index = n; at = i; rest = is })

  -- `MergeLayerIterator::advance`: a held item makes room for the iterator's.
  abbrev pub advance_cursor : Cursor K V → Option (Cursor K V)
  advance_cursor c = item_from_iter c.layer_index c.rest

  abbrev pub layer_item : Cursor K V → LayerItem K V
  layer_item c = record { layer_index = c.layer_index; item = c.at }

  -- `MergerIterator::get`
  abbrev pub get : CurrentItem K V → Option (Item K V)
  get nothing = none
  get (item i) = some i
  get (iterator c) = some c.at

  -- The iterators of `Merger::new`, numbered from the newest layer.
  abbrev pub pending_from : ℕ → List (List (Item K V)) → List (Pending K V)
  pending_from n [] = []
  pending_from n (l ∷ ls) = record { layer_index = n; layer = l } ∷ pending_from (suc n) ls

module _ {K : Type 0} ⦃k : MergeableKey K⦄ where
  -- `SkipListLayerIter::new` stops at the first item that is not below the bound.
  abbrev pub stops_at : Bound K → K → Bool
  stops_at unbounded key = true
  stops_at (included b) key = elim (k.cmp_upper_bound key b) [ Ordering.lt ↦ false | _ ↦ true ]
  stops_at (excluded b) key = elim (k.cmp_upper_bound key b) [ Ordering.gt ↦ true | _ ↦ false ]

  -- The bound that `MergerIterator::seek` is given. One that excludes its key panics, and is left out.
  abbrev pub bound_of : Option K → Bound K
  bound_of none = unbounded
  bound_of (some key) = included key

module _ {K V : Type 0} ⦃k : MergeableKey K⦄ where
  unfoldable pub seek_layer : Bound K → List (Item K V) → List (Item K V)
  seek_layer bound [] = []
  seek_layer bound (i ∷ is) = if stops_at bound i.key then i ∷ is else seek_layer bound is

  -- `Ord` of `MergeLayerIterator`: the lower key, then the newer layer.
  unfoldable pub comes_first : Cursor K V → Cursor K V → Bool
  comes_first c d = elim (k.cmp_lower_bound c.at.key d.at.key) [
    | Ordering.lt ↦ true
    | Ordering.eq ↦ leb c.layer_index d.layer_index
    | Ordering.gt ↦ false
  ]

  -- `BinaryHeap::push`
  unfoldable pub push : Cursor K V → List (Cursor K V) → List (Cursor K V)
  unfolding comes_first
  push c [] = c ∷ []
  push c (d ∷ heap) = if comes_first c d then c ∷ d ∷ heap else d ∷ push c heap

  -- An iterator that has come to its end is not pushed.
  abbrev pub push_some : Option (Cursor K V) → List (Cursor K V) → List (Cursor K V)
  push_some none heap = heap
  push_some (some c) heap = push c heap

  -- `maybe_advance` and then `update_item`.
  unfoldable pub update_item : Cursor K V → ItemOp K V → List (Cursor K V) → List (Cursor K V)
  unfolding push
  update_item c keep heap = push c heap
  update_item c discard heap = push_some (advance_cursor c) heap
  update_item c (replace i) heap = push (record c { at = i }) heap

  abbrev pub after_emit : Option (Item K V) → List (Cursor K V) → Round K V
  after_emit none heap = again heap
  after_emit (some i) heap = yields (item i) heap

  abbrev pub after_merge : MergeResult K V → Cursor K V → Cursor K V → List (Cursor K V) → Round K V
  after_merge emit_left lowest second heap = yields (iterator lowest) (push second heap)
  after_merge (other emit left right) lowest second heap =
      after_emit emit (update_item second right (update_item lowest left heap))

  -- One round of the inner loop of `advance_impl`.
  unfoldable pub merge_once : MergeFn K V → List (Cursor K V) → Round K V
  unfolding update_item push
  merge_once merge_fn [] = yields nothing []
  merge_once merge_fn (lowest ∷ []) = yields (iterator lowest) []
  merge_once merge_fn (lowest ∷ second ∷ heap) =
      after_merge (merge_fn (layer_item lowest) (layer_item second)) lowest second heap

  -- Whether `advance_impl` may stop at the item: it is within the bound, or there is none.
  abbrev pub is_within : Bound K → Option (Item K V) → Bool
  is_within bound none = true
  is_within bound (some i) = stops_at bound i.key

  -- The iterator of an item that is skipped goes on.
  abbrev pub skip : CurrentItem K V → List (Cursor K V) → List (Cursor K V)
  skip (iterator c) heap = push_some (advance_cursor c) heap
  skip _ heap = heap

  -- On fuel, a round for each; nothing if the fuel runs out.
  unfoldable pub advance_impl :
      ℕ → MergeFn K V → Bound K → List (Cursor K V) → Option (CurrentItem K V × List (Cursor K V))
  unfolding merge_once push
  advance_impl zero merge_fn bound heap = none
  advance_impl (suc fuel) merge_fn bound heap = elim (merge_once merge_fn heap) [
    | again heap' ↦ advance_impl fuel merge_fn bound heap'
    | yields c heap' ↦ elim (is_within bound (get c)) [
      | true ↦ some (c, heap')
      | false ↦ advance_impl fuel merge_fn bound (skip c heap')
    ]
  ]

  unfoldable pub needs_more_iterators : Option K → List (Pending K V) → List (Cursor K V) → Bool
  needs_more_iterators next_key [] heap = false
  needs_more_iterators next_key (p ∷ ps) [] = true
  needs_more_iterators none (p ∷ ps) (c ∷ heap) = true
  needs_more_iterators (some next_key) (p ∷ ps) (c ∷ heap) =
      elim (k.cmp_lower_bound c.at.key next_key) [ Ordering.gt ↦ true | _ ↦ false ]

  unfoldable pub push_iterators :
      Option K
      → Bound K
      → List (Pending K V)
      → List (Cursor K V)
      → List (Pending K V) × List (Cursor K V)
  unfolding needs_more_iterators seek_layer push
  push_iterators next_key bound [] heap = ([], heap)
  push_iterators next_key bound (p ∷ ps) heap =
      let rest =
        push_iterators next_key bound ps
          (push_some (item_from_iter p.layer_index (seek_layer bound p.layer)) heap) in
      if needs_more_iterators next_key (p ∷ ps) heap then rest else (p ∷ ps, heap)

  -- The iterator after `advance_impl`.
  abbrev pub resume :
      List (Pending K V)
      → Option (CurrentItem K V × List (Cursor K V))
      → Option (MergerIterator K V)
  resume pending none = none
  resume pending (some (c, heap)) = some (record { pending = pending; heap = heap; current = c })

  -- `MergerIterator::seek`
  unfoldable pub seek :
      ℕ → MergeFn K V → Option K → List (List (Item K V)) → Option (MergerIterator K V)
  unfolding push_iterators advance_impl
  seek fuel merge_fn key layers =
      let (pending, heap) = push_iterators key (bound_of key) (pending_from 0 layers) [] in
      resume pending (advance_impl fuel merge_fn (bound_of key) heap)

  -- The next key that `advance` looks for, and its bound, for the current item.
  abbrev pub next_bound : List (Pending K V) → Option (Item K V) → Option K × Bound K
  next_bound [] i = (none, unbounded)
  next_bound (p ∷ ps) none = (none, unbounded)
  next_bound (p ∷ ps) (some i) = elim (k.next_key i.key) [
    | none ↦ (none, excluded i.key)
    | some n ↦ (some n, included n)
  ]

  -- The iterator's next item is not behind the next key.
  abbrev pub is_candidate : Option K → Option (Cursor K V) → Bool
  is_candidate (some n) (some c) = elim (k.cmp_lower_bound c.at.key n) [
    | Ordering.gt ↦ false
    | _ ↦ true
  ]
  is_candidate _ _ = false

  -- `MergerIterator::advance` up to `advance_impl`. Where more layers are consulted, the iterator is
  -- taken back to its item.
  unfoldable pub refill :
      Option K → Bound K → MergerIterator K V → List (Pending K V) × List (Cursor K V)
  unfolding push_iterators needs_more_iterators push
  refill next_key bound m = elim m.current [
    | iterator c ↦
        if needs_more_iterators next_key m.pending m.heap
          && not (is_candidate next_key (advance_cursor c))
        then (let (pending, heap) = push_iterators next_key bound m.pending m.heap in
            (pending, push c heap))
        else (m.pending, push_some (advance_cursor c) m.heap)
    | _ ↦ push_iterators next_key bound m.pending m.heap
  ]

  unfoldable pub advance : ℕ → MergeFn K V → MergerIterator K V → Option (MergerIterator K V)
  unfolding refill advance_impl
  advance fuel merge_fn m =
      let (next_key, bound) = next_bound m.pending (get m.current) in
      let (pending, heap) = refill next_key bound m in
      resume pending (advance_impl fuel merge_fn bound heap)
