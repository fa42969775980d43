-- ===== src/Lsm/MergeInto.antt =====
-- `merge_into` of src/lsm_tree/merge.rs, which merges an item into a mutable layer through a
-- cursor. The iterator of the layer is a cursor over a sorted list (src/lsm_tree/skip_list_layer.rs,
-- level 0): what it has passed or inserted, and what is ahead.
use fxfs_on_linux.Common.{
  ℕ, zero, suc, Bool, true, false, List, [], ◌∷◌, ◌++◌, Option, none, some, if◌then◌else◌,
}
use Prim.Native.Nat.{Ordering}
use Prim.Native.Nat.Ordering.{lt, gt}
use fxfs_on_linux.Lsm.Types.{
  Item, ItemOp, keep, discard, replace, MergeResult, emit_left, other, LayerItem, MergeFn,
  OrdLowerBound,
}

-- `none` and a held item, or the item that the iterator points at.
pub data MergeItem {ℓ κ} (K : Type ℓ) (V : Type κ) : Type (ℓ ⊔ κ) where
  nothing : MergeItem K V
  held : Item K V → MergeItem K V
  iter : MergeItem K V

-- `mut_merge_iter` is the cursor and `mut_item`; `item` is the item of `item_merge_iter`.
pub record State {ℓ κ} (K : Type ℓ) (V : Type κ) : Type (ℓ ⊔ κ) where
  pub passed : List (Item K V)
  pub ahead : List (Item K V)
  pub mut_item : MergeItem K V
  pub item : Option (Item K V)

module _ {ℓ κ} {K : Type ℓ} {V : Type κ} where
  -- `set_item_from_iter`
  abbrev pub item_from_iter : List (Item K V) → MergeItem K V
  item_from_iter [] = nothing
  item_from_iter (i ∷ is) = iter

  -- The item that `mut_merge_iter` stands at, if it has one.
  abbrev pub current : MergeItem K V → List (Item K V) → Option (Item K V)
  current nothing ahead = none
  current (held i) ahead = some i
  current iter [] = none
  current iter (i ∷ is) = some i

  -- `insert` puts an item before the one that the cursor points at.
  abbrev pub insert_item : Item K V → State K V → State K V
  insert_item i s = record s { passed = s.passed ++ i ∷ [] }

  abbrev pub insert_option : Option (Item K V) → State K V → State K V
  insert_option none s = s
  insert_option (some i) s = insert_item i s

  -- What is ahead once the iterator's item is erased, if it is the current item.
  abbrev pub erase_current : MergeItem K V → List (Item K V) → List (Item K V)
  erase_current iter (i ∷ is) = is
  erase_current _ is = is

  -- `MergeResult::EmitLeft` for the mutable layer's item: a held item is inserted, and the
  -- iterator's item is passed by.
  abbrev pub pass_current : MergeItem K V → List (Item K V) → State K V → State K V
  pass_current (held i) is s = record (insert_item i s) { mut_item = item_from_iter s.ahead }
  pass_current iter (i ∷ is) s = record s {
    passed = s.passed ++ i ∷ [];
    ahead = is;
    mut_item = item_from_iter is;
  }
  pass_current _ is s = record s { mut_item = item_from_iter is }

  -- An operation on the mutable layer's item.
  abbrev pub apply_mut : ItemOp K V → State K V → State K V
  apply_mut keep s = s
  apply_mut discard s =
      let rest = erase_current s.mut_item s.ahead in
      record s { ahead = rest; mut_item = item_from_iter rest }
  apply_mut (replace i) s = record s { ahead = erase_current s.mut_item s.ahead; mut_item = held i }

  -- An operation on the item that is merged in.
  abbrev pub apply_item : ItemOp K V → State K V → State K V
  apply_item keep s = s
  apply_item discard s = record s { item = none }
  apply_item (replace i) s = record s { item = some i }

  -- The mutable layer is on the left.
  abbrev pub after_mut_left : MergeResult K V → State K V → State K V
  after_mut_left emit_left s = pass_current s.mut_item s.ahead s
  after_mut_left (other emit left right) s =
      apply_item right (apply_mut left (insert_option emit s))

  -- The item is on the left: `none` is the `break`.
  abbrev pub after_item_left : MergeResult K V → State K V → Option (State K V)
  after_item_left emit_left s = none
  after_item_left (other emit left right) s =
      some (apply_mut right (apply_item left (insert_option emit s)))

  -- After the loop: the item goes in, then what is held of the mutable layer.
  abbrev pub finish_mut : MergeItem K V → State K V → List (Item K V)
  finish_mut (held i) s = s.passed ++ i ∷ s.ahead
  finish_mut _ s = s.passed ++ s.ahead

  unfoldable pub finish : State K V → List (Item K V)
  finish s = finish_mut s.mut_item (insert_option s.item s)

module _ {ℓ κ} {K : Type ℓ} {V : Type κ} ⦃o : OrdLowerBound K⦄ where
  -- `mut_merge_iter > item_merge_iter`: the heap's order is reversed, and on equal keys the layer 0
  -- of the item comes first.
  abbrev pub mut_first : Item K V → Item K V → Bool
  mut_first m i = elim (o.cmp_lower_bound i.key m.key) [ gt ↦ true | _ ↦ false ]

  -- One round of the loop, for the current items of both; `none` ends it.
  unfoldable pub round :
      MergeFn K V → Option (Item K V) → Option (Item K V) → State K V → Option (State K V)
  round merge_fn (some m) (some i) s =
      let old : LayerItem K V = record { layer_index = 1; item = m } in
      let new : LayerItem K V = record { layer_index = 0; item = i } in
      if mut_first m i
      then some (after_mut_left (merge_fn old new) s)
      else after_item_left (merge_fn new old) s
  round merge_fn _ _ s = none

  -- The loop; `none` means that the fuel ran out.
  unfoldable pub merge_loop : ℕ → MergeFn K V → State K V → Option (List (Item K V))
  unfolding round finish
  merge_loop zero merge_fn s = none
  merge_loop (suc fuel) merge_fn s = elim (round merge_fn (current s.mut_item s.ahead) s.item s) [
    | none ↦ some (finish s)
    | some s' ↦ merge_loop fuel merge_fn s'
  ]

  -- `merge_into`, from a cursor that has passed `passed` and has `ahead` before it.
  unfoldable pub merge_into :
      ℕ → MergeFn K V → List (Item K V) → List (Item K V) → Item K V → Option (List (Item K V))
  unfolding merge_loop
  merge_into fuel merge_fn passed ahead item =
      merge_loop fuel merge_fn (record {
        passed = passed;
        ahead = ahead;
        mut_item = item_from_iter ahead;
        item = some item;
      })

-- The bound `OrdUpperBound` on keys decides where a cursor starts.
module _ {ℓ κ} {K : Type ℓ} {V : Type κ} (cmp_upper_bound : K → K → Ordering) where
  -- `SkipListLayerIterMut::new` with `Bound::Included(key)`: the items below the bound are passed.
  unfoldable pub seek : K → List (Item K V) → List (Item K V) × List (Item K V)
  seek bound [] = ([], [])
  seek bound (i ∷ is) =
      let rest = seek bound is in
      elim (cmp_upper_bound i.key bound) [ lt ↦ (i ∷ rest.0, rest.1) | _ ↦ ([], i ∷ is) ]

  -- `SkipListLayer::merge_into`
  unfoldable pub layer_merge_into :
      ⦃o : OrdLowerBound K⦄
      → ℕ
      → MergeFn K V
      → List (Item K V)
      → Item K V
      → K
      → Option (List (Item K V))
  unfolding merge_into seek
  layer_merge_into fuel merge_fn layer item lower_bound =
      let (passed, ahead) = seek lower_bound layer in merge_into fuel merge_fn passed ahead item
