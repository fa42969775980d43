-- ===== src/Lsm/Layer.antt =====
-- The operations of `SkipListLayer` (src/lsm_tree/skip_list_layer.rs) on the items of the layer, and
-- `LSMTree` (src/lsm_tree.rs) over its layers. An error that is not of `errors.rs` is `internal`.
pub mod Sorted
use Prim.Native.Nat.{Ordering}
use fxfs_on_linux.Common.{
  ℕ, List, [], ◌∷◌, ◌++◌, Bool, true, false, Option, none, some, if◌then◌else◌, Outcome, ok, err,
  panic, internal, ◌>>=◌,
}
use fxfs_on_linux.Lsm.Types.{Item, MergeFn, OrdLowerBound}
use fxfs_on_linux.Lsm.MergeInto.{seek, layer_merge_into}

-- What a layer needs of its keys: the order that its items are in, and `==`.
pub record LayerKey {ℓ} (K : Type ℓ) : Type ℓ where
  pub cmp_upper_bound : K → K → Ordering
  pub same : K → K → Bool

module _ {ℓ κ} {K : Type ℓ} {V : Type κ} ⦃k : LayerKey K⦄ where
  -- `insert` of the iterator: the item goes in front of the current one.
  abbrev pub insert_at : List (Item K V) × List (Item K V) → Item K V → List (Item K V)
  insert_at (passed, ahead) item = passed ++ item ∷ ahead

  -- The current item is the one with the key.
  abbrev pub is_at : K → List (Item K V) → Bool
  is_at key [] = false
  is_at key (i ∷ is) = k.same i.key key

  -- `erase` of the iterator.
  abbrev pub erase_at : List (Item K V) × List (Item K V) → List (Item K V)
  erase_at (passed, []) = passed
  erase_at (passed, i ∷ is) = passed ++ is

  unfoldable pub insert : List (Item K V) → Item K V → Outcome (List (Item K V))
  unfolding seek
  insert layer item =
      let at = seek k.cmp_upper_bound item.key layer in
      if is_at item.key at.1 then err internal else ok (insert_at at item)

  unfoldable pub replace_or_insert : List (Item K V) → Item K V → List (Item K V)
  unfolding seek
  replace_or_insert layer item =
      let at = seek k.cmp_upper_bound item.key layer in
      if is_at item.key at.1 then insert_at (at.0, erase_at ([], at.1)) item else insert_at at item

  -- Erasing a key that is not there warns.
  unfoldable pub erase : List (Item K V) → K → List (Item K V)
  unfolding seek
  erase layer key =
      let at = seek k.cmp_upper_bound key layer in if is_at key at.1 then erase_at at else layer

-- The layers of a tree: the mutable one, and the others, the newest first.
pub record LsmTree {ℓ κ} (K : Type ℓ) (V : Type κ) : Type (ℓ ⊔ κ) where
  pub mutable_layer : List (Item K V)
  pub layers : List (List (Item K V))

module _ {ℓ κ} {K : Type ℓ} {V : Type κ} where
  abbrev pub empty_tree : LsmTree K V
  empty_tree = record { mutable_layer = []; layers = [] }

  abbrev pub set_layers : LsmTree K V → List (List (Item K V)) → LsmTree K V
  set_layers t layers = record t { layers = layers }

  abbrev pub append_layers : LsmTree K V → List (List (Item K V)) → LsmTree K V
  append_layers t layers = record t { layers = t.layers ++ layers }

  abbrev pub reset_immutable_layers : LsmTree K V → LsmTree K V
  reset_immutable_layers t = record t { layers = [] }

  unfoldable pub seal : LsmTree K V → LsmTree K V
  seal t = record { mutable_layer = []; layers = t.mutable_layer ∷ t.layers }

  abbrev pub reset : LsmTree K V → LsmTree K V
  reset t = empty_tree

  -- The layers that an iterator merges, the newest first.
  unfoldable pub layer_set : LsmTree K V → List (List (Item K V))
  layer_set t = t.mutable_layer ∷ t.layers

  abbrev pub immutable_layer_set : LsmTree K V → List (List (Item K V))
  immutable_layer_set t = t.layers

module _ {ℓ κ} {K : Type ℓ} {V : Type κ} ⦃k : LayerKey K⦄ where
  unfoldable pub tree_insert : LsmTree K V → Item K V → Outcome (LsmTree K V)
  unfolding insert
  tree_insert t item = do
    layer ← insert t.mutable_layer item
    ok (record t { mutable_layer = layer })

  unfoldable pub tree_replace_or_insert : LsmTree K V → Item K V → LsmTree K V
  unfolding replace_or_insert
  tree_replace_or_insert t item = record t {
    mutable_layer = replace_or_insert t.mutable_layer item;
  }

  -- On fuel: nothing if the fuel runs out.
  unfoldable pub tree_merge_into :
      ⦃o : OrdLowerBound K⦄ → ℕ → MergeFn K V → LsmTree K V → Item K V → K → Option (LsmTree K V)
  unfolding layer_merge_into
  tree_merge_into fuel merge_fn t item lower_bound =
      elim (layer_merge_into k.cmp_upper_bound fuel merge_fn t.mutable_layer item lower_bound) [
        | none ↦ none
        | some layer ↦ some (record t { mutable_layer = layer })
      ]
