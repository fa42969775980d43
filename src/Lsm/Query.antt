-- ===== src/Lsm/Query.antt =====
-- What src/lsm_tree.rs does with a merger: `find` a key, and compact the layers.
pub mod Opened
pub mod Compacted
pub mod Found
pub mod View
use fxfs_on_linux.Common.{
  ℕ, zero, suc, Bool, true, false, List, [], ◌∷◌, Option, none, some, if◌then◌else◌,
}
use fxfs_on_linux.Lsm.Types.{Item, MergeFn}
use fxfs_on_linux.Lsm.Layer.{LsmTree, layer_set, immutable_layer_set}
use fxfs_on_linux.Lsm.Merger.{
  MergeableKey, Cursor, CurrentItem, MergerIterator, get, push, merge_once, advance_impl,
  push_iterators, seek, advance,
}

module _ {K V : Type 0} ⦃k : MergeableKey K⦄ where
  -- The item found is the one with the key, if it is there.
  abbrev pub matching : K → Option (Item K V) → Option (Item K V)
  matching key none = none
  matching key (some i) = if k.same i.key key then some i else none

  abbrev pub found : K → Option (MergerIterator K V) → Option (Option (Item K V))
  found key none = none
  found key (some m) = some (matching key (get m.current))

  -- `LSMTree::find`; nothing if the fuel runs out.
  unfoldable pub find : ℕ → MergeFn K V → LsmTree K V → K → Option (Option (Item K V))
  unfolding seek layer_set
  find fuel merge_fn t key = found key (seek fuel merge_fn (some key) (layer_set t))

  abbrev pub prepend : Item K V → Option (List (Item K V)) → Option (List (Item K V))
  prepend i none = none
  prepend i (some is) = some (i ∷ is)

  -- The loop of `compact_with_iterator`: the items that it writes. The fuel counts them, and the
  -- rounds of each `advance`.
  unfoldable pub written : ℕ → MergeFn K V → Option (MergerIterator K V) → Option (List (Item K V))
  unfolding advance
  written zero merge_fn m = none
  written (suc fuel) merge_fn none = none
  written (suc fuel) merge_fn (some m) = elim (get m.current) [
    | none ↦ some []
    | some i ↦ prepend i (written fuel merge_fn (advance (suc fuel) merge_fn m))
  ]

  -- `compact`
  unfoldable pub compact : ℕ → MergeFn K V → LsmTree K V → Option (List (Item K V))
  unfolding seek written
  compact fuel merge_fn t = written fuel merge_fn (seek fuel merge_fn none (immutable_layer_set t))
