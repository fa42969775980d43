-- ===== src/Lsm/Types.antt =====
-- src/lsm_tree/types.rs and the start of src/lsm_tree/merge.rs: items and merge functions.
use fxfs_on_linux.Common.{ℕ, Option, none, some}
use Prim.Native.Nat.{Ordering}

pub record Item {ℓ κ} (K : Type ℓ) (V : Type κ) : Type (ℓ ⊔ κ) where
  pub key : K
  pub value : V
  pub sequence : ℕ

-- `Item::new_with_sequence` and `Item::new`
abbrev pub new_with_sequence {ℓ κ} : {K : Type ℓ} {V : Type κ} → K → V → ℕ → Item K V
new_with_sequence k v s = record { key = k; value = v; sequence = s }

abbrev pub new {ℓ κ} : {K : Type ℓ} {V : Type κ} → K → V → Item K V
new k v = new_with_sequence k v 0

pub data ItemOp {ℓ κ} (K : Type ℓ) (V : Type κ) : Type (ℓ ⊔ κ) where
  keep : ItemOp K V
  discard : ItemOp K V
  replace : Item K V → ItemOp K V

pub data MergeResult {ℓ κ} (K : Type ℓ) (V : Type κ) : Type (ℓ ⊔ κ) where
  emit_left : MergeResult K V
  other : Option (Item K V) → ItemOp K V → ItemOp K V → MergeResult K V

-- What a merge function reads of a `MergeLayerIterator`: its layer and the item that it points at.
pub record LayerItem {ℓ κ} (K : Type ℓ) (V : Type κ) : Type (ℓ ⊔ κ) where
  pub layer_index : ℕ
  pub item : Item K V

abbrev pub MergeFn {ℓ κ} : Type ℓ → Type κ → Type (ℓ ⊔ κ)
MergeFn K V = LayerItem K V → LayerItem K V → MergeResult K V

-- The bound `OrdLowerBound` on keys.
pub record OrdLowerBound {ℓ} (K : Type ℓ) : Type ℓ where
  pub cmp_lower_bound : K → K → Ordering

-- What is left of an item after an operation of a merge function.
abbrev pub after_op {ℓ κ} : {K : Type ℓ} {V : Type κ} → ItemOp K V → Item K V → Option (Item K V)
after_op keep i = some i
after_op discard i = none
after_op (replace j) i = some j
