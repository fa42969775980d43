-- ===== src/Lsm/Query/View.antt =====
-- A tree as the map that `find` reads (src/lsm_tree.rs): what inserting, sealing and compacting do to
-- it.
use Prim.Native.Nat.Ordering.{lt, gt, eq}
use fxfs_on_linux.Common.{
  ℕ, ◌<◌, ◌≡◌, refl, sym, ap, subst, ◌∙◌, inl, inr, List, [], ◌∷◌, Bool, true, false, Bool-cases,
  Option, none, some, if◌then◌else◌, All, internal, Ends,
}
use fxfs_on_linux.Lsm.Types.{Item, MergeFn}
use fxfs_on_linux.Lsm.MergeInto
use fxfs_on_linux.Lsm.Layer.{
  LayerKey, LsmTree, layer_set, seal, set_layers, insert, replace_or_insert, is_at, insert_at,
  erase_at, tree_insert, tree_replace_or_insert,
}
use fxfs_on_linux.Lsm.Merger.{MergeableKey}
use fxfs_on_linux.Lsm.Merger.Heap.{PointKeys, Permitted, Ordering-cases, IsBelow, IsAscending}
use fxfs_on_linux.Lsm.Merger.Reads.{lookup, or_else, differs, ne-of_lt, below-ne, lookup-below}
use fxfs_on_linux.Lsm.Merger.Next.{NewerStands, IsBelow-rest}
use fxfs_on_linux.Lsm.Query.{compact}
use fxfs_on_linux.Lsm.Query.Opened.{newest, total}
use fxfs_on_linux.Lsm.Query.Compacted.{Gives, compact-newest}

-- What a layer asks of the keys of a tree.
instance abbrev pub layer_key : {K : Type 0} ⦃k : MergeableKey K⦄ → LayerKey K
layer_key ⦃k⦄ = record { cmp_upper_bound = k.cmp_upper_bound; same = k.same }

abbrev pub is_some : {A : Type 0} → Option A → Bool
is_some none = false
is_some (some a) = true

none-of_is_some : {A : Type 0} {o : Option A} → is_some o ≡ false → o ≡ none
none-of_is_some {o = none} h = refl
none-of_is_some {o = some a} h = cc

or_else-none : {A : Type 0} (o : Option A) → or_else o none ≡ o
or_else-none none = refl
or_else-none (some a) = refl

Gives-imp :
    {A : Type 0} {P Q : A → Type 0} (o : Option A) → ((a : A) → P a → Q a) → Gives o P → Gives o Q
Gives-imp none f g = g
Gives-imp (some a) f g = f a g

module _ {K V : Type 0} ⦃k : MergeableKey K⦄ ⦃q : Permitted K V⦄ where
  abbrev pub view : LsmTree K V → K → Option (Item K V)
  view t key = newest (layer_set t) key

  abbrev pub IsSorted : LsmTree K V → Type 0
  IsSorted t = All IsAscending (layer_set t)

  -- The item goes where its key belongs, in the place of an item with the key.
  placed : Item K V → List (Item K V) → List (Item K V)
  placed item [] = item ∷ []
  placed item (i ∷ is) = elim (k.cmp_lower_bound i.key item.key) [
    | lt ↦ i ∷ placed item is
    | eq ↦ item ∷ is
    | gt ↦ item ∷ i ∷ is
  ]

  placed-lt :
      (item i : Item K V) (is : List (Item K V))
      → k.cmp_lower_bound i.key item.key ≡ lt
      → placed item (i ∷ is) ≡ i ∷ placed item is
  placed-lt item i is o = unfold placed in rw (o, placed) refl

  placed-eq :
      (item i : Item K V) (is : List (Item K V))
      → k.cmp_lower_bound i.key item.key ≡ eq
      → placed item (i ∷ is) ≡ item ∷ is
  placed-eq item i is o = unfold placed in rw (o, placed) refl

  placed-gt :
      (item i : Item K V) (is : List (Item K V))
      → k.cmp_lower_bound i.key item.key ≡ gt
      → placed item (i ∷ is) ≡ item ∷ i ∷ is
  placed-gt item i is o = unfold placed in rw (o, placed) refl

  -- `replace_or_insert` from the place of the item's key.
  abbrev put_at : Item K V → List (Item K V) × List (Item K V) → List (Item K V)
  put_at item at =
      if is_at item.key at.1 then insert_at (at.0, erase_at ([], at.1)) item else insert_at at item

  put_at-cons :
      (item i : Item K V) (passed ahead : List (Item K V))
      → put_at item (i ∷ passed, ahead) ≡ i ∷ put_at item (passed, ahead)
  put_at-cons item i passed ahead = elim (Bool-cases (is_at item.key ahead)) [
    | inl e ↦ rw e refl
    | inr e ↦ rw e refl
  ]

  -- Sealing the mutable layer keeps the layers in order, if they are, and every key has what it had.
  pub view-seal :
      (t : LsmTree K V)
      → IsSorted t
      → IsSorted (seal t) × ((key : K) → view (seal t) key ≡ view t key)
  unfolding layer_set seal
  view-seal t s = ((tt, s), λ key. refl)

module _ {K V : Type 0} ⦃k : MergeableKey K⦄ ⦃q : Permitted K V⦄ (laws : PointKeys K k) where
  replace_or_insert-placed :
      (item : Item K V) (l : List (Item K V)) → replace_or_insert l item ≡ placed item l
  unfolding replace_or_insert MergeInto.seek
  replace_or_insert-placed item [] = unfold placed in refl
  replace_or_insert-placed item (i ∷ is) =
      let upper = laws.upper_lower i.key item.key in
      elim (Ordering-cases (k.cmp_lower_bound i.key item.key)) [
        | inl o ↦
            let at = MergeInto.seek k.cmp_upper_bound item.key is in
            let below : MergeInto.seek k.cmp_upper_bound item.key (i ∷ is) ≡ (i ∷ at.0, at.1) =
              let u = upper ∙ o in rw (u, MergeInto.seek) refl in
            ap (put_at item) below
            ∙ put_at-cons item i at.0 at.1
            ∙ ap (◌∷◌ i) (replace_or_insert-placed item is)
            ∙ sym (placed-lt item i is o)
        | inr (inl o) ↦
            let above : MergeInto.seek k.cmp_upper_bound item.key (i ∷ is) ≡ ([], i ∷ is) =
              let u = upper ∙ o in rw (u, MergeInto.seek) refl in
            ap (put_at item) above
            ∙ rw ((laws.same_iff i.key item.key).1 (laws.cmp_eq _ _ o)) refl
            ∙ sym (placed-eq item i is o)
        | inr (inr o) ↦
            let above : MergeInto.seek k.cmp_upper_bound item.key (i ∷ is) ≡ ([], i ∷ is) =
              let u = upper ∙ o in rw (u, MergeInto.seek) refl in
            let ne =
              λ (e : i.key ≡ item.key). ne-of_lt laws item.key i.key (laws.cmp_gt _ _ o) (sym e) in
            ap (put_at item) above
            ∙ rw (differs laws i.key item.key ne) refl
            ∙ sym (placed-gt item i is o)
      ]

  lookup-placed :
      (key : K) (item : Item K V) (l : List (Item K V))
      → lookup key (placed item l) ≡ (if k.same item.key key then some item else lookup key l)
  unfolding placed
  lookup-placed key item [] = refl
  lookup-placed key item (i ∷ is) =
      let rest = lookup-placed key item is in
      elim (Ordering-cases (k.cmp_lower_bound i.key item.key)) [
        | inl o ↦
            rw (o, placed)
              (elim (Bool-cases (k.same i.key key)) [
                | inl t ↦
                    let same = (laws.same_iff i.key key).0 t in
                    let ne =
                      λ (e : item.key ≡ key). ne-of_lt laws i.key item.key o (same ∙ sym e) in
                    rw (t, differs laws item.key key ne) refl
                | inr f ↦ rw f rest
              ])
        | inr (inl o) ↦
            let e = laws.cmp_eq i.key item.key o in
            rw (o, placed)
              (elim (Bool-cases (k.same item.key key)) [
                | inl t ↦ rw t refl
                | inr f ↦
                    let g : k.same i.key key ≡ false =
                      subst (λ (b : K). k.same b key ≡ false) (sym e) f in
                    rw (f, g) refl
              ])
        | inr (inr o) ↦ rw (o, placed) refl
      ]

  All-placed :
      (P : Item K V → Type 0) (item : Item K V) (l : List (Item K V))
      → P item
      → All P l
      → All P (placed item l)
  unfolding placed
  All-placed P item [] p a = (p, tt)
  All-placed P item (i ∷ is) p a = elim (Ordering-cases (k.cmp_lower_bound i.key item.key)) [
    | inl o ↦ rw (o, placed) (a.0, All-placed P item is p a.1)
    | inr (inl o) ↦ rw (o, placed) (p, a.1)
    | inr (inr o) ↦ rw (o, placed) (p, a)
  ]

  placed-IsAscending :
      (item : Item K V) (l : List (Item K V))
      → q.allows item ≡ true
      → IsAscending l
      → IsAscending (placed item l)
  unfolding placed
  placed-IsAscending item [] p s = (tt, tt, p)
  placed-IsAscending item (i ∷ is) p s = elim (Ordering-cases (k.cmp_lower_bound i.key item.key)) [
    | inl o ↦
        rw (o, placed)
          (All-placed (IsBelow i.key) item is o s.0, placed-IsAscending item is p s.1, s.2)
    | inr (inl o) ↦
        rw (o, placed) (subst (λ (t : K). All (IsBelow t) is) (laws.cmp_eq _ _ o) s.0, s.1, p)
    | inr (inr o) ↦
        let b = laws.cmp_gt _ _ o in rw (o, placed) ((b, IsBelow-rest laws item.key i is s b), s, p)
  ]

  -- Where the keys are in one total order, every layer is in strictly ascending order, of permitted
  -- items, and the new item is permitted: `replace_or_insert` keeps the layers so; the tree then has the item at its key, and at every
  -- other key what it had.
  pub view-replace_or_insert :
      (t : LsmTree K V) (item : Item K V)
      → IsSorted t
      → q.allows item ≡ true
      → IsSorted (tree_replace_or_insert t item)
        × ((key : K)
            → view (tree_replace_or_insert t item) key
              ≡ (if k.same item.key key then some item else view t key))
  unfolding layer_set tree_replace_or_insert
  view-replace_or_insert t item s p = rw (replace_or_insert-placed item t.mutable_layer) (
    (placed-IsAscending item t.mutable_layer p s.0, s.1),
    (λ key. elim (Bool-cases (k.same item.key key)) [
      | inl e ↦ rw (lookup-placed key item t.mutable_layer, e) refl
      | inr e ↦ rw (lookup-placed key item t.mutable_layer, e) refl
    ]),
  )

  -- The place of a key has an item with the key if the layer has one.
  is_at-lookup :
      (key : K) (l : List (Item K V))
      → IsAscending l
      → is_at key (MergeInto.seek k.cmp_upper_bound key l).1 ≡ is_some (lookup key l)
  unfolding MergeInto.seek
  is_at-lookup key [] s = refl
  is_at-lookup key (i ∷ is) s =
      let upper = laws.upper_lower i.key key in
      elim (Ordering-cases (k.cmp_lower_bound i.key key)) [
        | inl o ↦
            let u = upper ∙ o in
            rw (u, MergeInto.seek)
              (rw (differs laws i.key key (ne-of_lt laws i.key key o)) (is_at-lookup key is s.1))
        | inr (inl o) ↦
            let u = upper ∙ o in
            rw (u, MergeInto.seek) (rw ((laws.same_iff i.key key).1 (laws.cmp_eq _ _ o)) refl)
        | inr (inr o) ↦
            let u = upper ∙ o in
            let b = laws.cmp_gt _ _ o in
            rw (u, MergeInto.seek)
              (rw (below-ne laws key i b, lookup-below laws key is (IsBelow-rest laws key i is s b))
                refl)
      ]

  -- Where the keys are in one total order and every layer is in strictly ascending order, of permitted
  -- items: `insert`
  -- fails if the mutable layer has an item with the key, and otherwise does what `replace_or_insert`
  -- does.
  pub insert-replace_or_insert :
      (t : LsmTree K V) (item : Item K V)
      → IsSorted t
      → Ends
          (tree_insert t item)
          (λ t'. (t' ≡ tree_replace_or_insert t item) × (lookup item.key t.mutable_layer ≡ none))
          λ e. (e ≡ internal) × (is_some (lookup item.key t.mutable_layer) ≡ true)
  unfolding tree_insert tree_replace_or_insert insert replace_or_insert layer_set
  insert-replace_or_insert t item s =
      let at = is_at-lookup item.key t.mutable_layer s.0 in
      elim (Bool-cases
        (is_at item.key (MergeInto.seek k.cmp_upper_bound item.key t.mutable_layer).1)) [
          | inl e ↦ rw e (refl, sym at ∙ e)
          | inr e ↦ rw e (refl, none-of_is_some (sym at ∙ e))
        ]

  module _ (merge_fn : MergeFn K V) (newer_stands : NewerStands merge_fn) where
    -- Under the conditions of `compact-newest` on the keys, the merge function and all layers: with
    -- more fuel than there are items in the immutable layers, compacting ends, and the tree that has
    -- what it wrote for its only immutable layer is in order, of permitted items, and every key has what it had.
    pub view-compact :
        (fuel : ℕ) (t : LsmTree K V)
        → IsSorted t
        → total t.layers < fuel
        → Gives (compact fuel merge_fn t) λ out.
          IsSorted (set_layers t (out ∷ []))
          × ((key : K) → view (set_layers t (out ∷ [])) key ≡ view t key)
    unfolding layer_set
    view-compact fuel t s w =
        Gives-imp (compact fuel merge_fn t)
          (λ out g. (
            (s.0, (g.0, tt)),
            λ key. ap (or_else (lookup key t.mutable_layer)) (or_else-none _ ∙ g.1 key),
          ))
          (compact-newest laws merge_fn newer_stands fuel t s.1 w)
