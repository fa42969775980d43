-- ===== src/Lsm/Query/Compacted.antt =====
-- Compacting the layers of a tree (src/lsm_tree.rs, src/lsm_tree/merge.rs): what is written is in
-- order, and has for each key the item of the newest layer.
use fxfs_on_linux.Common.{
  ℕ, zero, suc, ◌≤◌, ◌<◌, ◌≡◌, refl, sym, ap, subst, ◌∙◌, inl, inr, List, [], ◌∷◌, Bool-cases,
  Option, none, some, All, arith,
}
use fxfs_on_linux.Lsm.Types.{Item, MergeFn}
use fxfs_on_linux.Lsm.Layer.{LsmTree}
use fxfs_on_linux.Lsm.Merger.{
  MergeableKey, Cursor, CurrentItem, unbounded, item_from_iter, push_some, resume, advance_impl,
  seek,
}
use fxfs_on_linux.Lsm.Merger.Heap.{
  PointKeys, Permitted, IsBelow, IsAscending, IsHeap, push_next-IsHeap,
}
use fxfs_on_linux.Lsm.Merger.Reads.{
  lookup, tagged, untagged, newer, entry, reads, weight, weight-push_next, reads-push_next,
  lookup-below,
}
use fxfs_on_linux.Lsm.Merger.Next.{
  NewerStands, IsAbove, IsLowest, Next, ends, stops, push_next-IsAbove, IsBelow-rest,
  advance_impl-Next,
}
use fxfs_on_linux.Lsm.Query.{prepend, written, compact}
use fxfs_on_linux.Lsm.Query.Opened.{
  newest, opened, total, push_iterators-all, weight-opened, opened-newest, opened-IsHeap,
}

-- There is a result, and `P` is true of it.
abbrev pub Gives : {A : Type 0} → Option A → (A → Type 0) → Type 0
Gives none P = ⊥
Gives (some a) P = P a

module _ {K V : Type 0} ⦃k : MergeableKey K⦄ ⦃q : Permitted K V⦄ where
  -- The items are in order, they are what the heap says of each key, and as high as its lowest key.
  IsMerged : List (Cursor K V) → List (Item K V) → Type 0
  IsMerged h out =
      IsAscending out
      × ((key : K) → lookup key out ≡ untagged (reads h key))
      × ((key : K) → IsAbove key h → All (IsBelow key) out)

  -- The heap without the item of the lowest cursor.
  abbrev without : Cursor K V → List (Cursor K V) → List (Cursor K V)
  without c h = push_some (item_from_iter c.layer_index c.rest) h

module _ {K V : Type 0} ⦃k : MergeableKey K⦄ ⦃q : Permitted K V⦄ (laws : PointKeys K k) where
  reads-above : (key : K) (h : List (Cursor K V)) → IsHeap h → IsAbove key h → reads h key ≡ none
  unfolding reads newer
  reads-above key [] v a = refl
  reads-above key (c ∷ h) v a =
      rw (lookup-below laws key (c.at ∷ c.rest) (a.0, IsBelow-rest laws key c.at c.rest v.0.0 a.0))
        (reads-above key h v.1.1 a.1)

  module _ (before h : List (Cursor K V)) (c : Cursor K V) (i : IsLowest before c h) where
    without-IsAbove : (key : K) → IsAbove key (c ∷ h) → IsAbove key (without c h)
    without-IsAbove key a =
        push_next-IsAbove laws key c.layer_index c.rest h
          (IsBelow-rest laws key c.at c.rest i.valid.0.0 a.0) a.1

    lookup-cons :
        (out : List (Item K V)) (key : K)
        → lookup key out ≡ untagged (reads (without c h) key)
        → lookup key (c.at ∷ out) ≡ untagged (reads before key)
    unfolding reads newer
    lookup-cons out key e = elim (Bool-cases (k.same c.at.key key)) [
      | inl t ↦
          let same : c.at.key ≡ key = (laws.same_iff c.at.key key).0 t in
          let none_left =
            reads-above key h i.valid.1.1 (subst (λ (q : K). IsAbove q h) same i.lowest) in
          let own : entry key c ≡ some (c.layer_index, c.at) = rw t refl in
          rw t (
            sym (
              ap untagged (
                i.reads_same key
                ∙ ap (newer (entry key c)) none_left
                ∙ ap (λ o. newer o none) own)))
      | inr f ↦
          let own : entry key c ≡ tagged c.layer_index (lookup key c.rest) = rw f refl in
          rw f (
            e
            ∙ ap untagged (
                reads-push_next key c.layer_index c.rest h i.valid.1.0
                ∙ sym (ap (λ o. newer o (reads h key)) own)
                ∙ sym (i.reads_same key)))
    ]

    cons-IsMerged :
        (out : List (Item K V)) → IsMerged (without c h) out → IsMerged before (c.at ∷ out)
    unfolding IsMerged
    cons-IsMerged out m = (
      (
        m.2 c.at.key
            (push_next-IsAbove laws c.at.key c.layer_index c.rest h i.valid.0.0.0 i.lowest),
        m.0,
        i.valid.0.0.2,
      ),
      (λ key. lookup-cons out key (m.1 key)),
      (λ key a. let b = i.above key a in (b.0, m.2 key (without-IsAbove key b))),
    )

  Gives-prepend :
      (before h : List (Cursor K V)) (c : Cursor K V) (o : Option (List (Item K V)))
      → IsLowest before c h
      → Gives o (IsMerged (without c h))
      → Gives (prepend c.at o) (IsMerged before)
  Gives-prepend before h c none i g = g
  Gives-prepend before h c (some out) i g = cons-IsMerged before h c i out g

  module _ (merge_fn : MergeFn K V) (newer_stands : NewerStands merge_fn) where
    written-IsMerged :
        (fuel : ℕ) (h : List (Cursor K V)) (r : Option (CurrentItem K V × List (Cursor K V)))
        → weight h ≤ fuel
        → Next h r
        → Gives (written (suc fuel) merge_fn (resume [] r)) (IsMerged h)
    unfolding written IsMerged
    written-IsMerged fuel h _ w (ends none_left) =
        (tt, (λ key. rw (none_left key) refl), (λ key a. tt))
    written-IsMerged zero h _ w (stops c h' i) =
        absurd (unfold weight in omega (arith, w, i.smaller))
    written-IsMerged (suc fuel) h _ w (stops c h' i) =
        let less = weight-push_next c.layer_index c.rest h' in
        let next =
          advance_impl-Next laws merge_fn newer_stands (suc (suc fuel)) (without c h')
            (unfold weight in omega (arith, w, i.smaller, less))
            (push_next-IsHeap laws c.layer_index c.rest h' i.valid.0.0.1 i.valid.1.0 i.valid.1.1) in
        Gives-prepend h h' c _ i (
          written-IsMerged fuel (without c h') _
            (unfold weight in omega (arith, w, i.smaller, less)) next)

    seek-Next :
        (fuel : ℕ) (ls : List (List (Item K V)))
        → seek fuel merge_fn none ls
          ≡ resume [] (advance_impl fuel merge_fn unbounded (opened 0 ls []))
    unfolding seek
    seek-Next fuel ls = rw (push_iterators-all 0 ls []) refl

    Gives-compact :
        (ls : List (List (Item K V))) (o : Option (List (Item K V)))
        → Gives o (IsMerged (opened 0 ls []))
        → Gives o (λ out. IsAscending out × ((key : K) → lookup key out ≡ newest ls key))
    unfolding IsMerged
    Gives-compact ls none g = g
    Gives-compact ls (some out) g = (g.0, λ key. g.1 key ∙ opened-newest ls key)

    -- Where the keys do not overlap and are in one total order, where by the merge function the newer
    -- of two items with one key stands and a permitted item is left alone before a higher key, and
    -- where every immutable layer is in strictly ascending order, of permitted items: compacting with
    -- more fuel than there are items ends, what it writes is in strictly ascending order, of permitted
    -- items, and a key has in it the item of the newest immutable
    -- layer with that key, or none if no layer has the key.
    pub compact-newest :
        (fuel : ℕ) (t : LsmTree K V)
        → All IsAscending t.layers
        → total t.layers < fuel
        → Gives
            (compact fuel merge_fn t)
            λ out. IsAscending out × ((key : K) → lookup key out ≡ newest t.layers key)
    unfolding compact
    compact-newest zero t s w = elim w [ ]
    compact-newest (suc fuel) t s w =
        let h = opened 0 t.layers [] in
        let weighs = weight-opened 0 t.layers [] in
        let next =
          advance_impl-Next laws merge_fn newer_stands (suc fuel) h
            (unfold weight in omega (arith, w, weighs))
            (opened-IsHeap laws 0 t.layers [] s tt tt) in
        Gives-compact t.layers _ (
          subst (λ o. Gives (written (suc fuel) merge_fn o) (IsMerged h))
            (sym (seek-Next (suc fuel) t.layers))
            (written-IsMerged fuel h _ (unfold weight in omega (arith, w, weighs)) next))
