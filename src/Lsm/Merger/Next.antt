-- ===== src/Lsm/Merger/Next.antt =====
-- Where `advance_impl` of src/lsm_tree/merge.rs stops, for a merge function by which the newer of two
-- items with one key stands.
use Prim.Native.Nat.Ordering.{lt, eq}
use fxfs_on_linux.Common.{
  ℕ, zero, suc, ◌≤◌, ◌<◌, ◌≡◌, refl, sym, ap, subst, ◌∙◌, inl, inr, List, [], ◌∷◌, Option, none,
  some, All, All-imp, Bool-cases, true, false, arith,
}
use fxfs_on_linux.Lsm.Types.{Item, keep, discard, other, emit_left, LayerItem, MergeFn}
use fxfs_on_linux.Lsm.Merger.{
  MergeableKey, Cursor, CurrentItem, nothing, iterator, yields, again, unbounded, layer_item,
  item_from_iter, push, push_some, merge_once, update_item, advance_impl,
}
use fxfs_on_linux.Lsm.Merger.Heap.{
  PointKeys, Permitted, IsBelow, IsAscending, Precedes, IsApart, IsHeap, All-push, push-IsHeap,
  push_next-IsHeap,
}
use fxfs_on_linux.Lsm.Merger.Reads.{
  lookup, tagged, newer, newer_shadows, newer_swap, entry, reads, weight, weight-push,
  weight-push_next, reads-push, reads-push_next,
}

module _ {K V : Type 0} ⦃k : MergeableKey K⦄ ⦃q : Permitted K V⦄ where
  -- Of two items with one key the merge function keeps the newer; a permitted item before one with a
  -- higher key it leaves alone.
  pub record NewerStands (merge_fn : MergeFn K V) : Type 0 where
    pub same_key :
        (l r : LayerItem K V)
        → k.cmp_lower_bound l.item.key r.item.key ≡ eq
        → l.layer_index < r.layer_index
        → merge_fn l r ≡ other none keep discard
    pub lower_key :
        (l r : LayerItem K V)
        → k.cmp_lower_bound l.item.key r.item.key ≡ lt
        → q.allows l.item ≡ true
        → merge_fn l r ≡ emit_left

  abbrev pub IsAbove : K → List (Cursor K V) → Type 0
  IsAbove key h = All (λ c. k.cmp_lower_bound key c.at.key ≡ lt) h

  -- The heap after the second lowest cursor's item was discarded.
  abbrev pub dropped : Cursor K V → Cursor K V → List (Cursor K V) → List (Cursor K V)
  dropped l s h = push_some (item_from_iter s.layer_index s.rest) (push l h)

  -- The cursor is a layer's only one at its key, which is the lowest.
  pub record IsLowest (before : List (Cursor K V)) (c : Cursor K V) (h : List (Cursor K V))
      : Type 0 where
    pub valid : IsHeap (c ∷ h)
    pub lowest : IsAbove c.at.key h
    pub smaller : weight (c ∷ h) ≤ weight before
    pub reads_same : (key : K) → reads before key ≡ reads (c ∷ h) key
    pub above : (key : K) → IsAbove key before → IsAbove key (c ∷ h)

  -- Where `advance_impl` stops: at the end, or at the lowest key.
  pub data Next (before : List (Cursor K V))
      : Option (CurrentItem K V × List (Cursor K V)) → Type 0 where
    ends : ((key : K) → reads before key ≡ none) → Next before (some (nothing, []))
    stops :
        (c : Cursor K V) (h : List (Cursor K V))
        → IsLowest before c h
        → Next before (some (iterator c, h))

module _ {K V : Type 0} ⦃k : MergeableKey K⦄ ⦃q : Permitted K V⦄ (laws : PointKeys K k) where
  lower-Precedes :
      (c d e : Cursor K V)
      → k.cmp_lower_bound c.at.key d.at.key ≡ lt
      → Precedes d e
      → k.cmp_lower_bound c.at.key e.at.key ≡ lt
  lower-Precedes c d e p (inl q) = laws.cmp_trans c.at.key d.at.key e.at.key p q
  lower-Precedes c d e p (inr q) =
      subst (λ (t : K). k.cmp_lower_bound c.at.key t ≡ lt) (laws.cmp_eq _ _ q.0) p

  -- The lowest cursor's key is its own.
  emit-IsLowest :
      (l s : Cursor K V) (h : List (Cursor K V))
      → IsHeap (l ∷ s ∷ h)
      → k.cmp_lower_bound l.at.key s.at.key ≡ lt
      → IsLowest (l ∷ s ∷ h) l (push s h)
  unfolding reads weight
  emit-IsLowest l s h v o =
      let below =
        All-imp (Precedes s) (λ d. k.cmp_lower_bound l.at.key d.at.key ≡ lt)
          (λ x. lower-Precedes l s x o) h v.1.1.0.1 in
      record {
        valid = (
          (v.0.0, All-push (Precedes l) s h v.0.1.0 v.0.1.1),
          (
            All-push (IsApart l) s h v.1.0.0 v.1.0.1,
            push-IsHeap laws s h v.1.1.0.0 v.1.1.1.0 v.1.1.1.1,
          ),
        );
        lowest = All-push (λ d. k.cmp_lower_bound l.at.key d.at.key ≡ lt) s h o below;
        smaller = omega (arith, weight-push s h);
        reads_same = λ key. ap (newer (entry key l)) (sym (reads-push key s h v.1.1.1.0));
        above = λ key a. (a.0, All-push (λ d. k.cmp_lower_bound key d.at.key ≡ lt) s h a.1.0 a.1.1);
      }

  pub push_next-IsAbove :
      (key : K) (n : ℕ) (is : List (Item K V)) (h : List (Cursor K V))
      → All (IsBelow key) is
      → IsAbove key h
      → IsAbove key (push_some (item_from_iter n is) h)
  push_next-IsAbove key n [] h b a = a
  push_next-IsAbove key n (i ∷ is) h b a =
      All-push (λ d. k.cmp_lower_bound key d.at.key ≡ lt)
        (record { layer_index = n; at = i; rest = is }) h b.0 a

  -- What is below an item is below those after it.
  pub IsBelow-rest :
      (key : K) (i : Item K V) (is : List (Item K V))
      → IsAscending (i ∷ is)
      → IsBelow key i
      → All (IsBelow key) is
  IsBelow-rest key i is s b =
      All-imp (IsBelow i.key) (IsBelow key) (λ x. laws.cmp_trans key i.key x.key b) is s.0

  module _ (l s : Cursor K V) (h : List (Cursor K V)) (v : IsHeap (l ∷ s ∷ h)) where
    apart : All (IsApart s) (push l h)
    apart = All-push (IsApart s) l h (λ q. v.1.0.0 (sym q)) v.1.1.1.0

    pub dropped-IsHeap : IsHeap (dropped l s h)
    dropped-IsHeap =
        push_next-IsHeap laws s.layer_index s.rest (push l h) v.1.1.0.0.1 apart
          (push-IsHeap laws l h v.0.0 v.1.0.1 v.1.1.1.1)

    weight-dropped : suc (weight (dropped l s h)) ≡ weight (l ∷ s ∷ h)
    unfolding weight
    weight-dropped =
        omega (arith, weight-push_next s.layer_index s.rest (push l h), weight-push l h)

    reads_without :
        (key : K)
        → reads (dropped l s h) key
          ≡ newer (entry key l) (newer (tagged s.layer_index (lookup key s.rest)) (reads h key))
    reads_without key =
        reads-push_next key s.layer_index s.rest (push l h) apart
        ∙ ap (newer (tagged s.layer_index (lookup key s.rest))) (reads-push key l h v.1.0.1)
        ∙ newer_swap s.layer_index l.layer_index (lookup key s.rest) (lookup key (l.at ∷ l.rest))
            (reads h key) v.1.0.0

    reads-dropped :
        (key : K)
        → l.at.key ≡ s.at.key
        → l.layer_index < s.layer_index
        → reads (l ∷ s ∷ h) key ≡ reads (dropped l s h) key
    unfolding reads
    reads-dropped key same older = elim (Bool-cases (k.same l.at.key key)) [
      | inl e ↦
          let shadows = λ (o : Option (Item K V)).
            newer_shadows l.layer_index s.layer_index l.at o (reads h key) older in
          let own : entry key l ≡ some (l.layer_index, l.at) = rw e refl in
          ap (λ o. newer o (newer (entry key s) (reads h key))) own
          ∙ shadows (lookup key (s.at ∷ s.rest))
          ∙ sym (shadows (lookup key s.rest))
          ∙ sym (
              ap (λ o. newer o (newer (tagged s.layer_index (lookup key s.rest)) (reads h key)))
                own)
          ∙ sym (reads_without key)
      | inr e ↦
          let f : k.same s.at.key key ≡ false = subst (λ (t : K). k.same t key ≡ false) same e in
          rw f (sym (reads_without key))
    ]

    pub IsAbove-dropped : (key : K) → IsAbove key (l ∷ s ∷ h) → IsAbove key (dropped l s h)
    IsAbove-dropped key a =
        push_next-IsAbove key s.layer_index s.rest (push l h)
          (IsBelow-rest key s.at s.rest v.1.1.0.0 a.1.0)
          (All-push (λ d. k.cmp_lower_bound key d.at.key ≡ lt) l h a.0 a.1.1)

  -- What was found after the drop is what is to be found before it.
  Next-dropped :
      (before after : List (Cursor K V)) (r : Option (CurrentItem K V × List (Cursor K V)))
      → weight after ≤ weight before
      → ((key : K) → reads before key ≡ reads after key)
      → ((key : K) → IsAbove key before → IsAbove key after)
      → Next after r
      → Next before r
  Next-dropped before after _ w e a (ends none_left) = ends (λ key. e key ∙ none_left key)
  Next-dropped before after _ w e a (stops c h i) = stops c h (record {
    valid = i.valid;
    lowest = i.lowest;
    smaller = omega (arith, w, i.smaller);
    reads_same = λ key. e key ∙ i.reads_same key;
    above = λ key b. i.above key (a key b);
  })

  module _ (merge_fn : MergeFn K V) (newer_stands : NewerStands merge_fn) where
    pub round-emit :
        (l s : Cursor K V) (h : List (Cursor K V))
        → k.cmp_lower_bound l.at.key s.at.key ≡ lt
        → q.allows l.at ≡ true
        → merge_once merge_fn (l ∷ s ∷ h) ≡ yields (iterator l) (push s h)
    unfolding merge_once
    round-emit l s h o p = rw (newer_stands.lower_key (layer_item l) (layer_item s) o p) refl

    pub round-drop :
        (l s : Cursor K V) (h : List (Cursor K V))
        → k.cmp_lower_bound l.at.key s.at.key ≡ eq
        → l.layer_index < s.layer_index
        → merge_once merge_fn (l ∷ s ∷ h) ≡ again (dropped l s h)
    unfolding merge_once update_item
    round-drop l s h o older = rw (newer_stands.same_key (layer_item l) (layer_item s) o older) refl

    -- With a round for each item, `advance_impl` without a bound stops at the lowest key.
    pub advance_impl-Next :
        (fuel : ℕ) (h : List (Cursor K V))
        → weight h < fuel
        → IsHeap h
        → Next h (advance_impl fuel merge_fn unbounded h)
    unfolding advance_impl merge_once reads
    advance_impl-Next zero h w v = elim w [ ]
    advance_impl-Next (suc fuel) [] w v = ends (λ key. refl)
    advance_impl-Next (suc fuel) (l ∷ []) w v = stops l [] (record {
      valid = v;
      lowest = tt;
      smaller = omega arith;
      reads_same = λ key. refl;
      above = λ key a. a;
    })
    advance_impl-Next (suc fuel) (l ∷ s ∷ h) w v =
        let rest = advance_impl-Next fuel (dropped l s h) in
        let less = weight-dropped l s h v in
        elim v.0.1.0 [
          | inl o ↦
              rw (round-emit l s h o v.0.0.2, advance_impl)
                (stops l (push s h) (emit-IsLowest l s h v o))
          | inr q ↦
              rw (round-drop l s h q.0 q.1, advance_impl)
                (Next-dropped (l ∷ s ∷ h) (dropped l s h) _ (omega arith)
                  (λ key. reads-dropped l s h v key (laws.cmp_eq _ _ q.0) q.1)
                  (IsAbove-dropped l s h v) (rest (omega arith) (dropped-IsHeap l s h v)))
        ]
