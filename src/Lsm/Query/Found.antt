-- ===== src/Lsm/Query/Found.antt =====
-- Finding a key in a tree (`LSMTree::find` of src/lsm_tree.rs): the merger consults layers, the newest
-- first, until one has the key, and the item of that layer is found.
use Prim.Native.Nat.Ordering.{lt, eq}
use fxfs_on_linux.Common.{
  ℕ, zero, suc, ◌+◌, ◌≤◌, ◌<◌, ◌≡◌, refl, sym, subst, ◌∙◌, inl, inr, List, [], ◌∷◌, true, false,
  Bool-cases, Option, none, some, length, All, arith,
}
use fxfs_on_linux.Lsm.Types.{Item, MergeFn}
use fxfs_on_linux.Lsm.Layer.{LsmTree, layer_set}
use fxfs_on_linux.Lsm.Merger.{
  MergeableKey, Cursor, Pending, CurrentItem, iterator, unbounded, included, item_from_iter,
  pending_from, push, push_some, comes_first, stops_at, seek_layer, needs_more_iterators,
  push_iterators, merge_once, resume, advance_impl, seek,
}
use fxfs_on_linux.Lsm.Merger.Heap.{
  PointKeys, Permitted, Ordering-cases, IsBelow, IsAscending, IsHeap, push_next-IsHeap,
}
use fxfs_on_linux.Lsm.Merger.Reads.{
  lookup, weight, weight-push_next, differs, ne-of_lt, below-ne, lookup-below,
}
use fxfs_on_linux.Lsm.Merger.Next.{
  NewerStands, IsAbove, Next, ends, stops, push_next-IsAbove, IsBelow-rest, dropped, dropped-IsHeap,
  IsAbove-dropped, round-emit, round-drop, advance_impl-Next,
}
use fxfs_on_linux.Lsm.Query.{found, find}
use fxfs_on_linux.Lsm.Query.Opened.{newest, total, AreBefore, apart, push_next-AreBefore}

module _ {K V : Type 0} ⦃k : MergeableKey K⦄ ⦃q : Permitted K V⦄ where
  -- Where a search in a layer ends: behind the key, or at the item with the key.
  data Sought (key : K) (l : List (Item K V)) : List (Item K V) → Type 0 where
    misses : (is : List (Item K V)) → All (IsBelow key) is → lookup key l ≡ none → Sought key l is
    hits :
        (i : Item K V) (is : List (Item K V))
        → i.key ≡ key
        → lookup key l ≡ some i
        → Sought key l (i ∷ is)

module _ {K : Type 0} ⦃k : MergeableKey K⦄ (laws : PointKeys K k) (key : K) where
  stops-lt : (b : K) → k.cmp_lower_bound b key ≡ lt → stops_at (included key) b ≡ false
  stops-lt b o = let e = laws.upper_lower b key ∙ o in rw (e, stops_at) refl

  stops-above : (b : K) → k.cmp_lower_bound key b ≡ lt → stops_at (included key) b ≡ true
  stops-above b o = let e = laws.upper_lower b key ∙ laws.cmp_lt key b o in rw (e, stops_at) refl

  stops-same : (b : K) → k.cmp_lower_bound b key ≡ eq → stops_at (included key) b ≡ true
  stops-same b o = let e = laws.upper_lower b key ∙ o in rw (e, stops_at) refl

  same_eq : (b : K) → b ≡ key → k.cmp_lower_bound b key ≡ eq
  same_eq b e = subst (λ (t : K). k.cmp_lower_bound t key ≡ eq) (sym e) (laws.cmp_refl key)

module _ {K V : Type 0} ⦃k : MergeableKey K⦄ ⦃q : Permitted K V⦄ (laws : PointKeys K k)
    (key : K) where
  Sought-step :
      (i : Item K V) (l is : List (Item K V))
      → k.same i.key key ≡ false
      → Sought key l is
      → Sought key (i ∷ l) is
  Sought-step i l _ f (misses is b n) = misses is b (rw f n)
  Sought-step i l _ f (hits j is e h) = hits j is e (rw f h)

  seek_layer-Sought :
      (l : List (Item K V)) → IsAscending l → Sought key l (seek_layer (included key) l)
  unfolding seek_layer
  seek_layer-Sought [] s = misses [] tt refl
  seek_layer-Sought (i ∷ is) s = elim (Ordering-cases (k.cmp_lower_bound i.key key)) [
    | inl o ↦ rw (stops-lt laws key i.key o) (
        Sought-step i is _ (differs laws i.key key (ne-of_lt laws i.key key o))
          (seek_layer-Sought is s.1))
    | inr (inl o) ↦
        let e = laws.cmp_eq i.key key o in
        rw (stops-same laws key i.key o) (hits i is e (rw ((laws.same_iff i.key key).1 e) refl))
    | inr (inr o) ↦
        let b = laws.cmp_gt i.key key o in
        let all : All (IsBelow key) (i ∷ is) = (b, IsBelow-rest laws key i is s b) in
        rw (stops-above laws key i.key b) (misses (i ∷ is) all (lookup-below laws key (i ∷ is) all))
  ]

  seek_layer-IsAscending :
      (l : List (Item K V)) → IsAscending l → IsAscending (seek_layer (included key) l)
  unfolding seek_layer
  seek_layer-IsAscending [] s = tt
  seek_layer-IsAscending (i ∷ is) s = elim (Bool-cases (stops_at (included key) i.key)) [
    | inl e ↦ rw e s
    | inr e ↦ rw e (seek_layer-IsAscending is s.1)
  ]

  length-seek_layer : (l : List (Item K V)) → length (seek_layer (included key) l) ≤ length l
  unfolding seek_layer
  length-seek_layer [] = omega arith
  length-seek_layer (i ∷ is) = elim (Bool-cases (stops_at (included key) i.key)) [
    | inl e ↦ rw e (omega arith)
    | inr e ↦ rw e (omega (arith, length-seek_layer is))
  ]

  -- A cursor at the key goes to the front of those behind it.
  push-front :
      (c : Cursor K V) (h : List (Cursor K V)) → c.at.key ≡ key → IsAbove key h → push c h ≡ c ∷ h
  unfolding push comes_first
  push-front c [] e a = refl
  push-front c (d ∷ h) e a =
      let o : k.cmp_lower_bound c.at.key d.at.key ≡ lt =
        subst (λ (t : K). k.cmp_lower_bound t d.at.key ≡ lt) (sym e) a.0 in
      rw (o, push, comes_first) refl

  needs-above :
      (p : Pending K V) (ps : List (Pending K V)) (h : List (Cursor K V))
      → IsAbove key h
      → needs_more_iterators (some key) (p ∷ ps) h ≡ true
  unfolding needs_more_iterators
  needs-above p ps [] a = refl
  needs-above p ps (c ∷ h) a = rw (laws.cmp_lt key c.at.key a.0, needs_more_iterators) refl

  -- No more layers are consulted once the key is at the front.
  push_iterators-front :
      (ps : List (Pending K V)) (c : Cursor K V) (h : List (Cursor K V))
      → c.at.key ≡ key
      → push_iterators (some key) (included key) ps (c ∷ h) ≡ (ps, c ∷ h)
  unfolding push_iterators needs_more_iterators
  push_iterators-front [] c h e = refl
  push_iterators-front (p ∷ ps) c h e = rw (same_eq laws key c.at.key e, needs_more_iterators) refl

  module _ (merge_fn : MergeFn K V) (newer_stands : NewerStands merge_fn) where
    -- The bound makes no difference to a heap behind it.
    bound-IsAbove :
        (fuel : ℕ) (h : List (Cursor K V))
        → IsHeap h
        → IsAbove key h
        → advance_impl fuel merge_fn (included key) h ≡ advance_impl fuel merge_fn unbounded h
    unfolding advance_impl merge_once
    bound-IsAbove zero h v a = refl
    bound-IsAbove (suc fuel) [] v a = refl
    bound-IsAbove (suc fuel) (l ∷ []) v a =
        rw (stops-above laws key l.at.key a.0, advance_impl, merge_once) refl
    bound-IsAbove (suc fuel) (l ∷ s ∷ h) v a =
        let rest = bound-IsAbove fuel (dropped l s h) in
        elim v.0.1.0 [
          | inl o ↦
              rw (round-emit laws merge_fn newer_stands l s h o v.0.0.2, advance_impl)
                (rw (stops-above laws key l.at.key a.0) refl)
          | inr q ↦
              rw (round-drop laws merge_fn newer_stands l s h q.0 q.1, advance_impl)
                (rest (dropped-IsHeap laws l s h v) (IsAbove-dropped laws l s h v key a))
        ]

    found-Next :
        (h : List (Cursor K V)) (r : Option (CurrentItem K V × List (Cursor K V)))
        → IsAbove key h
        → Next h r
        → found key (resume [] r) ≡ some none
    found-Next h _ a (ends e) = refl
    found-Next h _ a (stops c h' i) = rw (below-ne laws key c.at (i.above key a).0) refl

    -- The key is at the front of the heap.
    advance_impl-front :
        (fuel : ℕ) (c : Cursor K V) (h : List (Cursor K V))
        → c.at.key ≡ key
        → q.allows c.at ≡ true
        → IsAbove key h
        → (h' : List (Cursor K V)) × (advance_impl (suc fuel) merge_fn (included key) (c ∷ h)
            ≡ some (iterator c, h'))
    unfolding advance_impl merge_once
    advance_impl-front fuel c [] e p a =
        let stop = stops-same laws key c.at.key (same_eq laws key c.at.key e) in
        ([], rw (stop, advance_impl, merge_once) refl)
    advance_impl-front fuel c (d ∷ h) e p a = (
      push d h,
      (let o : k.cmp_lower_bound c.at.key d.at.key ≡ lt =
            subst (λ (t : K). k.cmp_lower_bound t d.at.key ≡ lt) (sym e) a.0 in
          rw (round-emit laws merge_fn newer_stands c d h o p, advance_impl)
            (rw (stops-same laws key c.at.key (same_eq laws key c.at.key e)) refl)),
    )

    -- The search with these iterators pending and this heap.
    found_from : ℕ → List (Pending K V) → List (Cursor K V) → Option (Option (Item K V))
    found_from fuel ps h =
        let (pending, heap) = push_iterators (some key) (included key) ps h in
        found key (resume pending (advance_impl fuel merge_fn (included key) heap))

    found_from-front :
        (fuel : ℕ) (ps : List (Pending K V)) (c : Cursor K V) (h : List (Cursor K V))
        → c.at.key ≡ key
        → q.allows c.at ≡ true
        → IsAbove key h
        → found_from (suc fuel) ps (push c h) ≡ some (some c.at)
    unfolding found_from
    found_from-front fuel ps c h e p a =
        let stop = advance_impl-front fuel c h e p a in
        rw (push-front c h e a, push_iterators-front ps c h e, stop.1)
          (rw ((laws.same_iff c.at.key key).1 e) refl)

    found_from-step :
        (fuel n : ℕ) (l : List (Item K V)) (ps : List (Pending K V)) (h : List (Cursor K V))
        → IsAbove key h
        → found_from fuel (record { layer_index = n; layer = l } ∷ ps) h
          ≡ found_from fuel ps (push_some (item_from_iter n (seek_layer (included key) l)) h)
    unfolding found_from push_iterators
    found_from-step fuel n l ps h a =
        rw (needs-above (record { layer_index = n; layer = l }) ps h a) refl

    -- What is found does not depend on whether the layer has the key, if it is found in the others.
    found_from-Sought :
        (fuel n : ℕ) (l : List (Item K V)) (ls : List (List (Item K V))) (h : List (Cursor K V))
        → AreBefore n h
        → IsHeap h
        → IsAbove key h
        → (length l + total ls) + weight h ≤ fuel
        → ((h' : List (Cursor K V))
            → AreBefore (suc n) h'
            → IsHeap h'
            → IsAbove key h'
            → total ls + weight h' ≤ fuel
            → found_from (suc fuel) (pending_from (suc n) ls) h' ≡ some (newest ls key))
        → (sought : List (Item K V)) → IsAscending sought
        → length sought ≤ length l
        → Sought key l sought
        → found_from (suc fuel) (pending_from (suc n) ls) (push_some (item_from_iter n sought) h)
          ≡ some (newest (l ∷ ls) key)
    found_from-Sought fuel n l ls h b v a w rest _ s less (misses is below e) = rw e (
        rest (push_some (item_from_iter n is) h) (push_next-AreBefore n is h b)
          (push_next-IsHeap laws n is h s (apart n h b) v)
          (push_next-IsAbove laws key n is h below a) (omega (arith, weight-push_next n is h)))
    found_from-Sought fuel n l ls h b v a w rest _ s less (hits i is e f) = rw f (
        found_from-front fuel (pending_from (suc n) ls)
          (record { layer_index = n; at = i; rest = is }) h e s.2 a)

    found_from-newest :
        (fuel n : ℕ) (ls : List (List (Item K V))) (h : List (Cursor K V))
        → All IsAscending ls
        → AreBefore n h
        → IsHeap h
        → IsAbove key h
        → total ls + weight h ≤ fuel
        → found_from (suc fuel) (pending_from n ls) h ≡ some (newest ls key)
    unfolding found_from advance_impl push_iterators
    found_from-newest fuel n [] h s b v a w = rw (bound-IsAbove (suc fuel) h v a) (
        found-Next h _ a
          (advance_impl-Next laws merge_fn newer_stands (suc fuel) h (omega arith) v))
    found_from-newest fuel n (l ∷ ls) h s b v a w =
        found_from-step (suc fuel) n l (pending_from (suc n) ls) h a
        ∙ found_from-Sought fuel n l ls h b v a w (λ h'. found_from-newest fuel (suc n) ls h' s.1)
            (seek_layer (included key) l) (seek_layer-IsAscending l s.0) (length-seek_layer l)
            (seek_layer-Sought l s.0)

    -- Where the keys do not overlap and are in one total order, where by the merge function the newer
    -- of two items with one key stands and a permitted item is left alone before a higher key, and
    -- where every layer is in strictly ascending order, of permitted items: with more fuel than there are items, `find` ends, and it finds the item
    -- of the newest layer that has the key, the mutable one first, or none if no layer has it.
    pub find-newest :
        (fuel : ℕ) (t : LsmTree K V)
        → All IsAscending (layer_set t)
        → total (layer_set t) < fuel
        → find fuel merge_fn t key ≡ some (newest (layer_set t) key)
    unfolding find seek
    find-newest zero t s w = elim w [ ]
    find-newest (suc fuel) t s w =
        unfold weight found_from in
        found_from-newest fuel 0 (layer_set t) [] s tt tt tt (omega arith)
