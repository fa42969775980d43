-- ===== src/Allocator/MergeInto/Rounds.antt =====
-- One round of `merge_into` keeps the layer sorted and the view of it, and makes it lighter.
use fxfs_on_linux.Common.{
  ℕ, ◌+◌, ◌≤◌, ◌<◌, ◌≡◌, refl, ap, ◌∙◌, sym, subst, true, false, List, ◌∷◌, ◌++◌, Option, none,
  some, arith, Bool-cases, inl, inr,
}
use fxfs_on_linux.Lsm.Types.{MergeResult, emit_left, other}
use fxfs_on_linux.Lsm.MergeInto.{mut_first, round}
use fxfs_on_linux.Allocator.Key.{
  AllocatorKey, AllocatorValue, AllocatorItem, AllocatorKey_lower_bound, cmp_lower_bound,
}
use fxfs_on_linux.Allocator.Merge.{start_of, end_of, merge}
use fxfs_on_linux.Allocator.Merge.View.{
  Layer, value_at, or_else, option_at, seen, seen_after, IsOrdered, merge-seen,
}
use fxfs_on_linux.Allocator.Merge.Progress.{
  weight, Within, emitted, left_after, right_after, frontier, merge-weight, merge-Within,
  merge-frontier-le, merge-emit_left,
}
use fxfs_on_linux.Allocator.MergeInto.Layers.{
  lookup, Above, Chain, list_of, weights, lookup-append, lookup-list_of, Chain-append,
  Chain-list_of, Above-list_of, weights-list_of,
}
use fxfs_on_linux.Allocator.MergeInto.States.{
  MergeState, view, load, From, Inv, Parts, at_layer, held_state, iter_state, after_mut_left-held,
  after_mut_left-iter, ItemLeft, after_item_left-held, after_item_left-iter,
}

-- What a round has to keep, of a state that stands for `p`, `i` and `m ∷ rest`.
pub record Kept (p : List AllocatorItem) (i m : AllocatorItem) (rest : List AllocatorItem)
    (s : MergeState) : Type 0 where
  pub bound : ℕ
  pub inv : Inv bound s
  pub lighter : load s < weight (some i) + weights (m ∷ rest)
  pub same_view :
      (x : ℕ) → view s x ≡ or_else (lookup p x) (or_else (value_at i x) (lookup (m ∷ rest) x))

-- From what the merge of the two items returns, whichever of them is on the left.
module _ (q a b : ℕ) (p rest : List AllocatorItem) (m i : AllocatorItem)
    (e m' i' : Option AllocatorItem) (behind : Chain 0 p q)
    (sorted : Above (m.key.device_range.end) rest) (q_le : q ≤ a) (e_within : Within a b e)
    (m_end : frontier a e ≤ m.key.device_range.end)
    (m_within : Within (frontier a e) (m.key.device_range.end) m')
    (i_within : Within (frontier a e) (i.key.device_range.end) i')
    (lighter : weight m' + weight i' < weight (some m) + weight (some i))
    (same : (x : ℕ)
      → or_else (option_at e x) (or_else (option_at i' x) (option_at m' x))
        ≡ or_else (value_at i x) (value_at m x)) where
  From-Within :
      (o : Option AllocatorItem) (c : ℕ) → Within (frontier a e) c o → From (frontier a e) o
  From-Within none c w = tt
  From-Within (some j) c w = (w.0, w.1)

  cut_view :
      (x : ℕ)
      → or_else
          (lookup (p ++ list_of e) x)
          (or_else (option_at i' x) (lookup (list_of m' ++ rest) x))
        ≡ or_else (lookup p x) (or_else (value_at i x) (lookup (m ∷ rest) x))
  cut_view x = ground (
    arith,
    lookup-append p (list_of e) x,
    lookup-list_of e x,
    lookup-append (list_of m') rest x,
    lookup-list_of m' x,
    same x,
  )

  cut-Kept : (s : MergeState) → Parts s (p ++ list_of e) i' (list_of m' ++ rest) → Kept p i m rest s
  cut-Kept s k = record {
    bound = frontier a e;
    inv = record {
      behind =
          subst (λ z. Chain 0 z (frontier a e)) (sym k.passed_eq)
            (Chain-append 0 q (frontier a e) p (list_of e) behind
              (Chain-list_of q a b e q_le e_within));
      sorted =
          subst (Above (frontier a e)) (sym k.pending_eq)
            (Above-list_of (frontier a e) (m.key.device_range.end) m' rest m_end m_within sorted);
      item_from = subst (From (frontier a e)) (sym k.item_eq) (From-Within i' _ i_within);
      coherent = k.is_coherent;
    };
    lighter =
        omega
          (arith, ap weight k.item_eq, ap weights k.pending_eq, weights-list_of m' rest, lighter);
    same_view = λ x. ground (
      arith,
      cut_view x,
      ap (λ z. lookup z x) k.passed_eq,
      ap (λ z. option_at z x) k.item_eq,
      ap (λ z. lookup z x) k.pending_eq,
    );
  }

seen_after-parts :
    (l r : Layer) (res : MergeResult AllocatorKey AllocatorValue) (x : ℕ)
    → seen_after l r res x
      ≡ or_else
          (option_at (emitted l res) x)
          (seen l.layer_index (left_after l res) r.layer_index (right_after r res) x)
seen_after-parts l r emit_left x = refl
seen_after-parts l r (other e a b) x = refl

mut_first-IsOrdered :
    (m i : AllocatorItem) → mut_first m i ≡ true → IsOrdered (at_layer 1 m) (at_layer 0 i)
unfolding cmp_lower_bound
mut_first-IsOrdered m i h = ground arith

item_first-IsOrdered :
    (m i : AllocatorItem) → mut_first m i ≡ false → IsOrdered (at_layer 0 i) (at_layer 1 m)
unfolding cmp_lower_bound
item_first-IsOrdered m i h = ground arith

-- A round goes on with a lighter state that stands for the same layer, or ends the loop in front of
-- an item that lies behind the new one.
abbrev pub RoundEnds :
    List AllocatorItem
    → AllocatorItem
    → AllocatorItem
    → List AllocatorItem
    → Option MergeState
    → Type 0
RoundEnds p i m rest none = i.key.device_range.end ≤ m.key.device_range.start
RoundEnds p i m rest (some s) = Kept p i m rest s

module _ (q : ℕ) (p rest : List AllocatorItem) (m i : AllocatorItem) (behind : Chain 0 p q)
    (sorted : Above q (m ∷ rest)) (from : From q (some i)) where
  mut_left-Kept :
      IsOrdered (at_layer 1 m) (at_layer 0 i)
      → (s : MergeState)
      → Parts s
          (p ++ list_of (emitted (at_layer 1 m) (merge (at_layer 1 m) (at_layer 0 i))))
          (right_after (at_layer 0 i) (merge (at_layer 1 m) (at_layer 0 i)))
          (list_of (left_after (at_layer 1 m) (merge (at_layer 1 m) (at_layer 0 i))) ++ rest)
      → Kept p i m rest s
  mut_left-Kept o s k =
      let l = at_layer 1 m in
      let r = at_layer 0 i in
      let within = merge-Within l r sorted.1 from.1 o in
      let less = merge-weight l r sorted.1 from.1 o in
      cut-Kept q (start_of l) (end_of l) p rest m i _ _ _ behind sorted.2 sorted.0 within.0
        (merge-frontier-le l r sorted.1 from.1 o).0 within.1 within.2 less
        (λ x.
          sym (seen_after-parts l r (merge l r) x)
          ∙ merge-seen l r x sorted.1 from.1 o (omega arith))
        s k

  item_left-Kept :
      IsOrdered (at_layer 0 i) (at_layer 1 m)
      → (s : MergeState)
      → Parts s
          (p ++ list_of (emitted (at_layer 0 i) (merge (at_layer 0 i) (at_layer 1 m))))
          (left_after (at_layer 0 i) (merge (at_layer 0 i) (at_layer 1 m)))
          (list_of (right_after (at_layer 1 m) (merge (at_layer 0 i) (at_layer 1 m))) ++ rest)
      → Kept p i m rest s
  item_left-Kept o s k =
      let l = at_layer 0 i in
      let r = at_layer 1 m in
      let within = merge-Within l r from.1 sorted.1 o in
      let less = merge-weight l r from.1 sorted.1 o in
      cut-Kept q (start_of l) (end_of l) p rest m i _ _ _ behind sorted.2 from.0 within.0
        (merge-frontier-le l r from.1 sorted.1 o).1 within.2 within.1 (omega (arith, less))
        (λ x.
          sym (seen_after-parts l r (merge l r) x)
          ∙ merge-seen l r x from.1 sorted.1 o (omega arith))
        s k

  ItemLeft-RoundEnds :
      IsOrdered (at_layer 0 i) (at_layer 1 m)
      → (o : Option MergeState) → ItemLeft p rest m i (merge (at_layer 0 i) (at_layer 1 m)) o
      → RoundEnds p i m rest o
  ItemLeft-RoundEnds h none k = merge-emit_left (at_layer 0 i) (at_layer 1 m) from.1 sorted.1 h k
  ItemLeft-RoundEnds h (some s) k = item_left-Kept h s k

  pub round-held : RoundEnds p i m rest (round merge (some m) (some i) (held_state p rest m i))
  unfolding round
  round-held = elim (Bool-cases (mut_first m i)) [
    | inl first ↦ rw first (
        mut_left-Kept (mut_first-IsOrdered m i first) _
          (after_mut_left-held p rest m i (merge _ _)))
    | inr later ↦ rw later (
        ItemLeft-RoundEnds (item_first-IsOrdered m i later) _
          (after_item_left-held p rest m i (merge _ _)))
  ]

  pub round-iter : RoundEnds p i m rest (round merge (some m) (some i) (iter_state p rest m i))
  unfolding round
  round-iter = elim (Bool-cases (mut_first m i)) [
    | inl first ↦ rw first (
        mut_left-Kept (mut_first-IsOrdered m i first) _
          (after_mut_left-iter p rest m i (merge _ _)))
    | inr later ↦ rw later (
        ItemLeft-RoundEnds (item_first-IsOrdered m i later) _
          (after_item_left-iter p rest m i (merge _ _)))
  ]
