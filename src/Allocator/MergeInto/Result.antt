-- ===== src/Allocator/MergeInto/Result.antt =====
-- Inserting an item into a layer of the allocator: enough fuel, and the layer that comes out.
use Prim.Native.Nat.{compare}
use Prim.Native.Nat.Ordering.{lt, eq, gt}
use mathlib.Core.List.{append_assoc}
use fxfs_on_linux.Common.{
  ℕ, zero, suc, ◌+◌, ◌≤◌, ◌<◌, ◌≡◌, refl, ap, ◌∙◌, sym, subst, List, [], ◌∷◌, ◌++◌, Option, none,
  some, arith, ◌⊎◌, inl, inr,
}
use fxfs_on_linux.Util.Range.{range}
use fxfs_on_linux.Lsm.MergeInto.{
  nothing, held, iter, item_from_iter, current, finish, round, merge_loop, seek, merge_into,
  layer_merge_into,
}
use fxfs_on_linux.Allocator.Key.{
  AllocatorKey, AllocatorValue, AllocatorItem, AllocatorKey_lower_bound, cmp_upper_bound,
  lower_bound_for_merge_into,
}
use fxfs_on_linux.Allocator.Merge.{merge}
use fxfs_on_linux.Allocator.Merge.View.{value_at, or_else}
use fxfs_on_linux.Allocator.Merge.Progress.{weight}
use fxfs_on_linux.Allocator.MergeInto.{insert_into_layer}
use fxfs_on_linux.Allocator.MergeInto.Layers.{
  lookup, Above, Chain, list_of, weights, lookup-append, lookup-list_of, Chain-append-Above,
  Chain-le,
}
use fxfs_on_linux.Allocator.MergeInto.States.{
  MergeState, AllocatorMergeItem, pending, Coherent, view, load, From, Inv,
}
use fxfs_on_linux.Allocator.MergeInto.Rounds.{RoundEnds, round-held, round-iter}

-- A layer that is sorted and reads as `v`.
abbrev pub Reads : Option (List AllocatorItem) → (ℕ → Option AllocatorValue) → Type 0
Reads none v = ⊥
Reads (some layer) v = Above 0 layer × ((x : ℕ) → lookup layer x ≡ v x)

Reads-eq :
    (o : Option (List AllocatorItem)) (v w : ℕ → Option AllocatorValue)
    → ((x : ℕ) → v x ≡ w x)
    → Reads o v
    → Reads o w
Reads-eq none v w h r = r
Reads-eq (some layer) v w h r = (r.0, λ x. r.1 x ∙ h x)

-- The item stands in front of what is pending.
abbrev InFront : Option AllocatorItem → List AllocatorItem → Type 0
InFront none is = Unit
InFront (some i) is = Above i.key.device_range.end is

Above-list_of_front :
    (q : ℕ) (o : Option AllocatorItem) (is : List AllocatorItem)
    → From q o
    → Above q is
    → InFront o is
    → Above q (list_of o ++ is)
Above-list_of_front q none is f a n = a
Above-list_of_front q (some i) is f a n = (f.0, f.1, n)

finish-list :
    (p : List AllocatorItem) (o : Option AllocatorItem) (m : AllocatorMergeItem)
    (is : List AllocatorItem)
    → finish (record { passed = p; ahead = is; mut_item = m; item = o })
      ≡ p ++ (list_of o ++ pending m is)
unfolding finish
finish-list p none nothing is = refl
finish-list p none (held i) is = refl
finish-list p none iter is = refl
finish-list p (some j) nothing is = append_assoc p (j ∷ []) is
finish-list p (some j) (held i) is = append_assoc p (j ∷ []) (i ∷ is)
finish-list p (some j) iter is = append_assoc p (j ∷ []) is

finish-Reads :
    (q : ℕ) (s : MergeState)
    → Inv q s
    → InFront s.item (pending s.mut_item s.ahead)
    → Reads (some (finish s)) (view s)
finish-Reads q s v n =
    let e = finish-list s.passed s.item s.mut_item s.ahead in
    let rest = pending s.mut_item s.ahead in
    rw e (
      Chain-append-Above 0 q s.passed (list_of s.item ++ rest) v.behind
          (Above-list_of_front q s.item rest v.item_from v.sorted n),
      λ x.
          lookup-append s.passed (list_of s.item ++ rest) x
          ∙ ap (or_else (lookup s.passed x)) (
              lookup-append (list_of s.item) rest x
              ∙ ap (λ o. or_else o (lookup rest x)) (lookup-list_of s.item x)),
    )

round_no_item :
    (c : Option AllocatorItem) (s : MergeState) → round {K = AllocatorKey} merge c none s ≡ none
unfolding round
round_no_item none s = refl
round_no_item (some m) s = refl

-- The loop with `fuel` rounds reads as the state, if its load is below the fuel.
abbrev Correct : ℕ → Type 0
Correct fuel =
    (q : ℕ) (s : MergeState) → load s < fuel → Inv q s → Reads (merge_loop fuel merge s) (view s)

-- One round with an item on both sides, and then the rest of the loop.
merge_loop-step :
    (fuel q : ℕ) (p is rest : List AllocatorItem) (mut : AllocatorMergeItem) (m i : AllocatorItem)
    → let s : MergeState = record { passed = p; ahead = is; mut_item = mut; item = some i } in
      Correct fuel
      → load s < suc fuel
      → Inv q s
      → pending mut is ≡ m ∷ rest
      → (o : Option MergeState) → round {K = AllocatorKey} merge (current mut is) (some i) s ≡ o
      → RoundEnds p i m rest o
      → Reads (merge_loop (suc fuel) merge s) (view s)
unfolding merge_loop
merge_loop-step fuel q p is rest mut m i ih h v k none e r =
    let (from, full, above) = subst (Above q) k v.sorted in
    let front : Above i.key.device_range.end (pending mut is) =
      subst (Above i.key.device_range.end) (sym k) (r, full, above) in
    rw (e, merge_loop) (finish-Reads q _ v front)
merge_loop-step fuel q p is rest mut m i ih h v k (some s') e r =
    let old : MergeState = record { passed = p; ahead = is; mut_item = mut; item = some i } in
    rw (e, merge_loop)
      (Reads-eq (merge_loop fuel merge s') (view s') (view old)
        (λ x.
          r.same_view x
          ∙ sym (ap (λ z. or_else (lookup p x) (or_else (value_at i x) (lookup z x))) k))
        (ih r.bound s' (omega (arith, r.lighter, ap weights k)) r.inv))

merge_loop-by_items :
    (fuel q : ℕ) (p is : List AllocatorItem) (m : AllocatorMergeItem) (o : Option AllocatorItem)
    → let s : MergeState = record { passed = p; ahead = is; mut_item = m; item = o } in
      Correct fuel → load s < suc fuel → Inv q s → Reads (merge_loop (suc fuel) merge s) (view s)
unfolding merge_loop
merge_loop-by_items fuel q p is m none ih h v =
    rw (round_no_item (current m is) _, merge_loop) (finish-Reads q _ v tt)
merge_loop-by_items fuel q p [] nothing (some i) ih h v = finish-Reads q _ v tt
merge_loop-by_items fuel q p (x ∷ is) nothing (some i) ih h v = absurd v.coherent
merge_loop-by_items fuel q p [] iter (some i) ih h v = absurd v.coherent
merge_loop-by_items fuel q p (m ∷ is) iter (some i) ih h v =
    merge_loop-step fuel q p (m ∷ is) is iter m i ih h v refl _ refl
      (round-iter q p is m i v.behind v.sorted v.item_from)
merge_loop-by_items fuel q p is (held m) (some i) ih h v =
    merge_loop-step fuel q p is is (held m) m i ih h v refl _ refl
      (round-held q p is m i v.behind v.sorted v.item_from)

-- With more fuel than the state's load, the loop ends with a sorted layer that reads as the state.
merge_loop-Reads : (fuel : ℕ) → Correct fuel
merge_loop-Reads zero q s h v = absurd (omega arith)
merge_loop-Reads (suc fuel) q s h v =
    merge_loop-by_items fuel q s.passed s.ahead s.mut_item s.item (merge_loop-Reads fuel) h v

compare-cases :
    (a b : ℕ)
    → ((compare a b ≡ lt) × (a < b))
      ⊎ ((compare a b ≡ eq) × (a ≡ b))
      ⊎ ((compare a b ≡ gt) × (b < a))
compare-cases a b = ground arith

abbrev seek_from : ℕ → List AllocatorItem → List AllocatorItem × List AllocatorItem
seek_from t is = seek cmp_upper_bound (record { device_range = range 0 t }) is

-- The cursor starts behind the items that end before `t`.
seek-Chain :
    (t p : ℕ) (is : List AllocatorItem)
    → p ≤ t
    → Above p is
    → (q : ℕ) × Chain p (seek_from t is).0 q
      × Above q (seek_from t is).1
      × (q ≤ t)
      × ((seek_from t is).0 ++ (seek_from t is).1 ≡ is)
unfolding seek cmp_upper_bound
seek-Chain t p [] h a = (p, omega arith, tt, h, refl)
seek-Chain t p (i ∷ is) h a = elim (compare-cases i.key.device_range.end t) [
  | inl (e, l) ↦
      let (q, c, b, k, s) = seek-Chain t i.key.device_range.end is (omega arith) a.2 in
      rw (e, seek) (q, (a.0, a.1, c), b, k, ap (◌∷◌ i) s)
  | inr (inl (e, l)) ↦ rw (e, seek) (p, omega arith, a, h, refl)
  | inr (inr (e, l)) ↦ rw (e, seek) (p, omega arith, a, h, refl)
]

lookup_behind : (p q x : ℕ) (is : List AllocatorItem) → Chain p is q → q ≤ x → lookup is x ≡ none
lookup_behind p q x [] c h = refl
lookup_behind p q x (i ∷ is) c h =
    ground (arith, lookup_behind i.key.device_range.end q x is c.2 h, Chain-le _ q is c.2)

pending-item_from_iter : (is : List AllocatorItem) → pending (item_from_iter is) is ≡ is
pending-item_from_iter [] = refl
pending-item_from_iter (i ∷ is) = refl

item_from_iter-Coherent : (is : List AllocatorItem) → Coherent (item_from_iter is) is
item_from_iter-Coherent [] = tt
item_from_iter-Coherent (i ∷ is) = tt

weights-append_le : (xs ys : List AllocatorItem) → weights ys ≤ weights (xs ++ ys)
weights-append_le [] ys = omega arith
weights-append_le (x ∷ xs) ys = omega (arith, weights-append_le xs ys)

-- A cursor in front of the item: the loop's state reads as the item over the layer.
view_over :
    (p q : ℕ) (xs ys zs : List AllocatorItem) (i : AllocatorItem) (x : ℕ)
    → Chain p xs q
    → q ≤ i.key.device_range.start
    → zs ≡ ys
    → or_else (lookup xs x) (or_else (value_at i x) (lookup zs x))
      ≡ or_else (value_at i x) (lookup (xs ++ ys) x)
view_over p q xs ys zs i x c h e =
    ground (arith, lookup_behind p q x xs c, lookup-append xs ys x, ap (λ z. lookup z x) e)

-- Inserting an item that is not empty into a sorted layer ends, with fuel above the lengths and
-- number of the items, in a sorted layer without overlaps that reads, at each offset, as the item
-- where the item covers it and as the old layer elsewhere.
pub insert_into_layer-Reads :
    (fuel : ℕ) (layer : List AllocatorItem) (item : AllocatorItem)
    → Above 0 layer
    → item.key.device_range.start < item.key.device_range.end
    → weight (some item) + weights layer < fuel
    → Reads (insert_into_layer fuel layer item) (λ x. or_else (value_at item x) (lookup layer x))
unfolding insert_into_layer layer_merge_into merge_into lower_bound_for_merge_into
insert_into_layer-Reads fuel layer item a h f =
    let t = item.key.device_range.start in
    let (q, c, b, k, s) = seek-Chain t 0 layer (omega arith) a in
    let xs = (seek_from t layer).0 in
    let ys = (seek_from t layer).1 in
    let e = pending-item_from_iter ys in
    let total = ap weights s in
    let start : MergeState = record {
      passed = xs;
      ahead = ys;
      mut_item = item_from_iter ys;
      item = some item;
    } in
    Reads-eq (merge_loop fuel merge start) (view start) _
      (λ x. view_over 0 q xs ys _ item x c k e ∙ ap (λ z. or_else (value_at item x) (lookup z x)) s)
      (merge_loop-Reads fuel q start (omega (arith, weights-append_le xs ys, ap weights e))
        (record {
          behind = c;
          sorted = subst (Above q) (sym e) b;
          item_from = (k, h);
          coherent = item_from_iter-Coherent ys;
        }))
