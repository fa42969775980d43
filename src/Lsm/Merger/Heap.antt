-- ===== src/Lsm/Merger/Heap.antt =====
-- The heap of a `MergerIterator` (src/lsm_tree/merge.rs): pushing keeps it in order.
use Prim.Native.Nat.{Ordering}
use Prim.Native.Nat.Ordering.{lt, gt, eq}
use fxfs_on_linux.Common.{
  ℕ, ◌<◌, ◌≡◌, ◌≢◌, ◌↔◌, ◌⊎◌, refl, sym, subst, inl, inr, List, [], ◌∷◌, Bool, true, false,
  Bool-cases, All, All-imp, arith,
}
use fxfs_on_linux.Lsm.Types.{Item}
use fxfs_on_linux.Lsm.Merger.{MergeableKey, Cursor, item_from_iter, comes_first, push, push_some}

-- The keys do not overlap, and both of their orders are one total order.
pub record PointKeys (K : Type 0) (k : MergeableKey K) : Type 0 where
  pub same_iff : (a b : K) → (k.same a b ≡ true) ↔ (a ≡ b)
  pub upper_lower : (a b : K) → k.cmp_upper_bound a b ≡ k.cmp_lower_bound a b
  pub cmp_refl : (a : K) → k.cmp_lower_bound a a ≡ eq
  pub cmp_eq : (a b : K) → k.cmp_lower_bound a b ≡ eq → a ≡ b
  pub cmp_lt : (a b : K) → k.cmp_lower_bound a b ≡ lt → k.cmp_lower_bound b a ≡ gt
  pub cmp_gt : (a b : K) → k.cmp_lower_bound a b ≡ gt → k.cmp_lower_bound b a ≡ lt
  pub cmp_trans :
      (a b c : K)
      → k.cmp_lower_bound a b ≡ lt
      → k.cmp_lower_bound b c ≡ lt
      → k.cmp_lower_bound a c ≡ lt

-- Which items the layers may have: what a merge function asks of them. For an object store see
-- ObjectStore.Points.
pub record Permitted (K V : Type 0) : Type 0 where
  pub allows : Item K V → Bool

pub Ordering-cases : (o : Ordering) → (o ≡ lt) ⊎ ((o ≡ eq) ⊎ (o ≡ gt))
Ordering-cases lt = inl refl
Ordering-cases eq = inr (inl refl)
Ordering-cases gt = inr (inr refl)

module _ {K V : Type 0} ⦃k : MergeableKey K⦄ where
  abbrev pub IsBelow : K → Item K V → Type 0
  IsBelow key i = k.cmp_lower_bound key i.key ≡ lt

  abbrev pub Precedes : Cursor K V → Cursor K V → Type 0
  Precedes c d =
      (k.cmp_lower_bound c.at.key d.at.key ≡ lt)
      ⊎ ((k.cmp_lower_bound c.at.key d.at.key ≡ eq) × (c.layer_index < d.layer_index))

  abbrev pub IsApart : Cursor K V → Cursor K V → Type 0
  IsApart c d = d.layer_index ≢ c.layer_index

  pub All-push :
      (P : Cursor K V → Type 0) (c : Cursor K V) (h : List (Cursor K V))
      → P c
      → All P h
      → All P (push c h)
  unfolding push
  All-push P c [] p a = (p, tt)
  All-push P c (d ∷ h) p a = elim (Bool-cases (comes_first c d)) [
    | inl e ↦ rw e (p, a)
    | inr e ↦ rw e (a.0, All-push P c h p a.1)
  ]

module _ {K V : Type 0} ⦃k : MergeableKey K⦄ ⦃q : Permitted K V⦄ where
  -- The items of a layer are in strictly ascending order, and permitted.
  abbrev pub IsAscending : List (Item K V) → Type 0
  IsAscending [] = Unit {0}
  IsAscending (i ∷ is) = All (IsBelow i.key) is × IsAscending is × (q.allows i ≡ true)

  -- The cursors are in order, they are of different layers, and what each gives is in order.
  abbrev pub IsHeap : List (Cursor K V) → Type 0
  IsHeap [] = Unit {0}
  IsHeap (c ∷ h) =
      (IsAscending (c.at ∷ c.rest) × All (Precedes c) h) × (All (IsApart c) h × IsHeap h)

module _ {K V : Type 0} ⦃k : MergeableKey K⦄ (laws : PointKeys K k) where
  pub Precedes-trans : (c d e : Cursor K V) → Precedes c d → Precedes d e → Precedes c e
  Precedes-trans c d e (inl p) (inl q) = inl (laws.cmp_trans c.at.key d.at.key e.at.key p q)
  Precedes-trans c d e (inl p) (inr q) =
      inl (subst (λ (t : K). k.cmp_lower_bound c.at.key t ≡ lt) (laws.cmp_eq _ _ q.0) p)
  Precedes-trans c d e (inr p) (inl q) =
      inl (subst (λ (t : K). k.cmp_lower_bound t e.at.key ≡ lt) (sym (laws.cmp_eq _ _ p.0)) q)
  Precedes-trans c d e (inr p) (inr q) = inr (
    subst (λ (t : K). k.cmp_lower_bound t e.at.key ≡ eq) (sym (laws.cmp_eq _ _ p.0)) q.0,
    omega (arith, p.1, q.1),
  )

  comes_first-Precedes : (c d : Cursor K V) → IsApart c d → comes_first c d ≡ true → Precedes c d
  unfolding comes_first
  comes_first-Precedes c d a e = elim (Ordering-cases (k.cmp_lower_bound c.at.key d.at.key)) [
    | inl o ↦ inl o
    | inr (inl o) ↦ inr (o, ground arith)
    | inr (inr o) ↦ ground arith
  ]

  not-comes_first : (c d : Cursor K V) → IsApart c d → comes_first c d ≡ false → Precedes d c
  unfolding comes_first
  not-comes_first c d a e = elim (Ordering-cases (k.cmp_lower_bound c.at.key d.at.key)) [
    | inl o ↦ ground arith
    | inr (inl o) ↦ inr (
      subst (λ (t : K). k.cmp_lower_bound t c.at.key ≡ eq) (laws.cmp_eq _ _ o)
          (laws.cmp_refl c.at.key),
      ground arith,
    )
    | inr (inr o) ↦ inl (laws.cmp_gt _ _ o)
  ]

module _ {K V : Type 0} ⦃k : MergeableKey K⦄ ⦃q : Permitted K V⦄ (laws : PointKeys K k) where
  pub push-IsHeap :
      (c : Cursor K V) (h : List (Cursor K V))
      → IsAscending (c.at ∷ c.rest)
      → All (IsApart c) h
      → IsHeap h
      → IsHeap (push c h)
  unfolding push
  push-IsHeap c [] s a v = ((s, tt), (tt, tt))
  push-IsHeap c (d ∷ h) s a v = elim (Bool-cases (comes_first c d)) [
    | inl e ↦
        let first = comes_first-Precedes laws c d a.0 e in
        rw e (
          (
            s,
            (
              first,
              All-imp (Precedes d) (Precedes c) (λ x. Precedes-trans laws c d x first) h v.0.1,
            ),
          ),
          (a, v),
        )
    | inr e ↦ rw e (
      (v.0.0, All-push (Precedes d) c h (not-comes_first laws c d a.0 e) v.0.1),
      (All-push (IsApart d) c h (λ q. a.0 (sym q)) v.1.0, push-IsHeap c h s a.1 v.1.1),
    )
  ]

  pub push_next-IsHeap :
      (n : ℕ) (is : List (Item K V)) (h : List (Cursor K V))
      → IsAscending is
      → All (λ d. d.layer_index ≢ n) h
      → IsHeap h
      → IsHeap (push_some (item_from_iter n is) h)
  push_next-IsHeap n [] h s a v = v
  push_next-IsHeap n (i ∷ is) h s a v =
      push-IsHeap (record { layer_index = n; at = i; rest = is }) h s a v
