-- ===== src/Lsm/Merger/Reads.antt =====
-- What the heap of a `MergerIterator` (src/lsm_tree/merge.rs) says of a key: the item of the newest
-- layer that has the key.
use Prim.Native.Nat.Ordering.{lt, eq}
use fxfs_on_linux.Common.{
  ℕ, suc, ◌+◌, ◌<◌, ◌≡◌, ◌≢◌, refl, sym, ap, subst, ◌∙◌, inl, inr, List, [], ◌∷◌, false, Bool-cases,
  Option, none, some, ltb, if◌then◌else◌, length, All, arith,
}
use fxfs_on_linux.Lsm.Types.{Item}
use fxfs_on_linux.Lsm.Merger.{MergeableKey, Cursor, item_from_iter, comes_first, push, push_some}
use fxfs_on_linux.Lsm.Merger.Heap.{PointKeys, IsBelow, IsApart}

module _ {K V : Type 0} ⦃k : MergeableKey K⦄ where
  -- The first item with the key.
  abbrev pub lookup : K → List (Item K V) → Option (Item K V)
  lookup key [] = none
  lookup key (i ∷ is) = if k.same i.key key then some i else lookup key is

abbrev pub or_else : {A : Type 0} → Option A → Option A → Option A
or_else none o = o
or_else (some a) o = some a

-- An item with the layer that it is from.
abbrev pub tagged : {A : Type 0} → ℕ → Option A → Option (ℕ × A)
tagged n none = none
tagged n (some a) = some (n, a)

abbrev pub untagged : {A : Type 0} → Option (ℕ × A) → Option A
untagged none = none
untagged (some (n, a)) = some a

-- The item of the newer layer.
unfoldable pub newer : {A : Type 0} → Option (ℕ × A) → Option (ℕ × A) → Option (ℕ × A)
newer none r = r
newer (some t) none = some t
newer (some (n, a)) (some (m, b)) = if ltb m n then some (m, b) else some (n, a)

module _ {A : Type 0} where
  pub newer_swap :
      (n m : ℕ) (o p : Option A) (r : Option (ℕ × A))
      → n ≢ m
      → newer (tagged n o) (newer (tagged m p) r) ≡ newer (tagged m p) (newer (tagged n o) r)
  unfolding newer
  newer_swap n m none p r h = refl
  newer_swap n m (some a) none r h = refl
  newer_swap n m (some a) (some b) none h = ground arith
  newer_swap n m (some a) (some b) (some (j, c)) h = ground arith

  pub newer_assoc : (o p r : Option (ℕ × A)) → newer (newer o p) r ≡ newer o (newer p r)
  unfolding newer
  newer_assoc none p r = refl
  newer_assoc (some t) none r = refl
  newer_assoc (some t) (some u) none = ground arith
  newer_assoc (some (n, a)) (some (m, b)) (some (j, c)) = ground arith

  pub newer_none : (o : Option (ℕ × A)) → newer o none ≡ o
  unfolding newer
  newer_none none = refl
  newer_none (some t) = refl

  -- What an older layer says does not matter where a newer one has an item.
  pub newer_shadows :
      (n m : ℕ) (a : A) (p : Option A) (r : Option (ℕ × A))
      → n < m
      → newer (some (n, a)) (newer (tagged m p) r) ≡ newer (some (n, a)) r
  unfolding newer
  newer_shadows n m a none r h = refl
  newer_shadows n m a (some b) none h = ground arith
  newer_shadows n m a (some b) (some (j, c)) h = ground arith

module _ {K V : Type 0} ⦃k : MergeableKey K⦄ where
  abbrev pub entry : K → Cursor K V → Option (ℕ × Item K V)
  entry key c = tagged c.layer_index (lookup key (c.at ∷ c.rest))

  -- The item of the newest layer that still has one with the key.
  unfoldable pub reads : List (Cursor K V) → K → Option (ℕ × Item K V)
  unfolding newer
  reads [] key = none
  reads (c ∷ h) key = newer (entry key c) (reads h key)

  -- The items that are left.
  unfoldable pub weight : List (Cursor K V) → ℕ
  weight [] = 0
  weight (c ∷ h) = suc (length c.rest) + weight h

  pub weight-push :
      (c : Cursor K V) (h : List (Cursor K V)) → weight (push c h) ≡ suc (length c.rest) + weight h
  unfolding weight push
  weight-push c [] = refl
  weight-push c (d ∷ h) = elim (Bool-cases (comes_first c d)) [
    | inl e ↦ rw e refl
    | inr e ↦ rw e (omega (arith, weight-push c h))
  ]

  pub weight-push_next :
      (n : ℕ) (is : List (Item K V)) (h : List (Cursor K V))
      → weight (push_some (item_from_iter n is) h) ≡ length is + weight h
  weight-push_next n [] h = omega arith
  weight-push_next n (i ∷ is) h = weight-push (record { layer_index = n; at = i; rest = is }) h

  pub reads-push :
      (key : K) (c : Cursor K V) (h : List (Cursor K V))
      → All (IsApart c) h
      → reads (push c h) key ≡ newer (entry key c) (reads h key)
  unfolding reads push
  reads-push key c [] a = refl
  reads-push key c (d ∷ h) a = elim (Bool-cases (comes_first c d)) [
    | inl e ↦ rw e refl
    | inr e ↦ rw e (
        ap (newer (entry key d)) (reads-push key c h a.1)
        ∙ newer_swap d.layer_index c.layer_index (lookup key (d.at ∷ d.rest))
            (lookup key (c.at ∷ c.rest)) (reads h key) a.0)
  ]

  pub reads-push_next :
      (key : K) (n : ℕ) (is : List (Item K V)) (h : List (Cursor K V))
      → All (λ d. d.layer_index ≢ n) h
      → reads (push_some (item_from_iter n is) h) key
        ≡ newer (tagged n (lookup key is)) (reads h key)
  unfolding newer
  reads-push_next key n [] h a = refl
  reads-push_next key n (i ∷ is) h a =
      reads-push key (record { layer_index = n; at = i; rest = is }) h a

  -- A layer that is apart from those of the heap may be read before them or after them.
  pub newer-reads_comm :
      (key : K) (n : ℕ) (o : Option (Item K V)) (h : List (Cursor K V))
      → All (λ d. d.layer_index ≢ n) h
      → newer (tagged n o) (reads h key) ≡ newer (reads h key) (tagged n o)
  unfolding reads
  newer-reads_comm key n o [] a = newer_none (tagged n o)
  newer-reads_comm key n o (d ∷ h) a =
      newer_swap n d.layer_index o (lookup key (d.at ∷ d.rest)) (reads h key) (λ q. a.0 (sym q))
      ∙ ap (newer (entry key d)) (newer-reads_comm key n o h a.1)
      ∙ sym (newer_assoc (entry key d) (reads h key) (tagged n o))

module _ {K : Type 0} ⦃k : MergeableKey K⦄ (laws : PointKeys K k) where
  pub differs : (a b : K) → a ≢ b → k.same a b ≡ false
  differs a b ne = elim (Bool-cases (k.same a b)) [
    | inl e ↦ absurd (ne ((laws.same_iff a b).0 e))
    | inr e ↦ e
  ]

  pub ne-of_lt : (a b : K) → k.cmp_lower_bound a b ≡ lt → a ≢ b
  ne-of_lt a b o e =
      let wrong : k.cmp_lower_bound a b ≡ eq =
        subst (λ (t : K). k.cmp_lower_bound a t ≡ eq) e (laws.cmp_refl a) in
      cc

module _ {K V : Type 0} ⦃k : MergeableKey K⦄ (laws : PointKeys K k) where
  pub below-ne : (key : K) (i : Item K V) → IsBelow key i → k.same i.key key ≡ false
  below-ne key i b = differs laws i.key key (λ e. ne-of_lt laws key i.key b (sym e))

  -- A key below all items is not found.
  pub lookup-below : (key : K) (is : List (Item K V)) → All (IsBelow key) is → lookup key is ≡ none
  lookup-below key [] a = refl
  lookup-below key (i ∷ is) a = rw (below-ne key i a.0) (lookup-below key is a.1)

  pub lookup_self : (i : Item K V) (is : List (Item K V)) → lookup i.key (i ∷ is) ≡ some i
  lookup_self i is = rw ((laws.same_iff i.key i.key).1 refl) refl
