-- ===== src/Lsm/Layer/Sorted.antt =====
-- Inserting into a layer and erasing from it: where an item goes, and that erasing undoes inserting.
use Prim.Native.Nat.{Ordering}
use Prim.Native.Nat.Ordering.{lt, gt, eq}
use fxfs_on_linux.Common.{
  ◌≡◌, ◌⊎◌, refl, ap, ◌∙◌, inl, inr, List, [], ◌∷◌, ◌++◌, true, Bool-cases, internal, Ends,
}
use fxfs_on_linux.Lsm.Types.{Item}
use fxfs_on_linux.Lsm.MergeInto.{seek}
use fxfs_on_linux.Lsm.Layer.{LayerKey, insert, erase, is_at}

-- What the order and the equality of the keys promise.
pub record LayerKeyLaws {ℓ} (K : Type ℓ) (k : LayerKey K) : Type ℓ where
  pub cmp_refl : (a : K) → k.cmp_upper_bound a a ≡ eq
  pub same_refl : (a : K) → k.same a a ≡ true

Ordering-cases : (o : Ordering) → (o ≡ lt) ⊎ ((o ≡ eq) ⊎ (o ≡ gt))
Ordering-cases lt = inl refl
Ordering-cases eq = inr (inl refl)
Ordering-cases gt = inr (inr refl)

-- What is in front of the place of a key, and what is behind it.
module _ {K V : Type 0} ⦃k : LayerKey K⦄ where
  abbrev pub place : K → List (Item K V) → List (Item K V) × List (Item K V)
  place key layer = seek k.cmp_upper_bound key layer

module _ {K V : Type 0} ⦃k : LayerKey K⦄ (laws : LayerKeyLaws K k) where
  place-below :
      (key : K) (i : Item K V) (is : List (Item K V))
      → k.cmp_upper_bound i.key key ≡ lt
      → place key (i ∷ is) ≡ (i ∷ (place key is).0, (place key is).1)
  unfolding seek
  place-below key i is e = rw (seek, e) refl

  place-above :
      (key : K) (i : Item K V) (is : List (Item K V))
      → (k.cmp_upper_bound i.key key ≡ eq) ⊎ (k.cmp_upper_bound i.key key ≡ gt)
      → place key (i ∷ is) ≡ ([], i ∷ is)
  unfolding seek
  place-above key i is (inl e) = rw (seek, e) refl
  place-above key i is (inr e) = rw (seek, e) refl

  place-append :
      (key : K) (layer : List (Item K V)) → (place key layer).0 ++ (place key layer).1 ≡ layer
  unfolding seek
  place-append key [] = refl
  place-append key (i ∷ is) = elim (Ordering-cases (k.cmp_upper_bound i.key key)) [
    | inl e ↦ ap (λ t. t.0 ++ t.1) (place-below key i is e) ∙ ap (λ t. i ∷ t) (place-append key is)
    | inr e ↦ ap (λ t. t.0 ++ t.1) (place-above key i is e)
  ]

  -- Seeking an item that was put where it belongs stops at it.
  place-insert :
      (item : Item K V) (layer : List (Item K V))
      → place item.key ((place item.key layer).0 ++ item ∷ (place item.key layer).1)
        ≡ ((place item.key layer).0, item ∷ (place item.key layer).1)
  unfolding seek
  place-insert item [] = place-above item.key item [] (inl (laws.cmp_refl item.key))
  place-insert item (i ∷ is) = elim (Ordering-cases (k.cmp_upper_bound i.key item.key)) [
    | inl e ↦ rw (place-below item.key i is e) (
        place-below item.key i ((place item.key is).0 ++ item ∷ (place item.key is).1) e
        ∙ ap (λ t. (i ∷ t.0, t.1)) (place-insert item is))
    | inr e ↦
        rw (place-above item.key i is e)
          (place-above item.key item (i ∷ is) (inl (laws.cmp_refl item.key)))
  ]

  -- Where the order of the keys and their equality are reflexive, inserting an item into a layer fails
  -- if the place for its key has an item with that key; otherwise the layer has the item in addition,
  -- and erasing its key gives the old layer back.
  pub erase-insert :
      (layer : List (Item K V)) (item : Item K V)
      → Ends
          (insert layer item)
          (λ layer'.
            (erase layer' item.key ≡ layer)
            × (layer' ≡ (place item.key layer).0 ++ item ∷ (place item.key layer).1))
          λ e. (e ≡ internal) × (is_at item.key (place item.key layer).1 ≡ true)
  unfolding insert erase
  erase-insert layer item = elim (Bool-cases (is_at item.key (place item.key layer).1)) [
    | inl e ↦ rw e (refl, refl)
    | inr e ↦
        rw e (
          rw (place-insert item layer, laws.same_refl item.key) (place-append item.key layer),
          refl,
        )
  ]
