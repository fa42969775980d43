-- ===== src/ObjectStore/Merge/Extents.antt =====
-- Merging two extents keeps the view from above: for each byte of the attribute, its place on the
-- device under the newest extent that covers it.
use fxfs_on_linux.Common.{
  Returns, Returns-bind, ℕ, ◌+◌, ◌-◌, ◌≤◌, ◌<◌, ◌≡◌, ◌≢◌, refl, true, false, Option, none, some,
  ltb, leb, ◌==◌, sym, min, Bool-cases, leb→le, ltb→lt, lt→ltb, ap, ◌⊎◌, inl, inr, if◌then◌else◌,
  ok, sub_u64-eq, arith,
}
use fxfs_on_linux.Util.Range.{Range}
use fxfs_on_linux.Lsm.Types.{Item, emit_left, other, keep, discard, after_op}
use fxfs_on_linux.Allocator.Merge.View.{covers}
use fxfs_on_linux.ObjectStore.ExtentValue.{ExtentValue, shrunk, offset_by}
use fxfs_on_linux.ObjectStore.ExtentValue.Cut.{Place, place}
use fxfs_on_linux.ObjectStore.ExtentValue.Ranges.{
  IsBoundary, IsExtent, shrunk-IsExtent, offset_by-IsExtent,
}
use fxfs_on_linux.ObjectStore.Record.Data.{ObjectKey}
use fxfs_on_linux.ObjectStore.Record.Value.{ObjectValue}
use fxfs_on_linux.ObjectStore.Record.Item.{extent_of_item}
use fxfs_on_linux.ObjectStore.Merge.{
  Layer, Merged, extent_item, merge, merge_extents, merge_object, merge_deleted_extents, cut_left,
  cut_right, are_adjacent_deletions,
}

-- What an extent says of a byte: nothing outside its range, else the byte's place.
abbrev pub extent_at : ℕ → Range → ExtentValue → ℕ → Option (Option Place)
extent_at bs r v x = if covers r x then some (place bs v (x - r.start)) else none

abbrev pub or_else : Option (Option Place) → Option (Option Place) → Option (Option Place)
or_else none o = o
or_else (some v) o = some v

module _ {W : Type 0} (bs : ℕ) where
  abbrev pub item_at : Item ObjectKey (ObjectValue W) → ℕ → Option (Option Place)
  unfolding extent_of_item
  item_at i x = elim (extent_of_item i) [
    | none ↦ none
    | some (o, a, e, v) ↦ extent_at bs e.bytes v x
  ]

  abbrev pub option_at : Option (Item ObjectKey (ObjectValue W)) → ℕ → Option (Option Place)
  option_at none x = none
  option_at (some i) x = item_at i x

  -- The view from above of an item in the layer `l` and one in the layer `r`.
  abbrev pub seen :
      ℕ
      → Option (Item ObjectKey (ObjectValue W))
      → ℕ
      → Option (Item ObjectKey (ObjectValue W))
      → ℕ
      → Option (Option Place)
  seen l i r j x =
      if ltb l r
      then or_else (option_at i x) (option_at j x)
      else or_else (option_at j x) (option_at i x)

  -- The view after a merge: what was emitted, then what is left of the two items.
  abbrev pub seen_after : Layer W → Layer W → Merged W → ℕ → Option (Option Place)
  seen_after l r emit_left x =
      or_else (item_at l.item x) (seen l.layer_index none r.layer_index (some r.item) x)
  seen_after l r (other emit a b) x =
      or_else (option_at emit x)
        (seen l.layer_index (after_op a l.item) r.layer_index (after_op b r.item) x)

end-IsBoundary : (bs : ℕ) (r : Range) (v : ExtentValue) → IsExtent bs r v → IsBoundary bs r.end
end-IsBoundary bs r v ((p, hp), (n, hn, he, f)) = (p + n, grind arith)

-- A layer's item that is an extent of an attribute.
abbrev pub extent_layer : {W : Type 0} → ℕ → ℕ → ℕ → Range → ExtentValue → ℕ → Layer W
extent_layer i o a r v s = record { layer_index = i; item = extent_item o a r v s }

-- The order in which the merger presents two extents: by start, then the newer first.
abbrev pub IsOrdered : ℕ → Range → ℕ → Range → Type 0
IsOrdered i l j r = (l.start ≤ r.start) × (l.start ≡ r.start → i < j)

==-same : (n : ℕ) → (n == n) ≡ true
==-same n = ground arith

==-false : (m n : ℕ) → m ≢ n → (m == n) ≡ false
==-false m n h = ground arith

-- What tells the deletions that may be merged from the other pairs.
are_adjacent_deletions-cases :
    {W : Type 0} (L R : Layer W) (v w : ExtentValue)
    → (are_adjacent_deletions L R v w ≡ false) ⊎ ((v ≡ ExtentValue.none) × (w ≡ ExtentValue.none))
are_adjacent_deletions-cases L R ExtentValue.none ExtentValue.none = inr (refl, refl)
are_adjacent_deletions-cases L R ExtentValue.none (ExtentValue.some d c k) = inl refl
are_adjacent_deletions-cases L R (ExtentValue.some d c k) w = inl refl

-- The view after a merge of the two extents is the view before.
abbrev pub IsKept :
    (W : Type 0) (bs o a i j s t : ℕ) (l r : Range) (v w : ExtentValue) → Merged W → Type 0
IsKept W bs o a i j s t l r v w m =
    (x : ℕ)
    → seen_after bs (extent_layer i o a l v s) (extent_layer j o a r w t) m x
      ≡ seen {W = W} bs i (some (extent_item o a l v s)) j (some (extent_item o a r w t)) x

module _ (W : Type 0) (bs o a i j s t : ℕ) (l r : Range) (v w : ExtentValue) (hb : 0 < bs)
    (hl : IsExtent bs l v) (hr : IsExtent bs r w) where
  abbrev Kept : Merged W → Type 0
  Kept = IsKept W bs o a i j s t l r v w

  cut_left-IsKept :
      (q : ℕ)
      → j < i
      → l.start < r.start
      → r.start < l.end
      → Returns (cut_left o a (record { bytes = l }) (record { bytes = r }) v q) Kept
  unfolding cut_left extent_of_item
  cut_left-IsKept q hij h k =
      rw
        (
          lt→ltb l.start r.start h,
          sub_u64-eq l.end l.start (omega arith),
          sub_u64-eq r.start l.start (omega arith),
        )
        (Returns-bind Kept (shrunk v (l.end - l.start) (r.start - l.start)) _
          (shrunk-IsExtent bs l.start l.end r.start v hb hl hr.0 h (omega arith))
          λ first p.
            Returns-bind Kept (offset_by v (r.start - l.start) (l.end - l.start)) _
              (offset_by-IsExtent bs l.start l.end r.start v hb hl hr.0 (omega arith) k)
              λ rest p'. λ x. ground (arith, p.1 x, p'.1 x))

  cut_right-IsKept :
      (q : ℕ)
      → i < j
      → r.start < l.end
      → l.start ≤ r.start
      → l.end < r.end
      → Returns (cut_right o a (record { bytes = l }) (record { bytes = r }) w q) Kept
  unfolding cut_right extent_of_item
  cut_right-IsKept q hij h k m =
      rw (sub_u64-eq l.end r.start (omega arith), sub_u64-eq r.end r.start (omega arith))
        (Returns-bind Kept (offset_by w (l.end - r.start) (r.end - r.start)) _
          (offset_by-IsExtent bs r.start r.end l.end w hb hr (end-IsBoundary bs l v hl)
            (omega arith) m)
          λ rest p. λ x. ground (arith, p.1 x))

  emit_left-IsKept : l.end ≤ r.start → Kept emit_left
  unfolding extent_of_item
  emit_left-IsKept h = λ x. ground arith

  discard-IsKept : i < j → l.start ≤ r.start → r.end ≤ l.end → Kept (other none keep discard)
  unfolding extent_of_item
  discard-IsKept h k m = λ x. ground arith

  merge_deleted_extents-IsKept :
      (q : ℕ)
      → l.start ≤ r.start
      → v ≡ ExtentValue.none
      → w ≡ ExtentValue.none
      → Kept (merge_deleted_extents o a (record { bytes = l }) (record { bytes = r }) q)
  unfolding merge_deleted_extents extent_of_item
  merge_deleted_extents-IsKept q h e f = λ x.
      ground (arith, ap (λ u. place bs u (x - l.start)) e, ap (λ u. place bs u (x - r.start)) f)

  -- The part of `merge_extents` behind its test for deletions.
  others-IsKept :
      (q : ℕ)
      → i ≢ j
      → IsOrdered i l j r
      → Returns
          (if leb l.end r.start
            then ok emit_left
            else if ltb j i
            then cut_left o a (record { bytes = l }) (record { bytes = r }) v q
            else if leb r.end l.end
            then ok (other none keep discard)
            else cut_right o a (record { bytes = l }) (record { bytes = r }) w q)
          Kept
  others-IsKept q ne ord = elim (Bool-cases (leb l.end r.start)) [
    | inl e ↦ rw e (emit_left-IsKept (leb→le l.end r.start e))
    | inr e ↦ elim (Bool-cases (ltb j i)) [
      | inl f ↦ rw (e, f) (cut_left-IsKept q (ltb→lt j i f) (ground arith) (ground arith))
      | inr f ↦ elim (Bool-cases (leb r.end l.end)) [
        | inl g ↦ rw (e, f, g) (discard-IsKept (ground arith) ord.0 (leb→le r.end l.end g))
        | inr g ↦
            rw (e, f, g) (cut_right-IsKept q (ground arith) (ground arith) ord.0 (ground arith))
      ]
    ]
  ]

  merge_extents-IsKept :
      i ≢ j
      → IsOrdered i l j r
      → Returns
          (merge_extents o a
            (extent_layer i o a l v s)
            (extent_layer j o a r w t)
            (record { bytes = l })
            (record { bytes = r })
            v
            w)
          Kept
  unfolding merge_extents
  merge_extents-IsKept ne ord =
      rw (==-false j i λ e. ne (sym e))
        (elim (are_adjacent_deletions-cases (extent_layer {W = W} i o a l v s)
          (extent_layer j o a r w t) v w) [
            | inl e ↦ rw e (others-IsKept (min s t) ne ord)
            | inr p ↦
                elim (Bool-cases (
                  are_adjacent_deletions (extent_layer {W = W} i o a l v s)
                    (extent_layer j o a r w t) v w)) [
                      | inl f ↦ rw f (merge_deleted_extents-IsKept (min s t) ord.0 p.0 p.1)
                      | inr f ↦ rw f (others-IsKept (min s t) ne ord)
                    ]
          ])

  -- Merging two extents of one attribute of one object that are whole blocks, with values that fit
  -- them, of different layers and in the merger's order, ends without a panic, and each byte of the
  -- attribute has the place on the device, with its checksum and its key, that the newest of the
  -- two that covers it gave it.
  pub merge-IsKept :
      i ≢ j
      → IsOrdered i l j r
      → Returns
          (merge (extent_layer i o a l v s) (extent_layer j o a r w t))
          (IsKept W bs o a i j s t l r v w)
  unfolding merge merge_object
  merge-IsKept ne ord = rw (==-same o, ==-same a) (merge_extents-IsKept ne ord)
