-- ===== src/Lsm/Query/Opened.antt =====
-- The heap of a merger (src/lsm_tree/merge.rs) that has pushed every layer says of a key what the
-- newest layer with the key says.
use fxfs_on_linux.Common.{
  ℕ, suc, ◌+◌, ◌≤◌, ◌<◌, ◌≡◌, ◌≢◌, refl, sym, ap, ◌∙◌, List, [], ◌∷◌, true, Option, none, some,
  length, All, All-imp, arith,
}
use fxfs_on_linux.Lsm.Types.{Item}
use fxfs_on_linux.Lsm.Merger.{
  MergeableKey, Cursor, Pending, unbounded, item_from_iter, pending_from, push_some, seek_layer,
  needs_more_iterators, push_iterators,
}
use fxfs_on_linux.Lsm.Merger.Heap.{
  PointKeys, Permitted, IsAscending, IsHeap, All-push, push_next-IsHeap,
}
use fxfs_on_linux.Lsm.Merger.Reads.{
  lookup, or_else, tagged, untagged, newer, newer_assoc, newer_none, reads, weight,
  weight-push_next, reads-push_next, newer-reads_comm,
}

module _ {K V : Type 0} ⦃k : MergeableKey K⦄ ⦃q : Permitted K V⦄ where
  -- The item with the key in the newest layer that has one.
  abbrev pub newest : List (List (Item K V)) → K → Option (Item K V)
  newest [] key = none
  newest (l ∷ ls) key = or_else (lookup key l) (newest ls key)

  layer_reads : ℕ → List (List (Item K V)) → K → Option (ℕ × Item K V)
  layer_reads n [] key = none
  layer_reads n (l ∷ ls) key = newer (tagged n (lookup key l)) (layer_reads (suc n) ls key)

  -- Every layer is pushed.
  unfoldable pub opened : ℕ → List (List (Item K V)) → List (Cursor K V) → List (Cursor K V)
  opened n [] h = h
  opened n (l ∷ ls) h = opened (suc n) ls (push_some (item_from_iter n l) h)

abbrev pub total : {A : Type 0} → List (List A) → ℕ
total [] = 0
total (l ∷ ls) = length l + total ls

abbrev IsFrom : {A : Type 0} → ℕ → Option (ℕ × A) → Type 0
IsFrom n none = Unit {0}
IsFrom n (some t) = n ≤ t.0

module _ {A : Type 0} where
  newer-IsFrom :
      (n : ℕ) (o : Option A) (r : Option (ℕ × A))
      → IsFrom (suc n) r
      → IsFrom n (newer (tagged n o) r)
  unfolding newer
  newer-IsFrom n none none h = tt
  newer-IsFrom n none (some (m, b)) h = omega arith
  newer-IsFrom n (some a) none h = omega arith
  newer-IsFrom n (some a) (some (m, b)) h = ground arith

  untagged-newer :
      (n : ℕ) (o : Option A) (r : Option (ℕ × A))
      → IsFrom (suc n) r
      → untagged (newer (tagged n o) r) ≡ or_else o (untagged r)
  unfolding newer
  untagged-newer n none r h = refl
  untagged-newer n (some a) none h = refl
  untagged-newer n (some a) (some (m, b)) h = ground arith

module _ {K V : Type 0} ⦃k : MergeableKey K⦄ ⦃q : Permitted K V⦄ where
  layer_reads-IsFrom :
      (n : ℕ) (ls : List (List (Item K V))) (key : K) → IsFrom n (layer_reads n ls key)
  unfolding layer_reads
  layer_reads-IsFrom n [] key = tt
  layer_reads-IsFrom n (l ∷ ls) key =
      newer-IsFrom n (lookup key l) (layer_reads (suc n) ls key) (layer_reads-IsFrom (suc n) ls key)

  untagged-layer_reads :
      (n : ℕ) (ls : List (List (Item K V))) (key : K)
      → untagged (layer_reads n ls key) ≡ newest ls key
  unfolding layer_reads
  untagged-layer_reads n [] key = refl
  untagged-layer_reads n (l ∷ ls) key =
      untagged-newer n (lookup key l) (layer_reads (suc n) ls key)
        (layer_reads-IsFrom (suc n) ls key)
      ∙ ap (or_else (lookup key l)) (untagged-layer_reads (suc n) ls key)

  needs-all :
      (p : Pending K V) (ps : List (Pending K V)) (h : List (Cursor K V))
      → needs_more_iterators none (p ∷ ps) h ≡ true
  unfolding needs_more_iterators
  needs-all p ps [] = refl
  needs-all p ps (c ∷ h) = refl

  seek_layer-unbounded : (l : List (Item K V)) → seek_layer unbounded l ≡ l
  unfolding seek_layer
  seek_layer-unbounded [] = refl
  seek_layer-unbounded (i ∷ is) = refl

  pub push_iterators-all :
      (n : ℕ) (ls : List (List (Item K V))) (h : List (Cursor K V))
      → push_iterators none unbounded (pending_from n ls) h ≡ ([], opened n ls h)
  unfolding push_iterators opened
  push_iterators-all n [] h = refl
  push_iterators-all n (l ∷ ls) h =
      rw
        (
          needs-all (record { layer_index = n; layer = l }) (pending_from (suc n) ls) h,
          seek_layer-unbounded l,
        )
        (push_iterators-all (suc n) ls (push_some (item_from_iter n l) h))

  -- The heap has only layers that come before this one.
  abbrev pub AreBefore : ℕ → List (Cursor K V) → Type 0
  AreBefore n h = All (λ c. c.layer_index < n) h

  pub apart : (n : ℕ) (h : List (Cursor K V)) → AreBefore n h → All (λ c. c.layer_index ≢ n) h
  apart n h a = All-imp _ _ (λ c b q. omega (arith, b, q)) h a

  pub push_next-AreBefore :
      (n : ℕ) (l : List (Item K V)) (h : List (Cursor K V))
      → AreBefore n h
      → AreBefore (suc n) (push_some (item_from_iter n l) h)
  push_next-AreBefore n [] h a = All-imp _ _ (λ c b. omega (arith, b)) h a
  push_next-AreBefore n (i ∷ is) h a =
      All-push (λ c. c.layer_index < suc n) (record { layer_index = n; at = i; rest = is }) h
        (omega arith) (All-imp _ _ (λ c b. omega (arith, b)) h a)

  reads-opened :
      (n : ℕ) (ls : List (List (Item K V))) (h : List (Cursor K V)) (key : K)
      → AreBefore n h
      → reads (opened n ls h) key ≡ newer (reads h key) (layer_reads n ls key)
  unfolding opened layer_reads
  reads-opened n [] h key a = sym (newer_none (reads h key))
  reads-opened n (l ∷ ls) h key a =
      reads-opened (suc n) ls (push_some (item_from_iter n l) h) key (push_next-AreBefore n l h a)
      ∙ ap (λ o. newer o (layer_reads (suc n) ls key))
          (reads-push_next key n l h (apart n h a)
            ∙ newer-reads_comm key n (lookup key l) h (apart n h a))
      ∙ newer_assoc (reads h key) (tagged n (lookup key l)) (layer_reads (suc n) ls key)

  pub weight-opened :
      (n : ℕ) (ls : List (List (Item K V))) (h : List (Cursor K V))
      → weight (opened n ls h) ≡ total ls + weight h
  unfolding opened
  weight-opened n [] h = omega arith
  weight-opened n (l ∷ ls) h =
      omega
        (arith, weight-opened (suc n) ls (push_some (item_from_iter n l) h), weight-push_next n l h)

  -- All layers pushed, the heap says of a key what the newest layer with it says.
  pub opened-newest :
      (ls : List (List (Item K V))) (key : K)
      → untagged (reads (opened 0 ls []) key) ≡ newest ls key
  unfolding reads newer
  opened-newest ls key = ap untagged (reads-opened 0 ls [] key tt) ∙ untagged-layer_reads 0 ls key

module _ {K V : Type 0} ⦃k : MergeableKey K⦄ ⦃q : Permitted K V⦄ (laws : PointKeys K k) where
  pub opened-IsHeap :
      (n : ℕ) (ls : List (List (Item K V))) (h : List (Cursor K V))
      → All IsAscending ls
      → AreBefore n h
      → IsHeap h
      → IsHeap (opened n ls h)
  unfolding opened
  opened-IsHeap n [] h s a v = v
  opened-IsHeap n (l ∷ ls) h s a v =
      opened-IsHeap (suc n) ls (push_some (item_from_iter n l) h) s.1 (push_next-AreBefore n l h a)
        (push_next-IsHeap laws n l h s.0 (apart n h a) v)
