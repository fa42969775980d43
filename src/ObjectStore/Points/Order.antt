-- ===== src/ObjectStore/Points/Order.antt =====
-- The orders of an object store's keys (src/object_store/object_record.rs), without extents, are one
-- total order.
use Prim.Native.Nat.{compare, Ordering}
use Prim.Native.Nat.Ordering.{lt, eq, gt}
use fxfs_on_linux.Common.{
  ℕ, ◌≡◌, refl, sym, ap, subst, ◌∙◌, inl, inr, true, false, Bool-cases, List, [], ◌∷◌, none, ◌==◌,
  if◌then◌else◌, ok, arith,
}
use fxfs_on_linux.Allocator.Key.{then_with}
use fxfs_on_linux.Lsm.Merger.Heap.{PointKeys, Ordering-cases}
use fxfs_on_linux.ObjectStore.Extent.{ExtentKey}
use fxfs_on_linux.ObjectStore.Record.Key.{
  cmp_name, cmp_attribute, cmp_data, cmp_bound, cmp_upper_bound, cmp_lower_bound, same_key,
  same_key_data, next_key,
}
use fxfs_on_linux.ObjectStore.Points.Names.{name_refl, name_eq, name_lt, name_gt, name_trans}
use fxfs_on_linux.ObjectStore.Points.{PointData, PointKey, as_data, as_key, point_keys}

next_key-as_key :
    (i : ℕ) (x : PointData) → next_key (as_key (record { object_id = i; data_of = x })) ≡ ok none
unfolding next_key
next_key-as_key i PointData.object = refl
next_key-as_key i PointData.keys = refl
next_key-as_key i (PointData.size_of a) = refl
next_key-as_key i (PointData.child n) = refl
next_key-as_key i (PointData.graveyard_entry o) = refl

-- A key as a list of numbers, which are in the same order.
encode_data : PointData → List ℕ
encode_data PointData.object = 0 ∷ []
encode_data PointData.keys = 1 ∷ []
encode_data (PointData.size_of a) = 2 ∷ a ∷ []
encode_data (PointData.child n) = 3 ∷ n
encode_data (PointData.graveyard_entry o) = 4 ∷ o ∷ []

encode : PointKey → List ℕ
encode k = k.object_id ∷ encode_data k.data_of

first : List ℕ → ℕ
first [] = 0
first (n ∷ ns) = n

rest_of : List ℕ → List ℕ
rest_of [] = []
rest_of (n ∷ ns) = ns

decode_data : List ℕ → PointData
decode_data [] = PointData.object
decode_data (v ∷ rest) =
    if v == 0
    then PointData.object
    else if v == 1
    then PointData.keys
    else if v == 2
    then PointData.size_of (first rest)
    else if v == 3
    then PointData.child rest
    else PointData.graveyard_entry (first rest)

decode-encode : (x : PointData) → decode_data (encode_data x) ≡ x
unfolding encode_data decode_data first
decode-encode PointData.object = refl
decode-encode PointData.keys = refl
decode-encode (PointData.size_of a) = refl
decode-encode (PointData.child n) = refl
decode-encode (PointData.graveyard_entry o) = refl

then_with-eq : (o : Ordering) → then_with o eq ≡ o
then_with-eq lt = refl
then_with-eq eq = refl
then_with-eq gt = refl

cmp_data-encode :
    (x y : PointData) → cmp_data (as_data x) (as_data y) ≡ cmp_name (encode_data x) (encode_data y)
unfolding cmp_data cmp_attribute cmp_name encode_data
cmp_data-encode PointData.object PointData.object = refl
cmp_data-encode PointData.object PointData.keys = refl
cmp_data-encode PointData.object (PointData.size_of a') = refl
cmp_data-encode PointData.object (PointData.child n') = refl
cmp_data-encode PointData.object (PointData.graveyard_entry o') = refl
cmp_data-encode PointData.keys PointData.object = refl
cmp_data-encode PointData.keys PointData.keys = refl
cmp_data-encode PointData.keys (PointData.size_of a') = refl
cmp_data-encode PointData.keys (PointData.child n') = refl
cmp_data-encode PointData.keys (PointData.graveyard_entry o') = refl
cmp_data-encode (PointData.size_of a) PointData.object = refl
cmp_data-encode (PointData.size_of a) PointData.keys = refl
cmp_data-encode (PointData.size_of a) (PointData.size_of a') = refl
cmp_data-encode (PointData.size_of a) (PointData.child n') = refl
cmp_data-encode (PointData.size_of a) (PointData.graveyard_entry o') = refl
cmp_data-encode (PointData.child n) PointData.object = refl
cmp_data-encode (PointData.child n) PointData.keys = refl
cmp_data-encode (PointData.child n) (PointData.size_of a') = refl
cmp_data-encode (PointData.child n) (PointData.child n') = refl
cmp_data-encode (PointData.child n) (PointData.graveyard_entry o') = refl
cmp_data-encode (PointData.graveyard_entry o) PointData.object = refl
cmp_data-encode (PointData.graveyard_entry o) PointData.keys = refl
cmp_data-encode (PointData.graveyard_entry o) (PointData.size_of a') = refl
cmp_data-encode (PointData.graveyard_entry o) (PointData.child n') = refl
cmp_data-encode (PointData.graveyard_entry o) (PointData.graveyard_entry o') =
    sym (then_with-eq (compare o o'))

cmp_bound-as_data :
    (by : ExtentKey → ExtentKey → Ordering) (x y : PointData)
    → cmp_bound by (as_data x) (as_data y) ≡ cmp_data (as_data x) (as_data y)
cmp_bound-as_data by PointData.object y = refl
cmp_bound-as_data by PointData.keys y = refl
cmp_bound-as_data by (PointData.size_of a) y = refl
cmp_bound-as_data by (PointData.child n) y = refl
cmp_bound-as_data by (PointData.graveyard_entry o) y = refl

lower-encode :
    (j k : PointKey) → cmp_lower_bound (as_key j) (as_key k) ≡ cmp_name (encode j) (encode k)
unfolding cmp_lower_bound cmp_name encode
lower-encode j k =
    ap (then_with (compare j.object_id k.object_id))
      (cmp_bound-as_data _ j.data_of k.data_of ∙ cmp_data-encode j.data_of k.data_of)

upper-lower :
    (j k : PointKey) → cmp_upper_bound (as_key j) (as_key k) ≡ cmp_lower_bound (as_key j) (as_key k)
unfolding cmp_upper_bound cmp_lower_bound
upper-lower j k =
    ap (then_with (compare j.object_id k.object_id))
      (cmp_bound-as_data _ j.data_of k.data_of ∙ sym (cmp_bound-as_data _ j.data_of k.data_of))

encode-eq : (j k : PointKey) → encode j ≡ encode k → j ≡ k
unfolding encode first rest_of
encode-eq j k e =
    let ids : j.object_id ≡ k.object_id = ap first e in
    let datas : j.data_of ≡ k.data_of =
      sym (decode-encode j.data_of)
      ∙ ap (λ ns. decode_data (rest_of ns)) e
      ∙ decode-encode k.data_of in
    let make : ℕ → PointData → PointKey = λ i d. record { object_id = i; data_of = d } in
    ap (λ i. make i j.data_of) ids ∙ ap (make k.object_id) datas

same-of_eq : (a b : PointKey) → a ≡ b → same_key (as_key a) (as_key b) ≡ true
unfolding same_key_data
same-of_eq a b e =
    let own : same_key (as_key a) (as_key a) ≡ true =
      let id : (a.object_id == a.object_id) ≡ true = ground arith in
      let data_eq : cmp_data (as_data a.data_of) (as_data a.data_of) ≡ eq =
        cmp_data-encode a.data_of a.data_of ∙ name_refl (encode_data a.data_of) in
      rw (id, same_key_data, data_eq) refl in
    subst (λ (b : PointKey). same_key (as_key a) (as_key b) ≡ true) e own

eq-of_same : (a b : PointKey) → same_key (as_key a) (as_key b) ≡ true → a ≡ b
unfolding same_key_data cmp_name encode
eq-of_same a b h = elim (Bool-cases (a.object_id == b.object_id)) [
  | inl e ↦
      let id : compare a.object_id b.object_id ≡ eq = ground arith in
      elim (Ordering-cases (cmp_data (as_data a.data_of) (as_data b.data_of))) [
        | inl o ↦ let wrong : false ≡ true = rw (e, same_key_data, o) at h in cc
        | inr (inl o) ↦
            let data_eq = sym (cmp_data-encode a.data_of b.data_of) ∙ o in
            encode-eq a b (name_eq (encode a) (encode b) (rw id data_eq))
        | inr (inr o) ↦ let wrong : false ≡ true = rw (e, same_key_data, o) at h in cc
      ]
  | inr f ↦ let wrong : false ≡ true = rw f at h in cc
]

pub point_keys-PointKeys : PointKeys PointKey point_keys
unfolding cmp_upper_bound cmp_lower_bound same_key_data
point_keys-PointKeys = record {
  same_iff = λ a b. (eq-of_same a b, same-of_eq a b);
  upper_lower = upper-lower;
  cmp_refl = λ a. lower-encode a a ∙ name_refl (encode a);
  cmp_eq = λ a b h. encode-eq a b (name_eq (encode a) (encode b) (sym (lower-encode a b) ∙ h));
  cmp_lt = λ a b h. lower-encode b a ∙ name_lt (encode a) (encode b) (sym (lower-encode a b) ∙ h);
  cmp_gt = λ a b h. lower-encode b a ∙ name_gt (encode a) (encode b) (sym (lower-encode a b) ∙ h);
  cmp_trans = λ a b c h i.
      lower-encode a c
      ∙ name_trans (encode a) (encode b) (encode c) (sym (lower-encode a b) ∙ h)
          (sym (lower-encode b c) ∙ i);
}
