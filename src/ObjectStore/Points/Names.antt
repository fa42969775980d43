-- ===== src/ObjectStore/Points/Names.antt =====
-- The order of names, as lists of bytes (src/object_store/object_record.rs), is total.
use Prim.Native.Nat.{compare}
use Prim.Native.Nat.Ordering.{lt, eq, gt}
use fxfs_on_linux.Common.{ℕ, ◌<◌, ◌≡◌, ◌⊎◌, refl, ◌∙◌, inl, inr, List, [], ◌∷◌, arith}
use fxfs_on_linux.Lsm.Merger.Heap.{Ordering-cases}
use fxfs_on_linux.ObjectStore.Record.Key.{cmp_name}

-- The order of two lists that are not empty.
lt_cons :
    (x y : ℕ) (xs ys : List ℕ)
    → cmp_name (x ∷ xs) (y ∷ ys) ≡ lt
    → (x < y) ⊎ ((x ≡ y) × (cmp_name xs ys ≡ lt))
unfolding cmp_name
lt_cons x y xs ys h = elim (Ordering-cases (compare x y)) [
  | inl o ↦ inl (ground arith)
  | inr (inl o) ↦ inr (ground arith, rw o at h)
  | inr (inr o) ↦ let wrong : gt ≡ lt = rw o at h in cc
]

cons_lt :
    (x y : ℕ) (xs ys : List ℕ)
    → (x < y) ⊎ ((x ≡ y) × (cmp_name xs ys ≡ lt))
    → cmp_name (x ∷ xs) (y ∷ ys) ≡ lt
unfolding cmp_name
cons_lt x y xs ys (inl h) = let o : compare x y ≡ lt = ground arith in rw o refl
cons_lt x y xs ys (inr (e, h)) = let o : compare x y ≡ eq = ground arith in rw o h

pub name_refl : (xs : List ℕ) → cmp_name xs xs ≡ eq
unfolding cmp_name
name_refl [] = refl
name_refl (x ∷ xs) = let o : compare x x ≡ eq = ground arith in rw o (name_refl xs)

pub name_eq : (xs ys : List ℕ) → cmp_name xs ys ≡ eq → xs ≡ ys
unfolding cmp_name
name_eq [] [] h = refl
name_eq [] (y ∷ ys) h = cc
name_eq (x ∷ xs) [] h = cc
name_eq (x ∷ xs) (y ∷ ys) h = elim (Ordering-cases (compare x y)) [
  | inl o ↦ let wrong : lt ≡ eq = rw o at h in cc
  | inr (inl o) ↦ let e : x ≡ y = ground arith in let rest = name_eq xs ys (rw o at h) in cc
  | inr (inr o) ↦ let wrong : gt ≡ eq = rw o at h in cc
]

pub name_lt : (xs ys : List ℕ) → cmp_name xs ys ≡ lt → cmp_name ys xs ≡ gt
unfolding cmp_name
name_lt [] [] h = cc
name_lt [] (y ∷ ys) h = refl
name_lt (x ∷ xs) [] h = cc
name_lt (x ∷ xs) (y ∷ ys) h = elim (lt_cons x y xs ys h) [
  | inl l ↦ let o : compare y x ≡ gt = ground arith in rw o refl
  | inr (e, l) ↦ let o : compare y x ≡ eq = ground arith in rw o (name_lt xs ys l)
]

pub name_gt : (xs ys : List ℕ) → cmp_name xs ys ≡ gt → cmp_name ys xs ≡ lt
unfolding cmp_name
name_gt [] [] h = cc
name_gt [] (y ∷ ys) h = cc
name_gt (x ∷ xs) [] h = refl
name_gt (x ∷ xs) (y ∷ ys) h = elim (Ordering-cases (compare x y)) [
  | inl o ↦ let wrong : lt ≡ gt = rw o at h in cc
  | inr (inl o) ↦ cons_lt y x ys xs (inr (ground arith, name_gt xs ys (rw o at h)))
  | inr (inr o) ↦ cons_lt y x ys xs (inl (ground arith))
]

pub name_trans :
    (xs ys zs : List ℕ) → cmp_name xs ys ≡ lt → cmp_name ys zs ≡ lt → cmp_name xs zs ≡ lt
unfolding cmp_name
name_trans [] [] zs h i = i
name_trans [] (y ∷ ys) [] h i = cc
name_trans [] (y ∷ ys) (z ∷ zs) h i = refl
name_trans (x ∷ xs) [] zs h i = cc
name_trans (x ∷ xs) (y ∷ ys) [] h i = cc
name_trans (x ∷ xs) (y ∷ ys) (z ∷ zs) h i = elim (lt_cons x y xs ys h) [
  | inl l ↦ elim (lt_cons y z ys zs i) [
    | inl m ↦ cons_lt x z xs zs (inl (omega (arith, l, m)))
    | inr m ↦ cons_lt x z xs zs (inl (omega (arith, l, m.0)))
  ]
  | inr l ↦ elim (lt_cons y z ys zs i) [
    | inl m ↦ cons_lt x z xs zs (inl (omega (arith, l.0, m)))
    | inr m ↦ cons_lt x z xs zs (inr (l.0 ∙ m.0, name_trans xs ys zs l.1 m.1))
  ]
]
