-- ===== src/Common/Maps.antt =====
-- A `BTreeMap` or a `HashMap` with numbers as keys, as an association list. The order of the keys is
-- not kept: what the source computes from all of the values are sums.
use Prim.Native.Nat.{ℕ, ◌+◌, ◌≤◌}
use mathlib.Core.Path.{◌≡◌, refl}
use mathlib.Core.Logic.{◌≢◌, inl, inr}
use mathlib.Core.Bool.{true, false}
use mathlib.Core.List.{List, [], ◌∷◌}
use mathlib.Core.Option.{Option, none, some}
use native.Mathlib.Omega.{arith}
use fxfs_on_linux.Common.Tests.{◌==◌, Bool-cases, if◌then◌else◌}

abbrev pub Map {ℓ} : Type ℓ → Type ℓ
Map V = List (ℕ × V)

module _ {ℓ} {V : Type ℓ} where
  abbrev pub get : ℕ → Map V → Option V
  get k [] = none
  get k ((j, w) ∷ m) = if k == j then some w else get k m

  -- `insert`
  abbrev pub put : ℕ → V → Map V → Map V
  put k v [] = (k, v) ∷ []
  put k v ((j, w) ∷ m) = if k == j then (j, v) ∷ m else (j, w) ∷ put k v m

  abbrev pub remove : ℕ → Map V → Map V
  remove k [] = []
  remove k ((j, w) ∷ m) = let rest = remove k m in if k == j then rest else (j, w) ∷ rest

  -- `get(..).unwrap_or(d)`, which is also what `entry(..).or_insert(d)` refers to.
  abbrev pub get_or_default : V → ℕ → Map V → V
  get_or_default d k m = elim (get k m) [ none ↦ d | some v ↦ v ]

  pub get-put_same : (k : ℕ) (v : V) (m : Map V) → get k (put k v m) ≡ some v
  get-put_same k v [] = let same : (k == k) ≡ true = ground arith in rw same refl
  get-put_same k v ((j, w) ∷ m) = elim (Bool-cases (k == j)) [
    | inl e ↦ rw (e, e) refl
    | inr e ↦ rw (e, e) (get-put_same k v m)
  ]

  pub get-put_other : (i k : ℕ) (v : V) (m : Map V) → i ≢ k → get i (put k v m) ≡ get i m
  get-put_other i k v [] h = let other : (i == k) ≡ false = ground arith in rw other refl
  get-put_other i k v ((j, w) ∷ m) h = elim (Bool-cases (k == j)) [
    | inl e ↦ let other : (i == j) ≡ false = ground arith in rw (e, other) refl
    | inr e ↦
        rw e (elim (Bool-cases (i == j)) [
          | inl f ↦ rw f refl
          | inr f ↦ rw f (get-put_other i k v m h)
        ])
  ]

  pub get_or_default-put_same :
      (d : V) (k : ℕ) (v : V) (m : Map V) → get_or_default d k (put k v m) ≡ v
  get_or_default-put_same d k v m = rw (get_or_default, get-put_same k v m) refl

  pub get_or_default-put_other :
      (d : V) (i k : ℕ) (v : V) (m : Map V)
      → i ≢ k
      → get_or_default d i (put k v m) ≡ get_or_default d i m
  get_or_default-put_other d i k v m h = rw (get_or_default, get-put_other i k v m h) refl

  -- The sum of a measure of the values.
  abbrev pub total : (V → ℕ) → Map V → ℕ
  total f [] = 0
  total f ((k, v) ∷ m) = f v + total f m

  -- What a new value adds to the sum, where the default adds nothing.
  pub total-put :
      (f : V → ℕ) (d : V) (k : ℕ) (v : V) (m : Map V)
      → f d ≡ 0
      → total f (put k v m) + f (get_or_default d k m) ≡ total f m + f v
  total-put f d k v [] h = omega arith
  total-put f d k v ((j, w) ∷ m) h = elim (Bool-cases (k == j)) [
    | inl e ↦ rw (get_or_default, e) (omega arith)
    | inr e ↦ rw (get_or_default, e) (omega (arith, total-put f d k v m h))
  ]

  pub total-get :
      (f : V → ℕ) (d : V) (k : ℕ) (m : Map V) → f d ≡ 0 → f (get_or_default d k m) ≤ total f m
  total-get f d k [] h = omega arith
  total-get f d k ((j, w) ∷ m) h = elim (Bool-cases (k == j)) [
    | inl e ↦ rw (get_or_default, e) (omega arith)
    | inr e ↦ rw (get_or_default, e) (omega (arith, total-get f d k m h))
  ]
