-- ===== src/Allocator/MergeInto/Layers.antt =====
-- Layers as sorted lists of items that do not overlap, and their lookups.
use fxfs_on_linux.Common.{
  ℕ, ◌+◌, ◌≤◌, ◌<◌, ◌≡◌, refl, List, [], ◌∷◌, ◌++◌, Option, none, some, arith,
}
use fxfs_on_linux.Allocator.Key.{AllocatorValue, AllocatorItem}
use fxfs_on_linux.Allocator.Merge.View.{value_at, or_else, option_at}
use fxfs_on_linux.Allocator.Merge.Progress.{weight, Within, frontier}

abbrev pub lookup : List AllocatorItem → ℕ → Option AllocatorValue
lookup [] x = none
lookup (i ∷ is) x = or_else (value_at i x) (lookup is x)

-- Sorted, disjoint and not empty, from `p` on.
abbrev pub Above : ℕ → List AllocatorItem → Type 0
Above p [] = Unit
Above p (i ∷ is) =
    (p ≤ i.key.device_range.start)
    × (i.key.device_range.start < i.key.device_range.end)
    × Above i.key.device_range.end is

-- The same, up to `q`.
abbrev pub Chain : ℕ → List AllocatorItem → ℕ → Type 0
Chain p [] q = p ≤ q
Chain p (i ∷ is) q =
    (p ≤ i.key.device_range.start)
    × (i.key.device_range.start < i.key.device_range.end)
    × Chain i.key.device_range.end is q

abbrev pub list_of : Option AllocatorItem → List AllocatorItem
list_of none = []
list_of (some i) = i ∷ []

abbrev pub weights : List AllocatorItem → ℕ
weights [] = 0
weights (i ∷ is) = weight (some i) + weights is

pub or_else_assoc :
    (a b c : Option AllocatorValue) → or_else (or_else a b) c ≡ or_else a (or_else b c)
or_else_assoc none b c = refl
or_else_assoc (some v) b c = refl

pub lookup-append :
    (xs ys : List AllocatorItem) (x : ℕ) → lookup (xs ++ ys) x ≡ or_else (lookup xs x) (lookup ys x)
lookup-append [] ys x = refl
lookup-append (i ∷ is) ys x = ground (arith, lookup-append is ys x)

pub lookup-list_of : (o : Option AllocatorItem) (x : ℕ) → lookup (list_of o) x ≡ option_at o x
lookup-list_of none x = refl
lookup-list_of (some i) x = ground arith

pub Chain-le : (p q : ℕ) (is : List AllocatorItem) → Chain p is q → p ≤ q
Chain-le p q [] c = c
Chain-le p q (i ∷ is) c = omega (arith, Chain-le i.key.device_range.end q is c.2)

pub Above-mono : (p q : ℕ) (is : List AllocatorItem) → p ≤ q → Above q is → Above p is
Above-mono p q [] h a = tt
Above-mono p q (i ∷ is) h a = (omega arith, a.1, a.2)

pub Chain-append-Above :
    (p q : ℕ) (xs ys : List AllocatorItem) → Chain p xs q → Above q ys → Above p (xs ++ ys)
Chain-append-Above p q [] ys c a = Above-mono p q ys c a
Chain-append-Above p q (i ∷ is) ys c a = (c.0, c.1, Chain-append-Above _ q is ys c.2 a)

pub Chain-append :
    (p q r : ℕ) (xs ys : List AllocatorItem) → Chain p xs q → Chain q ys r → Chain p (xs ++ ys) r
Chain-append p q r [] [] c d = omega arith
Chain-append p q r [] (i ∷ is) c d = (omega arith, d.1, d.2)
Chain-append p q r (i ∷ is) ys c d = (c.0, c.1, Chain-append _ q r is ys c.2 d)

pub Chain-list_of :
    (q a b : ℕ) (o : Option AllocatorItem)
    → q ≤ a
    → Within a b o
    → Chain q (list_of o) (frontier a o)
Chain-list_of q a b none h w = h
Chain-list_of q a b (some i) h w = omega arith

pub Above-list_of :
    (f b : ℕ) (o : Option AllocatorItem) (rest : List AllocatorItem)
    → f ≤ b
    → Within f b o
    → Above b rest
    → Above f (list_of o ++ rest)
Above-list_of f b none rest h w a = Above-mono f b rest h a
Above-list_of f b (some i) rest h w a = (w.0, w.1, Above-mono _ b rest w.2 a)

pub weights-list_of :
    (o : Option AllocatorItem) (rest : List AllocatorItem)
    → weights (list_of o ++ rest) ≡ weight o + weights rest
weights-list_of none rest = omega arith
weights-list_of (some i) rest = refl
