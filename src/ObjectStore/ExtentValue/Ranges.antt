-- ===== src/ObjectStore/ExtentValue/Ranges.antt =====
-- Cutting the extent of a range of whole blocks at a block boundary.
use fxfs_on_linux.Common.{Returns, Returns-imp, ℕ, ◌+◌, ◌-◌, ◌*◌, ◌≤◌, ◌<◌, ◌≡◌, ◌∙◌, ap, arith}
use native.Mathlib.Nat.{mul-sub, mul-le-mul_right, le_of_mul-le-mul_right}
use fxfs_on_linux.Util.Range.{Range, range}
use fxfs_on_linux.ObjectStore.ExtentValue.{ExtentValue, shrunk, offset_by}
use fxfs_on_linux.ObjectStore.ExtentValue.Cut.{place, IsBlocks, place-offset_by, place-shrunk}

-- `x` is the start of block `q`.
abbrev pub IsBoundary : ℕ → ℕ → Type 0
IsBoundary bs x = (q : ℕ) × (x ≡ q * bs)

-- The range is `n` whole blocks, at least one, and the value fits them.
abbrev pub IsExtent : ℕ → Range → ExtentValue → Type 0
IsExtent bs r v =
    IsBoundary bs r.start × ((n : ℕ) × (0 < n) × (r.end ≡ r.start + n * bs) × IsBlocks bs n v)

sub-eq : (a b c : ℕ) → a ≡ b + c → a - b ≡ c
sub-eq a b c h = omega arith

sub_mul : (p q b : ℕ) → (q - p) * b ≡ q * b - p * b
sub_mul p q b = grind (arith, mul-sub b q p)

lt-from-mul : (p q b : ℕ) → p * b < q * b → p < q
lt-from-mul p q b h = grind (arith, mul-le-mul_right {m = q} {n = p} b)

-- Two boundaries with at most `n` blocks from the one to the other.
blocks-between :
    (bs n x m : ℕ)
    → 0 < bs
    → IsBoundary bs x
    → IsBoundary bs m
    → x ≤ m
    → m ≤ x + n * bs
    → (k : ℕ) × (m ≡ x + k * bs) × (k ≤ n)
blocks-between bs n x m hb (p, e) (q, f) h l = (
  q - p,
  omega (arith, sub_mul p q bs),
  le_of_mul-le-mul_right {m = q - p} {n = n} {k = bs} (omega (arith, sub_mul p q bs)) hb,
)

pub shrunk-IsExtent :
    (bs s e m : ℕ) (v : ExtentValue)
    → 0 < bs
    → IsExtent bs (range s e) v
    → IsBoundary bs m
    → s < m
    → m ≤ e
    → Returns (shrunk v (e - s) (m - s)) λ w.
      IsExtent bs (range s m) w
      × ((x : ℕ) → s ≤ x → x < m → place bs w (x - s) ≡ place bs v (x - s))
shrunk-IsExtent bs s e m v hb ((p, hp), (n, hn, he, f)) b h l =
    let (k, hm, hk) = blocks-between bs n s m hb (p, hp) b (omega arith) (omega arith) in
    rw (sub-eq e s (n * bs) he, sub-eq m s (k * bs) hm)
      (Returns-imp (shrunk v (n * bs) (k * bs))
        (λ w (fits, same). (
          ((p, hp), (k, lt-from-mul 0 k bs (omega arith), hm, fits)),
          λ x hs hx. same (x - s) (omega arith),
        ))
        (place-shrunk bs n k v hb hn hk f))

pub offset_by-IsExtent :
    (bs s e m : ℕ) (v : ExtentValue)
    → 0 < bs
    → IsExtent bs (range s e) v
    → IsBoundary bs m
    → s ≤ m
    → m < e
    → Returns
        (offset_by v (m - s) (e - s))
        λ w. IsExtent bs (range m e) w × ((x : ℕ) → m ≤ x → place bs w (x - m) ≡ place bs v (x - s))
offset_by-IsExtent bs s e m v hb ((p, hp), (n, hn, he, f)) b h l =
    let (k, hm, hk) = blocks-between bs n s m hb (p, hp) b h (omega arith) in
    let less = lt-from-mul k n bs (omega arith) in
    rw (sub-eq e s (n * bs) he, sub-eq m s (k * bs) hm)
      (Returns-imp (offset_by v (k * bs) (n * bs))
        (λ w (fits, same). (
          (b, (n - k, omega arith, omega (arith, sub_mul k n bs, mul-le-mul_right bs hk), fits)),
          λ x hx. same (x - m) ∙ ap (place bs v) (omega arith),
        ))
        (place-offset_by bs n k v hb less f))
