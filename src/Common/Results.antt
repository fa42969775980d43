-- ===== src/Common/Results.antt =====
-- How a call ends: with a value, with an error of `errors.rs`, or in a panic (a failed assertion,
-- an index out of range, an overflow under Rust's checked arithmetic).
use Prim.Native.Nat.{ℕ, ◌+◌, ◌-◌, ◌/◌, ◌%◌, ◌≤◌, ◌<◌}
use mathlib.Core.Bool.{Bool, true, false}
use mathlib.Core.Path.{◌≡◌}
use native.Mathlib.Omega.{arith}
use fxfs_on_linux.Common.Tests.{ltb, leb, if◌then◌else◌}

pub data FxfsError : Type 0 where
  already_exists inconsistent internal not_dir not_file not_found not_empty : FxfsError
  read_only_filesystem no_space deleted invalid_args too_big invalid_version : FxfsError
  journal_flush_error not_supported access_denied out_of_range already_bound : FxfsError

pub data Outcome {ℓ} (A : Type ℓ) : Type ℓ where
  ok : A → Outcome A
  err : FxfsError → Outcome A
  panic : Outcome A

infixl 5 ◌>>=◌ ◌>>◌
abbrev pub ◌>>=◌ {ℓ κ} :
    {A : Type ℓ} {B : Type κ} → (m : Outcome A) → (next : A → Outcome B) → Outcome B
panic >>= next = panic
err e >>= next = err e
ok value >>= next = next value

abbrev pub ◌>>◌ {ℓ} :
    {B : Type ℓ} → (first : Outcome (Unit {0})) → (then_do : Outcome B) → Outcome B
first >> then_do = first >>= λ _. then_do

-- `assert!`
abbrev pub assert : Bool → Outcome (Unit {0})
assert true = ok tt
assert false = panic

-- `ensure!`
abbrev pub ensure : Bool → FxfsError → Outcome (Unit {0})
ensure true e = ok tt
ensure false e = err e

-- `unwrap` panics on an error.
abbrev pub unwrap {ℓ} : {A : Type ℓ} → Outcome A → Outcome A
unwrap (ok a) = ok a
unwrap _ = panic

abbrev pub u64_max : ℕ
u64_max = 18446744073709551615

-- `a - b`, `a + b` and `a / b` on `u64`, with the checks on.
abbrev pub sub_u64 : ℕ → ℕ → Outcome ℕ
sub_u64 a b = if ltb a b then panic else ok (a - b)

abbrev pub add_u64 : ℕ → ℕ → Outcome ℕ
add_u64 a b = if leb (a + b) u64_max then ok (a + b) else panic

abbrev pub div_u64 : ℕ → ℕ → Outcome ℕ
div_u64 a b = if ltb 0 b then ok (a / b) else panic

abbrev pub rem_u64 : ℕ → ℕ → Outcome ℕ
rem_u64 a b = if ltb 0 b then ok (a % b) else panic

-- The call returns a value, of which `P` is true.
abbrev pub Returns {ℓ} : {A : Type ℓ} → Outcome A → (A → Type 0) → Type 0
Returns (ok a) P = P a
Returns _ P = ⊥

-- How the call ends: `P` is true of the value, or `E` of the error. It does not panic.
abbrev pub Ends {ℓ} : {A : Type ℓ} → Outcome A → (A → Type 0) → (FxfsError → Type 0) → Type 0
Ends (ok a) P E = P a
Ends (err e) P E = E e
Ends panic P E = ⊥

pub Ends-imp :
    {A : Type 0} {P Q : A → Type 0} {E F : FxfsError → Type 0} (m : Outcome A)
    → ((a : A) → P a → Q a)
    → ((e : FxfsError) → E e → F e)
    → Ends m P E
    → Ends m Q F
Ends-imp (ok a) f g p = f a p
Ends-imp (err e) f g p = g e p
Ends-imp panic f g p = p

pub Returns-bind :
    {A B : Type 0} {P : A → Type 0} (Q : B → Type 0) (m : Outcome A) (f : A → Outcome B)
    → Returns m P
    → ((a : A) → P a → Returns (f a) Q)
    → Returns (m >>= f) Q
Returns-bind Q (ok a) f p g = g a p
Returns-bind Q (err e) f p g = p
Returns-bind Q panic f p g = p

pub ok-injective : {A : Type 0} {a b : A} → Path (Outcome A) (ok a) (ok b) → a ≡ b
ok-injective h = cc

pub Returns-imp :
    {A : Type 0} {P Q : A → Type 0} (m : Outcome A)
    → ((a : A) → P a → Q a)
    → Returns m P
    → Returns m Q
Returns-imp (ok a) f p = f a p
Returns-imp (err e) f p = p
Returns-imp panic f p = p

pub sub_u64-eq : (a b : ℕ) → b ≤ a → sub_u64 a b ≡ ok (a - b)
sub_u64-eq a b h = ground arith

pub add_u64-eq : (a b : ℕ) → a + b ≤ u64_max → add_u64 a b ≡ ok (a + b)
add_u64-eq a b h = ground arith

pub rem_u64-eq : (a b : ℕ) → 0 < b → rem_u64 a b ≡ ok (a % b)
rem_u64-eq a b h = ground arith

pub div_u64-eq : (a b : ℕ) → 0 < b → div_u64 a b ≡ ok (a / b)
div_u64-eq a b h = ground arith
