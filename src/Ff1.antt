-- ===== src/Ff1.antt =====
-- src/ff1.rs: the format-preserving cipher on `u32` that hides object ids. AES is not in the
-- repository: `encrypt_block` on 16 bytes is a parameter.
pub mod Inverse
use Prim.Native.Nat.{bit_xor}
use fxfs_on_linux.Common.{ℕ, zero, suc, ◌+◌, ◌-◌, ◌*◌, ◌/◌, ◌%◌, ◌^◌, List, [], ◌∷◌, get_or, set}

-- The first block, before it is encrypted (step 5 of the specification).
abbrev pub initial_bytes : List ℕ
initial_bytes = 1 ∷ 2 ∷ 1 ∷ 0 ∷ 0 ∷ 2 ∷ 10 ∷ 16 ∷ 0 ∷ 0 ∷ 0 ∷ 32 ∷ 0 ∷ 0 ∷ 0 ∷ 0 ∷ []

-- `BigEndian::read_u16(&block[6..8])`
abbrev pub read_u16 : List ℕ → ℕ
read_u16 block = get_or block 6 0 * 256 + get_or block 7 0

abbrev xor_at : List ℕ → ℕ → ℕ → List ℕ
xor_at block i v = set block i (bit_xor (get_or block i 0) v)

-- `a` and `b`, and the word that they make.
abbrev pub halves : ℕ → ℕ × ℕ
halves v = ((v / 2 ^ 16) % 2 ^ 16, v % 2 ^ 16)

abbrev pub join : ℕ × ℕ → ℕ
join (a, b) = a * 2 ^ 16 + b

module _ (encrypt_block : List ℕ → List ℕ) where
  -- `Ff1::new` keeps the encrypted first block.
  pub initial_block : List ℕ
  initial_block = encrypt_block initial_bytes

  -- The round function: PRF(P || Q), of which the code reads bytes 6 and 7.
  pub round_value : ℕ → ℕ → ℕ
  round_value i half = read_u16 (
      encrypt_block
        (xor_at (xor_at (xor_at initial_block 13 i) 14 (half / 2 ^ 8)) 15 (half % 2 ^ 8)))

  -- One round of `encrypt`, with `wrapping_add` on `u16`.
  pub encrypt_round : ℕ → ℕ × ℕ → ℕ × ℕ
  encrypt_round i (a, b) = (b, (a + round_value i b) % 2 ^ 16)

  -- One round of `decrypt`, with `wrapping_sub`.
  pub decrypt_round : ℕ → ℕ × ℕ → ℕ × ℕ
  decrypt_round i (a, b) = ((b + 2 ^ 16 - round_value i a) % 2 ^ 16, a)

  -- `for i in 0..10` with `n` rounds left, the next one being `i`.
  pub encrypt_rounds : ℕ → ℕ → ℕ × ℕ → ℕ × ℕ
  encrypt_rounds zero i s = s
  encrypt_rounds (suc n) i s = encrypt_rounds n (i + 1) (encrypt_round i s)

  -- `for i in (0..10).rev()`, of which `n` rounds are left.
  pub decrypt_rounds : ℕ → ℕ × ℕ → ℕ × ℕ
  decrypt_rounds zero s = s
  decrypt_rounds (suc n) s = decrypt_rounds n (decrypt_round n s)

  pub encrypt : ℕ → ℕ
  unfolding initial_block round_value encrypt_round encrypt_rounds
  encrypt v = join (encrypt_rounds 10 0 (halves v))

  pub decrypt : ℕ → ℕ
  unfolding initial_block round_value decrypt_round decrypt_rounds
  decrypt v = join (decrypt_rounds 10 (halves v))
