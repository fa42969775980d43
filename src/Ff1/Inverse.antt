-- ===== src/Ff1/Inverse.antt =====
-- The two directions of src/ff1.rs undo one another.
use fxfs_on_linux.Common.{
  ℕ, zero, suc, ◌+◌, ◌^◌, ◌<◌, ◌≡◌, refl, ap, ◌∙◌, List, [], ◌∷◌, arith, get_or, All,
}
use fxfs_on_linux.Ff1.{
  round_value, encrypt_round, decrypt_round, encrypt_rounds, decrypt_rounds, encrypt, decrypt,
  halves, join,
}

abbrev AreBytes : List ℕ → Type 0
AreBytes = All (λ x. x < 256)

get_or-lt : (xs : List ℕ) (i : ℕ) → AreBytes xs → get_or xs i 0 < 256
get_or-lt [] i h = omega arith
get_or-lt (x ∷ xs) zero h = h.0
get_or-lt (x ∷ xs) (suc i) h = get_or-lt xs i h.1

-- What both halves are.
abbrev InRange : ℕ × ℕ → Type 0
InRange (a, b) = (a < 2 ^ 16) × (b < 2 ^ 16)

halves-InRange : (v : ℕ) → InRange (halves v)
halves-InRange v = omega arith

join-halves : (v : ℕ) → v < 2 ^ 32 → join (halves v) ≡ v
join-halves v h = omega arith

halves-join : (s : ℕ × ℕ) → InRange s → halves (join s) ≡ s
halves-join (a, b) h = ground arith

module _ (encrypt_block : List ℕ → List ℕ) (bytes : (b : List ℕ) → AreBytes (encrypt_block b)) where
  round_value-lt : (i half : ℕ) → round_value encrypt_block i half < 2 ^ 16
  unfolding round_value
  round_value-lt i half =
      omega
        (arith, get_or-lt (encrypt_block _) 6 (bytes _), get_or-lt (encrypt_block _) 7 (bytes _))

  encrypt_round-InRange :
      (i : ℕ) (s : ℕ × ℕ) → InRange s → InRange (encrypt_round encrypt_block i s)
  unfolding encrypt_round
  encrypt_round-InRange i (a, b) h = omega arith

  decrypt_round-InRange :
      (i : ℕ) (s : ℕ × ℕ) → InRange s → InRange (decrypt_round encrypt_block i s)
  unfolding decrypt_round
  decrypt_round-InRange i (a, b) h = omega arith

  decrypt_round-encrypt_round :
      (i : ℕ) (s : ℕ × ℕ)
      → InRange s
      → decrypt_round encrypt_block i (encrypt_round encrypt_block i s) ≡ s
  unfolding encrypt_round decrypt_round
  decrypt_round-encrypt_round i (a, b) h = ground (arith, round_value-lt i b)

  encrypt_round-decrypt_round :
      (i : ℕ) (s : ℕ × ℕ)
      → InRange s
      → encrypt_round encrypt_block i (decrypt_round encrypt_block i s) ≡ s
  unfolding encrypt_round decrypt_round
  encrypt_round-decrypt_round i (a, b) h = ground (arith, round_value-lt i a)

  encrypt_rounds-InRange :
      (n i : ℕ) (s : ℕ × ℕ) → InRange s → InRange (encrypt_rounds encrypt_block n i s)
  unfolding encrypt_rounds
  encrypt_rounds-InRange zero i s h = h
  encrypt_rounds-InRange (suc n) i s h =
      encrypt_rounds-InRange n (i + 1) _ (encrypt_round-InRange i s h)

  decrypt_rounds-InRange :
      (n : ℕ) (s : ℕ × ℕ) → InRange s → InRange (decrypt_rounds encrypt_block n s)
  unfolding decrypt_rounds
  decrypt_rounds-InRange zero s h = h
  decrypt_rounds-InRange (suc n) s h = decrypt_rounds-InRange n _ (decrypt_round-InRange n s h)

  -- The last round of `encrypt` taken off.
  encrypt_rounds-suc :
      (n i j : ℕ) (s : ℕ × ℕ)
      → i + n ≡ j
      → encrypt_rounds encrypt_block (suc n) i s
        ≡ encrypt_round encrypt_block j (encrypt_rounds encrypt_block n i s)
  unfolding encrypt_rounds
  encrypt_rounds-suc zero i j s h =
      let e : i ≡ j = omega arith in ap (λ k. encrypt_round encrypt_block k s) e
  encrypt_rounds-suc (suc n) i j s h =
      encrypt_rounds-suc n (i + 1) j (encrypt_round encrypt_block i s) (omega arith)

  decrypt_rounds-encrypt_rounds :
      (n : ℕ) (s : ℕ × ℕ)
      → InRange s
      → decrypt_rounds encrypt_block n (encrypt_rounds encrypt_block n 0 s) ≡ s
  unfolding decrypt_rounds
  decrypt_rounds-encrypt_rounds zero s h = unfold encrypt_rounds in refl
  decrypt_rounds-encrypt_rounds (suc n) s h =
      ap (λ t. decrypt_rounds encrypt_block n (decrypt_round encrypt_block n t))
        (encrypt_rounds-suc n 0 n s (omega arith))
      ∙ ap (decrypt_rounds encrypt_block n)
          (decrypt_round-encrypt_round n _ (encrypt_rounds-InRange n 0 s h))
      ∙ decrypt_rounds-encrypt_rounds n s h

  encrypt_rounds-decrypt_rounds :
      (n : ℕ) (s : ℕ × ℕ)
      → InRange s
      → encrypt_rounds encrypt_block n 0 (decrypt_rounds encrypt_block n s) ≡ s
  unfolding decrypt_rounds
  encrypt_rounds-decrypt_rounds zero s h = unfold encrypt_rounds in refl
  encrypt_rounds-decrypt_rounds (suc n) s h =
      encrypt_rounds-suc n 0 n _ (omega arith)
      ∙ ap (encrypt_round encrypt_block n)
          (encrypt_rounds-decrypt_rounds n _ (decrypt_round-InRange n s h))
      ∙ encrypt_round-decrypt_round n s h

  -- Every `u32` is recovered, in both directions, whatever the block cipher computes.
  pub decrypt-encrypt :
      (v : ℕ)
      → v < 2 ^ 32
      → (decrypt encrypt_block (encrypt encrypt_block v) ≡ v)
        × (encrypt encrypt_block (decrypt encrypt_block v) ≡ v)
        × (encrypt encrypt_block v < 2 ^ 32)
  unfolding encrypt decrypt
  decrypt-encrypt v h =
      let r = halves-InRange v in
      let there = encrypt_rounds-InRange 10 0 (halves v) r in
      let back = decrypt_rounds-InRange 10 (halves v) r in
      (
        ap (λ t. join (decrypt_rounds encrypt_block 10 t)) (halves-join _ there)
            ∙ ap join (decrypt_rounds-encrypt_rounds 10 (halves v) r)
            ∙ join-halves v h,
        ap (λ t. join (encrypt_rounds encrypt_block 10 0 t)) (halves-join _ back)
            ∙ ap join (encrypt_rounds-decrypt_rounds 10 (halves v) r)
            ∙ join-halves v h,
        omega arith,
      )
