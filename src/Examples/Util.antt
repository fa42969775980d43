-- ===== src/Examples/Util.antt =====
-- Rounding, checksums and the id cipher at concrete inputs (src/round.rs, src/checksum.rs,
-- src/ff1.rs).
use fxfs_on_linux.Common.{
  ℕ, ◌+◌, ◌*◌, ◌%◌, ◌^◌, ◌<◌, ◌≡◌, refl, List, [], ◌∷◌, ◌++◌, none, some, arith, ok, ◌>>=◌, All,
  u64_max, map,
}
use fxfs_on_linux.Util.Round.{round_up, how_many}
use fxfs_on_linux.Checksum.{fletcher64, fletcher64-append}
use fxfs_on_linux.Ff1.{encrypt, decrypt}
use fxfs_on_linux.Ff1.Inverse.{decrypt-encrypt}

how_many_runs : how_many 17 3 ≡ ok 6
unfolding how_many
how_many_runs = refl

round_up_runs : round_up 4097 4096 ≡ ok (some 8192)
unfolding round_up
round_up_runs = refl

round_up_overflows : round_up u64_max 4096 ≡ ok none
unfolding round_up
round_up_overflows = refl

fletcher64-append_example :
    fletcher64 ((1 ∷ 2 ∷ 3 ∷ 4 ∷ []) ++ 5 ∷ 6 ∷ 7 ∷ 8 ∷ []) 9
    ≡ (fletcher64 (1 ∷ 2 ∷ 3 ∷ 4 ∷ []) 9 >>= fletcher64 (5 ∷ 6 ∷ 7 ∷ 8 ∷ []))
fletcher64-append_example = fletcher64-append (1 ∷ 2 ∷ 3 ∷ 4 ∷ []) (5 ∷ 6 ∷ 7 ∷ 8 ∷ []) 9 refl refl

-- A stand-in for the block cipher: it mixes each byte.
mix : List ℕ → List ℕ
mix = map (λ x. (x * 77 + 13) % 256)

mix-bytes : (b : List ℕ) → All (λ x. x < 256) (mix b)
unfolding mix
mix-bytes [] = tt
mix-bytes (x ∷ xs) = (omega arith, mix-bytes xs)

decrypt-encrypt_example :
    (decrypt mix (encrypt mix 318689559) ≡ 318689559)
    × (encrypt mix (decrypt mix 318689559) ≡ 318689559)
    × (encrypt mix 318689559 < 2 ^ 32)
decrypt-encrypt_example = decrypt-encrypt mix mix-bytes 318689559 (omega arith)
