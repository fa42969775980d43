-- ===== src/Journal/Stream.antt =====
-- The format of the journal file (src/object_store/journal/writer.rs, src/object_store/journal.rs):
-- blocks whose last eight bytes are the checksum of what stands before them, seeded by the checksum
-- of the block before. A byte is a number.
use fxfs_on_linux.Common.{
  ℕ, zero, suc, ◌+◌, ◌*◌, ◌/◌, ◌%◌, ◌^◌, ◌<◌, ◌≡◌, refl, ap, sym, subst, ok-injective, List, [],
  ◌∷◌, ◌++◌, length, arith,
}
use fxfs_on_linux.Checksum.{fletcher64, fletcher64_total, pack, unpack, sums}

pub record JournalCheckpoint : Type 0 where
  pub file_offset : ℕ
  pub checksum : ℕ
  pub version : ℕ

-- `size_of::<Checksum>()`
abbrev pub checksum_size : ℕ
checksum_size = 8

abbrev pub reset_xor : ℕ
reset_xor = 0xffffffffffffffff

-- `write_u64::<LittleEndian>` and `LittleEndian::read_u64`
unfoldable pub le_bytes : ℕ → ℕ → List ℕ
le_bytes zero n = []
le_bytes (suc k) n = n % 256 ∷ le_bytes k (n / 256)

unfoldable pub from_le : List ℕ → ℕ
from_le [] = 0
from_le (b ∷ bs) = b + 256 * from_le bs

pub length-le_bytes : (k n : ℕ) → length (le_bytes k n) ≡ k
unfolding le_bytes
length-le_bytes zero n = refl
length-le_bytes (suc k) n = ap suc (length-le_bytes k (n / 256))

pub from_le-le_bytes : (n : ℕ) → n < 2 ^ 64 → from_le (le_bytes 8 n) ≡ n
unfolding le_bytes from_le
from_le-le_bytes n h = omega arith

-- The specification of a stream: the blocks with the payloads `ps`, behind a block with the checksum
-- `c`.
unfoldable pub block_sum : List ℕ → ℕ → ℕ
block_sum p c = pack (sums p (unpack c))

pub block_sum-lt : (p : List ℕ) (c : ℕ) → length p % 4 ≡ 0 → block_sum p c < 2 ^ 64
unfolding block_sum fletcher64
block_sum-lt p c h =
    let (s, e, l) = fletcher64_total p c h in
    subst (λ n. n < 2 ^ 64) (sym (ok-injective (rw h at e))) l

unfoldable pub encode : ℕ → List (List ℕ) → List ℕ
encode c [] = []
encode c (p ∷ ps) = p ++ (le_bytes 8 (block_sum p c) ++ encode (block_sum p c) ps)

-- The checksum of the last block.
unfoldable pub last_sum : ℕ → List (List ℕ) → ℕ
last_sum c [] = c
last_sum c (p ∷ ps) = last_sum (block_sum p c) ps

unfoldable pub concat : List (List ℕ) → List ℕ
concat [] = []
concat (p ∷ ps) = p ++ concat ps
