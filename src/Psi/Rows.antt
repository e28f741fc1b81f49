-- ===== src/Psi/Rows.antt =====
-- The rows of frontend/pqpsi/protocols/tools: base.h and the masks of mask.h. A row is a list of
-- blocks; `aes key` is AES::ecbEncBlock under `key`, and a permutation maps rows of bytes.
pub mod Memory
pub mod Undo
pub mod Hctr
use pq_psi.Base.{
  ℕ, zero, suc, ◌+◌, ◌*◌, ◌/◌, ◌%◌, not, ◌==◌, Bool, List, [], ◌∷◌, ◌++◌, length, get_or, take,
  drop, replicate, slice, Result, ok, invalid_argument, ◌>>=◌, ◌>>◌, throw_if,
}
use pq_psi.Perm.Bytes.{kem_key_size_bit, store, load}
use pq_psi.Okvs.Rows.{xor_blocks}
use pq_psi.Psi.Workers.{run_rows}

-- PsiKemKind
pub data KemKind : Type 0 where
  obf_ml_kem : KemKind
  ec_kem : KemKind

unfoldable pub kem_row_bytes : KemKind → ℕ
kem_row_bytes obf_ml_kem = kem_key_size_bit / 8
kem_row_bytes ec_kem = 48

unfoldable pub kem_row_blocks : KemKind → Result ℕ
kem_row_blocks kind = do
  throw_if (not (kem_row_bytes kind % 16 == 0))
      (invalid_argument "PQ-PSI KEM row must be block aligned")
  ok (kem_row_bytes kind / 16)

-- The bytes of a row of blocks in memory, and the blocks that bytes make.
unfoldable pub bytes_of : List ℕ → List ℕ
bytes_of [] = []
bytes_of (x ∷ row) = store 16 x ++ bytes_of row

unfoldable pub blocks_of : ℕ → List ℕ → List ℕ
blocks_of zero bytes = []
blocks_of (suc n) bytes = load (take 16 bytes) ∷ blocks_of n (drop 16 bytes)

-- permute and unpermute, with the call of the permutation on the bytes of the row
unfoldable pub permute : (List ℕ → Result (List ℕ)) → List ℕ → Result (List ℕ)
permute crypt_bytes row = do bytes ← crypt_bytes (bytes_of row); ok (blocks_of (length row) bytes)

-- The loop over `i` of fillMask.
unfoldable pub mask_loop : (ℕ → ℕ) → ℕ → ℕ → List ℕ
mask_loop enc zero i = []
mask_loop enc (suc rounds) i = enc (i + 1) ∷ mask_loop enc rounds (i + 1)

unfoldable pub fill_mask : (ℕ → ℕ → ℕ) → ℕ → ℕ → List ℕ
fill_mask aes key row_size = mask_loop (aes key) row_size 0

unfoldable pub xor_mask : List ℕ → List ℕ → List ℕ
xor_mask mask row = xor_blocks row mask

unfoldable pub precompute_masks : (ℕ → ℕ → ℕ) → ℕ → List ℕ → ℕ → Bool → ℕ → Result (List ℕ)
precompute_masks aes hw keys row_size multi_thread worker_threads =
    run_rows row_size hw (length keys) 16 multi_thread worker_threads
      (λ i row. ok (fill_mask aes (get_or keys i 0) row_size))
      (replicate (length keys * row_size) 0)
