-- ===== src/Psi/Rows/Hctr.antt =====
-- HCTR2 as the permutation of the protocol's rows.
use pq_psi.Base.{ℕ, ◌*◌, ◌≡◌, true, false, List, length, ok}
use pq_psi.Perm.Bytes.{kem_key_block_size}
use pq_psi.Perm.Hctr.{crypt_row}
use pq_psi.Perm.Hctr.Inverse.{IsCipher}
use pq_psi.Perm.Hctr.Rows.{MakesBlocks, crypt_row-IsRow, crypt_row-crypt_row}
use pq_psi.Psi.Rows.{permute}
use pq_psi.Psi.Rows.Memory.{AllBlocks}
use pq_psi.Psi.Rows.Undo.{IsPerm, permute-undone}

module _ (enc dec : List ℕ → List ℕ → List ℕ) (cipher : IsCipher enc dec)
    (enc_makes : MakesBlocks enc) (dec_makes : MakesBlocks dec) (party : ℕ) where
  pub crypt_row-IsPerm :
      IsPerm
        (λ row. crypt_row enc dec party row true)
        (λ row. crypt_row enc dec party row false)
        (kem_key_block_size * 16)
  crypt_row-IsPerm = record {
    undoes =
        λ row size all. crypt_row-crypt_row enc dec cipher enc_makes dec_makes party row size all;
    returns = λ row size all.
        let (out, run, width, bytes) =
          crypt_row-IsRow enc dec cipher enc_makes dec_makes party false row size all in
        (out, run);
  }

  -- For a block cipher that makes blocks of bytes and whose decryption undoes its encryption, and for
  -- either party, `permute` with HCTR2 takes a row of 50 blocks below 2^128 to such a row, and
  -- `unpermute` with HCTR2 gives the row back.
  pub permute-crypt_row :
      (row : List ℕ)
      → length row ≡ kem_key_block_size
      → AllBlocks row
      → (out : List ℕ) × (permute (λ bytes. crypt_row enc dec party bytes true) row ≡ ok out)
        × (length out ≡ kem_key_block_size)
        × AllBlocks out
        × (permute (λ bytes. crypt_row enc dec party bytes false) out ≡ ok row)
  permute-crypt_row row size all =
      permute-undone (λ bytes. crypt_row enc dec party bytes true)
        (λ bytes. crypt_row enc dec party bytes false) kem_key_block_size row crypt_row-IsPerm size
        all
