-- ===== src/Psi/PermTests.antt =====
-- HCTR2 on a row of blocks, with a toy cipher.
use pq_psi.Base.{
  ℕ, zero, suc, ◌-◌, ◌%◌, ◌≡◌, true, false, refl, ap, ◌∙◌, arith, List, [], ◌∷◌, ◌++◌, length,
  replicate, take, length-take, length-append, length-replicate, take-append, ok,
}
use pq_psi.Perm.Bytes.{AllBytes, kem_key_block_size}
use pq_psi.Perm.Hctr.{crypt_row}
use pq_psi.Perm.Hctr.Inverse.{IsBlock, IsCipher}
use pq_psi.Perm.Hctr.Rows.{MakesBlocks}
use pq_psi.Psi.Rows.{permute}
use pq_psi.Psi.Rows.Memory.{AllBlocks}
use pq_psi.Psi.Rows.Hctr.{permute-crypt_row}

-- Each byte of a block complemented, whatever the key.
abbrev complement : List ℕ → List ℕ
complement [] = []
complement (x ∷ b) = (255 - x % 256) ∷ complement b

abbrev flipped : List ℕ → List ℕ → List ℕ
flipped key b = complement (take 16 (b ++ replicate 16 0))

length-complement : (b : List ℕ) → length (complement b) ≡ length b
length-complement [] = refl
length-complement (x ∷ b) = ap suc (length-complement b)

complement-AllBytes : (b : List ℕ) → AllBytes (complement b)
complement-AllBytes [] = tt
complement-AllBytes (x ∷ b) = (omega arith, complement-AllBytes b)

complement-complement : (b : List ℕ) → AllBytes b → complement (complement b) ≡ b
complement-complement [] all = refl
complement-complement (x ∷ b) all =
    let same : 255 - (255 - x % 256) % 256 ≡ x = omega (arith, all.0) in
    rw (same, complement-complement b all.1) refl

flipped-MakesBlocks : MakesBlocks flipped
flipped-MakesBlocks = record {
  makes = λ key b. record {
    size =
        length-complement (take 16 (b ++ zeros))
        ∙ omega
            (arith, length-take 16 (b ++ zeros), length-append b zeros, length-replicate 16 nil);
    all_bytes = complement-AllBytes (take 16 (b ++ zeros));
  };
}
  where
    nil : ℕ
    nil = 0

    zeros : List ℕ
    zeros = replicate 16 nil

flipped-block : (key b : List ℕ) → IsBlock b → flipped key b ≡ complement b
flipped-block key b block = ap complement (rw block.size at (take-append b (replicate 16 0)))

flipped-IsCipher : IsCipher flipped flipped
flipped-IsCipher = record {
  size = λ key b. (flipped-MakesBlocks.makes key b).size;
  undoes = λ key b block.
      flipped-block key (flipped key b) (flipped-MakesBlocks.makes key b)
      ∙ ap complement (flipped-block key b block)
      ∙ complement-complement b block.all_bytes;
}

sevens : (n : ℕ) → AllBlocks (replicate n 7)
sevens zero = tt
sevens (suc n) = (omega arith, sevens n)

permute-crypt_row_example :
    (out : List ℕ) × (permute (λ bytes. crypt_row flipped flipped 1 bytes true) (replicate 50 7)
      ≡ ok out)
    × (length out ≡ kem_key_block_size)
    × AllBlocks out
    × (permute (λ bytes. crypt_row flipped flipped 1 bytes false) out ≡ ok (replicate 50 7))
permute-crypt_row_example =
    permute-crypt_row flipped flipped flipped-IsCipher flipped-MakesBlocks flipped-MakesBlocks 1
      (replicate 50 7) (length-replicate 50 seven) (sevens 50)
  where
    seven : ℕ
    seven = 7
