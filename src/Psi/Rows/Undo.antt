-- ===== src/Psi/Rows/Undo.antt =====
-- Masks and permutations are undone.
use pq_psi.Base.{
  ℕ, zero, suc, ◌+◌, ◌*◌, ◌≡◌, refl, sym, ap, ◌∙◌, arith, List, [], ◌∷◌, length, Result, ok,
  >>=-eq-ok, ok-injective,
}
use pq_psi.Base.Bits.{bit_xor_cancel}
use pq_psi.Perm.Bytes.{AllBytes}
use pq_psi.Okvs.Rows.{xor_blocks}
use pq_psi.Okvs.Rows.Vector.{length-xor_blocks}
use pq_psi.Psi.Rows.{bytes_of, blocks_of, permute, mask_loop, fill_mask, xor_mask}
use pq_psi.Psi.Rows.Memory.{
  AllBlocks, length-bytes_of, AllBytes-bytes_of, length-blocks_of, AllBlocks-blocks_of,
  blocks_of-bytes_of, bytes_of-blocks_of,
}

-- What the protocol relies on of a permutation: on rows of `size` bytes it returns, and the other
-- direction undoes it.
pub record IsPerm (encrypt decrypt : List ℕ → Result (List ℕ)) (size : ℕ) : Type 0 where
  pub undoes :
      (row : List ℕ)
      → length row ≡ size
      → AllBytes row
      → (out : List ℕ) × (encrypt row ≡ ok out)
        × (length out ≡ size)
        × AllBytes out
        × (decrypt out ≡ ok row)
  pub returns :
      (row : List ℕ) → length row ≡ size → AllBytes row → (out : List ℕ) × (decrypt row ≡ ok out)

-- Every row is decrypted to a row.
pub permute-returns :
    (encrypt decrypt : List ℕ → Result (List ℕ)) (n : ℕ) (row : List ℕ)
    → IsPerm encrypt decrypt (n * 16)
    → length row ≡ n
    → (out : List ℕ) × (permute decrypt row ≡ ok out) × (length out ≡ n)
unfolding permute
permute-returns encrypt decrypt n row perm size =
    let (out, e) =
      perm.returns (bytes_of row) (length-bytes_of row ∙ ap (λ k. k * 16) size)
        (AllBytes-bytes_of row) in
    (blocks_of n out, rw (e, size) refl, length-blocks_of n out)

-- For a permutation of rows of bytes that its other direction undoes, a row of blocks below 2^128 is
-- permuted to a row of as many blocks below 2^128, and the other direction gives the row back.
pub permute-undone :
    (encrypt decrypt : List ℕ → Result (List ℕ)) (n : ℕ) (row : List ℕ)
    → IsPerm encrypt decrypt (n * 16)
    → length row ≡ n
    → AllBlocks row
    → (out : List ℕ) × (permute encrypt row ≡ ok out)
      × (length out ≡ n)
      × AllBlocks out
      × (permute decrypt out ≡ ok row)
unfolding permute
permute-undone encrypt decrypt n row perm size all =
    let (out, e, out_size, out_bytes, back) =
      perm.undoes (bytes_of row) (length-bytes_of row ∙ ap (λ k. k * 16) size)
        (AllBytes-bytes_of row) in
    (
      blocks_of n out,
      rw (e, size) refl,
      length-blocks_of n out,
      AllBlocks-blocks_of n out out_size out_bytes,
      rw (bytes_of-blocks_of n out out_size out_bytes, back, length-blocks_of n out, ← size)
          (ap ok (blocks_of-bytes_of row all)),
    )

length-mask_loop : (enc : ℕ → ℕ) (rounds i : ℕ) → length (mask_loop enc rounds i) ≡ rounds
unfolding mask_loop
length-mask_loop enc zero i = refl
length-mask_loop enc (suc rounds) i = ap suc (length-mask_loop enc rounds (i + 1))

pub length-fill_mask : (aes : ℕ → ℕ → ℕ) (key n : ℕ) → length (fill_mask aes key n) ≡ n
unfolding fill_mask
length-fill_mask aes key n = length-mask_loop (aes key) n 0

pub length-xor_mask : (mask row : List ℕ) → length (xor_mask mask row) ≡ length row
unfolding xor_mask
length-xor_mask mask row = length-xor_blocks row mask

-- A mask added twice is gone.
xor_blocks_cancel : (a b : List ℕ) → length a ≡ length b → xor_blocks (xor_blocks a b) b ≡ a
unfolding xor_blocks
xor_blocks_cancel [] b e = refl
xor_blocks_cancel (x ∷ a) [] e = absurd (omega arith)
xor_blocks_cancel (x ∷ a) (y ∷ b) e =
    rw (bit_xor_cancel x y, xor_blocks_cancel a b (omega arith)) refl

pub xor_mask_undone :
    (mask row : List ℕ) → length row ≡ length mask → xor_mask mask (xor_mask mask row) ≡ row
unfolding xor_mask
xor_mask_undone mask row e = xor_blocks_cancel row mask e

pub length-permute :
    (crypt_bytes : List ℕ → Result (List ℕ)) (row : List ℕ) {out : List ℕ}
    → permute crypt_bytes row ≡ ok out
    → length out ≡ length row
unfolding permute
length-permute crypt_bytes row h =
    let (bytes, e, made) = >>=-eq-ok (crypt_bytes (bytes_of row)) _ h in
    sym (ap length (ok-injective made)) ∙ length-blocks_of (length row) bytes
