-- ===== src/Perm/Hctr.antt =====
-- frontend/permutation/hctr2.h, from the hash on: HCTR2 over AES. `enc key` and `dec key` are
-- ecbEncBlock and ecbDecBlock of cryptoTools' AES and AESDec under `key`, parameters. `xctr`
-- takes the counter blocks one at a time where the source first fills arrays of kem_key_block_size
-- blocks; more blocks than the arrays hold are undefined.
pub mod Inverse
pub mod Rows
use pq_psi.Base.{
  ℕ, zero, suc, ◌+◌, ◌-◌, ◌*◌, ◌/◌, ◌%◌, Bool, true, false, not, ◌==◌, ltb, if◌then◌else◌, List, [],
  ◌∷◌, ◌++◌, length, take, drop, replicate, Result, ok, err, invalid_argument, undefined, ◌>>=◌,
  ◌>>◌, throw_if,
}
use pq_psi.Perm.Bytes.{kem_key_block_size, kem_key_size_bit, xor_bytes, store64}
use pq_psi.Perm.Polyval.{U128, store128, mul, make_mul_table, polyval_key, update, init_hash}

-- "pqpsi-hctr2-key!" and "pqpsi-hctr2-twk!" with the party's digit.
pub party_key : ℕ → List ℕ
party_key party =
    112
    ∷ 113
    ∷ 112
    ∷ 115
    ∷ 105
    ∷ 45
    ∷ 104
    ∷ 99
    ∷ 116
    ∷ 114
    ∷ 50
    ∷ 45
    ∷ 107
    ∷ 101
    ∷ (48 + party % 2)
    ∷ 33
    ∷ []

pub party_tweak : ℕ → List ℕ
party_tweak party =
    112
    ∷ 113
    ∷ 112
    ∷ 115
    ∷ 105
    ∷ 45
    ∷ 104
    ∷ 99
    ∷ 116
    ∷ 114
    ∷ 50
    ∷ 45
    ∷ 116
    ∷ 119
    ∷ (48 + party % 2)
    ∷ 33
    ∷ []

pub record Key : Type 0 where
  pub aes : List ℕ
  pub hash_key : List ℕ
  pub l : List ℕ
  pub h : U128
  pub table : ℕ → ℕ → U128
  pub init_div : U128
  pub init_awk : U128

pub hash : Key → List ℕ → List ℕ
hash key msg =
    let full = length msg / 16 in
    let rem = length msg % 16 in
    let whole = update full key.table msg (if rem == 0 then key.init_div else key.init_awk) in
    let last = drop (full * 16) msg ++ 1 ∷ replicate (16 - rem - 1) 0 in
    store128 (if rem == 0 then whole else update 1 key.table last whole)

module _ (enc : List ℕ → List ℕ → List ℕ) where
  pub schedule : List ℕ → ℕ → List ℕ
  schedule aes i = enc aes (store64 i ++ replicate 8 0)

  pub make_key : List ℕ → List ℕ → Key
  make_key aes tweak =
      let h = polyval_key (schedule aes 0) in
      record {
        aes = aes;
        hash_key = schedule aes 0;
        l = schedule aes 1;
        h = h;
        table = make_mul_table h;
        init_div = init_hash (make_mul_table h) tweak 2;
        init_awk = init_hash (make_mul_table h) tweak 3;
      }

  -- The key stream of block `i`.
  pub counter_block : List ℕ → List ℕ → ℕ → List ℕ
  counter_block aes nonce i = enc aes (xor_bytes (store64 i ++ replicate 8 0) nonce)

  -- `n` full blocks from block `i` on, then what is left of the row.
  pub xctr_blocks : ℕ → ℕ → List ℕ → List ℕ → List ℕ → List ℕ
  xctr_blocks zero i aes nonce row =
      if length row == 0 then row else xor_bytes row (counter_block aes nonce i)
  xctr_blocks (suc n) i aes nonce row =
      xor_bytes (take 16 row) (counter_block aes nonce i)
      ++ xctr_blocks n (i + 1) aes nonce (drop 16 row)

  pub xctr : List ℕ → List ℕ → List ℕ → Result (List ℕ)
  xctr aes nonce row = do
    throw_if (ltb kem_key_block_size (length row / 16))
        (undefined "a block past the arrays of counters")
    ok (xctr_blocks (length row / 16) 1 aes nonce row)

  module _ (dec : List ℕ → List ℕ → List ℕ) where
    pub crypt : List ℕ → Key → Bool → Result (List ℕ)
    crypt row key encrypt = do
      throw_if (ltb (length row) 16) (invalid_argument "HCTR2 needs at least one AES block")
      let src = take 16 row
      let tail = drop 16 row
      let mixed = xor_bytes src (hash key tail)
      let mm = if encrypt then mixed else dec key.aes mixed
      let uu = if encrypt then enc key.aes mixed else mixed
      let s = xor_bytes (xor_bytes mm uu) key.l
      tail' ← xctr key.aes s tail
      ok (xor_bytes (if encrypt then uu else mm) (hash key tail') ++ tail')

    -- The row of one party: `encryptBytes` for true, `decryptBytes` for false.
    pub crypt_row : ℕ → List ℕ → Bool → Result (List ℕ)
    crypt_row party row encrypt = do
      throw_if (not (length row == kem_key_size_bit / 8))
          (invalid_argument "HCTR state size mismatch")
      crypt row (make_key (party_key party) (party_tweak party)) encrypt
