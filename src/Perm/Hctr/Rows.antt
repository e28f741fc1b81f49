-- ===== src/Perm/Hctr/Rows.antt =====
-- A row of the protocol's size is encrypted and decrypted to a row of that size.
use pq_psi.Base.{
  ℕ, zero, suc, ◌+◌, ◌/◌, ◌≤◌, ◌<◌, ◌≡◌, Bool, true, false, refl, ◌∙◌, sym, arith, ◌==◌, not, List,
  ◌++◌, length, take, drop, length-take, length-drop, length-append, take-append-drop, ok,
  ok-injective, inl, inr, Bool-cases,
}
use pq_psi.Perm.Bytes.{
  kem_key_size_bit, AllBytes, xor_bytes, length-xor_bytes, xor_bytes-AllBytes, AllBytes-append,
  AllBytes-take, AllBytes-drop,
}
use pq_psi.Perm.Hctr.{
  Key, hash, counter_block, xctr_blocks, crypt, make_key, party_key, party_tweak, crypt_row,
}
use pq_psi.Perm.Hctr.Inverse.{
  IsBlock, IsCipher, hash-IsBlock, length-xctr_blocks, pass, crypt-pass, crypt-crypt,
}

-- A call that makes blocks, as those of AES do.
pub record MakesBlocks (f : List ℕ → List ℕ → List ℕ) : Type 0 where
  pub makes : (key b : List ℕ) → IsBlock (f key b)

module _ (enc dec : List ℕ → List ℕ → List ℕ) (cipher : IsCipher enc dec)
    (enc_makes : MakesBlocks enc) (dec_makes : MakesBlocks dec) where
  xctr_blocks-AllBytes :
      (n i : ℕ) (aes nonce row : List ℕ)
      → AllBytes row
      → AllBytes (xctr_blocks enc n i aes nonce row)
  unfolding xctr_blocks counter_block
  xctr_blocks-AllBytes zero i aes nonce row all = elim (Bool-cases (length row == 0)) [
    | inl none_left ↦ rw none_left all
    | inr some_left ↦ rw some_left (xor_bytes-AllBytes row _ all (enc_makes.makes aes _).all_bytes)
  ]
  xctr_blocks-AllBytes (suc n) i aes nonce row all =
      AllBytes-append _ _
        (xor_bytes-AllBytes (take 16 row) _ (AllBytes-take 16 row all)
          (enc_makes.makes aes _).all_bytes)
        (xctr_blocks-AllBytes n (i + 1) aes nonce (drop 16 row) (AllBytes-drop 16 row all))

  IsBlock-xor : (a b : List ℕ) → IsBlock a → IsBlock b → IsBlock (xor_bytes a b)
  IsBlock-xor a b p q = record {
    size = length-xor_bytes a b (omega (arith, p.size, q.size)) ∙ p.size;
    all_bytes = xor_bytes-AllBytes a b p.all_bytes q.all_bytes;
  }

  -- A block under the hash of a tail, and the tail.
  hashed-IsRow :
      (key : Key) (b t : List ℕ) (n : ℕ)
      → IsBlock b
      → length t ≡ n
      → AllBytes t
      → (length (xor_bytes b (hash key t) ++ t) ≡ 16 + n) × AllBytes (xor_bytes b (hash key t) ++ t)
  hashed-IsRow key b t n block size all =
      let head = IsBlock-xor b (hash key t) block (hash-IsBlock key t) in
      (
        omega (arith, length-append (xor_bytes b (hash key t)) t, head.size, size),
        AllBytes-append _ t head.all_bytes all,
      )

  pass-IsRow :
      (key : Key) (encrypt : Bool) (src tail : List ℕ)
      → IsBlock src
      → AllBytes tail
      → (length (pass enc dec cipher key encrypt src tail) ≡ 16 + length tail)
        × AllBytes (pass enc dec cipher key encrypt src tail)
  unfolding pass
  pass-IsRow key true src tail block all =
      let n = length tail / 16 in
      hashed-IsRow key _ _ (length tail) (enc_makes.makes key.aes _)
        (length-xctr_blocks enc dec cipher n 1 key.aes _ tail (omega arith) (omega arith))
        (xctr_blocks-AllBytes n 1 key.aes _ tail all)
  pass-IsRow key false src tail block all =
      let n = length tail / 16 in
      hashed-IsRow key _ _ (length tail) (dec_makes.makes key.aes _)
        (length-xctr_blocks enc dec cipher n 1 key.aes _ tail (omega arith) (omega arith))
        (xctr_blocks-AllBytes n 1 key.aes _ tail all)

  crypt-IsRow :
      (key : Key) (encrypt : Bool) (row : List ℕ)
      → AllBytes row
      → 16 ≤ length row
      → length row < 832
      → (out : List ℕ) × (crypt enc dec row key encrypt ≡ ok out)
        × (length out ≡ length row)
        × AllBytes out
  crypt-IsRow key encrypt row all long short =
      let src = take 16 row in
      let tail = drop 16 row in
      let tail_size = length-drop 16 row in
      let size : length src ≡ 16 = omega (arith, length-take 16 row) in
      let (width, bytes) =
        pass-IsRow key encrypt src tail
          (record { size = size; all_bytes = AllBytes-take 16 row all })
          (AllBytes-drop 16 row all) in
      (
        pass enc dec cipher key encrypt src tail,
        rw (take-append-drop 16 row) at
            (crypt-pass enc dec cipher key encrypt src tail size (omega arith)),
        omega (arith, width),
        bytes,
      )

  abbrev row_bytes : ℕ
  row_bytes = kem_key_size_bit / 8

  crypt_row-crypt :
      (party : ℕ) (encrypt : Bool) (row : List ℕ)
      → length row ≡ row_bytes
      → crypt_row enc dec party row encrypt
        ≡ crypt enc dec row (make_key enc (party_key party) (party_tweak party)) encrypt
  unfolding crypt_row
  crypt_row-crypt party encrypt row size =
      let same : not (length row == kem_key_size_bit / 8) ≡ false = ground (arith, size) in
      rw same refl

  -- Every row of bytes of the size is encrypted and decrypted to a row of bytes of the size.
  pub crypt_row-IsRow :
      (party : ℕ) (encrypt : Bool) (row : List ℕ)
      → length row ≡ row_bytes
      → AllBytes row
      → (out : List ℕ) × (crypt_row enc dec party row encrypt ≡ ok out)
        × (length out ≡ row_bytes)
        × AllBytes out
  crypt_row-IsRow party encrypt row size all =
      let key = make_key enc (party_key party) (party_tweak party) in
      let (out, run, width, bytes) =
        crypt-IsRow key encrypt row all (omega (arith, size)) (omega (arith, size)) in
      (out, crypt_row-crypt party encrypt row size ∙ run, width ∙ size, bytes)

  pub crypt_row-crypt_row :
      (party : ℕ) (row : List ℕ)
      → length row ≡ row_bytes
      → AllBytes row
      → (out : List ℕ) × (crypt_row enc dec party row true ≡ ok out)
        × (length out ≡ row_bytes)
        × AllBytes out
        × (crypt_row enc dec party out false ≡ ok row)
  crypt_row-crypt_row party row size all =
      let key = make_key enc (party_key party) (party_tweak party) in
      let (out, run, width, bytes) = crypt_row-IsRow party true row size all in
      let (out', there, back) =
        crypt-crypt enc dec cipher row key all (omega (arith, size)) (omega (arith, size)) in
      let same : out' ≡ out =
        ok-injective (sym there ∙ sym (crypt_row-crypt party true row size) ∙ run) in
      (out, run, width, bytes, crypt_row-crypt party false out width ∙ rw same at back)
