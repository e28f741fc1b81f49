-- ===== src/Perm/Hctr/Inverse.antt =====
-- Decryption undoes encryption.
use pq_psi.Base.{
  ℕ, zero, suc, ◌+◌, ◌*◌, ◌/◌, ◌≤◌, ◌<◌, ◌≡◌, Bool, true, false, refl, ap, ◌∙◌, arith, ◌==◌, ltb,
  if◌then◌else◌, List, ◌++◌, length, take, drop, length-take, length-drop, length-append,
  take-append, drop-append, take-append-drop, ok, inl, inr, Bool-cases,
}
use pq_psi.Perm.Bytes.{
  kem_key_block_size, AllBytes, xor_bytes, store64, length-store, store-AllBytes, length-xor_bytes,
  xor_bytes_cancel, xor_bytes-AllBytes, AllBytes-append, AllBytes-take,
}
use pq_psi.Perm.Polyval.{store128, U128}
use pq_psi.Perm.Hctr.{Key, hash, counter_block, xctr_blocks, xctr, crypt}

-- A block of 16 bytes.
pub record IsBlock (b : List ℕ) : Type 0 where
  pub size : length b ≡ 16
  pub all_bytes : AllBytes b

-- A block cipher: blocks to blocks, and decryption under a key undoes encryption under it.
pub record IsCipher (enc dec : List ℕ → List ℕ → List ℕ) : Type 0 where
  pub size : (key b : List ℕ) → length (enc key b) ≡ 16
  pub undoes : (key b : List ℕ) → IsBlock b → dec key (enc key b) ≡ b

pub hash-IsBlock : (key : Key) (msg : List ℕ) → IsBlock (hash key msg)
unfolding hash
hash-IsBlock key msg = block_of _
  where
    block_of : (x : U128) → IsBlock (store128 x)
    block_of x = record {
      size = omega (
        arith,
        length-append (store64 x.lo) (store64 x.hi),
        length-store 8 x.lo,
        length-store 8 x.hi,
      );
      all_bytes =
          AllBytes-append (store64 x.lo) (store64 x.hi) (store-AllBytes 8 x.lo)
            (store-AllBytes 8 x.hi);
    }

-- Two rows of sixteen bytes and a rest are taken apart at sixteen.
take_block : (a b : List ℕ) → length a ≡ 16 → take 16 (a ++ b) ≡ a
take_block a b e = rw e at (take-append a b)

drop_block : (a b : List ℕ) → length a ≡ 16 → drop 16 (a ++ b) ≡ b
drop_block a b e = rw e at (drop-append a b)

module _ (enc dec : List ℕ → List ℕ → List ℕ) (cipher : IsCipher enc dec) where
  length-counter_block : (aes nonce : List ℕ) (i : ℕ) → length (counter_block enc aes nonce i) ≡ 16
  unfolding counter_block
  length-counter_block aes nonce i = cipher.size aes _

  pub length-xctr_blocks :
      (n i : ℕ) (aes nonce row : List ℕ)
      → length row < 16 * n + 16
      → 16 * n ≤ length row
      → length (xctr_blocks enc n i aes nonce row) ≡ length row
  unfolding xctr_blocks
  length-xctr_blocks zero i aes nonce row h low = elim (Bool-cases (length row == 0)) [
    | inl none_left ↦ rw none_left refl
    | inr some_left ↦ rw some_left (
        length-xor_bytes row (counter_block enc aes nonce i)
          (omega (arith, length-counter_block aes nonce i)))
  ]
  length-xctr_blocks (suc n) i aes nonce row h low =
      let c = counter_block enc aes nonce i in
      omega (
        arith,
        length-append (xor_bytes (take 16 row) c)
            (xctr_blocks enc n (i + 1) aes nonce (drop 16 row)),
        length-xor_bytes (take 16 row) c
            (omega (arith, length-take 16 row, length-counter_block aes nonce i)),
        length-take 16 row,
        length-drop 16 row,
        length-xctr_blocks n (i + 1) aes nonce (drop 16 row) (omega (arith, length-drop 16 row))
            (omega (arith, length-drop 16 row)),
      )

  -- The key stream of a nonce undoes itself.
  xctr_blocks-xctr_blocks :
      (n i : ℕ) (aes nonce row : List ℕ)
      → length row < 16 * n + 16
      → 16 * n ≤ length row
      → xctr_blocks enc n i aes nonce (xctr_blocks enc n i aes nonce row) ≡ row
  unfolding xctr_blocks
  xctr_blocks-xctr_blocks zero i aes nonce row h low =
      let c = counter_block enc aes nonce i in
      let size = length-xor_bytes row c (omega (arith, length-counter_block aes nonce i)) in
      elim (Bool-cases (length row == 0)) [
        | inl none_left ↦ rw (none_left, none_left) refl
        | inr some_left ↦
            rw (some_left, size, some_left)
              (xor_bytes_cancel row c (omega (arith, length-counter_block aes nonce i)))
      ]
  xctr_blocks-xctr_blocks (suc n) i aes nonce row h low =
      let c = counter_block enc aes nonce i in
      let first = xor_bytes (take 16 row) c in
      let rest = xctr_blocks enc n (i + 1) aes nonce (drop 16 row) in
      let fits : length (take 16 row) ≤ length c =
        omega (arith, length-take 16 row, length-counter_block aes nonce i) in
      let size : length first ≡ 16 =
        omega (arith, length-xor_bytes (take 16 row) c fits, length-take 16 row) in
      let ih =
        xctr_blocks-xctr_blocks n (i + 1) aes nonce (drop 16 row)
          (omega (arith, length-drop 16 row)) (omega (arith, length-drop 16 row)) in
      rw
        (
          take_block first rest size,
          drop_block first rest size,
          ih,
          xor_bytes_cancel (take 16 row) c fits,
        )
        (take-append-drop 16 row)

  -- One pass of `crypt` on a first block and a tail.
  unfoldable pub pass : Key → Bool → List ℕ → List ℕ → List ℕ
  pass key encrypt src tail =
      let mixed = xor_bytes src (hash key tail) in
      let mm = if encrypt then mixed else dec key.aes mixed in
      let uu = if encrypt then enc key.aes mixed else mixed in
      let s = xor_bytes (xor_bytes mm uu) key.l in
      let tail' = xctr_blocks enc (length tail / 16) 1 key.aes s tail in
      xor_bytes (if encrypt then uu else mm) (hash key tail') ++ tail'

  pub crypt-pass :
      (key : Key) (encrypt : Bool) (src tail : List ℕ)
      → length src ≡ 16
      → length tail < 816
      → crypt enc dec (src ++ tail) key encrypt ≡ ok (pass key encrypt src tail)
  unfolding crypt pass xctr
  crypt-pass key encrypt src tail h short =
      let fits : ltb kem_key_block_size (length tail / 16) ≡ false = ground arith in
      let long : ltb (length (src ++ tail)) 16 ≡ false = ground (arith, length-append src tail) in
      rw (long, take_block src tail h, drop_block src tail h, fits) refl

  -- The second pass undoes the first.
  pass-pass :
      (key : Key) (src tail : List ℕ)
      → IsBlock src
      → (src' : List ℕ) × (tail' : List ℕ) × (length src' ≡ 16)
        × (length tail' ≡ length tail)
        × (pass key true src tail ≡ src' ++ tail')
        × (pass key false src' tail' ≡ src ++ tail)
  unfolding pass
  pass-pass key src tail block =
      let d1 = hash key tail in
      let first = hash-IsBlock key tail in
      let mm = xor_bytes src d1 in
      let is_mm : IsBlock mm = record {
        size =
            omega
              (arith, length-xor_bytes src d1 (omega (arith, block.size, first.size)), block.size);
        all_bytes = xor_bytes-AllBytes src d1 block.all_bytes first.all_bytes;
      } in
      let uu = enc key.aes mm in
      let s = xor_bytes (xor_bytes mm uu) key.l in
      let n = length tail / 16 in
      let tail' = xctr_blocks enc n 1 key.aes s tail in
      let same : length tail' ≡ length tail =
        length-xctr_blocks n 1 key.aes s tail (omega arith) (omega arith) in
      let back : xctr_blocks enc n 1 key.aes s tail' ≡ tail =
        xctr_blocks-xctr_blocks n 1 key.aes s tail (omega arith) (omega arith) in
      let d2 = hash key tail' in
      let second = hash-IsBlock key tail' in
      let fits : length uu ≤ length d2 = omega (arith, second.size, cipher.size key.aes mm) in
      (
        xor_bytes uu d2,
        tail',
        omega (arith, length-xor_bytes uu d2 fits, cipher.size key.aes mm),
        same,
        refl,
        rw (xor_bytes_cancel uu d2 fits, cipher.undoes key.aes mm is_mm, same, back)
            (ap (λ x. x ++ tail) (xor_bytes_cancel src d1 (omega (arith, block.size, first.size)))),
      )

  -- For a block cipher whose decryption undoes its encryption, a row of bytes of at least one
  -- block, and below 52 blocks, encrypts under every key, and what it encrypts to decrypts to the row under the same
  -- key.
  pub crypt-crypt :
      (row : List ℕ) (key : Key)
      → AllBytes row
      → 16 ≤ length row
      → length row < 832
      → (out : List ℕ) × (crypt enc dec row key true ≡ ok out)
        × (crypt enc dec out key false ≡ ok row)
  crypt-crypt row key all_bytes h short =
      let tail_size = length-drop 16 row in
      let src = take 16 row in
      let tail = drop 16 row in
      let size : length src ≡ 16 = omega (arith, length-take 16 row) in
      let (src', tail', size', same, e, f) =
        pass-pass key src tail
          (record { size = size; all_bytes = AllBytes-take 16 row all_bytes }) in
      (
        src' ++ tail',
        (rw (take-append-drop 16 row) at (crypt-pass key true src tail size (omega arith)))
            ∙ ap (λ x. ok x) e,
        crypt-pass key false src' tail' size' (omega arith)
            ∙ ap (λ x. ok x) (f ∙ take-append-drop 16 row),
      )
