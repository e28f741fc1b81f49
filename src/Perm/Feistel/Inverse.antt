-- ===== src/Perm/Feistel/Inverse.antt =====
-- Decryption undoes encryption, and neither fails unless the hash does.
use pq_psi.Base.{
  ℕ, zero, suc, ◌+◌, ◌≡◌, refl, sym, ap, ◌∙◌, arith, List, ◌∷◌, ◌++◌, length, take, drop,
  length-take, length-drop, length-append, take-append, drop-append, take-append-drop, Option, none,
  some, ok, >>=-eq-ok, ok-injective,
}
use pq_psi.Perm.Bytes.{xor_bytes, store64, length-xor_bytes, xor_bytes_cancel_left}
use pq_psi.Perm.Feistel.{
  Feistel, bytes, half_bytes, label, hashed, check, round_mask, encrypt_rounds, decrypt_rounds,
  encrypt_bytes, decrypt_bytes,
}

-- A digest has the length asked for.
abbrev pub IsDigest : (ℕ → List ℕ → Option (List ℕ)) → Type 0
IsDigest shake = (n : ℕ) (m h : List ℕ) → shake n m ≡ some h → length h ≡ n

hashed-eq-ok : (o : Option (List ℕ)) {m : List ℕ} → hashed o ≡ ok m → o ≡ some m
hashed-eq-ok none h = cc
hashed-eq-ok (some m) h = cc

check_size : (n : ℕ) → check n ≡ ok tt → n ≡ bytes
unfolding check
check_size n h = ground arith

check_pass : (n : ℕ) → n ≡ bytes → check n ≡ ok tt
unfolding check
check_pass n h = ground arith

module _ (shake : ℕ → List ℕ → Option (List ℕ)) (digest : IsDigest shake) where
  length-round_mask :
      (party r : ℕ) (curr : List ℕ) {m : List ℕ}
      → round_mask shake party curr r ≡ ok m
      → length m ≡ half_bytes
  unfolding round_mask
  length-round_mask party r curr {m} h =
      digest half_bytes (label ++ party ∷ store64 r ++ curr) m
        (hashed-eq-ok (shake half_bytes (label ++ party ∷ store64 r ++ curr)) h)

  record IsHalves (p : List ℕ × List ℕ) : Type 0 where
    pub left : length p.0 ≡ half_bytes
    pub right : length p.1 ≡ half_bytes

  rounds_undone :
      (n party r : ℕ) (prev curr : List ℕ) {out : List ℕ × List ℕ}
      → IsHalves (prev, curr)
      → encrypt_rounds shake n party r prev curr ≡ ok out
      → IsHalves out
        × (decrypt_rounds shake (r + n) party out.0 out.1 ≡ decrypt_rounds shake r party prev curr)
  unfolding encrypt_rounds decrypt_rounds
  rounds_undone zero party r prev curr {out} halves h =
      let same : (prev, curr) ≡ out = ok-injective h in
      let e : r + 0 ≡ r = omega arith in rw (← same, e) (halves, refl)
  rounds_undone (suc n) party r prev curr {out} halves h =
      let (next, mask, rest) = >>=-eq-ok (round_mask shake party curr r) _ h in
      let size = length-round_mask party r curr mask in
      let size' : length next ≡ length prev = size ∙ sym halves.left in
      let (out_halves, ih) =
        rounds_undone n party (r + 1) curr (xor_bytes next prev)
          (record { left = halves.right; right = length-xor_bytes next prev (omega arith) ∙ size })
          rest in
      let shift : r + suc n ≡ r + 1 + n = omega arith in
      let e : r + 1 ≡ suc r = omega arith in
      let last : decrypt_rounds shake (suc r) party curr (xor_bytes next prev)
          ≡ decrypt_rounds shake r party prev curr =
        rw (mask, xor_bytes_cancel_left next prev size') refl in
      (out_halves, rw shift (ih ∙ rw e last))

  IsHalves-of :
      (row : List ℕ) → length row ≡ bytes → IsHalves (take half_bytes row, drop half_bytes row)
  IsHalves-of row h = record {
    left = omega (arith, length-take half_bytes row);
    right = omega (arith, length-drop half_bytes row);
  }

  rounds_total :
      (total : (n : ℕ) (m : List ℕ) → (h : List ℕ) × (shake n m ≡ some h)) (n party r : ℕ)
      (prev curr : List ℕ)
      → (out : List ℕ × List ℕ) × (encrypt_rounds shake n party r prev curr ≡ ok out)
  unfolding encrypt_rounds round_mask
  rounds_total total zero party r prev curr = ((prev, curr), refl)
  rounds_total total (suc n) party r prev curr =
      let (next, e) = total half_bytes (label ++ party ∷ store64 r ++ curr) in
      let (out, f) = rounds_total total n party (r + 1) curr (xor_bytes next prev) in (out, rw e f)

  encrypted_back :
      (f : Feistel) (row out : List ℕ)
      → encrypt_bytes shake f row ≡ ok out
      → decrypt_bytes shake f out ≡ ok row
  unfolding encrypt_bytes decrypt_bytes decrypt_rounds
  encrypted_back f row out h =
      let (unit, e, rest) = >>=-eq-ok (check (length row)) _ h in
      let size : length row ≡ bytes = check_size (length row) e in
      let ((p, c), run, whole) =
        >>=-eq-ok
          (encrypt_rounds shake f.rounds f.party 0 (take half_bytes row) (drop half_bytes row)) _
          rest in
      let (halves, undone) =
        rounds_undone f.rounds f.party 0 (take half_bytes row) (drop half_bytes row)
          (IsHalves-of row size) run in
      let zero_rounds : 0 + f.rounds ≡ f.rounds = omega arith in
      let left : take half_bytes (p ++ c) ≡ p = rw halves.left at (take-append p c) in
      let right : drop half_bytes (p ++ c) ≡ c = rw halves.left at (drop-append p c) in
      let out_size =
        check_pass (length (p ++ c))
          (omega (arith, length-append p c, halves.left, halves.right)) in
      let back = rw zero_rounds at undone in
      rw (← ok-injective whole, out_size, left, right, back)
        (ap (λ x. ok x) (take-append-drop half_bytes row))

  -- When the hash always gives as many bytes as it is asked for, every row of 800 bytes encrypts,
  -- and what it encrypts to decrypts to the row, for every number of rounds and every party.
  pub decrypt_bytes-encrypt_bytes :
      (f : Feistel) (row : List ℕ)
      → ((n : ℕ) (m : List ℕ) → (h : List ℕ) × (shake n m ≡ some h))
      → length row ≡ bytes
      → (out : List ℕ) × (encrypt_bytes shake f row ≡ ok out) × (decrypt_bytes shake f out ≡ ok row)
  decrypt_bytes-encrypt_bytes f row total size =
      let ((p, c), run) =
        rounds_total total f.rounds f.party 0 (take half_bytes row) (drop half_bytes row) in
      let e : encrypt_bytes shake f row ≡ ok (p ++ c) =
        unfold encrypt_bytes in rw (check_pass (length row) size, run) refl in
      (p ++ c, e, encrypted_back f row (p ++ c) e)
