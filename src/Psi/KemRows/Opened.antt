-- ===== src/Psi/KemRows/Opened.antt =====
-- A row that is encapsulated to the key of a row is a hit of the secret key of that row.
use pq_psi.Base.{
  ℕ, zero, suc, ◌+◌, ◌-◌, ◌*◌, ◌≤◌, ◌<◌, ◌≡◌, sym, ap, ◌∙◌, arith, refl, Bool, true, false, inl,
  inr, not, ◌||◌, ◌==◌, ltb, List, [], ◌∷◌, ◌++◌, length, take, drop, replicate, length-append,
  length-replicate, take-append, drop-append, Option-cases, some, ok, >>=-eq-ok, throw_if-eq-ok,
  ok-injective,
}
use pq_psi.Perm.Bytes.{AllBytes, AllBytes-append, kem_key_block_size}
use pq_psi.Kem.Kemeleon.{
  Gmp, Info, rho_bytes, encode_key, decode_key, code_key_bytes, unpack_poly_bytes,
}
use pq_psi.Kem.Kemeleon.Vec.{IsGmp, AllResidues}
use pq_psi.Kem.Kemeleon.Key.{IsInfo, encode_key-IsCode, decode_key-encode_key}
use pq_psi.Psi.Rows.{bytes_of}
use pq_psi.Psi.Rows.Memory.{bytes_of-blocks_of}
use pq_psi.Psi.KemRows.{
  MlKem, max_key_tries, shared_secret_size, fill_ml_kem_key_seed, padded_row, attempt_key, try_keys,
  gen_row, encap_row, equal_bytes, decap_bytes,
}
use pq_psi.Psi.KemRows.Tries.{try_keys-IsFirst}

-- What ML-KEM documents of the bytes it makes.
pub record IsMlKem (kem : MlKem) (info : Info) : Type 0 where
  pub key_size : kem.public_key_bytes ≡ info.poly_bytes + rho_bytes
  pub key_bytes : (seed : List ℕ) → AllBytes (kem.key_gen seed).0
  -- A public key holds residues and rho.
  pub key_residues :
      (seed : List ℕ)
      → (t : List ℕ) × (unpack_poly_bytes (take info.poly_bytes (kem.key_gen seed).0) ≡ ok t)
        × AllResidues t
  pub secret_size : (seed : List ℕ) → length (kem.key_gen seed).1 ≡ kem.secret_key_bytes
  pub cipher_size : (pk seed : List ℕ) → length (kem.encaps pk seed).0 ≡ kem.cipher_text_bytes
  pub shared_size : (pk seed : List ℕ) → length (kem.encaps pk seed).1 ≡ shared_secret_size
  pub cipher_bytes : (pk seed : List ℕ) → AllBytes (kem.encaps pk seed).0
  pub shared_bytes : (pk seed : List ℕ) → AllBytes (kem.encaps pk seed).1

-- Two seeds for which decapsulation does not fail.
abbrev pub Agrees : MlKem → List ℕ → List ℕ → Type 0
Agrees kem key_seed seed =
    let pair = kem.key_gen key_seed in
    let out = kem.encaps pair.0 seed in kem.decaps out.0 pair.1 ≡ out.1

pub zeros-AllBytes : (n : ℕ) → AllBytes (replicate n 0)
zeros-AllBytes zero = tt
zeros-AllBytes (suc n) = (omega arith, zeros-AllBytes n)

pub bytes_of-padded_row :
    (row_size : ℕ) (bytes : List ℕ)
    → AllBytes bytes
    → length bytes ≤ row_size * 16
    → bytes_of (padded_row row_size bytes) ≡ bytes ++ replicate (row_size * 16 - length bytes) 0
unfolding padded_row
bytes_of-padded_row row_size bytes all fits =
    let rest = row_size * 16 - length bytes in
    bytes_of-blocks_of row_size (bytes ++ replicate rest 0)
      (omega (arith, length-append bytes (replicate rest 0), length-replicate {A = ℕ} rest 0))
      (AllBytes-append bytes (replicate rest 0) all (zeros-AllBytes rest))

equal_bytes-append : (a b : List ℕ) → equal_bytes a (a ++ b) ≡ true
unfolding equal_bytes
equal_bytes-append [] b = refl
equal_bytes-append (x ∷ a) b =
    let same : (x == x) ≡ true = ground arith in rw (same, equal_bytes-append a b) refl

pub append_assoc : (a b c : List ℕ) → (a ++ b) ++ c ≡ a ++ (b ++ c)
append_assoc [] b c = refl
append_assoc (x ∷ a) b c = ap (λ t. x ∷ t) (append_assoc a b c)

module _ (g : Gmp) (hash_byte : List ℕ → ℕ) (info : Info) (kem : MlKem) (random : ℕ → ℕ → List ℕ)
    (deterministic : Bool) where
  -- The row holds the code of the public key of one of the seeds.
  pub record IsKeyRow (row_size i : ℕ) (secret row : List ℕ) : Type 0 where
    pub attempt : ℕ
    pub tried : attempt < max_key_tries
    pub code : List ℕ
    pub encoded :
        encode_key g hash_byte kem.public_key_bytes info
          (kem.key_gen (fill_ml_kem_key_seed random i attempt deterministic)).0
        ≡ ok (some code)
    pub kept : secret ≡ (kem.key_gen (fill_ml_kem_key_seed random i attempt deterministic)).1
    pub fits : length code ≤ row_size * 16
    pub held : row ≡ padded_row row_size code

  attempt_key-encoded :
      (i t : ℕ) (code secret : List ℕ)
      → attempt_key g hash_byte info kem random deterministic i t ≡ ok (some (code, secret))
      → (encode_key g hash_byte kem.public_key_bytes info
            (kem.key_gen (fill_ml_kem_key_seed random i t deterministic)).0
          ≡ ok (some code))
        × (secret ≡ (kem.key_gen (fill_ml_kem_key_seed random i t deterministic)).1)
  unfolding attempt_key
  attempt_key-encoded i t code secret h =
      let pair = kem.key_gen (fill_ml_kem_key_seed random i t deterministic) in
      let (c, e, rest) =
        >>=-eq-ok (encode_key g hash_byte kem.public_key_bytes info (pair.0)) _ h in
      elim (Option-cases c) [
        | inl nothing ↦ absurd (cc (rw nothing at rest))
        | inr (made, found) ↦
            let same : ◌≡◌ {A = List ℕ × List ℕ} (made, pair.1) (code, secret) =
              cc (rw found at rest) in
            (e ∙ ap ok (found ∙ ap some (ap (λ p. p.0) same)), sym (ap (λ p. p.1) same))
      ]

  pub gen_row-IsKeyRow :
      (row_size i : ℕ) (secret row : List ℕ)
      → gen_row g hash_byte info kem random deterministic row_size i ≡ ok (secret, row)
      → IsKeyRow row_size i secret row
  unfolding gen_row
  gen_row-IsKeyRow row_size i secret row h =
      let (key, e, rest) =
        >>=-eq-ok (try_keys g hash_byte info kem random deterministic max_key_tries 0 i) _ h in
      elim (Option-cases key) [
        | inl nothing ↦ absurd (cc (rw nothing at rest))
        | inr ((code, sk), found) ↦
            let (room, made) =
              throw_if-eq-ok (ltb (row_size * 16) (length code)) _ _ (rw found at rest) in
            let (s, p, q, run, first) =
              try_keys-IsFirst g hash_byte info kem random deterministic max_key_tries 0 i
                (some (code, sk)) (e ∙ ap ok found) in
            let (encoded, kept) = attempt_key-encoded i s code sk run in
            let same : ◌≡◌ {A = List ℕ × List ℕ} (sk, padded_row row_size code) (secret, row) =
              ok-injective made in
            record {
              attempt = s;
              tried = omega arith;
              code = code;
              encoded = encoded;
              kept = sym (ap (λ p. p.0) same) ∙ kept;
              fits = ground arith;
              held = sym (ap (λ p. p.1) same);
            }
      ]

  -- The bytes of a row that holds a cipher text and its shared secret.
  pub record IsSealed (row_size : ℕ) (pk seed row : List ℕ) : Type 0 where
    pub sealed_fits : kem.cipher_text_bytes + shared_secret_size ≤ row_size * 16
    pub sealed_held : row ≡ padded_row row_size ((kem.encaps pk seed).0 ++ (kem.encaps pk seed).1)

  module _ (is_gmp : IsGmp g) (is_info : IsInfo info) (is_kem : IsMlKem kem info) where
    pub encap_row-IsSealed :
        (row_size i j : ℕ) (seed : ℕ → List ℕ) (secret row out : List ℕ)
        (held : IsKeyRow row_size i secret row)
        → encap_row g hash_byte info kem random deterministic seed row_size j row ≡ ok out
        → IsSealed row_size
            (kem.key_gen (fill_ml_kem_key_seed random i held.attempt deterministic)).0
            (seed j)
            out
    unfolding encap_row
    encap_row-IsSealed row_size i j seed secret row out held h =
        let key_seed = fill_ml_kem_key_seed random i held.attempt deterministic in
        let pk = (kem.key_gen key_seed).0 in
        let code =
          encode_key-IsCode g hash_byte kem.public_key_bytes info is_info pk held.code is_gmp
            is_kem.key_size (is_kem.key_bytes key_seed) held.encoded in
        let (t, unpacked, residues) = is_kem.key_residues key_seed in
        let bytes : bytes_of row ≡ held.code ++ replicate (row_size * 16 - length held.code) 0 =
          ap bytes_of held.held
          ∙ bytes_of-padded_row row_size held.code code.code_bytes held.fits in
        let front : take (code_key_bytes g hash_byte kem.public_key_bytes info) (bytes_of row)
            ≡ held.code =
          rw (bytes, sym code.code_size)
            (take-append held.code (replicate (row_size * 16 - length held.code) 0)) in
        let decoded =
          decode_key-encode_key g hash_byte kem.public_key_bytes info is_info pk held.code t is_gmp
            is_kem.key_size (is_kem.key_bytes key_seed) unpacked residues held.encoded in
        let (raw, run, rest) =
          >>=-eq-ok
            (decode_key g hash_byte kem.public_key_bytes info
              (take (code_key_bytes g hash_byte kem.public_key_bytes info) (bytes_of row)))
            _ h in
        let found : raw ≡ some pk =
          ok-injective
            (sym run ∙ ap (decode_key g hash_byte kem.public_key_bytes info) front ∙ decoded) in
        let (room, made) =
          throw_if-eq-ok (ltb (row_size * 16) (kem.cipher_text_bytes + shared_secret_size)) _ _
            (rw found at rest) in
        record { sealed_fits = ground arith; sealed_held = sym (ok-injective made) }

    pub decap_bytes-sealed :
        (key_seed seed out : List ℕ)
        → Agrees kem key_seed seed
        → IsSealed kem_key_block_size (kem.key_gen key_seed).0 seed out
        → decap_bytes kem (kem.key_gen key_seed).1 out kem_key_block_size ≡ true
    unfolding decap_bytes
    decap_bytes-sealed key_seed seed out agrees is_sealed =
        let pk = (kem.key_gen key_seed).0 in
        let ct = (kem.encaps pk seed).0 in
        let shared = (kem.encaps pk seed).1 in
        let rest : List ℕ = replicate (kem_key_block_size * 16 - length (ct ++ shared)) 0 in
        let cipher_size = is_kem.cipher_size pk seed in
        let size : length (ct ++ shared) ≡ kem.cipher_text_bytes + shared_secret_size =
          omega (arith, length-append ct shared, cipher_size, is_kem.shared_size pk seed) in
        let bytes : bytes_of out ≡ ct ++ (shared ++ rest) =
          ap bytes_of is_sealed.sealed_held
          ∙ bytes_of-padded_row kem_key_block_size (ct ++ shared)
              (AllBytes-append ct shared (is_kem.cipher_bytes pk seed)
                (is_kem.shared_bytes pk seed))
              (omega (arith, size, is_sealed.sealed_fits))
          ∙ append_assoc ct shared rest in
        let front : take kem.cipher_text_bytes (bytes_of out) ≡ ct =
          rw (bytes, sym cipher_size) (take-append ct (shared ++ rest)) in
        let back : drop kem.cipher_text_bytes (bytes_of out) ≡ shared ++ rest =
          rw (bytes, sym cipher_size) (drop-append ct (shared ++ rest)) in
        let whole : (not (kem_key_block_size == kem_key_block_size)
              || not (length (kem.key_gen key_seed).1 == kem.secret_key_bytes))
            ≡ false =
          ground (arith, is_kem.secret_size key_seed) in
        let room : ltb (kem_key_block_size * 16) (kem.cipher_text_bytes + shared_secret_size)
            ≡ false =
          ground (arith, is_sealed.sealed_fits) in
        rw (whole, room, front, back, agrees) (equal_bytes-append shared rest)

    -- For an arithmetic library and an ML-KEM whose bytes are as documented, and no decapsulation
    -- failure between the seeds of the attempts for row `i` and the seed of row `j`, the row that
    -- encapsulates to the row generated at index `i` is a hit of the secret key of that index.
    pub gen_row-decap_bytes :
        (i j : ℕ) (seed : ℕ → List ℕ) (secret row out : List ℕ)
        → ((t : ℕ)
            → t < max_key_tries
            → Agrees kem (fill_ml_kem_key_seed random i t deterministic) (seed j))
        → gen_row g hash_byte info kem random deterministic kem_key_block_size i ≡ ok (secret, row)
        → encap_row g hash_byte info kem random deterministic seed kem_key_block_size j row ≡ ok out
        → decap_bytes kem secret out kem_key_block_size ≡ true
    gen_row-decap_bytes i j seed secret row out agrees made sealed =
        let held = gen_row-IsKeyRow kem_key_block_size i secret row made in
        rw (held.kept) (
          decap_bytes-sealed (fill_ml_kem_key_seed random i held.attempt deterministic) (seed j) out
            (agrees held.attempt held.tried)
            (encap_row-IsSealed kem_key_block_size i j seed secret row out held sealed))
