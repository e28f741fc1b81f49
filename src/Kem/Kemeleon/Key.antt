-- ===== src/Kem/Kemeleon/Key.antt =====
-- A key that is encoded decodes to itself: the bits that hide the length of the vector are cleared
-- again.
use pq_psi.Base.{
  ℕ, zero, suc, ◌+◌, ◌-◌, ◌*◌, ◌/◌, ◌%◌, ◌^◌, ◌<◌, bit_and, bit_or, ◌≡◌, true, false, refl, sym, ap,
  ◌∙◌, arith, inl, inr, Bool-cases, not, ◌==◌, List, [], ◌∷◌, ◌++◌, length, get_or, set, take, drop,
  length-append, length-set, length-take, length-drop, take-append, drop-append, take-append-drop,
  subst, Option-cases, some, ok, >>=-eq-ok, throw_if-eq-ok, ok-injective,
}
use pq_psi.Base.Bits.{bit_and-bit_or_spare, bit_or-lt, bit_and-lt_right}
use pq_psi.Perm.Bytes.{AllBytes, AllBytes-take, AllBytes-drop, AllBytes-append}
use pq_psi.Kem.Kemeleon.{
  Gmp, Info, rho_bytes, mask_back, encode_vec, decode_vec, unpack_poly_bytes, pack_poly_bytes,
  key_high_mask, fill_key_high_bits, clear_key_high_bits, encode_key, decode_key,
}
use pq_psi.Kem.Kemeleon.Vec.{
  IsGmp, AllResidues, encode_vec-IsVecBytes, decode_vec-encode_vec, spare_mask,
}
use pq_psi.Kem.Kemeleon.Poly.{pack_poly_bytes-unpack_poly_bytes}

-- How the sizes of a mode go together.
pub record IsInfo (info : Info) : Type 0 where
  pub thirds : info.poly_bytes % 3 ≡ 0
  pub pairs : info.vec_size ≡ info.poly_bytes / 3 * 2
  pub bytes : info.vec_bytes ≡ (info.vec_bits + 7) / 8

mask_kept :
    (r : ℕ) → r < 8 → ((255 - (2 ^ r - 1) == 0) ≡ false) × (255 - (255 - (2 ^ r - 1)) ≡ 2 ^ r - 1)
mask_kept zero h = (refl, refl)
mask_kept (suc zero) h = (refl, refl)
mask_kept (suc (suc zero)) h = (refl, refl)
mask_kept (suc (suc (suc zero))) h = (refl, refl)
mask_kept (suc (suc (suc (suc zero)))) h = (refl, refl)
mask_kept (suc (suc (suc (suc (suc zero))))) h = (refl, refl)
mask_kept (suc (suc (suc (suc (suc (suc zero)))))) h = (refl, refl)
mask_kept (suc (suc (suc (suc (suc (suc (suc zero))))))) h = (refl, refl)
mask_kept (suc (suc (suc (suc (suc (suc (suc (suc r)))))))) h = absurd (omega arith)

get_or-append_past : (a b : List ℕ) (i : ℕ) → get_or (a ++ b) (length a + i) 0 ≡ get_or b i 0
get_or-append_past [] b i = let z : 0 + i ≡ i = omega arith in rw z refl
get_or-append_past (x ∷ a) b i =
    let s : suc (length a) + i ≡ suc (length a + i) = omega arith in rw s (get_or-append_past a b i)

set-append : (a b : List ℕ) (i v : ℕ) → set (a ++ b) (length a + i) v ≡ a ++ set b i v
set-append [] b i v = let z : 0 + i ≡ i = omega arith in rw z refl
set-append (x ∷ a) b i v =
    let s : suc (length a) + i ≡ suc (length a + i) = omega arith in
    rw s (ap (λ t. x ∷ t) (set-append a b i v))

-- A last byte that is masked to what it was before.
mask_back-set :
    (bs : List ℕ) (n v mask : ℕ)
    → length bs ≡ suc n
    → bit_and v mask ≡ get_or bs n 0
    → mask_back mask (set bs n v) ≡ bs
unfolding mask_back
mask_back-set [] n v mask e h = absurd (omega arith)
mask_back-set (b ∷ []) zero v mask e h = rw h refl
mask_back-set (b ∷ []) (suc n) v mask e h = absurd (omega arith)
mask_back-set (b ∷ c ∷ bs) zero v mask e h = absurd (omega arith)
mask_back-set (b ∷ c ∷ bs) (suc zero) v mask e h =
    ap (λ t. b ∷ t) (mask_back-set (c ∷ bs) zero v mask (omega arith) h)
mask_back-set (b ∷ c ∷ bs) (suc (suc n)) v mask e h =
    ap (λ t. b ∷ t) (mask_back-set (c ∷ bs) (suc n) v mask (omega arith) h)

pub split_at : (n : ℕ) (a b : List ℕ) → length a ≡ n → (take n (a ++ b) ≡ a) × (drop n (a ++ b) ≡ b)
split_at n a b e = (rw e at (take-append a b), rw e at (drop-append a b))

take_all : (n : ℕ) (a : List ℕ) → length a ≡ n → take n a ≡ a
take_all zero [] e = refl
take_all (suc n) [] e = refl
take_all zero (x ∷ a) e = absurd (omega arith)
take_all (suc n) (x ∷ a) e = ap (λ t. x ∷ t) (take_all n a (omega arith))

AllBytes-set : (a : List ℕ) (i v : ℕ) → AllBytes a → v < 256 → AllBytes (set a i v)
AllBytes-set [] i v all h = tt
AllBytes-set (x ∷ a) zero v all h = (h, all.1)
AllBytes-set (x ∷ a) (suc i) v all h = (all.0, AllBytes-set a i v all.1 h)

get_or-lt : (a : List ℕ) (i : ℕ) → AllBytes a → get_or a i 0 < 256
get_or-lt [] i all = omega arith
get_or-lt (x ∷ a) zero all = all.0
get_or-lt (x ∷ a) (suc i) all = get_or-lt a i all.1

module _ (g : Gmp) (hash_byte : List ℕ → ℕ) (raw_key_bytes : ℕ) (info : Info)
    (is_info : IsInfo info) where
  -- The vector behind the filled bits.
  cleared :
      (key rho r : List ℕ)
      → length rho ≡ rho_bytes
      → length r ≡ info.vec_bytes
      → (0 < info.vec_bits % 8 → get_or r ((info.vec_bits + 7) / 8 - 1) 0 < 2 ^ (info.vec_bits % 8))
      → (r' : List ℕ) × (fill_key_high_bits g hash_byte raw_key_bytes info key (rho ++ r)
          ≡ rho ++ r')
        × (length r' ≡ info.vec_bytes)
        × (clear_key_high_bits g hash_byte raw_key_bytes info r' ≡ r)
  unfolding fill_key_high_bits clear_key_high_bits key_high_mask
  cleared key rho r rho_size size clear =
      let rem = info.vec_bits % 8 in
      elim (Bool-cases (rem == 0)) [
        | inl whole ↦ (r, rw whole refl, size, rw whole refl)
        | inr part ↦
            let mask = 255 - (2 ^ rem - 1) in
            let m = 2 ^ (8 - rem) - 1 in
            let at = info.vec_bytes - 1 in
            let form : mask ≡ m * 2 ^ rem = spare_mask rem (omega arith) in
            let (kept, back) = mask_kept rem (omega arith) in
            let some_bits : 0 < rem = ground arith in
            let last : info.vec_bytes ≡ suc at = omega (arith, is_info.bytes) in
            let place : 32 + info.vec_bytes - 1 ≡ length rho + at = omega arith in
            let old : get_or (rho ++ r) (length rho + at) 0 ≡ get_or r at 0 =
              get_or-append_past rho r at in
            let v = bit_or (get_or r at 0) (bit_and (hash_byte key) mask) in
            let same : (info.vec_bits + 7) / 8 - 1 ≡ at = omega (arith, is_info.bytes) in
            let small : get_or r at 0 < 2 ^ rem = rw same at (clear some_bits) in
            let off : bit_and v (2 ^ rem - 1) ≡ get_or r at 0 =
              rw form (bit_and-bit_or_spare rem (get_or r at 0) (hash_byte key) m small) in
            (
              set r at v,
              rw (part, kept, place, old) (set-append rho r at v),
              length-set r at v ∙ size,
              rw (part, kept, back) (mask_back-set r at v (2 ^ rem - 1) (size ∙ last) off),
            )
      ]

  -- The vector that is filled, cleared again and decoded.
  decoded :
      (key t poly rho r : List ℕ)
      → IsGmp g
      → AllResidues t
      → length t ≡ info.vec_size
      → pack_poly_bytes t ≡ ok poly
      → length rho ≡ rho_bytes
      → encode_vec g t info.vec_bits ≡ some r
      → decode_key g hash_byte raw_key_bytes info
          (fill_key_high_bits g hash_byte raw_key_bytes info key (rho ++ r))
        ≡ ok (some (poly ++ rho))
  unfolding decode_key
  decoded key t poly rho r is_gmp residues vec_size packed rho_size e =
      let vec = encode_vec-IsVecBytes g is_gmp t info.vec_bits r e in
      let (r', filled, r'_size, clears) =
        cleared key rho r rho_size (vec.size ∙ sym is_info.bytes) vec.clear in
      let (front, back) = split_at rho_bytes rho r' rho_size in
      let whole : take info.vec_bytes r' ≡ r' = take_all info.vec_bytes r' r'_size in
      let sized : (length (rho ++ r') == 32 + info.vec_bytes) ≡ true =
        ground (arith, length-append rho r', rho_size, r'_size) in
      let read : decode_vec g r info.vec_bits info.vec_size ≡ some t =
        rw vec_size at (decode_vec-encode_vec g is_gmp t info.vec_bits r residues e) in
      let settled : decode_key g hash_byte raw_key_bytes info (rho ++ r')
          ≡ ok (some (poly ++ rho)) =
        rw (sized, back, whole, clears, read, packed, front) refl in
      ap (decode_key g hash_byte raw_key_bytes info) filled ∙ settled

  -- For an arithmetic library that writes and reads numbers as its documentation says, sizes of a
  -- mode that go together, and a public key of bytes whose packed residues are below q, decoding
  -- what the key is encoded to gives the key, whatever the hash byte puts into the spare bits.
  pub decode_key-encode_key :
      (key code t : List ℕ)
      → IsGmp g
      → raw_key_bytes ≡ info.poly_bytes + rho_bytes
      → AllBytes key
      → unpack_poly_bytes (take info.poly_bytes key) ≡ ok t
      → AllResidues t
      → encode_key g hash_byte raw_key_bytes info key ≡ ok (some code)
      → decode_key g hash_byte raw_key_bytes info code ≡ ok (some key)
  unfolding encode_key decode_key
  decode_key-encode_key key code t is_gmp sizes all unpacked residues h =
      let (size, rest) = throw_if-eq-ok (not (length key == raw_key_bytes)) _ _ h in
      let poly = take info.poly_bytes key in
      let rho = drop info.poly_bytes key in
      let key_size : length key ≡ raw_key_bytes = ground arith in
      let poly_size : length poly ≡ info.poly_bytes =
        omega (arith, length-take info.poly_bytes key) in
      let rho_size : length rho ≡ rho_bytes = omega (arith, length-drop info.poly_bytes key) in
      let thirds : length poly % 3 ≡ 0 = rw poly_size is_info.thirds in
      let (t', unpacked', count, packed) =
        pack_poly_bytes-unpack_poly_bytes poly (AllBytes-take info.poly_bytes key all) thirds in
      let same : t' ≡ t = ok-injective (sym unpacked' ∙ unpacked) in
      let vec_size : length t ≡ info.vec_size =
        ap length (sym same) ∙ count ∙ rw poly_size (sym is_info.pairs) in
      let (t'', unpacked'', start') = >>=-eq-ok (unpack_poly_bytes poly) _ rest in
      let again : t'' ≡ t = ok-injective (sym unpacked'' ∙ unpacked) in
      let start = rw again at start' in
      elim (Option-cases (encode_vec g t info.vec_bits)) [
        | inl e ↦ cc (rw e at start)
        | inr (r, e) ↦
            let made : fill_key_high_bits g hash_byte raw_key_bytes info key
                  (drop info.poly_bytes key ++ r)
                ≡ code =
              cc (rw e at start) in
            let made_key =
              rw (take-append-drop info.poly_bytes key) at (
                decoded key t poly rho r is_gmp residues vec_size (rw same at packed) rho_size e) in
            ap (decode_key g hash_byte raw_key_bytes info) (sym made) ∙ made_key
      ]

  filled-AllBytes :
      (key out : List ℕ)
      → AllBytes out
      → AllBytes (fill_key_high_bits g hash_byte raw_key_bytes info key out)
  unfolding fill_key_high_bits key_high_mask
  filled-AllBytes key out all =
      let mask = key_high_mask g hash_byte raw_key_bytes info in
      let at = rho_bytes + info.vec_bytes - 1 in
      elim (Bool-cases (mask == 0)) [
        | inl whole ↦ rw whole all
        | inr part ↦ rw part (
            AllBytes-set out at _ all (
              bit_or-lt 8 (get_or out at 0) _ (get_or-lt out at all)
                (bit_and-lt_right 8 (hash_byte key) mask (key_high_mask-lt))))
      ]
    where
      key_high_mask-lt : key_high_mask g hash_byte raw_key_bytes info < 2 ^ 8
      key_high_mask-lt = elim (Bool-cases (info.vec_bits % 8 == 0)) [
        | inl whole ↦ rw whole (omega arith)
        | inr part ↦ rw part (omega arith)
      ]

  -- The code of a key is bytes, as many as a code has.
  pub record IsCode (code : List ℕ) : Type 0 where
    pub code_size : length code ≡ rho_bytes + info.vec_bytes
    pub code_bytes : AllBytes code

  pub encode_key-IsCode :
      (key code : List ℕ)
      → IsGmp g
      → raw_key_bytes ≡ info.poly_bytes + rho_bytes
      → AllBytes key
      → encode_key g hash_byte raw_key_bytes info key ≡ ok (some code)
      → IsCode code
  unfolding encode_key
  encode_key-IsCode key code is_gmp sizes all h =
      let (size, rest) = throw_if-eq-ok (not (length key == raw_key_bytes)) _ _ h in
      let rho = drop info.poly_bytes key in
      let key_size : length key ≡ raw_key_bytes = ground arith in
      let rho_size : length rho ≡ rho_bytes = omega (arith, length-drop info.poly_bytes key) in
      let (t, unpacked, start) = >>=-eq-ok (unpack_poly_bytes (take info.poly_bytes key)) _ rest in
      elim (Option-cases (encode_vec g t info.vec_bits)) [
        | inl e ↦ cc (rw e at start)
        | inr (r, e) ↦
            let vec = encode_vec-IsVecBytes g is_gmp t info.vec_bits r e in
            let made : fill_key_high_bits g hash_byte raw_key_bytes info key (rho ++ r) ≡ code =
              cc (rw e at start) in
            let (r', filled, r'_size, clears) =
              cleared key rho r rho_size (vec.size ∙ sym is_info.bytes) vec.clear in
            record {
              code_size =
                  ap length (sym made ∙ filled)
                  ∙ omega (arith, length-append rho r', rho_size, r'_size);
              code_bytes = subst AllBytes made (
                  filled-AllBytes key (rho ++ r)
                    (AllBytes-append rho r (AllBytes-drop info.poly_bytes key all) vec.all_bytes));
            }
      ]
