-- ===== src/Kem/Tests.antt =====
-- Runs of the codec with a toy GMP.
use pq_psi.Base.{
  ℕ, zero, suc, ◌/◌, ◌%◌, ◌^◌, ◌≤◌, ◌<◌, ◌≡◌, true, refl, arith, inl, inr, ◌⊎◌, none, Bool-cases,
  ◌==◌, if◌then◌else◌, List, [], ◌∷◌, length, ok, some,
}
use pq_psi.Perm.Bytes.{AllBytes, load}
use pq_psi.Kem.Kemeleon.Cipher.{compress_value, decompress_value}
use pq_psi.Kem.Kemeleon.Cipher.Round.{compress_value-decompress_value}
use pq_psi.Kem.Kemeleon.{
  q, ml_kem768, make_info, info_of, Gmp, trim_len, bit_len, from_digits, mask_back, encode_vec,
  decode_vec, unpack_poly_bytes, pack_poly_bytes,
}
use pq_psi.Kem.Kemeleon.Vec.{IsGmp, decode_vec-encode_vec}
use pq_psi.Kem.Kemeleon.Fits.{encode_vec-decides}
use pq_psi.Kem.Kemeleon.Key.{IsInfo, decode_key-encode_key}
use pq_psi.Base.{◌++◌, replicate}
use pq_psi.Kem.Kemeleon.{
  Info, unpack_triples, key_high_mask, fill_key_high_bits, encode_key, decode_key,
}
use pq_psi.Kem.Kemeleon.Poly.{pack_poly_bytes-unpack_poly_bytes}

-- The bytes of a number, without leading zeros.
abbrev pub short_bytes : ℕ → ℕ → List ℕ
short_bytes zero x = []
short_bytes (suc fuel) x = if x == 0 then [] else x % 256 ∷ short_bytes fuel (x / 256)

abbrev pub toy_gmp : Gmp
toy_gmp = record {
  size_in_base2 = λ x. x;
  to_bytes = λ x. short_bytes x x;
  of_bytes = λ bs. load bs;
}

lt-two_pow : (x : ℕ) → x < 2 ^ x
lt-two_pow zero = omega arith
lt-two_pow (suc x) = omega (arith, lt-two_pow x)

short_bytes-load :
    (fuel x : ℕ) → x ≤ fuel → AllBytes (short_bytes fuel x) × (load (short_bytes fuel x) ≡ x)
unfolding load
short_bytes-load zero x h = (tt, omega arith)
short_bytes-load (suc fuel) x h = elim (Bool-cases (x == 0)) [
  | inl done ↦ rw done (tt, ground arith)
  | inr more ↦
      let (bytes, value) = short_bytes-load fuel (x / 256) (ground arith) in
      rw more ((omega arith, bytes), omega arith)
]

length-short_bytes : (fuel x n : ℕ) → x < 256 ^ n → length (short_bytes fuel x) ≤ n
length-short_bytes zero x n h = omega arith
length-short_bytes (suc fuel) x zero h =
    let done : (x == 0) ≡ true = ground arith in rw done (omega arith)
length-short_bytes (suc fuel) x (suc n) h = elim (Bool-cases (x == 0)) [
  | inl done ↦ rw done (omega arith)
  | inr more ↦ rw more (omega (arith, length-short_bytes fuel (x / 256) n (omega arith)))
]

pub toy_gmp-IsGmp : IsGmp toy_gmp
toy_gmp-IsGmp = record {
  sized = λ x. lt-two_pow x;
  writes = λ x. short_bytes-load x x (omega arith);
  fits = λ x n h. length-short_bytes x x n h;
  reads = λ bs h. refl;
}

vec_run : encode_vec toy_gmp (7 ∷ 1 ∷ []) 12 ≡ some (8 ∷ 13 ∷ [])
unfolding trim_len bit_len from_digits mask_back encode_vec
vec_run = refl

decode_vec-encode_vec_example : decode_vec toy_gmp (8 ∷ 13 ∷ []) 12 2 ≡ some (7 ∷ 1 ∷ [])
decode_vec-encode_vec_example =
    decode_vec-encode_vec toy_gmp toy_gmp-IsGmp (7 ∷ 1 ∷ []) 12 (8 ∷ 13 ∷ [])
      (omega arith, (omega arith, tt)) vec_run

pack_poly_bytes-unpack_poly_bytes_example :
    (t : List ℕ) × (unpack_poly_bytes (1 ∷ 171 ∷ 255 ∷ []) ≡ ok t)
    × (length t ≡ 2)
    × (pack_poly_bytes t ≡ ok (1 ∷ 171 ∷ 255 ∷ []))
pack_poly_bytes-unpack_poly_bytes_example =
    pack_poly_bytes-unpack_poly_bytes (1 ∷ 171 ∷ 255 ∷ [])
      (omega arith, (omega arith, (omega arith, tt))) refl

seven_hundred-fits : 700 < 2 ^ (make_info toy_gmp ml_kem768).du
unfolding make_info info_of
seven_hundred-fits = omega arith

compress_value-decompress_value_example :
    (decompress_value 700 (make_info toy_gmp ml_kem768).du < q)
    × (compress_value
          (decompress_value 700 (make_info toy_gmp ml_kem768).du)
          (make_info toy_gmp ml_kem768).du
        ≡ 700)
compress_value-decompress_value_example =
    compress_value-decompress_value toy_gmp ml_kem768 700 seven_hundred-fits

encode_vec-decides_example :
    ((from_digits (7 ∷ 1 ∷ []) < 2 ^ 12)
      × ((out : List ℕ) × (encode_vec toy_gmp (7 ∷ 1 ∷ []) 12 ≡ some out)))
    ⊎ ((2 ^ 12 ≤ from_digits (7 ∷ 1 ∷ [])) × (encode_vec toy_gmp (7 ∷ 1 ∷ []) 12 ≡ none))
encode_vec-decides_example = encode_vec-decides toy_gmp toy_gmp-IsGmp (7 ∷ 1 ∷ []) 12

-- A mode with vectors of two residues.
abbrev pub small_info : Info
small_info = record {
  k = 1;
  du = 10;
  dv = 4;
  poly_bytes = 3;
  c1_bytes = 1;
  c2_bytes = 1;
  vec_size = 2;
  vec_bits = 11;
  vec_bytes = 2;
}

pub small_info-IsInfo : IsInfo small_info
small_info-IsInfo = record { thirds = refl; pairs = refl; bytes = refl }

abbrev pub small_key : List ℕ
small_key = 7 ∷ 0 ∷ 0 ∷ replicate 32 9

abbrev pub small_code : List ℕ
small_code = replicate 32 9 ++ (7 ∷ 248 ∷ [])

pub nines : (n : ℕ) → AllBytes (replicate n 9)
nines zero = tt
nines (suc n) = (omega arith, nines n)

pub small_key-AllBytes : AllBytes small_key
small_key-AllBytes = (omega arith, (omega arith, (omega arith, nines 32)))

key_run : encode_key toy_gmp (λ key. 255) 35 small_info small_key ≡ ok (some small_code)
unfolding trim_len bit_len from_digits mask_back encode_vec unpack_triples unpack_poly_bytes
    key_high_mask fill_key_high_bits encode_key
key_run = refl

pub unpack_run : unpack_poly_bytes (7 ∷ 0 ∷ 0 ∷ []) ≡ ok (7 ∷ 0 ∷ [])
unfolding unpack_triples unpack_poly_bytes
unpack_run = refl

decode_key-encode_key_example :
    decode_key toy_gmp (λ key. 255) 35 small_info small_code ≡ ok (some small_key)
decode_key-encode_key_example =
    decode_key-encode_key toy_gmp (λ key. 255) 35 small_info small_info-IsInfo small_key small_code
      (7 ∷ 0 ∷ []) toy_gmp-IsGmp refl small_key-AllBytes unpack_run (omega arith, (omega arith, tt))
      key_run
