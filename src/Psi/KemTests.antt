-- ===== src/Psi/KemTests.antt =====
-- Runs of ML-KEM on rows of blocks, with toy libraries.
use pq_psi.Base.{
  ℕ, zero, suc, ◌%◌, ◌≡◌, refl, arith, true, ◌==◌, List, [], ◌∷◌, get_or, replicate, some, ok,
  if◌then◌else◌,
}
use pq_psi.Perm.Bytes.{store, load}
use pq_psi.Psi.Rows.{bytes_of, blocks_of}
use pq_psi.Kem.Kemeleon.{
  trim_len, bit_len, from_digits, mask_back, encode_vec, unpack_triples, unpack_poly_bytes,
  key_high_mask, fill_key_high_bits, encode_key,
}
use pq_psi.Kem.Tests.{toy_gmp}
use pq_psi.Psi.KemRows.{MlKem, seed_loop, fill_ml_kem_key_seed, attempt_key, try_keys}
use pq_psi.Psi.KemRows.Tries.{IsFirst, try_keys-IsFirst}
use pq_psi.Kem.Tests.{
  toy_gmp-IsGmp, small_info, small_info-IsInfo, small_key, small_code, small_key-AllBytes,
  unpack_run,
}
use pq_psi.Psi.KemRows.Opened.{IsMlKem, Agrees, gen_row-decap_bytes}
use pq_psi.Psi.KemRows.{padded_row, gen_row, encap_row, decap_bytes}
use pq_psi.Kem.Kemeleon.{clear_key_high_bits, decode_key}
use pq_psi.Perm.Bytes.{AllBytes, kem_key_block_size}
use pq_psi.Psi.KemRows.{encap_row}
use pq_psi.Kem.Kemeleon.{to_digits, pack_pairs, pack_poly_bytes, decode_vec}

-- The first attempt gives a key that is too large.
abbrev toy_kem : MlKem
toy_kem = record {
  public_key_bytes = 4;
  secret_key_bytes = 1;
  cipher_text_bytes = 1;
  key_gen = λ seed. (
    (if get_or seed 0 0 == 182 then 7 ∷ 16 ∷ 0 ∷ 1 ∷ [] else 7 ∷ 0 ∷ 0 ∷ 1 ∷ []),
    get_or seed 0 0 ∷ [],
  );
  encaps = λ pk seed. (pk, seed);
  decaps = λ ct secret. ct;
}

abbrev pub no_random : ℕ → ℕ → List ℕ
no_random row attempt = []

tries :
    try_keys toy_gmp (λ key. 0) small_info toy_kem no_random true 64 0 0
    ≡ ok (some (1 ∷ 7 ∷ 0 ∷ [], 211 ∷ []))
unfolding trim_len bit_len from_digits mask_back encode_vec unpack_triples unpack_poly_bytes
    key_high_mask fill_key_high_bits encode_key seed_loop fill_ml_kem_key_seed attempt_key try_keys
tries = refl

try_keys-IsFirst_example :
    IsFirst toy_gmp
      (λ key. 0)
      small_info
      toy_kem
      no_random
      true
      64
      0
      0
      (some (1 ∷ 7 ∷ 0 ∷ [], 211 ∷ []))
try_keys-IsFirst_example =
    try_keys-IsFirst toy_gmp (λ key. 0) small_info toy_kem no_random true 64 0 0
      (some (1 ∷ 7 ∷ 0 ∷ [], 211 ∷ [])) tries

-- One key, with a shared secret that its holder reads off the key.
abbrev pub fixed_kem : MlKem
fixed_kem = record {
  public_key_bytes = 35;
  secret_key_bytes = 1;
  cipher_text_bytes = 1;
  key_gen = λ seed. (small_key, 9 ∷ []);
  encaps = λ pk seed. (3 ∷ [], replicate 32 (get_or pk 3 0 % 256));
  decaps = λ ct secret. replicate 32 (get_or secret 0 0);
}

copies-AllBytes : (n x : ℕ) → AllBytes (replicate n (x % 256))
copies-AllBytes zero x = tt
copies-AllBytes (suc n) x = (omega arith, copies-AllBytes n x)

pub fixed_kem-IsMlKem : IsMlKem fixed_kem small_info
fixed_kem-IsMlKem = record {
  key_size = refl;
  key_bytes = λ seed. small_key-AllBytes;
  key_residues = λ seed. (7 ∷ 0 ∷ [], unpack_run, (omega arith, (omega arith, tt)));
  secret_size = λ seed. refl;
  cipher_size = λ pk seed. refl;
  shared_size = λ pk seed. refl;
  cipher_bytes = λ pk seed. (omega arith, tt);
  shared_bytes = λ pk seed. copies-AllBytes 32 (get_or pk 3 0);
}

pub fixed_kem-Agrees : (key_seed seed : List ℕ) → Agrees fixed_kem key_seed seed
fixed_kem-Agrees key_seed seed = refl

abbrev pub key_row : List ℕ
key_row = padded_row kem_key_block_size small_code

abbrev pub sealed_row : List ℕ
sealed_row = padded_row kem_key_block_size (3 ∷ replicate 32 9)

gen_run :
    gen_row toy_gmp (λ key. 255) small_info fixed_kem no_random true kem_key_block_size 0
    ≡ ok (9 ∷ [], key_row)
unfolding trim_len bit_len from_digits mask_back encode_vec unpack_triples unpack_poly_bytes
    key_high_mask fill_key_high_bits encode_key seed_loop fill_ml_kem_key_seed attempt_key try_keys
    gen_row
gen_run = refl

encap_run :
    encap_row toy_gmp
      (λ key. 255)
      small_info
      fixed_kem
      no_random
      true
      (λ i. i ∷ [])
      kem_key_block_size
      0
      key_row
    ≡ ok sealed_row
unfolding store padded_row bytes_of blocks_of load to_digits pack_pairs pack_poly_bytes decode_vec
    decode_key clear_key_high_bits key_high_mask mask_back encap_row
encap_run = refl

gen_row-decap_bytes_example : decap_bytes fixed_kem (9 ∷ []) sealed_row kem_key_block_size ≡ true
gen_row-decap_bytes_example =
    gen_row-decap_bytes toy_gmp (λ key. 255) small_info fixed_kem no_random true toy_gmp-IsGmp
      small_info-IsInfo fixed_kem-IsMlKem 0 0 (λ i. i ∷ []) (9 ∷ []) key_row sealed_row
      (λ t tried. fixed_kem-Agrees (fill_ml_kem_key_seed no_random 0 t true) (0 ∷ [])) gen_run
      encap_run
