-- ===== src/Kem/Kemeleon.antt =====
-- frontend/kem/obf-mlkem/codec/Kemeleon.cpp: vectors of residues as numbers in base q, and keys.
-- An integer of GMP is a natural number; how GMP sizes, writes and reads one are parameters, as is
-- the one-byte hash of libsodium. `none` is `return false`.
pub mod Poly
pub mod Vec
pub mod Key
pub mod Fits
pub mod Cipher
use pq_psi.Base.{
  ℕ, zero, suc, ◌+◌, ◌-◌, ◌*◌, ◌/◌, ◌%◌, ◌^◌, bit_and, bit_or, Bool, true, false, not, ◌&&◌, ◌||◌,
  ◌==◌, ltb, if◌then◌else◌, List, [], ◌∷◌, ◌++◌, length, get_or, set, take, drop, replicate, Option,
  none, some, Result, ok, err, invalid_argument, ◌>>=◌, ◌>>◌, throw_if,
}
use pq_psi.Base.Bits.{bit_at}

pub record Gmp : Type 0 where
  -- mpz_sizeinbase(x, 2)
  pub size_in_base2 : ℕ → ℕ
  -- mpz_export(_, _, -1, 1, 0, 0, x)
  pub to_bytes : ℕ → List ℕ
  -- mpz_import(x, size, -1, 1, 0, 0, _)
  pub of_bytes : List ℕ → ℕ

pub data Mode : Type 0 where
  ml_kem512 : Mode
  ml_kem768 : Mode
  ml_kem1024 : Mode

abbrev pub n : ℕ
n = 256

abbrev pub q : ℕ
q = 3329

abbrev pub rho_bytes : ℕ
rho_bytes = 32

pub record Info : Type 0 where
  pub k : ℕ
  pub du : ℕ
  pub dv : ℕ
  pub poly_bytes : ℕ
  pub c1_bytes : ℕ
  pub c2_bytes : ℕ
  pub vec_size : ℕ
  pub vec_bits : ℕ
  pub vec_bytes : ℕ

-- The loop of `bitLen`.
unfoldable pub trim_len : ℕ → ℕ → ℕ
trim_len zero x = 0
trim_len (suc m) x = let rest = trim_len m x in if bit_at x m == 0 then rest else suc m

unfoldable pub bit_len : Gmp → ℕ → ℕ
bit_len g x = if x == 0 then 0 else trim_len (g.size_in_base2 x) x

-- `makeInfo` past the switch.
unfoldable pub info_of : Gmp → ℕ → ℕ → ℕ → Info
info_of g k du dv =
    let vec_bits = bit_len g (q ^ (k * n) + 1) - 1 in
    record {
      k = k;
      du = du;
      dv = dv;
      poly_bytes = 384 * k;
      c1_bytes = k * du * n / 8;
      c2_bytes = dv * n / 8;
      vec_size = k * n;
      vec_bits = vec_bits;
      vec_bytes = (vec_bits + 7) / 8;
    }

unfoldable pub make_info : Gmp → Mode → Info
make_info g ml_kem512 = info_of g 2 10 4
make_info g ml_kem768 = info_of g 3 10 4
make_info g ml_kem1024 = info_of g 4 11 5

-- Three bytes hold two residues of twelve bits.
unfoldable pub unpack_triples : List ℕ → List ℕ
unpack_triples (b0 ∷ b1 ∷ b2 ∷ bs) =
    bit_or b0 (bit_and b1 15 * 2 ^ 8) ∷ bit_or (b1 / 2 ^ 4) (b2 * 2 ^ 4) ∷ unpack_triples bs
unpack_triples _ = []

unfoldable pub unpack_poly_bytes : List ℕ → Result (List ℕ)
unpack_poly_bytes src = do
  throw_if (not (length src % 3 == 0)) (invalid_argument "Kemeleon poly bytes have unexpected size")
  ok (unpack_triples src)

unfoldable pub pack_pairs : List ℕ → List ℕ
pack_pairs (a0 ∷ a1 ∷ rest) =
    bit_and a0 255
    ∷ bit_or (a0 / 2 ^ 8) (bit_and a1 15 * 2 ^ 4) % 256
    ∷ a1 / 2 ^ 4 % 256
    ∷ pack_pairs rest
pack_pairs _ = []

unfoldable pub pack_poly_bytes : List ℕ → Result (List ℕ)
pack_poly_bytes src = do
  throw_if (not (length src % 2 == 0)) (invalid_argument "Kemeleon coeff count has unexpected size")
  ok (pack_pairs src)

-- The number with the digits `ds` in base q, least first.
unfoldable pub from_digits : List ℕ → ℕ
from_digits [] = 0
from_digits (d ∷ ds) = from_digits ds * q + d

unfoldable pub to_digits : ℕ → ℕ → List ℕ × ℕ
to_digits zero x = ([], x)
to_digits (suc count) x = let rest = to_digits count (x / q) in (x % q ∷ rest.0, rest.1)

-- out.back() &= mask
unfoldable pub mask_back : ℕ → List ℕ → List ℕ
mask_back mask [] = []
mask_back mask (b ∷ []) = bit_and b mask ∷ []
mask_back mask (b ∷ c ∷ bs) = b ∷ mask_back mask (c ∷ bs)

-- A write at the front of a buffer.
abbrev pub write_front : List ℕ → List ℕ → List ℕ
write_front bytes out = bytes ++ drop (length bytes) out

unfoldable pub encode_vec : Gmp → List ℕ → ℕ → Option (List ℕ)
encode_vec g digits bits =
    let x = from_digits digits in
    let out = write_front (g.to_bytes x) (replicate ((bits + 7) / 8) 0) in
    let masked = if not (bits % 8 == 0) then mask_back (2 ^ (bits % 8) - 1) out else out in
    if ltb bits (bit_len g x) then none else some masked

unfoldable pub decode_vec : Gmp → List ℕ → ℕ → ℕ → Option (List ℕ)
decode_vec g bytes bits count =
    let mask = 255 - (2 ^ (bits % 8) - 1) in
    let spare = not (bit_and (get_or bytes (length bytes - 1) 0) mask == 0) in
    let digits = to_digits count (g.of_bytes bytes) in
    let done = if digits.1 == 0 then some digits.0 else none in
    let checked = if not (bits % 8 == 0) && spare then none else done in
    if not (length bytes == (bits + 7) / 8) then none else checked

-- `hash_byte` is the one byte of crypto_generichash, `raw_key_bytes` is MlKem::publicKeyBytes.
module _ (g : Gmp) (hash_byte : List ℕ → ℕ) (raw_key_bytes : ℕ) where
  abbrev pub code_key_bytes : Info → ℕ
  code_key_bytes info = rho_bytes + info.vec_bytes

  unfoldable pub key_high_mask : Info → ℕ
  key_high_mask info = let rem = info.vec_bits % 8 in if rem == 0 then 0 else 255 - (2 ^ rem - 1)

  unfoldable pub fill_key_high_bits : Info → List ℕ → List ℕ → List ℕ
  fill_key_high_bits info key out =
      let mask = key_high_mask info in
      let at = rho_bytes + info.vec_bytes - 1 in
      if mask == 0
      then out
      else set out at (bit_or (get_or out at 0) (bit_and (hash_byte key) mask))

  unfoldable pub clear_key_high_bits : Info → List ℕ → List ℕ
  clear_key_high_bits info bytes =
      let mask = key_high_mask info in if mask == 0 then bytes else mask_back (255 - mask) bytes

  unfoldable pub encode_key : Info → List ℕ → Result (Option (List ℕ))
  encode_key info key = do
    throw_if (not (length key == raw_key_bytes))
        (invalid_argument "Kemeleon key has unexpected size")
    t ← unpack_poly_bytes (take info.poly_bytes key)
    elim (encode_vec g t info.vec_bits) [
      | none ↦ ok none
      | some r ↦ ok (some (fill_key_high_bits info key (drop info.poly_bytes key ++ r)))
    ]

  unfoldable pub decode_key : Info → List ℕ → Result (Option (List ℕ))
  decode_key info bytes =
      let r = clear_key_high_bits info (take info.vec_bytes (drop rho_bytes bytes)) in
      if not (length bytes == code_key_bytes info)
      then ok none
      else (elim (decode_vec g r info.vec_bits info.vec_size) [
        | none ↦ ok none
        | some t ↦ do packed ← pack_poly_bytes t; ok (some (packed ++ take rho_bytes bytes))
      ])
