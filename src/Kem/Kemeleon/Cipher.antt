-- ===== src/Kem/Kemeleon/Cipher.antt =====
-- frontend/kem/obf-mlkem/codec/Kemeleon.cpp: ciphertexts. `draw i bound` is the `i`-th number that
-- the sampler gives below a bound, `zero_draw i bound` is randombytes_uniform at entry `i` of c2.
pub mod Round
use pq_psi.Base.{
  ℕ, zero, suc, ◌+◌, ◌-◌, ◌*◌, ◌/◌, ◌%◌, ◌^◌, bit_or, Bool, true, false, not, ◌&&◌, ◌||◌, ◌==◌, ltb,
  leb, if◌then◌else◌, List, [], ◌∷◌, ◌++◌, length, get_or, set, take, drop, map, replicate, Option,
  none, some, Result, ok, err, invalid_argument, runtime_error, ◌>>=◌, ◌>>◌, throw_if,
}
use pq_psi.Base.Bits.{bit_at}
use pq_psi.Kem.Kemeleon.{Gmp, Info, n, q, bit_len, mask_back, write_front, decode_vec}

pub compress_value : ℕ → ℕ → ℕ
compress_value x bits = (x * 2 ^ bits + q / 2) / q % 2 ^ 16 % 2 ^ bits

pub decompress_value : ℕ → ℕ → ℕ
decompress_value x bits = (x * q + 2 ^ (bits - 1)) / 2 ^ bits % 2 ^ 16

-- The value of `bits` places from place `pos` on.
pub read_value : List ℕ → ℕ → ℕ → ℕ → ℕ
read_value src pos zero j = 0
read_value src pos (suc bits) j =
    let rest = read_value src pos bits (j + 1) in
    bit_or (bit_at (get_or src ((pos + j) / 8) 0) ((pos + j) % 8) * 2 ^ j) rest

pub unpack_bits : List ℕ → ℕ → ℕ → ℕ → List ℕ
unpack_bits src bits zero pos = []
unpack_bits src bits (suc count) pos =
    read_value src pos bits 0 ∷ unpack_bits src bits count (pos + bits)

-- out[pos / 8] |= 1 << (pos % 8) for each set place of `x`
pub write_value : ℕ → ℕ → ℕ → ℕ → List ℕ → List ℕ
write_value x pos zero j out = out
write_value x pos (suc bits) j out =
    let at = (pos + j) / 8 in
    let out' =
      if bit_at x j == 1
      then set out at (bit_or (get_or out at 0) (2 ^ ((pos + j) % 8)))
      else out in
    write_value x pos bits (j + 1) out'

pub write_values : List ℕ → ℕ → ℕ → List ℕ → List ℕ
write_values [] bits pos out = out
write_values (x ∷ xs) bits pos out =
    write_values xs bits (pos + bits) (write_value x pos bits 0 out)

pub pack_bits : List ℕ → ℕ → List ℕ
pack_bits src bits = write_values src bits 0 (replicate ((length src * bits + 7) / 8) 0)

pub record PreimageTable : Type 0 where
  pub offsets : List ℕ
  pub counts : List ℕ
  pub vals : List ℕ

-- ++counts[compressValue(x)] for the values from `x` on
pub count_loop : ℕ → ℕ → ℕ → List ℕ → List ℕ
count_loop zero x bits counts = counts
count_loop (suc rounds) x bits counts =
    let c = compress_value x bits in
    count_loop rounds (x + 1) bits (set counts c (get_or counts c 0 + 1))

pub offset_loop : List ℕ → ℕ → List ℕ
offset_loop [] offset = []
offset_loop (c ∷ cs) offset = offset ∷ offset_loop cs ((offset + c) % 2 ^ 16)

pub fill_loop : ℕ → ℕ → ℕ → List ℕ → List ℕ → List ℕ → List ℕ
fill_loop zero x bits offsets used vals = vals
fill_loop (suc rounds) x bits offsets used vals =
    let c = compress_value x bits in
    let pos = (get_or offsets c 0 + get_or used c 0) % 2 ^ 16 in
    fill_loop rounds (x + 1) bits offsets (set used c (get_or used c 0 + 1)) (set vals pos x)

pub total : List ℕ → ℕ
total [] = 0
total (c ∷ cs) = c + total cs

pub make_preimage_table : ℕ → PreimageTable
make_preimage_table bits =
    let scale = 2 ^ bits in
    let counts = count_loop q 0 bits (replicate scale 0) in
    let offsets = offset_loop counts 0 in
    record {
      offsets = offsets;
      counts = counts;
      vals = fill_loop q 0 bits offsets (replicate scale 0) (replicate (total counts % 2 ^ 16) 0);
    }

module _ (g : Gmp) (table : PreimageTable) (draw : ℕ → ℕ → ℕ) where
  pub pick_preimage : ℕ → ℕ → Result ℕ
  pick_preimage i want = do
    throw_if (leb (length table.counts) want) (runtime_error "Kemeleon preimage set is empty")
    throw_if (get_or table.counts want 0 == 0) (runtime_error "Kemeleon preimage set is empty")
    ok (get_or table.vals (get_or table.offsets want 0 + draw i (get_or table.counts want 0)) 0)

  -- The loop of `encodePickedVec`, from the last entry to entry `i`.
  pub picked_number : ℕ → List ℕ → Result ℕ
  picked_number i [] = ok 0
  picked_number i (want ∷ rest) = do
    x ← picked_number (i + 1) rest
    val ← pick_preimage i want
    ok (x * q + val)

  pub encode_picked_vec : List ℕ → ℕ → Result (Option (List ℕ))
  encode_picked_vec wants bits = do
    x ← picked_number 0 wants
    let out = write_front (g.to_bytes x) (replicate ((bits + 7) / 8) 0)
    let masked = if not (bits % 8 == 0) then mask_back (2 ^ (bits % 8) - 1) out else out
    ok (if ltb bits (bit_len g x) then none else some masked)

  module _ (zero_draw : ℕ → ℕ → ℕ) where
    pub should_reject_zero : ℕ → ℕ → Bool
    should_reject_zero i bits = zero_draw i ((q + 2 ^ bits - 1) / 2 ^ bits) == 0

    pub reject_zero_entries : List ℕ → ℕ → ℕ → ℕ → Bool
    reject_zero_entries src bits zero i = false
    reject_zero_entries src bits (suc count) i =
        (read_value src (i * bits) bits 0 == 0 && should_reject_zero i bits)
        || reject_zero_entries src bits count (i + 1)

    pub encode_cipher : Info → List ℕ → Result (Option (List ℕ))
    encode_cipher info cipher = do
      throw_if (not (length cipher == info.c1_bytes + info.c2_bytes))
          (invalid_argument "Kemeleon cipher has unexpected size")
      let c2 = drop info.c1_bytes cipher
      r ←
          encode_picked_vec (unpack_bits (take info.c1_bytes cipher) info.du info.vec_size 0)
            info.vec_bits
      elim r [
        | none ↦ ok none
        | some bytes ↦ ok (if reject_zero_entries c2 info.dv n 0 then none else some (bytes ++ c2))
      ]

pub decode_cipher : Gmp → Info → List ℕ → Option (List ℕ)
decode_cipher g info bytes =
    if not (length bytes == info.vec_bytes + info.c2_bytes)
    then none
    else (elim (decode_vec g (take info.vec_bytes bytes) info.vec_bits info.vec_size) [
      | none ↦ none
      | some u ↦
          some
            (pack_bits (map (λ x. compress_value x info.du) u) info.du ++ drop info.vec_bytes bytes)
    ])
