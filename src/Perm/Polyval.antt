-- ===== src/Perm/Polyval.antt =====
-- frontend/permutation/hctr2.h, up to the hash: POLYVAL over words of 128 bits. A block is a list
-- of 16 bytes; an array indexed by byte position and value is a function.
use pq_psi.Base.{
  ℕ, zero, suc, ◌+◌, ◌-◌, ◌*◌, ◌/◌, ◌%◌, ◌^◌, bit_and, bit_or, bit_xor, Bool, not, ◌&&◌, ◌==◌, ltb,
  if◌then◌else◌, List, ◌++◌, length, get_or, set, take, drop, replicate,
}
use pq_psi.Base.Bits.{bit_at}
use pq_psi.Perm.Bytes.{load, store64}

pub record U128 : Type 0 where
  pub lo : ℕ
  pub hi : ℕ

abbrev pub load64 : List ℕ → ℕ
load64 b = load (take 8 b)

abbrev pub load128 : List ℕ → U128
load128 b = record { lo = load64 b; hi = load64 (drop 8 b) }

abbrev pub store128 : U128 → List ℕ
store128 x = store64 x.lo ++ store64 x.hi

abbrev pub zero128 : U128
zero128 = record { lo = 0; hi = 0 }

abbrev pub xor128 : U128 → U128 → U128
xor128 a b = record { lo = bit_xor a.lo b.lo; hi = bit_xor a.hi b.hi }

-- x << s and x >> s on 64 bits, for s < 64
abbrev pub shl : ℕ → ℕ → ℕ
shl x s = x * 2 ^ s % 2 ^ 64

abbrev pub shr : ℕ → ℕ → ℕ
shr x s = x / 2 ^ s

abbrev pub get_bit : U128 → ℕ → Bool
get_bit x i = if ltb i 64 then bit_at x.lo i == 1 else bit_at x.hi (i - 64) == 1

-- getBit and flipBit on the four words of a product.
abbrev pub get_bit4 : List ℕ → ℕ → Bool
get_bit4 p i = bit_at (get_or p (i / 64) 0) (i % 64) == 1

-- p[w] ^= x
abbrev pub xor_at : List ℕ → ℕ → ℕ → List ℕ
xor_at p w x = set p w (bit_xor (get_or p w 0) x)

abbrev pub flip_bit : List ℕ → ℕ → List ℕ
flip_bit p i = xor_at p (i / 64) (shl 1 (i % 64))

-- One round of the loop of `mul` over the bits of the first factor.
pub mul_step : U128 → U128 → ℕ → List ℕ → List ℕ
mul_step a b i p =
    let w = i / 64 in
    let s = i % 64 in
    let p1 = xor_at p w (shl b.lo s) in
    let p2 = if s == 0 then p1 else xor_at p1 (w + 1) (shr b.lo (64 - s)) in
    let p3 = xor_at p2 (w + 1) (shl b.hi s) in
    let p4 =
      if not (s == 0) && ltb (w + 2) (length p3)
      then xor_at p3 (w + 2) (shr b.hi (64 - s))
      else p3 in
    if get_bit a i then p4 else p

pub mul_loop : ℕ → ℕ → U128 → U128 → List ℕ → List ℕ
mul_loop zero i a b p = p
mul_loop (suc n) i a b p = mul_loop n (i + 1) a b (mul_step a b i p)

-- The loop over the degrees from `127 + n` down to 128.
pub reduce_loop : ℕ → List ℕ → List ℕ
reduce_loop zero p = p
reduce_loop (suc n) p =
    let d = n + 128 in
    let p1 = flip_bit (flip_bit (flip_bit p d) (d - 1)) (d - 2) in
    let p2 = flip_bit (flip_bit p1 (d - 7)) (d - 128) in
    reduce_loop n (if get_bit4 p d then p2 else p)

pub mul : U128 → U128 → U128
mul a b =
    let p = reduce_loop 128 (mul_loop 128 0 a b (replicate 4 0)) in
    record { lo = get_or p 0 0; hi = get_or p 1 0 }

-- The table of the products of a byte at each position.
pub make_mul_table : U128 → ℕ → ℕ → U128
make_mul_table h pos v =
    let bit = pos * 8 in
    let x : U128 =
      if ltb bit 64
      then record { lo = shl v bit; hi = 0 }
      else record { lo = 0; hi = shl v (bit - 64) } in
    mul x h

pub mul_fixed_loop : ℕ → ℕ → U128 → (ℕ → ℕ → U128) → U128 → U128
mul_fixed_loop zero pos x table out = out
mul_fixed_loop (suc n) pos x table out =
    let out1 = xor128 out (table pos (bit_and (shr x.lo (pos * 8)) 255)) in
    let out2 = xor128 out1 (table (pos + 8) (bit_and (shr x.hi (pos * 8)) 255)) in
    mul_fixed_loop n (pos + 1) x table out2

pub mul_fixed : U128 → (ℕ → ℕ → U128) → U128
mul_fixed x table = mul_fixed_loop 8 0 x table zero128

pub polyval_key : List ℕ → U128
polyval_key hash_key =
    mul (load128 hash_key)
      (record { lo = 1; hi = bit_or (bit_or (bit_or (shl 1 63) (shl 1 60)) (shl 1 57)) (shl 1 50) })

-- The blocks of `data` in turn, `count` of them.
pub update : ℕ → (ℕ → ℕ → U128) → List ℕ → U128 → U128
update zero table bytes acc = acc
update (suc count) table bytes acc =
    update count table (drop 16 bytes) (mul_fixed (xor128 acc (load128 bytes)) table)

pub update_padded_zero : (ℕ → ℕ → U128) → List ℕ → U128 → U128
update_padded_zero table bytes acc =
    let full = length bytes / 16 in
    let rem = length bytes % 16 in
    let acc' = update full table bytes acc in
    if rem == 0
    then acc'
    else update 1 table (drop (full * 16) bytes ++ replicate (16 - rem) 0) acc'

pub init_hash : (ℕ → ℕ → U128) → List ℕ → ℕ → U128
init_hash table tweak modifier =
    let first = store64 (length tweak * 8 * 2 + modifier) ++ replicate 8 0 in
    update_padded_zero table tweak (update 1 table first zero128)
