-- ===== src/Kem/Kemeleon/Poly.antt =====
-- Unpacking the bytes of a polynomial and packing them again.
use pq_psi.Base.{
  ℕ, ◌+◌, ◌*◌, ◌/◌, ◌%◌, ◌^◌, ◌<◌, bit_and, bit_or, ◌≡◌, refl, arith, List, [], ◌∷◌, length, ok,
}
use pq_psi.Base.Bits.{bit_or-disjoint, bit_and-ones}
use pq_psi.Perm.Bytes.{AllBytes}
use pq_psi.Kem.Kemeleon.{unpack_triples, unpack_poly_bytes, pack_pairs, pack_poly_bytes}

low_residue : (b0 b1 : ℕ) → b0 < 256 → bit_or b0 (bit_and b1 15 * 2 ^ 8) ≡ b0 + b1 % 16 * 256
low_residue b0 b1 h = rw (bit_and-ones 4 b1) (bit_or-disjoint 8 b0 (b1 % 16) h)

high_residue : (b1 b2 : ℕ) → b1 < 256 → bit_or (b1 / 2 ^ 4) (b2 * 2 ^ 4) ≡ b1 / 16 + b2 * 16
high_residue b1 b2 h = bit_or-disjoint 4 (b1 / 16) b2 (omega arith)

middle_byte :
    (a0 a1 : ℕ) → a0 < 4096 → bit_or (a0 / 2 ^ 8) (bit_and a1 15 * 2 ^ 4) ≡ a0 / 256 + a1 % 16 * 16
middle_byte a0 a1 h = rw (bit_and-ones 4 a1) (bit_or-disjoint 4 (a0 / 256) (a1 % 16) (omega arith))

low_byte : (a : ℕ) → bit_and a 255 ≡ a % 256
low_byte a = bit_and-ones 8 a

pub pack_pairs-unpack_triples :
    (src : List ℕ) → AllBytes src → length src % 3 ≡ 0 → pack_pairs (unpack_triples src) ≡ src
unfolding pack_pairs unpack_triples
pack_pairs-unpack_triples [] p h = refl
pack_pairs-unpack_triples (b0 ∷ []) p h = absurd (omega arith)
pack_pairs-unpack_triples (b0 ∷ b1 ∷ []) p h = absurd (omega arith)
pack_pairs-unpack_triples (b0 ∷ b1 ∷ b2 ∷ bs) p h =
    let a0 = b0 + b1 % 16 * 256 in
    let a1 = b1 / 16 + b2 * 16 in
    let first : a0 % 256 ≡ b0 = omega (arith, p.0) in
    let second : (a0 / 256 + a1 % 16 * 16) % 256 ≡ b1 = omega (arith, p.0, p.1.0) in
    let third : a1 / 2 ^ 4 % 256 ≡ b2 = omega (arith, p.1.0, p.1.1.0) in
    rw
      (
        low_residue b0 b1 p.0,
        high_residue b1 b2 p.1.0,
        low_byte a0,
        middle_byte a0 a1 (omega (arith, p.0)),
        first,
        second,
        third,
        pack_pairs-unpack_triples bs p.1.1.1 (omega arith),
      )
      refl

length-unpack_triples :
    (src : List ℕ) → length src % 3 ≡ 0 → length (unpack_triples src) ≡ length src / 3 * 2
unfolding unpack_triples
length-unpack_triples [] h = omega arith
length-unpack_triples (b0 ∷ []) h = absurd (omega arith)
length-unpack_triples (b0 ∷ b1 ∷ []) h = absurd (omega arith)
length-unpack_triples (b0 ∷ b1 ∷ b2 ∷ bs) h = omega (arith, length-unpack_triples bs (omega arith))

-- Bytes in a number divisible by 3 unpack to two residues for every three bytes, and the residues
-- pack to the bytes.
pub pack_poly_bytes-unpack_poly_bytes :
    (src : List ℕ)
    → AllBytes src
    → length src % 3 ≡ 0
    → (t : List ℕ) × (unpack_poly_bytes src ≡ ok t)
      × (length t ≡ length src / 3 * 2)
      × (pack_poly_bytes t ≡ ok src)
unfolding unpack_poly_bytes pack_poly_bytes
pack_poly_bytes-unpack_poly_bytes src p h =
    let size = length-unpack_triples src h in
    (unpack_triples src, ground arith, size, ground (arith, pack_pairs-unpack_triples src p h))
