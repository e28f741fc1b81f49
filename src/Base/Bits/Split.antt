-- ===== src/Base/Bits/Split.antt =====
-- Words put together from parts that do not overlap.
use Prim.Native.Nat.{ℕ, zero, suc, ◌+◌, ◌-◌, ◌*◌, ◌/◌, ◌%◌, ◌^◌, ◌<◌, bit_and, bit_or}
use mathlib.Core.Path.{◌≡◌, refl}
use mathlib.Core.Logic.{inl, inr}
use native.Mathlib.Omega.{arith}
use native.Mathlib.Nat.{pow-suc, mul_assoc}
use pq_psi.Base.Tests.{ltb, Bool-cases}
use pq_psi.Base.Bits.Step.{bit_or_step}
use pq_psi.Base.Bits.Laws.{
  bit-lt, bit-zero, bit-bit_and, bit-bit_or, bit-shl_low, bit-mod_low, bit-mod_high,
}
use pq_psi.Base.Bits.Masks.{bit-high, bit-ones_low, bit-ones_high, eq_of_bits, lt-two-pow}

-- The low part of a word is disjoint from the multiples of 2^w.
pub bit_and-disjoint : (w a b : ℕ) → a < 2 ^ w → bit_and a (b * 2 ^ w) ≡ 0
bit_and-disjoint w a b h = eq_of_bits _ _ λ i. elim (Bool-cases (ltb i w)) [
  | inl low ↦ ground (arith, bit-bit_and a (b * 2 ^ w) i, bit-shl_low b w i, bit-zero i)
  | inr high ↦ ground (arith, bit-bit_and a (b * 2 ^ w) i, bit-high a w i h, bit-zero i)
]

pub bit_or-zero : (a : ℕ) → bit_or a 0 ≡ a
bit_or-zero a = eq_of_bits _ _ λ i. omega (arith, bit-bit_or a 0 i, bit-zero i, bit-lt a i)

pub bit_or-disjoint : (w a b : ℕ) → a < 2 ^ w → bit_or a (b * 2 ^ w) ≡ a + b * 2 ^ w
bit_or-disjoint zero a b h =
    let e : a ≡ 0 = omega arith in
    let one : b * 2 ^ 0 ≡ b = omega arith in
    let sum : 0 + b ≡ b = omega arith in
    rw (e, one, sum) (eq_of_bits _ _ λ i. omega (arith, bit-bit_or 0 b i, bit-zero i, bit-lt b i))
bit_or-disjoint (suc w) a b h =
    let double : b * 2 ^ suc w ≡ b * 2 ^ w * 2 = rw (pow-suc 2 w, mul_assoc b (2 ^ w) 2) refl in
    let half : b * 2 ^ suc w / 2 ≡ b * 2 ^ w = omega arith in
    rw (bit_or_step a (b * 2 ^ suc w), half, bit_or-disjoint w (a / 2) b (omega arith))
      (omega arith)

-- A mask of `w` ones keeps the remainder by 2^w.
pub bit_and-ones : (w a : ℕ) → bit_and a (2 ^ w - 1) ≡ a % 2 ^ w
bit_and-ones w a = eq_of_bits _ _ λ i. elim (Bool-cases (ltb i w)) [
  | inl low ↦
      ground (arith, bit-bit_and a (2 ^ w - 1) i, bit-ones_low w i, bit-mod_low a w i, bit-lt a i)
  | inr high ↦ ground (arith, bit-bit_and a (2 ^ w - 1) i, bit-ones_high w i, bit-mod_high a w i)
]

-- Bits set past the place `w` are masked off again.
pub bit_and-bit_or_spare :
    (w a h m : ℕ) → a < 2 ^ w → bit_and (bit_or a (bit_and h (m * 2 ^ w))) (2 ^ w - 1) ≡ a
bit_and-bit_or_spare w a h m small = eq_of_bits _ _ λ i.
    let whole = bit-bit_and (bit_or a (bit_and h (m * 2 ^ w))) (2 ^ w - 1) i in
    let either = bit-bit_or a (bit_and h (m * 2 ^ w)) i in
    let both = bit-bit_and h (m * 2 ^ w) i in
    elim (Bool-cases (ltb i w)) [
      | inl low ↦
          ground (arith, whole, either, both, bit-shl_low m w i, bit-ones_low w i, bit-lt a i)
      | inr high ↦ ground (arith, whole, bit-ones_high w i, bit-high a w i small)
    ]

pub bit_and-lt_right : (w a b : ℕ) → b < 2 ^ w → bit_and a b < 2 ^ w
bit_and-lt_right w a b h =
    lt-two-pow w (bit_and a b) λ i l. omega (arith, bit-bit_and a b i, bit-high b w i h l)
