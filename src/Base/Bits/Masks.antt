-- ===== src/Base/Bits/Masks.antt =====
-- Words below a power of two, masks, and equality of numbers by their bits.
use Prim.Native.Nat.{ℕ, zero, suc, ◌+◌, ◌-◌, ◌/◌, ◌%◌, ◌^◌, ◌≤◌, ◌<◌, bit_and, bit_or, bit_xor}
use mathlib.Core.Path.{◌≡◌, sym, ◌∙◌}
use native.Mathlib.Nat.{pow-suc, one-le-pow, mod-eq_of_lt}
use native.Mathlib.Omega.{arith}
use native.Mathlib.Decide.{dec_lt}
use pq_psi.Base.Bits.Step.{bit}
use pq_psi.Base.Bits.Laws.{
  bit-lt, bit-zero, bit-bit_and, bit-bit_or, bit-bit_xor, bit-mod_low, bit-mod_high,
}

pub bit-high : (x w i : ℕ) → x < 2 ^ w → w ≤ i → bit x i ≡ 0
bit-high x w i h p = rw (mod-eq_of_lt h) at (bit-mod_high x w i p)

-- (1 << w) - 1
pub bit-ones_low : (w i : ℕ) → i < w → bit (2 ^ w - 1) i ≡ 1
bit-ones_low zero i h = absurd (omega arith)
bit-ones_low (suc w) zero h = omega (arith, pow-suc 2 w, one-le-pow w 2)
bit-ones_low (suc w) (suc i) h =
    let half : (2 ^ suc w - 1) / 2 ≡ 2 ^ w - 1 = omega (arith, pow-suc 2 w, one-le-pow w 2) in
    rw half (bit-ones_low w i (omega arith))

pub bit-ones_high : (w i : ℕ) → w ≤ i → bit (2 ^ w - 1) i ≡ 0
bit-ones_high w i h = bit-high (2 ^ w - 1) w i (omega (arith, one-le-pow w 2)) h

ext_below : (n a b : ℕ) → a ≤ n → b ≤ n → ((i : ℕ) → bit a i ≡ bit b i) → a ≡ b
ext_below zero a b p q h = omega arith
ext_below (suc n) a b p q h =
    let halves : a / 2 ≡ b / 2 =
      ext_below n (a / 2) (b / 2) (omega arith) (omega arith) (λ i. h (suc i)) in
    omega (arith, h 0)

pub eq_of_bits : (a b : ℕ) → ((i : ℕ) → bit a i ≡ bit b i) → a ≡ b
eq_of_bits a b h = ext_below (a + b) a b (omega arith) (omega arith) h

-- Words of `w` bits are equal if their first `w` bits are.
pub word_eq_of_bits :
    (w a b : ℕ) → a < 2 ^ w → b < 2 ^ w → ((i : ℕ) → i < w → bit a i ≡ bit b i) → a ≡ b
word_eq_of_bits w a b p q h = eq_of_bits a b at_place
  where
    split : (i : ℕ) → Dec (i < w) → bit a i ≡ bit b i
    split i (yes below) = h i below
    split i (no above) = bit-high a w i p (omega arith) ∙ sym (bit-high b w i q (omega arith))

    at_place : (i : ℕ) → bit a i ≡ bit b i
    at_place i = split i (dec_lt i w)

pub lt-two-pow : (w a : ℕ) → ((i : ℕ) → w ≤ i → bit a i ≡ 0) → a < 2 ^ w
lt-two-pow w a h = rw (← whole) (mod_bound)
  where
    whole : a % 2 ^ w ≡ a
    whole = eq_of_bits (a % 2 ^ w) a at_place
      where
        split : (i : ℕ) → Dec (i < w) → bit (a % 2 ^ w) i ≡ bit a i
        split i (yes below) = bit-mod_low a w i below
        split i (no above) = bit-mod_high a w i (omega arith) ∙ sym (h i (omega arith))

        at_place : (i : ℕ) → bit (a % 2 ^ w) i ≡ bit a i
        at_place i = split i (dec_lt i w)

    mod_bound : a % 2 ^ w < 2 ^ w
    mod_bound = omega (arith, one-le-pow w 2)

pub bit_xor-lt : (w a b : ℕ) → a < 2 ^ w → b < 2 ^ w → bit_xor a b < 2 ^ w
bit_xor-lt w a b p q =
    lt-two-pow w (bit_xor a b)
      λ i h. omega (arith, bit-bit_xor a b i, bit-high a w i p h, bit-high b w i q h)

pub bit_or-lt : (w a b : ℕ) → a < 2 ^ w → b < 2 ^ w → bit_or a b < 2 ^ w
bit_or-lt w a b p q =
    lt-two-pow w (bit_or a b)
      λ i h. omega (arith, bit-bit_or a b i, bit-high a w i p h, bit-high b w i q h)

pub bit_and-lt : (w a b : ℕ) → a < 2 ^ w → bit_and a b < 2 ^ w
bit_and-lt w a b p =
    lt-two-pow w (bit_and a b) λ i h. omega (arith, bit-bit_and a b i, bit-high a w i p h)

-- Exclusive or is a commutative group in which each element is its own inverse.
pub bit_xor_comm : (a b : ℕ) → bit_xor a b ≡ bit_xor b a
bit_xor_comm a b = eq_of_bits _ _ λ i. omega (arith, bit-bit_xor a b i, bit-bit_xor b a i)

pub bit_xor_assoc : (a b c : ℕ) → bit_xor (bit_xor a b) c ≡ bit_xor a (bit_xor b c)
bit_xor_assoc a b c = eq_of_bits _ _ λ i. omega (
  arith,
  bit-bit_xor (bit_xor a b) c i,
  bit-bit_xor a b i,
  bit-bit_xor a (bit_xor b c) i,
  bit-bit_xor b c i,
  bit-lt a i,
  bit-lt b i,
  bit-lt c i,
)

pub bit_xor-zero : (a : ℕ) → bit_xor a 0 ≡ a
bit_xor-zero a = eq_of_bits _ _ λ i. omega (arith, bit-bit_xor a 0 i, bit-zero i, bit-lt a i)

pub zero-bit_xor : (a : ℕ) → bit_xor 0 a ≡ a
zero-bit_xor a = bit_xor_comm 0 a ∙ bit_xor-zero a

pub bit_xor_self : (a : ℕ) → bit_xor a a ≡ 0
bit_xor_self a = eq_of_bits _ _ λ i. omega (arith, bit-bit_xor a a i, bit-zero i)

pub bit_xor_cancel : (a b : ℕ) → bit_xor (bit_xor a b) b ≡ a
bit_xor_cancel a b = rw (bit_xor_assoc a b b, bit_xor_self b) (bit_xor-zero a)

pub bit_xor_cancel_left : (a b : ℕ) → bit_xor a (bit_xor a b) ≡ b
bit_xor_cancel_left a b = rw (← bit_xor_assoc a a b, bit_xor_self a) (zero-bit_xor b)
