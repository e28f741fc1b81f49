-- ===== src/Base/Bits/Step.antt =====
-- One digit of `bit_and`, `bit_or` and `bit_xor` at a time, and the bit at a place.
use Prim.Native.Nat.{
  ℕ, zero, suc, ◌+◌, ◌*◌, ◌/◌, ◌%◌, ◌^◌, ◌≤◌, ◌<◌, min, max, bit_and, bit_or, bit_xor, digits,
  bitwise, differ, bit_and-bitwise, bit_or-bitwise, bit_xor-bitwise,
}
use mathlib.Core.Path.{◌≡◌, refl}
use native.Mathlib.Nat.{le_refl, pow-suc, div-div-eq-div-mul, mul_comm}
use native.Mathlib.Omega.{arith}

module _ (z : ℕ → ℕ) (f : ℕ → ℕ → ℕ) where
  -- The two fuels matter only up to the number.
  digits_more : (i j x y : ℕ) → x ≤ i → x ≤ j → digits z f i x y ≡ digits z f j x y
  digits_more zero zero x y u v = refl
  digits_more (suc i) zero zero y u v = refl
  digits_more (suc i) zero (suc x) y u v = absurd (omega arith)
  digits_more zero (suc j) zero y u v = refl
  digits_more zero (suc j) (suc x) y u v = absurd (omega arith)
  digits_more (suc i) (suc j) zero y u v = refl
  digits_more (suc i) (suc j) (suc x) y u v =
      let halves = digits_more i j (suc x / 2) (y / 2) (omega arith) (omega arith) in rw halves

  bitwise_step :
      (x y : ℕ)
      → bitwise z f (suc x) y ≡ bitwise z f (suc x / 2) (y / 2) * 2 + f (suc x % 2) (y % 2)
  bitwise_step x y =
      omega (arith, digits_more x (suc x / 2) (suc x / 2) (y / 2) (omega arith) (le_refl _))

pub bit_and_step : (x y : ℕ) → bit_and x y ≡ bit_and (x / 2) (y / 2) * 2 + min (x % 2) (y % 2)
bit_and_step zero y = simp bit_and-bitwise (omega arith)
bit_and_step (suc x) y = simp bit_and-bitwise (bitwise_step (λ rest. 0) min x y)

pub bit_or_step : (x y : ℕ) → bit_or x y ≡ bit_or (x / 2) (y / 2) * 2 + max (x % 2) (y % 2)
bit_or_step zero y = simp bit_or-bitwise (omega arith)
bit_or_step (suc x) y = simp bit_or-bitwise (bitwise_step (λ rest. rest) max x y)

differ_step : (a b : ℕ) → bit_xor a b ≡ bit_xor (a / 2) (b / 2) * 2 + differ (a % 2) (b % 2)
differ_step zero b = simp bit_xor-bitwise (omega arith)
differ_step (suc a) b = simp bit_xor-bitwise (bitwise_step (λ y. y) differ a b)

differ_digits : (x y : ℕ) → x < 2 → y < 2 → differ x y ≡ (x + y) % 2
differ_digits zero y p q = omega arith
differ_digits (suc zero) zero p q = refl
differ_digits (suc zero) (suc zero) p q = refl
differ_digits (suc zero) (suc (suc y)) p q = absurd (omega arith)
differ_digits (suc (suc x)) y p q = absurd (omega arith)

pub bit_xor_step : (a b : ℕ) → bit_xor a b ≡ bit_xor (a / 2) (b / 2) * 2 + (a % 2 + b % 2) % 2
bit_xor_step a b =
    omega (arith, differ_step a b, differ_digits (a % 2) (b % 2) (omega arith) (omega arith))

-- The bit of `x` at place `i`, by recursion, and as the code reads it: (x >> i) & 1.
abbrev pub bit : ℕ → ℕ → ℕ
bit x zero = x % 2
bit x (suc i) = bit (x / 2) i

abbrev pub bit_at : ℕ → ℕ → ℕ
bit_at x i = x / 2 ^ i % 2

pub div-pow-suc : (x i : ℕ) → x / 2 ^ suc i ≡ x / 2 / 2 ^ i
div-pow-suc x i = rw (pow-suc 2 i, div-div-eq-div-mul x 2 (2 ^ i), mul_comm (2 ^ i) 2)

pub bit-bit_at : (x i : ℕ) → bit_at x i ≡ bit x i
bit-bit_at x zero = omega arith
bit-bit_at x (suc i) = rw (div-pow-suc x i) (bit-bit_at (x / 2) i)
