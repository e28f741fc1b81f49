-- ===== src/Base/Bits/Laws.antt =====
-- The bits of `&`, `|`, `^`, of shifts and of masks, and equality by bits.
use Prim.Native.Nat.{
  ℕ, zero, suc, ◌+◌, ◌-◌, ◌*◌, ◌/◌, ◌%◌, ◌^◌, ◌≤◌, ◌<◌, min, max, bit_and, bit_or, bit_xor,
}
use mathlib.Core.Path.{◌≡◌, refl, ap}
use native.Mathlib.Nat.{pow-suc, one-le-pow}
use native.Mathlib.Omega.{arith}
use pq_psi.Base.Bits.Step.{bit, bit_and_step, bit_or_step, bit_xor_step, div-pow-suc}

pub bit-lt : (x i : ℕ) → bit x i < 2
bit-lt x zero = omega arith
bit-lt x (suc i) = bit-lt (x / 2) i

pub bit-zero : (i : ℕ) → bit 0 i ≡ 0
bit-zero zero = refl
bit-zero (suc i) = bit-zero i

pub bit-bit_and : (a b i : ℕ) → bit (bit_and a b) i ≡ min (bit a i) (bit b i)
bit-bit_and a b zero = omega (arith, bit_and_step a b)
bit-bit_and a b (suc i) =
    let half : bit_and a b / 2 ≡ bit_and (a / 2) (b / 2) = omega (arith, bit_and_step a b) in
    rw half (bit-bit_and (a / 2) (b / 2) i)

pub bit-bit_or : (a b i : ℕ) → bit (bit_or a b) i ≡ max (bit a i) (bit b i)
bit-bit_or a b zero = omega (arith, bit_or_step a b)
bit-bit_or a b (suc i) =
    let half : bit_or a b / 2 ≡ bit_or (a / 2) (b / 2) = omega (arith, bit_or_step a b) in
    rw half (bit-bit_or (a / 2) (b / 2) i)

pub bit-bit_xor : (a b i : ℕ) → bit (bit_xor a b) i ≡ (bit a i + bit b i) % 2
bit-bit_xor a b zero = omega (arith, bit_xor_step a b)
bit-bit_xor a b (suc i) =
    let half : bit_xor a b / 2 ≡ bit_xor (a / 2) (b / 2) = omega (arith, bit_xor_step a b) in
    rw half (bit-bit_xor (a / 2) (b / 2) i)

mul-two-pow : (x s : ℕ) → x * 2 ^ suc s ≡ 2 * (x * 2 ^ s)
mul-two-pow x s = omega (arith, ap (λ (t : ℕ). x * t) (pow-suc 2 s))

-- x << s
pub bit-shl_low : (x s i : ℕ) → i < s → bit (x * 2 ^ s) i ≡ 0
bit-shl_low x zero i h = absurd (omega arith)
bit-shl_low x (suc s) zero h = omega (arith, mul-two-pow x s)
bit-shl_low x (suc s) (suc i) h =
    let half : x * 2 ^ suc s / 2 ≡ x * 2 ^ s = omega (arith, mul-two-pow x s) in
    rw half (bit-shl_low x s i (omega arith))

pub bit-shl_high : (x s i : ℕ) → s ≤ i → bit (x * 2 ^ s) i ≡ bit x (i - s)
bit-shl_high x zero i h =
    let unit : x * 2 ^ 0 ≡ x = omega arith in let same : i - 0 ≡ i = omega arith in rw (unit, same)
bit-shl_high x (suc s) zero h = absurd (omega arith)
bit-shl_high x (suc s) (suc i) h =
    let half : x * 2 ^ suc s / 2 ≡ x * 2 ^ s = omega (arith, mul-two-pow x s) in
    let place : suc i - suc s ≡ i - s = omega arith in
    rw (half, place) (bit-shl_high x s i (omega arith))

-- x >> s
pub bit-shr : (x s i : ℕ) → bit (x / 2 ^ s) i ≡ bit x (s + i)
bit-shr x zero i =
    let unit : x / 2 ^ 0 ≡ x = omega arith in
    let place : 0 + i ≡ i = omega arith in rw (unit, place)
bit-shr x (suc s) i =
    let place : suc s + i ≡ suc (s + i) = omega arith in
    rw (div-pow-suc x s, place) (bit-shr (x / 2) s i)

mod-two-pow : (x w : ℕ) → x % 2 ^ suc w ≡ 2 * (x / 2 % 2 ^ w) + x % 2
mod-two-pow x w = rw (pow-suc 2 w) (grind (arith, one-le-pow w 2))

-- x & ((1 << w) - 1), or a word of w bits that wraps
pub bit-mod_low : (x w i : ℕ) → i < w → bit (x % 2 ^ w) i ≡ bit x i
bit-mod_low x zero i h = absurd (omega arith)
bit-mod_low x (suc w) zero h = omega (arith, mod-two-pow x w)
bit-mod_low x (suc w) (suc i) h =
    let half : x % 2 ^ suc w / 2 ≡ x / 2 % 2 ^ w = omega (arith, mod-two-pow x w) in
    rw half (bit-mod_low (x / 2) w i (omega arith))

pub bit-mod_high : (x w i : ℕ) → w ≤ i → bit (x % 2 ^ w) i ≡ 0
bit-mod_high x zero i h = let none_left : x % 2 ^ 0 ≡ 0 = omega arith in rw none_left (bit-zero i)
bit-mod_high x (suc w) zero h = absurd (omega arith)
bit-mod_high x (suc w) (suc i) h =
    let half : x % 2 ^ suc w / 2 ≡ x / 2 % 2 ^ w = omega (arith, mod-two-pow x w) in
    rw half (bit-mod_high (x / 2) w i (omega arith))
