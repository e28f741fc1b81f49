-- ===== src/Okvs/Bits/Words.antt =====
-- Reading and writing the words of `RbBits`, and its 256 places.
use pq_psi.Base.{
  ℕ, zero, suc, ◌+◌, ◌/◌, ◌%◌, ◌^◌, ◌≤◌, ◌<◌, bit_xor, ◌≡◌, ◌↔◌, refl, arith, ltb, leb, ◌==◌,
  if◌then◌else◌, ◌&&◌, true, false,
}
use pq_psi.Base.Bits.{bit, bit-bit_at, bit-lt, bit-bit_xor, bit-zero}
use pq_psi.Okvs.Bits.{RbBits, words, no_bits, word, set_word, clear_words, xor_words, rb_bit}

-- The coefficient at place `i`, as a digit.
abbrev pub place : RbBits → ℕ → ℕ
place b i = bit (word b (i / 64)) (i % 64)

-- Each word fits in 64 bits.
abbrev pub IsWords : RbBits → Type 0
IsWords b = (i : ℕ) → word b i < 2 ^ 64

pub word-set_word :
    (b : RbBits) (i j v : ℕ) → i < 4 → word (set_word b i v) j ≡ (if i == j then v else word b j)
unfolding word set_word
word-set_word (words a b c d) zero zero v h = refl
word-set_word (words a b c d) (suc zero) (suc zero) v h = refl
word-set_word (words a b c d) (suc (suc zero)) (suc (suc zero)) v h = refl
word-set_word (words a b c d) (suc (suc (suc zero))) (suc (suc (suc zero))) v h = refl
word-set_word (words a b c d) (suc (suc (suc (suc i)))) j v h = absurd (omega arith)
word-set_word (words a b c d) i j v h = ground arith

-- The loop clears exactly the words it passes over.
pub word-clear_words :
    (rounds i k : ℕ) (b : RbBits)
    → i + rounds ≤ 4
    → word (clear_words rounds i b) k ≡ (if leb i k && ltb k (i + rounds) then 0 else word b k)
unfolding clear_words
word-clear_words zero i k b h = ground arith
word-clear_words (suc rounds) i k b h =
    ground (arith, word-clear_words rounds (i + 1) k (set_word b i 0), word-set_word b i k 0)

pub word-no_bits : (k : ℕ) → word no_bits k ≡ 0
unfolding word
word-no_bits zero = refl
word-no_bits (suc zero) = refl
word-no_bits (suc (suc zero)) = refl
word-no_bits (suc (suc (suc zero))) = refl
word-no_bits (suc (suc (suc (suc k)))) = refl

pub word-xor_words : (a b : RbBits) (k : ℕ) → word (xor_words a b) k ≡ bit_xor (word a k) (word b k)
unfolding word xor_words
word-xor_words (words a b c d) (words e f g h) zero = refl
word-xor_words (words a b c d) (words e f g h) (suc zero) = refl
word-xor_words (words a b c d) (words e f g h) (suc (suc zero)) = refl
word-xor_words (words a b c d) (words e f g h) (suc (suc (suc zero))) = refl
word-xor_words (words a b c d) (words e f g h) (suc (suc (suc (suc k)))) = refl

pub place-no_bits : (i : ℕ) → place no_bits i ≡ 0
place-no_bits i = rw (word-no_bits (i / 64)) (bit-zero (i % 64))

pub place-xor_words : (a b : RbBits) (i : ℕ) → place (xor_words a b) i ≡ (place a i + place b i) % 2
place-xor_words a b i =
    rw (word-xor_words a b (i / 64)) (bit-bit_xor (word a (i / 64)) (word b (i / 64)) (i % 64))

pub rb_bit-place_zero : (b : RbBits) (i : ℕ) → rb_bit b i ≡ false → place b i ≡ 0
unfolding rb_bit
rb_bit-place_zero b i h =
    ground (arith, bit-bit_at (word b (i / 64)) (i % 64), bit-lt (word b (i / 64)) (i % 64))

pub rb_bit-place : (b : RbBits) (i : ℕ) → (rb_bit b i ≡ true) ↔ (place b i ≡ 1)
unfolding rb_bit
rb_bit-place b i =
    ground (arith, bit-bit_at (word b (i / 64)) (i % 64), bit-lt (word b (i / 64)) (i % 64))
