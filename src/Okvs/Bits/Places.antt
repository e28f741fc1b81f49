-- ===== src/Okvs/Bits/Places.antt =====
-- What the operations on `RbBits` do to the 256 places: trimming to a width, clearing below an
-- index, and finding the lowest place that is set.
use pq_psi.Base.{
  ℕ, ◌+◌, ◌-◌, ◌/◌, ◌%◌, ◌^◌, ◌≤◌, ◌<◌, bit_and, ◌≡◌, arith, ltb, ◌==◌, if◌then◌else◌, ◌&&◌, not,
  ok, inl, inr, Bool-cases,
}
use pq_psi.Base.Bits.{bit, bit-lt, bit-bit_and, bit-bit_xor, bit-zero, bit-ones_low, bit-ones_high}
use pq_psi.Okvs.Bits.{
  RbBits, word, clear_words, trim_words, rb_trim_bits, rb_zero_below, not64, all_ones,
}
use pq_psi.Okvs.Bits.Words.{place, word-set_word, word-clear_words}

word-trim_words :
    (b : RbBits) (width k : ℕ)
    → width < 256
    → k < 4
    → word (trim_words b width) k ≡ (
        if ltb k (width / 64)
        then word b k
        else if k == width / 64
        then (if width % 64 == 0 then 0 else bit_and (word b k) (2 ^ (width % 64) - 1))
        else 0)
unfolding trim_words
word-trim_words b width k h p =
    let from = width / 64 + (if width % 64 == 0 then 0 else 1) in
    let cleared = clear_words (4 - from) from b in
    let masked = bit_and (word cleared (width / 64)) (2 ^ (width % 64) - 1) in
    ground (
      arith,
      word-clear_words (4 - from) from k b,
      word-clear_words (4 - from) from (width / 64) b,
      word-set_word cleared (width / 64) k masked,
    )

bit-mask :
    (x rem off : ℕ) → bit (bit_and x (2 ^ rem - 1)) off ≡ (if ltb off rem then bit x off else 0)
bit-mask x rem off = ground (
  arith,
  bit-bit_and x (2 ^ rem - 1) off,
  bit-ones_low rem off,
  bit-ones_high rem off,
  bit-lt x off,
)

-- Trimming keeps exactly the places below the width.
pub place-trim_words :
    (b : RbBits) (width i : ℕ)
    → width ≤ 256
    → i < 256
    → place (trim_words b width) i ≡ (if ltb i width then place b i else 0)
place-trim_words b width i h p = elim (Bool-cases (width == 256)) [
  | inl full ↦ whole (ground arith)
  | inr part ↦
      rw (word-trim_words b width (i / 64) (ground arith) (omega arith))
        (ground (arith, bit-mask (word b (i / 64)) (width % 64) (i % 64), bit-zero (i % 64)))
]
  where
    whole : width ≡ 256 → place (trim_words b width) i ≡ (if ltb i width then place b i else 0)
    whole e = unfold trim_words in ground arith

pub rb_trim_bits-ok :
    (b : RbBits) (width : ℕ) → width ≤ 256 → rb_trim_bits b width ≡ ok (trim_words b width)
unfolding rb_trim_bits
rb_trim_bits-ok b width h = ground arith

word-rb_zero_below :
    (b : RbBits) (idx k : ℕ)
    → idx < 256
    → k < 4
    → word (rb_zero_below b idx) k ≡ (
        if ltb k (idx / 64)
        then 0
        else if k == idx / 64 && not (idx % 64 == 0)
        then bit_and (word b k) (not64 (2 ^ (idx % 64) - 1))
        else word b k)
unfolding rb_zero_below
word-rb_zero_below b idx k h p =
    let cleared = clear_words (idx / 64) 0 b in
    ground (
      arith,
      word-clear_words (idx / 64) 0 k b,
      word-clear_words (idx / 64) 0 (idx / 64) b,
      word-set_word cleared (idx / 64) k
          (bit_and (word cleared (idx / 64)) (not64 (2 ^ (idx % 64) - 1))),
    )

bit-not_mask :
    (x off j : ℕ)
    → j < 64
    → bit (bit_and x (not64 (2 ^ off - 1))) j ≡ (if ltb j off then 0 else bit x j)
bit-not_mask x off j h = ground (
  arith,
  bit-bit_and x (not64 (2 ^ off - 1)) j,
  bit-bit_xor (2 ^ off - 1) all_ones j,
  bit-ones_low 64 j,
  bit-ones_low off j,
  bit-ones_high off j,
  bit-lt x j,
)

-- For an index below 256, RBZeroBelow clears the places below the index and keeps the others.
pub place-rb_zero_below :
    (b : RbBits) (idx i : ℕ)
    → idx < 256
    → i < 256
    → place (rb_zero_below b idx) i ≡ (if ltb i idx then 0 else place b i)
place-rb_zero_below b idx i h p = rw (word-rb_zero_below b idx (i / 64) h (omega arith)) (
    ground
      (arith, bit-not_mask (word b (i / 64)) (idx % 64) (i % 64) (omega arith), bit-zero (i % 64)))
