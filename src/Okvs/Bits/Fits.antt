-- ===== src/Okvs/Bits/Fits.antt =====
-- Every operation on `RbBits` leaves words of 64 bits.
use pq_psi.Base.{
  ℕ, zero, suc, ◌+◌, ◌-◌, ◌/◌, ◌%◌, ◌^◌, ◌<◌, bit_or, bit_and, arith, ltb, ◌==◌, if◌then◌else◌,
  ◌&&◌, not, Bool-cases, inl, inr,
}
use pq_psi.Base.Bits.{bit_or-lt, bit_and-lt, bit_xor-lt}
use pq_psi.Okvs.Bits.{
  RbBits, words, no_bits, word, set_word, clear_words, trim_words, rb_has_bits, rb_ensure_bits,
  rb_zero_below, not64, or_word, shl64, left_step, left_loop, rb_shift_left, right_step, right_loop,
  rb_shift_right, xor_words,
}
use pq_psi.Okvs.Bits.Words.{IsWords, word-set_word, word-no_bits, word-xor_words}

pub IsWords-set_word : (b : RbBits) (i v : ℕ) → IsWords b → v < 2 ^ 64 → IsWords (set_word b i v)
unfolding set_word word
IsWords-set_word b i v fits h k = elim (Bool-cases (ltb i 4)) [
  | inl inside ↦ ground (arith, word-set_word b i k v, fits k)
  | inr outside ↦ unchanged b i (ground arith) (fits k)
]
  where
    unchanged :
        (c : RbBits) (j : ℕ) → 4 < suc j → word c k < 2 ^ 64 → word (set_word c j v) k < 2 ^ 64
    unchanged (words a b c d) (suc (suc (suc (suc j)))) p q = q
    unchanged c zero p q = absurd (omega arith)
    unchanged c (suc zero) p q = absurd (omega arith)
    unchanged c (suc (suc zero)) p q = absurd (omega arith)
    unchanged c (suc (suc (suc zero))) p q = absurd (omega arith)

IsWords-no_bits : IsWords no_bits
IsWords-no_bits k = rw (word-no_bits k) (omega arith)

IsWords-clear_words : (n i : ℕ) (b : RbBits) → IsWords b → IsWords (clear_words n i b)
unfolding clear_words
IsWords-clear_words zero i b fits = fits
IsWords-clear_words (suc n) i b fits =
    IsWords-clear_words n (i + 1) (set_word b i 0) (IsWords-set_word b i 0 fits (omega arith))

masked : (b : RbBits) (i m : ℕ) → IsWords b → IsWords (set_word b i (bit_and (word b i) m))
masked b i m fits =
    IsWords-set_word b i (bit_and (word b i) m) fits (bit_and-lt 64 (word b i) m (fits i))

pub IsWords-trim_words : (b : RbBits) (width : ℕ) → IsWords b → IsWords (trim_words b width)
unfolding trim_words
IsWords-trim_words b width fits =
    let from = width / 64 + (if width % 64 == 0 then 0 else 1) in
    let cleared = IsWords-clear_words (4 - from) from b fits in
    elim (Bool-cases (width == 256)) [
      | inl full ↦ rw full fits
      | inr part ↦ rw part (elim (Bool-cases (not (width % 64 == 0) && ltb (width / 64) 4)) [
        | inl cut ↦
            rw cut
              (masked (clear_words (4 - from) from b) (width / 64) (2 ^ (width % 64) - 1) cleared)
        | inr whole ↦ rw whole cleared
      ])
    ]

pub IsWords-rb_ensure_bits : (b : RbBits) → IsWords b → IsWords (rb_ensure_bits b)
unfolding rb_ensure_bits
IsWords-rb_ensure_bits b fits = elim (Bool-cases (rb_has_bits b)) [
  | inl has ↦ rw has fits
  | inr empty ↦ rw empty (IsWords-set_word b 0 1 fits (omega arith))
]

pub IsWords-rb_zero_below : (b : RbBits) (idx : ℕ) → IsWords b → IsWords (rb_zero_below b idx)
unfolding rb_zero_below
IsWords-rb_zero_below b idx fits =
    let cleared = IsWords-clear_words (idx / 64) 0 b fits in
    elim (Bool-cases (ltb (idx / 64) 4 && not (idx % 64 == 0))) [
      | inl cut ↦
          rw cut
            (masked (clear_words (idx / 64) 0 b) (idx / 64) (not64 (2 ^ (idx % 64) - 1)) cleared)
      | inr whole ↦ rw whole cleared
    ]

IsWords-or_word : (b : RbBits) (i v : ℕ) → IsWords b → v < 2 ^ 64 → IsWords (or_word b i v)
unfolding or_word
IsWords-or_word b i v fits h =
    IsWords-set_word b i (bit_or (word b i) v) fits (bit_or-lt 64 (word b i) v (fits i) h)

shr-lt : (x s : ℕ) → x < 2 ^ 64 → x / 2 ^ s < 2 ^ 64
shr-lt x s h = grind arith

shl64-lt : (x s : ℕ) → shl64 x s < 2 ^ 64
shl64-lt x s = omega arith

IsWords-left_step :
    (b : RbBits) (s i : ℕ) (out : RbBits) → IsWords b → IsWords out → IsWords (left_step b s i out)
unfolding left_step
IsWords-left_step b s i out fits h k =
    let bs = s % 64 in
    let dst = i + s / 64 in
    let v = shl64 (word b i) bs in
    let low = if ltb dst 4 then or_word out dst v else out in
    let w = word b i / 2 ^ (64 - bs) in
    let first = IsWords-or_word out dst v h (shl64-lt (word b i) bs) in
    let small = shr-lt (word b i) (64 - bs) (fits i) in
    ground (
      arith,
      first k,
      h k,
      IsWords-or_word (or_word out dst v) (dst + 1) w first small k,
      IsWords-or_word out (dst + 1) w h small k,
    )

IsWords-left_loop :
    (n i : ℕ) (b : RbBits) (s : ℕ) (out : RbBits)
    → IsWords b
    → IsWords out
    → IsWords (left_loop n i b s out)
unfolding left_loop
IsWords-left_loop zero i b s out fits h = h
IsWords-left_loop (suc n) i b s out fits h =
    IsWords-left_loop n (i + 1) b s (left_step b s i out) fits (IsWords-left_step b s i out fits h)

pub IsWords-rb_shift_left : (b : RbBits) (s : ℕ) → IsWords b → IsWords (rb_shift_left b s)
unfolding rb_shift_left
IsWords-rb_shift_left b s fits k =
    ground (arith, IsWords-left_loop 4 0 b s no_bits fits IsWords-no_bits k, word-no_bits k)

IsWords-right_step :
    (b : RbBits) (s i : ℕ) (out : RbBits) → IsWords b → IsWords out → IsWords (right_step b s i out)
unfolding right_step
IsWords-right_step b s i out fits h k =
    let bs = s % 64 in
    let dst = i - s / 64 in
    let w = word b i / 2 ^ bs in
    let v = shl64 (word b (i + 1)) (64 - bs) in
    let first = IsWords-or_word out dst w h (shr-lt (word b i) bs (fits i)) in
    ground (
      arith,
      first k,
      IsWords-or_word (or_word out dst w) dst v first (shl64-lt (word b (i + 1)) (64 - bs)) k,
    )

IsWords-right_loop :
    (n i : ℕ) (b : RbBits) (s : ℕ) (out : RbBits)
    → IsWords b
    → IsWords out
    → IsWords (right_loop n i b s out)
unfolding right_loop
IsWords-right_loop zero i b s out fits h = h
IsWords-right_loop (suc n) i b s out fits h =
    IsWords-right_loop n (i + 1) b s (right_step b s i out) fits
      (IsWords-right_step b s i out fits h)

pub IsWords-rb_shift_right : (b : RbBits) (s : ℕ) → IsWords b → IsWords (rb_shift_right b s)
unfolding rb_shift_right
IsWords-rb_shift_right b s fits k = ground (
  arith,
  IsWords-right_loop (4 - s / 64) (s / 64) b s no_bits fits IsWords-no_bits k,
  word-no_bits k,
)

pub IsWords-xor_words : (a b : RbBits) → IsWords a → IsWords b → IsWords (xor_words a b)
IsWords-xor_words a b p q k =
    rw (word-xor_words a b k) (bit_xor-lt 64 (word a k) (word b k) (p k) (q k))
