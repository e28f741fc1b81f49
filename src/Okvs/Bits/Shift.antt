-- ===== src/Okvs/Bits/Shift.antt =====
-- `RBShiftLeft` and `RBShiftRight` move every place by the same distance, across the words.
use pq_psi.Base.{
  ℕ, zero, suc, ◌+◌, ◌-◌, ◌*◌, ◌/◌, ◌%◌, ◌^◌, ◌≤◌, ◌<◌, bit_or, ◌≡◌, ◌⊎◌, true, false, refl, arith,
  ltb, leb, ◌==◌, if◌then◌else◌, ◌&&◌, not, max, Bool-cases, inl, inr,
}
use pq_psi.Base.Bits.{
  bit, bit-lt, bit-bit_or, bit-zero, bit-shl_low, bit-shl_high, bit-shr, bit-mod_low, bit-high,
}
use pq_psi.Okvs.Bits.{
  RbBits, word, set_word, no_bits, or_word, shl64, left_step, left_loop, rb_shift_left, right_step,
  right_loop, rb_shift_right,
}
use pq_psi.Okvs.Bits.Words.{place, IsWords, word-set_word, place-no_bits}

bit-shl64 : (x s j : ℕ) → j < 64 → bit (shl64 x s) j ≡ (if ltb j s then 0 else bit x (j - s))
bit-shl64 x s j h =
    ground (arith, bit-mod_low (x * 2 ^ s) 64 j, bit-shl_low x s j, bit-shl_high x s j)

bit-shr64 :
    (x s j : ℕ) → x < 2 ^ 64 → bit (x / 2 ^ s) j ≡ (if ltb (s + j) 64 then bit x (s + j) else 0)
bit-shr64 x s j h = ground (arith, bit-shr x s j, bit-high x 64 (s + j))

place-or_word :
    (out : RbBits) (d v p : ℕ)
    → d < 4
    → place (or_word out d v) p
      ≡ (if p / 64 == d then max (place out p) (bit v (p % 64)) else place out p)
unfolding or_word
place-or_word out d v p h = elim (Bool-cases (d == p / 64)) [
  | inl same ↦ ground (
    arith,
    word-set_word out d (p / 64) (bit_or (word out d) v) h,
    bit-bit_or (word out d) v (p % 64),
  )
  | inr other ↦
      let kept : word (set_word out d (bit_or (word out d) v)) (p / 64) ≡ word out (p / 64) =
        ground (arith, word-set_word out d (p / 64) (bit_or (word out d) v) h) in
      rw kept (ground arith)
]

-- What input word `i` brings to place `p` of the output, as the step writes it.
abbrev brought : ℕ → ℕ → ℕ → ℕ → ℕ
brought w s i p =
    if p / 64 == i + s / 64
    then bit (shl64 w (s % 64)) (p % 64)
    else if p / 64 == i + s / 64 + 1 && not (s % 64 == 0)
    then bit (w / 2 ^ (64 - s % 64)) (p % 64)
    else 0

left_step-brought :
    (b : RbBits) (s i : ℕ) (out : RbBits) (p : ℕ)
    → p < 256
    → (word b i == 0) ≡ false
    → place (left_step b s i out) p ≡ max (place out p) (brought (word b i) s i p)
unfolding left_step
left_step-brought b s i out p hp here =
    let bs = s % 64 in
    let dst = i + s / 64 in
    let w = word b i in
    let low = if ltb dst 4 then or_word out dst (shl64 w bs) else out in
    ground (
      arith,
      place-or_word out dst (shl64 w bs) p,
      place-or_word low (dst + 1) (w / 2 ^ (64 - bs)) p,
    )

brought-place :
    (b : RbBits) (s i p : ℕ)
    → IsWords b
    → brought (word b i) s i p ≡ (if leb s p && ((p - s) / 64 == i) then place b (p - s) else 0)
brought-place b s i p fits = ground (
  arith,
  bit-shl64 (word b i) (s % 64) (p % 64),
  bit-shr64 (word b i) (64 - s % 64) (p % 64) (fits i),
)

-- One input word lands on two neighbouring output words.
place-left_step :
    (b : RbBits) (s i : ℕ) (out : RbBits) (p : ℕ)
    → IsWords b
    → p < 256
    → place (left_step b s i out) p
      ≡ max (place out p) (if leb s p && ((p - s) / 64 == i) then place b (p - s) else 0)
place-left_step b s i out p fits hp = elim (Bool-cases (word b i == 0)) [
  | inl empty ↦ skipped empty (Bool-cases ((p - s) / 64 == i))
  | inr found ↦ rw (← brought-place b s i p fits) (left_step-brought b s i out p hp found)
]
  where
    skipped :
        (word b i == 0) ≡ true
        → (((p - s) / 64 == i) ≡ true) ⊎ (((p - s) / 64 == i) ≡ false)
        → place (left_step b s i out) p
          ≡ max (place out p) (if leb s p && ((p - s) / 64 == i) then place b (p - s) else 0)
    skipped e (inl at) = unfold left_step in ground (arith, bit-zero ((p - s) % 64))
    skipped e (inr off) = unfold left_step in ground arith

left_loop-places :
    (rounds i : ℕ) (b : RbBits) (s : ℕ) (out : RbBits) (p : ℕ)
    → IsWords b
    → s < 256
    → p < 256
    → place (left_loop rounds i b s out) p
      ≡ max (place out p) (
          if leb s p && (leb i ((p - s) / 64) && ltb ((p - s) / 64) (i + rounds))
          then place b (p - s)
          else 0)
unfolding left_loop
left_loop-places zero i b s out p fits hs hp = ground arith
left_loop-places (suc rounds) i b s out p fits hs hp = ground (
  arith,
  place-left_step b s i out p fits hp,
  left_loop-places rounds (i + 1) b s (left_step b s i out) p fits hs hp,
)

-- For words below 2^64, place p below 256 of RBShiftLeft by s is place p - s of the operand, or
-- clear for p below s.
pub place-rb_shift_left :
    (b : RbBits) (s p : ℕ)
    → IsWords b
    → p < 256
    → place (rb_shift_left b s) p ≡ (if leb s p then place b (p - s) else 0)
unfolding rb_shift_left
place-rb_shift_left b s p fits hp =
    ground (arith, left_loop-places 4 0 b s no_bits p fits, place-no_bits p)

-- What the step ors into place `p` of output word `i - s / 64`.
abbrev fetched : RbBits → ℕ → ℕ → ℕ → ℕ
fetched b s i p = max (bit (word b i / 2 ^ (s % 64)) (p % 64)) (
    if not (s % 64 == 0) && ltb (i + 1) 4
    then bit (shl64 (word b (i + 1)) (64 - s % 64)) (p % 64)
    else 0)

right_step-fetched :
    (b : RbBits) (s i : ℕ) (out : RbBits) (p : ℕ)
    → i - s / 64 < 4
    → place (right_step b s i out) p
      ≡ (if p / 64 == i - s / 64 then max (place out p) (fetched b s i p) else place out p)
unfolding right_step
right_step-fetched b s i out p h =
    let bs = s % 64 in
    let dst = i - s / 64 in
    let low = or_word out dst (word b i / 2 ^ bs) in
    ground (
      arith,
      place-or_word out dst (word b i / 2 ^ bs) p,
      place-or_word low dst (shl64 (word b (i + 1)) (64 - bs)) p,
    )

fetched-place :
    (b : RbBits) (s i p : ℕ)
    → IsWords b
    → i < 4
    → s / 64 ≤ i
    → p / 64 ≡ i - s / 64
    → fetched b s i p ≡ (if ltb (p + s) 256 then place b (p + s) else 0)
fetched-place b s i p fits hi hs e = ground (
  arith,
  bit-shr64 (word b i) (s % 64) (p % 64) (fits i),
  bit-shl64 (word b (i + 1)) (64 - s % 64) (p % 64),
)

place-right_step :
    (b : RbBits) (s i : ℕ) (out : RbBits) (p : ℕ)
    → IsWords b
    → s / 64 ≤ i
    → i < 4
    → place (right_step b s i out) p ≡ (
        if p / 64 == i - s / 64
        then max (place out p) (if ltb (p + s) 256 then place b (p + s) else 0)
        else place out p)
place-right_step b s i out p fits hs hi = elim (Bool-cases (p / 64 == i - s / 64)) [
  | inl at ↦
      rw
        (
          right_step-fetched b s i out p (omega arith),
          fetched-place b s i p fits hi hs (ground arith),
        )
        refl
  | inr off ↦ rw (right_step-fetched b s i out p (omega arith)) (ground arith)
]

right_loop-places :
    (rounds i : ℕ) (b : RbBits) (s : ℕ) (out : RbBits) (p : ℕ)
    → IsWords b
    → s / 64 ≤ i
    → i + rounds ≡ 4
    → p < 256
    → place (right_loop rounds i b s out) p ≡ (
        if leb (i - s / 64) (p / 64) && ltb (p / 64) (4 - s / 64)
        then max (place out p) (if ltb (p + s) 256 then place b (p + s) else 0)
        else place out p)
unfolding right_loop
right_loop-places zero i b s out p fits hs e hp = ground arith
right_loop-places (suc rounds) i b s out p fits hs e hp = ground (
  arith,
  place-right_step b s i out p fits hs (omega arith),
  right_loop-places rounds (i + 1) b s (right_step b s i out) p fits (omega arith) (omega arith) hp,
)

-- For words below 2^64, place p below 256 of RBShiftRight by s is place p + s of the operand, or
-- clear where p + s is 256 or more.
pub place-rb_shift_right :
    (b : RbBits) (s p : ℕ)
    → IsWords b
    → p < 256
    → place (rb_shift_right b s) p ≡ (if ltb (p + s) 256 then place b (p + s) else 0)
unfolding rb_shift_right
place-rb_shift_right b s p fits hp = ground (
  arith,
  right_loop-places (4 - s / 64) (s / 64) b s no_bits p fits,
  place-no_bits p,
  bit-lt (word b ((p + s) / 64)) ((p + s) % 64),
)
