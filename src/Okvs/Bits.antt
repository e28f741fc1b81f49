-- ===== src/Okvs/Bits.antt =====
-- `RBBits` of frontend/okvs/rb/types.h and the functions on it of frontend/okvs/rb/rows.h: the
-- 256 coefficients of a row, in four 64-bit words, lowest first.
pub mod Words
pub mod Places
pub mod Lead
pub mod Fits
pub mod XorShifted
pub mod Band
pub mod Shift
use pq_psi.Base.{
  ℕ, zero, suc, ◌+◌, ◌-◌, ◌*◌, ◌/◌, ◌%◌, ◌^◌, bit_and, bit_or, bit_xor, Bool, true, false, not,
  ◌&&◌, ◌||◌, if◌then◌else◌, ltb, leb, ◌==◌, Result, ok, invalid_argument, ◌>>=◌, ◌>>◌, throw_if,
}
use pq_psi.Base.Bits.{bit_at}

-- std::array<u64, 4>
pub data RbBits : Type 0 where
  words : ℕ → ℕ → ℕ → ℕ → RbBits

abbrev pub no_bits : RbBits
no_bits = words 0 0 0 0

-- bits[i]; the code reads below 4 only.
unfoldable pub word : RbBits → ℕ → ℕ
word (words a b c d) zero = a
word (words a b c d) (suc zero) = b
word (words a b c d) (suc (suc zero)) = c
word (words a b c d) (suc (suc (suc zero))) = d
word (words a b c d) (suc (suc (suc (suc i)))) = 0

unfoldable pub set_word : RbBits → ℕ → ℕ → RbBits
set_word (words a b c d) zero v = words v b c d
set_word (words a b c d) (suc zero) v = words a v c d
set_word (words a b c d) (suc (suc zero)) v = words a b v d
set_word (words a b c d) (suc (suc (suc zero))) v = words a b c v
set_word (words a b c d) (suc (suc (suc (suc i)))) v = words a b c d

abbrev pub all_ones : ℕ
all_ones = 2 ^ 64 - 1

-- x << s and ~x on u64
abbrev pub shl64 : ℕ → ℕ → ℕ
shl64 x s = x * 2 ^ s % 2 ^ 64

abbrev pub not64 : ℕ → ℕ
not64 x = bit_xor x all_ones

-- for (k = 0; k < rounds; ++k) bits[i + k] = 0;
unfoldable pub clear_words : ℕ → ℕ → RbBits → RbBits
clear_words zero i b = b
clear_words (suc rounds) i b = clear_words rounds (i + 1) (set_word b i 0)

-- RBTrimBits, once the width is known to be at most 256
unfoldable pub trim_words : RbBits → ℕ → RbBits
trim_words bits width =
    if width == 256
    then bits
    else (let full = width / 64 in
        let rem = width % 64 in
        let from = full + (if rem == 0 then 0 else 1) in
        let cleared = clear_words (4 - from) from bits in
        if not (rem == 0) && ltb full 4
        then set_word cleared full (bit_and (word cleared full) (2 ^ rem - 1))
        else cleared)

unfoldable pub rb_trim_bits : RbBits → ℕ → Result RbBits
rb_trim_bits bits width = do
  throw_if (ltb 256 width) (invalid_argument "RBTrimBits width > 256")
  ok (trim_words bits width)

unfoldable pub rb_mask_bits : RbBits → ℕ → Result RbBits
rb_mask_bits m width = rb_trim_bits m width

unfoldable pub rb_has_bits : RbBits → Bool
rb_has_bits (words a b c d) = not (bit_or (bit_or (bit_or a b) c) d == 0)

unfoldable pub rb_ensure_bits : RbBits → RbBits
rb_ensure_bits bits = if rb_has_bits bits then bits else set_word bits 0 1

unfoldable pub rb_bit : RbBits → ℕ → Bool
rb_bit bits idx = not (bit_at (word bits (idx / 64)) (idx % 64) == 0)

-- __builtin_ctzll: the place of the lowest set bit, at most `n` places up
unfoldable pub ctz_from : ℕ → ℕ → ℕ
ctz_from zero x = 0
ctz_from (suc n) x = if x % 2 == 0 then suc (ctz_from n (x / 2)) else 0

unfoldable pub ctz64 : ℕ → ℕ
ctz64 x = ctz_from 63 x

unfoldable pub lead_loop : ℕ → ℕ → RbBits → ℕ → ℕ
lead_loop zero i bits width = width
lead_loop (suc rounds) i bits width =
    if word bits i == 0 then lead_loop rounds (i + 1) bits width else i * 64 + ctz64 (word bits i)

unfoldable pub rb_lead : RbBits → ℕ → ℕ
rb_lead bits width = lead_loop 4 0 bits width

unfoldable pub rb_zero_below : RbBits → ℕ → RbBits
rb_zero_below bits idx =
    let limb = idx / 64 in
    let off = idx % 64 in
    let cleared = clear_words limb 0 bits in
    if ltb limb 4 && not (off == 0)
    then set_word cleared limb (bit_and (word cleared limb) (not64 (2 ^ off - 1)))
    else cleared

-- out[i] |= v
unfoldable pub or_word : RbBits → ℕ → ℕ → RbBits
or_word out i v = set_word out i (bit_or (word out i) v)

unfoldable pub left_step : RbBits → ℕ → ℕ → RbBits → RbBits
left_step b shift i out =
    let bit_shift = shift % 64 in
    let dst = i + shift / 64 in
    let low = if ltb dst 4 then or_word out dst (shl64 (word b i) bit_shift) else out in
    let high =
      if not (bit_shift == 0) && ltb (dst + 1) 4
      then or_word low (dst + 1) (word b i / 2 ^ (64 - bit_shift))
      else low in
    if word b i == 0 then out else high

unfoldable pub left_loop : ℕ → ℕ → RbBits → ℕ → RbBits → RbBits
left_loop zero i b shift out = out
left_loop (suc rounds) i b shift out = left_loop rounds (i + 1) b shift (left_step b shift i out)

unfoldable pub rb_shift_left : RbBits → ℕ → RbBits
rb_shift_left b shift = if leb 256 shift then no_bits else left_loop 4 0 b shift no_bits

unfoldable pub right_step : RbBits → ℕ → ℕ → RbBits → RbBits
right_step b shift i out =
    let bit_shift = shift % 64 in
    let dst = i - shift / 64 in
    let low = or_word out dst (word b i / 2 ^ bit_shift) in
    if not (bit_shift == 0) && ltb (i + 1) 4
    then or_word low dst (shl64 (word b (i + 1)) (64 - bit_shift))
    else low

unfoldable pub right_loop : ℕ → ℕ → RbBits → ℕ → RbBits → RbBits
right_loop zero i b shift out = out
right_loop (suc rounds) i b shift out = right_loop rounds (i + 1) b shift (right_step b shift i out)

unfoldable pub rb_shift_right : RbBits → ℕ → RbBits
rb_shift_right b shift =
    if leb 256 shift then no_bits else right_loop (4 - shift / 64) (shift / 64) b shift no_bits

unfoldable pub xor_words : RbBits → RbBits → RbBits
xor_words (words a b c d) (words e f g h) =
    words (bit_xor a e) (bit_xor b f) (bit_xor c g) (bit_xor d h)

-- The order of two words cast to ptrdiff_t, and the difference of two words. The code's difference
-- is defined where it fits a ptrdiff_t.
abbrev pub signed_le : ℕ → ℕ → Bool
signed_le a b = leb ((a + 2 ^ 63) % 2 ^ 64) ((b + 2 ^ 63) % 2 ^ 64)

abbrev pub sub64 : ℕ → ℕ → ℕ
sub64 a b = (a + (2 ^ 64 - b)) % 2 ^ 64

unfoldable pub rb_xor_shifted : RbBits → ℕ → RbBits → ℕ → ℕ → Result RbBits
rb_xor_shifted dst dst_off src src_off width = do
  let tmp = rb_zero_below src src_off
  let moved =
      if signed_le src_off dst_off
      then rb_shift_left tmp (sub64 dst_off src_off)
      else rb_shift_right tmp (sub64 src_off dst_off)
  trimmed ← rb_trim_bits moved width
  ok (xor_words dst trimmed)
