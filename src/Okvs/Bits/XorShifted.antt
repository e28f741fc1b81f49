-- ===== src/Okvs/Bits/XorShifted.antt =====
-- `RBXorShifted`: one row of the elimination is added to another, aligned on the pivot column.
use pq_psi.Base.{
  ℕ, ◌+◌, ◌-◌, ◌%◌, ◌^◌, ◌≤◌, ◌<◌, ◌≡◌, ◌⊎◌, true, false, leb→le, arith, ltb, leb, if◌then◌else◌,
  ◌&&◌, ok, Bool-cases, inl, inr,
}
use pq_psi.Okvs.Bits.{
  RbBits, trim_words, rb_zero_below, rb_shift_left, rb_shift_right, xor_words, signed_le, sub64,
  rb_xor_shifted,
}
use pq_psi.Okvs.Bits.Words.{place, IsWords, place-xor_words}
use pq_psi.Okvs.Bits.Places.{place-trim_words, rb_trim_bits-ok, place-rb_zero_below}
use pq_psi.Okvs.Bits.Shift.{place-rb_shift_left, place-rb_shift_right}
use pq_psi.Okvs.Bits.Fits.{
  IsWords-trim_words, IsWords-rb_zero_below, IsWords-rb_shift_left, IsWords-rb_shift_right,
  IsWords-xor_words,
}

-- The source row moved so that its place `src_off` comes to lie on `dst_off`.
moved : RbBits → ℕ → ℕ → RbBits
moved src src_off dst_off =
    if signed_le src_off dst_off
    then rb_shift_left (rb_zero_below src src_off) (sub64 dst_off src_off)
    else rb_shift_right (rb_zero_below src src_off) (sub64 src_off dst_off)

-- Below 2^63 the casts keep the order, and the difference is that of the numbers.
signed_le-leb : (a b : ℕ) → a < 2 ^ 63 → b < 2 ^ 63 → signed_le a b ≡ leb a b
signed_le-leb a b p q =
    let e : (a + 2 ^ 63) % 2 ^ 64 ≡ a + 2 ^ 63 = omega arith in
    let f : (b + 2 ^ 63) % 2 ^ 64 ≡ b + 2 ^ 63 = omega arith in
    elim (Bool-cases (leb a b)) [
      | inl up ↦ rw (e, f, up) (ground arith)
      | inr down ↦ rw (e, f, down) (ground arith)
    ]

sub64-sub : (a b : ℕ) → a < 2 ^ 63 → b ≤ a → sub64 a b ≡ a - b
sub64-sub a b p q = omega arith

place-moved :
    (src : RbBits) (src_off dst_off i : ℕ)
    → IsWords src
    → src_off < 256
    → dst_off < 2 ^ 63
    → i < 256
    → place (moved src src_off dst_off) i ≡ (
        if leb dst_off i && ltb (i - dst_off + src_off) 256
        then place src (i - dst_off + src_off)
        else 0)
unfolding moved
place-moved src src_off dst_off i fits hs hd hi =
    let order = signed_le-leb src_off dst_off (omega arith) hd in
    let tmp = rb_zero_below src src_off in
    let tmp_fits = IsWords-rb_zero_below src src_off fits in
    elim (Bool-cases (leb src_off dst_off)) [
      | inl up ↦
          rw
            (
              order,
              up,
              sub64-sub dst_off src_off hd (leb→le src_off dst_off up),
              place-rb_shift_left tmp (dst_off - src_off) i tmp_fits hi,
            )
            (upwards (leb→le src_off dst_off up) (Bool-cases (leb dst_off i)))
      | inr down ↦
          rw
            (
              order,
              down,
              sub64-sub src_off dst_off (omega arith) (ground arith),
              place-rb_shift_right tmp (src_off - dst_off) i tmp_fits hi,
            )
            (downwards (ground arith) (Bool-cases (leb dst_off i)))
    ]
  where
    upwards :
        src_off ≤ dst_off
        → ((leb dst_off i) ≡ true) ⊎ ((leb dst_off i) ≡ false)
        → (if leb (dst_off - src_off) i
            then place (rb_zero_below src src_off) (i - (dst_off - src_off))
            else 0)
          ≡ (if leb dst_off i && ltb (i - dst_off + src_off) 256
              then place src (i - dst_off + src_off)
              else 0)
    upwards up (inl from) =
        let here : i - (dst_off - src_off) ≡ i - dst_off + src_off = ground arith in
        rw here (ground (arith, place-rb_zero_below src src_off (i - dst_off + src_off) hs))
    upwards up (inr before) =
        ground (arith, place-rb_zero_below src src_off (i - (dst_off - src_off)) hs)

    downwards :
        dst_off < src_off
        → ((leb dst_off i) ≡ true) ⊎ ((leb dst_off i) ≡ false)
        → (if ltb (i + (src_off - dst_off)) 256
            then place (rb_zero_below src src_off) (i + (src_off - dst_off))
            else 0)
          ≡ (if leb dst_off i && ltb (i - dst_off + src_off) 256
              then place src (i - dst_off + src_off)
              else 0)
    downwards down (inl from) =
        let here : i + (src_off - dst_off) ≡ i - dst_off + src_off = ground arith in
        rw here (ground (arith, place-rb_zero_below src src_off (i - dst_off + src_off) hs))
    downwards down (inr before) =
        ground (arith, place-rb_zero_below src src_off (i + (src_off - dst_off)) hs)

IsWords-moved :
    (src : RbBits) (src_off dst_off : ℕ) → IsWords src → IsWords (moved src src_off dst_off)
unfolding moved
IsWords-moved src src_off dst_off fits =
    let tmp_fits = IsWords-rb_zero_below src src_off fits in
    elim (Bool-cases (signed_le src_off dst_off)) [
      | inl up ↦
          rw up (IsWords-rb_shift_left (rb_zero_below src src_off) (sub64 dst_off src_off) tmp_fits)
      | inr down ↦
          rw down
            (IsWords-rb_shift_right (rb_zero_below src src_off) (sub64 src_off dst_off) tmp_fits)
    ]

-- The sum that `RBXorShifted` leaves in the destination.
pub xor_shifted : RbBits → ℕ → RbBits → ℕ → ℕ → RbBits
xor_shifted dst dst_off src src_off width =
    xor_words dst (trim_words (moved src src_off dst_off) width)

pub rb_xor_shifted-ok :
    (dst : RbBits) (dst_off : ℕ) (src : RbBits) (src_off width : ℕ)
    → width ≤ 256
    → rb_xor_shifted dst dst_off src src_off width ≡ ok (xor_shifted dst dst_off src src_off width)
unfolding rb_xor_shifted xor_shifted moved
rb_xor_shifted-ok dst dst_off src src_off width h = simp (rb_trim_bits-ok _ width h)

pub IsWords-xor_shifted :
    (dst : RbBits) (dst_off : ℕ) (src : RbBits) (src_off width : ℕ)
    → IsWords dst
    → IsWords src
    → IsWords (xor_shifted dst dst_off src src_off width)
unfolding xor_shifted
IsWords-xor_shifted dst dst_off src src_off width p q =
    IsWords-xor_words dst (trim_words (moved src src_off dst_off) width) p
      (IsWords-trim_words (moved src src_off dst_off) width (IsWords-moved src src_off dst_off q))

pub place-xor_shifted :
    (dst : RbBits) (dst_off : ℕ) (src : RbBits) (src_off width i : ℕ)
    → IsWords src
    → src_off < 256
    → dst_off < 2 ^ 63
    → width ≤ 256
    → i < 256
    → place (xor_shifted dst dst_off src src_off width) i
      ≡ (place dst i
          + (if ltb i width && (leb dst_off i && ltb (i - dst_off + src_off) 256)
              then place src (i - dst_off + src_off)
              else 0))
        % 2
unfolding xor_shifted
place-xor_shifted dst dst_off src src_off width i fits hs hd hw hi =
    let m = moved src src_off dst_off in
    rw (place-xor_words dst (trim_words m width) i, place-trim_words m width i hw hi)
      (ground (arith, place-moved src src_off dst_off i fits hs hd hi))

-- For words below 2^64, a source offset below 256, a destination offset below 2^63 and a
-- width up to 256, RBXorShifted returns
-- bits in which each place below the width has the exclusive or of its own and, from the
-- destination offset on, of the source's place as far past the source offset, and every other
-- place is as it was.
pub rb_xor_shifted-places :
    (dst : RbBits) (dst_off : ℕ) (src : RbBits) (src_off width : ℕ)
    → IsWords src
    → src_off < 256
    → dst_off < 2 ^ 63
    → width ≤ 256
    → (r : RbBits) × (rb_xor_shifted dst dst_off src src_off width ≡ ok r)
      × ((i : ℕ)
          → i < 256
          → place r i
            ≡ (place dst i
                + (if ltb i width && (leb dst_off i && ltb (i - dst_off + src_off) 256)
                    then place src (i - dst_off + src_off)
                    else 0))
              % 2)
rb_xor_shifted-places dst dst_off src src_off width fits inside below small = (
  xor_shifted dst dst_off src src_off width,
  rb_xor_shifted-ok dst dst_off src src_off width small,
  λ i h. place-xor_shifted dst dst_off src src_off width i fits inside below small h,
)
