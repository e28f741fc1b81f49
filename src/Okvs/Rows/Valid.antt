-- ===== src/Okvs/Rows/Valid.antt =====
-- The row of a key: its coefficients lie in the band, and its band lies in the table.
use native.Mathlib.Nat.{mod-le, mod-lt}
use pq_psi.Base.{ℕ, ◌+◌, ◌-◌, ◌%◌, ◌^◌, ◌≤◌, ◌<◌, ◌≡◌, refl, Bool-cases, inl, inr, ◌==◌, arith, ok}
use pq_psi.Okvs.Bits.{RbBits, trim_words, rb_ensure_bits}
use pq_psi.Okvs.Bits.Words.{IsWords}
use pq_psi.Okvs.Bits.Band.{
  IsBand, IsBand-trim_words, IsBand-rb_ensure_bits, IsWords-words, rb_mask_bits-ok,
}
use pq_psi.Okvs.Rows.{RbHashCtx, rb_mask256, rb_hash64, rb_start, rb_row_bits}

module _ (aes : ℕ → ℕ → ℕ) (key : ℕ) (ctx : RbHashCtx) where
  IsWords-rb_mask256 : IsWords (rb_mask256 aes key ctx)
  unfolding rb_mask256
  IsWords-rb_mask256 = IsWords-words _ _ _ _ (omega arith) (omega arith) (omega arith) (omega arith)

  -- For a width from 1 to 256 the coefficients of a key are computed without an exception, in
  -- words below 2^64, and none is set at the width or past it.
  pub rb_row_bits-IsBand :
      (width : ℕ)
      → 1 ≤ width
      → width ≤ 256
      → (b : RbBits) × (rb_row_bits aes key ctx width ≡ ok b) × IsBand width b
  unfolding rb_row_bits
  rb_row_bits-IsBand width p q =
      let m = rb_mask256 aes key ctx in
      (
        rb_ensure_bits (trim_words m width),
        rw (rb_mask_bits-ok m width q) refl,
        IsBand-rb_ensure_bits (trim_words m width) width p
            (IsBand-trim_words m width q IsWords-rb_mask256),
      )

  -- For a width of at most the number of columns, the band of a key ends inside the table.
  pub rb_start_room :
      (columns width : ℕ) → width ≤ columns → rb_start aes key ctx columns width + width ≤ columns
  unfolding rb_start
  rb_start_room columns width h =
      let range = (columns - width + 1) % 2 ^ 64 in
      let hash = rb_hash64 aes key ctx.start in
      elim (Bool-cases (range == 0)) [
        | inl wraps ↦ rw wraps (omega arith)
        | inr some_room ↦
            let pos : 0 < range = ground arith in
            rw some_room (omega (arith, mod-lt hash pos, mod-le (columns - width + 1) (2 ^ 64)))
      ]
