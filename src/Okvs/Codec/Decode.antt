-- ===== src/Okvs/Codec/Decode.antt =====
-- The loop of RBDecode sums the columns that the band of a key selects.
use pq_psi.Base.{
  ℕ, zero, suc, ◌+◌, ◌≤◌, ◌<◌, ◌≡◌, refl, sym, ◌∙◌, arith, inl, inr, Bool-cases, true, false, leb,
  List, [], length, get_or, eq_of_get_or, replicate, length-replicate,
}
use pq_psi.Okvs.Bits.{RbBits, rb_bit}
use pq_psi.Okvs.Bits.Words.{place, rb_bit-place, rb_bit-place_zero}
use pq_psi.Okvs.Rows.{RbRow, xor_blocks}
use pq_psi.Okvs.Rows.Vector.{length-xor_blocks, get_or-xor_blocks, get_or-replicate}
use pq_psi.Okvs.Codec.{decode_loop}
use pq_psi.Okvs.Codec.Linear.{dot, dot-zero, dot-skip, dot-take, dot-band}
use pq_psi.Okvs.Codec.Equation.{coef, IsRow, Solves}
use pq_psi.Okvs.Codec.Solve.{component, IsTable}

module _ (columns val_width : ℕ) (table : List (List ℕ))
    (is_table : IsTable columns val_width table) (start : ℕ) (bits : RbBits) where
  -- The sum of the first `j` columns of the band.
  record IsPart (j : ℕ) (out : List ℕ) : Type 0 where
    pub width : length out ≡ val_width
    pub value : (k : ℕ) → get_or out k 0 ≡ dot (place bits) (λ i. component table k (start + i)) j

  IsPart-skip : (j : ℕ) (out : List ℕ) → rb_bit bits j ≡ false → IsPart j out → IsPart (j + 1) out
  IsPart-skip j out h s = record {
    width = s.width;
    value = λ k. s.value k ∙ sym (dot-skip (place bits) _ j (rb_bit-place_zero bits j h));
  }

  IsPart-add :
      (j : ℕ) (out : List ℕ)
      → start + j < columns
      → rb_bit bits j ≡ true
      → IsPart j out
      → IsPart (j + 1) (xor_blocks out (get_or table (start + j) []))
  IsPart-add j out l h s =
      let same = s.width ∙ sym (is_table.width (start + j) l) in
      record {
        width = length-xor_blocks out (get_or table (start + j) []) ∙ s.width;
        value = λ k.
            rw
              (
                dot-take (place bits) (λ i. component table k (start + i)) j
                    ((rb_bit-place bits j).0 h),
                ← s.value k,
              )
              (get_or-xor_blocks out (get_or table (start + j) []) k same);
      }

  decode_loop-IsPart :
      (rounds j : ℕ) (out : List ℕ)
      → start + (j + rounds) ≤ columns
      → IsPart j out
      → IsPart (j + rounds) (decode_loop rounds j start bits table out)
  unfolding decode_loop
  decode_loop-IsPart zero j out h s = let same : j + 0 ≡ j = omega arith in rw same s
  decode_loop-IsPart (suc rounds) j out h s =
      let shift : j + suc rounds ≡ j + 1 + rounds = omega arith in
      let inside : leb (length table) (start + j) ≡ false = ground (arith, is_table.size) in
      elim (Bool-cases (rb_bit bits j)) [
        | inl add ↦
            let next = xor_blocks out (get_or table (start + j) []) in
            let ih =
              decode_loop-IsPart rounds (j + 1) next (omega arith)
                (IsPart-add j out (omega arith) add s) in
            rw (shift, add, inside) ih
        | inr skip ↦
            let ih =
              decode_loop-IsPart rounds (j + 1) out (omega arith) (IsPart-skip j out skip s) in
            rw (shift, skip) ih
      ]

  decode_loop-value :
      (band_width : ℕ)
      → start + band_width ≤ columns
      → IsPart band_width (decode_loop band_width 0 start bits table (replicate val_width 0))
  decode_loop-value band_width h =
      let same : 0 + band_width ≡ band_width = omega arith in
      rw same at (
        decode_loop-IsPart band_width 0 (replicate val_width 0) (omega arith) (record {
          width = length-replicate val_width 0;
          value = λ k. get_or-replicate val_width k 0 ∙ sym (dot-zero _ _);
        }))

-- On a table that solves the row of a key, the loop returns the right-hand side of the row.
pub decode_loop-rhs :
    (columns band_width val_width : ℕ) (table : List (List ℕ)) (r : RbRow)
    → IsTable columns val_width table
    → IsRow columns band_width val_width r
    → ((k : ℕ) → Solves columns band_width val_width (component table k) k r)
    → decode_loop band_width 0 r.start r.bits table (replicate val_width 0) ≡ r.rhs
decode_loop-rhs columns band_width val_width table r is_table valid solved =
    let part =
      decode_loop-value columns val_width table is_table r.start r.bits band_width valid.room in
    eq_of_get_or _ _ (part.width ∙ sym valid.width) (λ k.
      part.value k
      ∙ sym (
          dot-band (coef columns band_width val_width r) (place r.bits) (component table k) r.start
            band_width columns valid.room (λ i l. refl))
      ∙ solved k)
