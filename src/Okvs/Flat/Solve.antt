-- ===== src/Okvs/Flat/Solve.antt =====
-- The back fill of a flat table holds the rows of the back fill of a table of rows.
use pq_psi.Base.{
  ℕ, zero, suc, ◌+◌, ◌*◌, ◌≤◌, ◌<◌, ◌≡◌, refl, sym, ◌∙◌, arith, inl, inr, Bool-cases, not, ◌||◌,
  ◌==◌, List, [], ◌∷◌, length, get_or, set, ok, write,
}
use pq_psi.Okvs.Bits.{rb_bit}
use pq_psi.Okvs.Rows.{RbRow, xor_blocks}
use pq_psi.Okvs.Rows.Vector.{rb_xor-ok, length-xor_blocks}
use pq_psi.Okvs.Codec.{Pivoted, sum_loop, back_fill}
use pq_psi.Okvs.Codec.Forward.{IsEchelon}
use pq_psi.Okvs.Codec.Solve.{IsTable, sum_loop-IsSum, IsSum-rhs, set-IsTable, IsTable-replicate}
use pq_psi.Okvs.Flat.{FlatPivoted, rb_xor_ptr, sum_loop_flat, back_fill_mixed, back_fill_flat}
use pq_psi.Okvs.Flat.Elim.{all_pivots}
use pq_psi.Okvs.Flat.Fill.{IsFlat, IsFlat-width, IsFlat-set, IsFlat-replicate}

rb_xor_ptr-ok : (a b : List ℕ) (n : ℕ) → length a ≡ n → rb_xor_ptr a b n ≡ ok (xor_blocks a b)
unfolding rb_xor_ptr
rb_xor_ptr-ok a b n e = ground arith

module _ (w : ℕ) (rows : List (List ℕ)) (t : List ℕ) (flat : IsFlat w rows t) where
  sum_loop_flat-sum_loop :
      (rounds j : ℕ) (row : RbRow) (pivot : ℕ) (sum : List ℕ)
      → row.start + (j + rounds) ≤ length rows
      → length sum ≡ w
      → sum_loop_flat w rounds j row.bits row.start pivot t sum
        ≡ sum_loop rounds j row pivot rows sum
  unfolding sum_loop_flat sum_loop
  sum_loop_flat-sum_loop zero j row pivot sum h e = refl
  sum_loop_flat-sum_loop (suc rounds) j row pivot sum h e =
      elim (Bool-cases (not (rb_bit row.bits j) || (row.start + j == pivot))) [
        | inl skip ↦ rw (skip) (sum_loop_flat-sum_loop rounds (j + 1) row pivot sum (omega arith) e)
        | inr add ↦
            let col = row.start + j in
            let l : col < length rows = omega arith in
            let next = xor_blocks sum (get_or rows col []) in
            rw
              (
                add,
                flat.row col l,
                rb_xor_ptr-ok sum (get_or rows col []) w e,
                rb_xor-ok sum (get_or rows col []) (e ∙ sym (IsFlat-width w rows t flat col l)),
              )
              (sum_loop_flat-sum_loop rounds (j + 1) row pivot next (omega arith)
                (length-xor_blocks sum (get_or rows col []) ∙ e))
      ]

module _ (columns band_width w : ℕ) (small : band_width ≤ 256) where
  pub back_fill_mixed-IsFlat :
      (ps : List Pivoted)
      → IsEchelon columns band_width w small ps
      → (rows : List (List ℕ)) × (t : List ℕ) × (back_fill columns w band_width ps ≡ ok rows)
        × (back_fill_mixed w columns band_width ps ≡ ok t)
        × IsTable columns w rows
        × IsFlat w rows t
  unfolding back_fill back_fill_mixed
  back_fill_mixed-IsFlat [] h =
      (_, _, refl, refl, IsTable-replicate columns band_width w small, IsFlat-replicate w columns)
  back_fill_mixed-IsFlat (p ∷ ps) (valid, in_table, own, clear, rest) =
      let (rows, t, e, f, is_table, flat) = back_fill_mixed-IsFlat ps rest in
      let (sum, g, is_sum) =
        sum_loop-IsSum columns band_width w p.row p.pivot rows valid is_table band_width 0 p.row.rhs
          (omega arith) (IsSum-rhs columns band_width w small p.row p.pivot rows valid is_table) in
      let same : 0 + band_width ≡ band_width = omega arith in
      let is_sum' = rw same at is_sum in
      let flat_sum =
        sum_loop_flat-sum_loop w rows t flat band_width 0 p.row p.pivot p.row.rhs
          (omega (arith, valid.room, is_table.size)) valid.width
        ∙ g in
      (
        set rows p.pivot sum,
        write t (p.pivot * w) sum,
        rw (e, g) refl,
        rw (f, flat_sum) refl,
        set-IsTable columns band_width w p.row p.pivot rows sum valid in_table is_table is_sum',
        IsFlat-set w rows t p.pivot sum flat (omega (arith, is_table.size)) is_sum'.width,
      )

pub back_fill_flat-mixed :
    (w columns band_width : ℕ) (ps : List FlatPivoted) (rhs : List ℕ)
    → back_fill_flat w columns band_width ps rhs
      ≡ back_fill_mixed w columns band_width (all_pivots w rhs ps)
unfolding back_fill_flat back_fill_mixed
back_fill_flat-mixed w columns band_width [] rhs = refl
back_fill_flat-mixed w columns band_width (p ∷ ps) rhs =
    rw (back_fill_flat-mixed w columns band_width ps rhs) refl
