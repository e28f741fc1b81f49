-- ===== src/Okvs/Codec.antt =====
-- frontend/okvs/rb/codec.h: `RBEncode` and `RBDecode` on tables of rows of blocks.
pub mod Linear
pub mod Equation
pub mod Elim
pub mod Forward
pub mod Solve
pub mod Encode
pub mod Decode
pub mod Correct
use pq_psi.Base.{
  ℕ, zero, suc, ◌+◌, ◌-◌, Bool, true, false, not, ◌&&◌, ◌||◌, ◌==◌, ltb, leb, if◌then◌else◌, List,
  [], ◌∷◌, map, length, get_or, set, replicate, Option, none, some, Result, ok, err,
  invalid_argument, ◌>>=◌, ◌>>◌, throw_if,
}
use mathlib.Core.Option
use pq_psi.Okvs.Bits.{RbBits, rb_bit, rb_lead, rb_xor_shifted}
use pq_psi.Okvs.Double.{Double}
use pq_psi.Okvs.Params.{RbParams, RbInfo}
use pq_psi.Okvs.Fit.{rb_info_of, rb_table_w}
use pq_psi.Okvs.Rows.{
  RbRow, RbHashCtx, rb_make_hash_ctx, xor_blocks, rb_xor, rb_for, rb_start, rb_row_bits, rb_rows,
}

-- A row after its turn in the elimination, with the column of its pivot.
pub record Pivoted : Type 0 where
  pub row : RbRow
  pub pivot : ℕ

-- The inner loop of the elimination, over the rows after `row`.
unfoldable pub eliminate : RbRow → ℕ → ℕ → ℕ → List RbRow → Result (List RbRow)
eliminate row lead pivot band_width [] = ok []
eliminate row lead pivot band_width (r ∷ rs) =
    let off = pivot - r.start in
    let added : Result RbRow = do
      bits ← rb_xor_shifted r.bits off row.bits lead band_width
      rhs ← rb_xor r.rhs row.rhs
      ok (record r { bits = bits; rhs = rhs })
    in let step : Result (List RbRow) = do
      r' ← if leb band_width off || not (rb_bit r.bits off) then ok r else added
      rs' ← eliminate row lead pivot band_width rs
      ok (r' ∷ rs')
      in if ltb pivot r.start then ok (r ∷ rs) else step

-- The outer loop, with as many rounds as rows; `none` is `return false`.
unfoldable pub forward : ℕ → ℕ → List RbRow → Result (Option (List Pivoted))
forward rounds band_width [] = ok (some [])
forward zero band_width (r ∷ rs) = ok (some [])
forward (suc rounds) band_width (r ∷ rs) =
    let lead = rb_lead r.bits band_width in
    let step : Result (Option (List Pivoted)) = do
      rs' ← eliminate r lead (r.start + lead) band_width rs
      rest ← forward rounds band_width rs'
      ok (Option.map (◌∷◌ (record { row = r; pivot = r.start + lead })) rest)
    in if lead == band_width then ok none else step

-- The loop over `j` that adds the known columns of a row to `sum`.
unfoldable pub sum_loop : ℕ → ℕ → RbRow → ℕ → List (List ℕ) → List ℕ → Result (List ℕ)
sum_loop zero j row pivot table sum = ok sum
sum_loop (suc rounds) j row pivot table sum =
    let col = row.start + j in
    let skip = not (rb_bit row.bits j) || (col == pivot) in
    do
      sum' ← if skip then ok sum else rb_xor sum (get_or table col [])
      sum_loop rounds (j + 1) row pivot table sum'

-- The back fill, from the last row to the first.
unfoldable pub back_fill : ℕ → ℕ → ℕ → List Pivoted → Result (List (List ℕ))
back_fill columns val_width band_width [] = ok (replicate columns (replicate val_width 0))
back_fill columns val_width band_width (p ∷ ps) = do
  table ← back_fill columns val_width band_width ps
  sum ← sum_loop band_width 0 p.row p.pivot table p.row.rhs
  ok (set table p.pivot sum)

-- The loop over `j` of RBDecode, which stops at the end of the table.
unfoldable pub decode_loop : ℕ → ℕ → ℕ → RbBits → List (List ℕ) → List ℕ → List ℕ
decode_loop zero j start bits table out = out
decode_loop (suc rounds) j start bits table out =
    let col = start + j in
    let skipped = decode_loop rounds (j + 1) start bits table out in
    let added =
      decode_loop rounds (j + 1) start bits table (xor_blocks out (get_or table col [])) in
    if not (rb_bit bits j) then skipped else if leb (length table) col then out else added

module _ (d : Double) (aes : ℕ → ℕ → ℕ) (hw : ℕ) where
  -- `none` is `return false`.
  unfoldable pub rb_encode :
      List ℕ → List (List ℕ) → RbParams d.Num → Result (Option (List (List ℕ)))
  rb_encode keys values params = if length keys == 0 then ok (some []) else do
    cfg ← rb_info_of d hw (length keys) params
    rows ← rb_rows aes hw keys values cfg.columns cfg.band_width params
    pivots ← forward (length rows) cfg.band_width rows
    elim pivots [
      | none ↦ ok none
      | some ps ↦ do
        table ← back_fill cfg.columns (length (get_or values 0 [])) cfg.band_width ps
        ok (some table)
    ]

  -- The body of the loop of RBDecode.
  unfoldable pub decode_row : List (List ℕ) → List ℕ → ℕ → ℕ → ℕ → RbHashCtx → ℕ → Result (List ℕ)
  decode_row table keys columns val_width band_width ctx i = do
    bits ← rb_row_bits aes (get_or keys i 0) ctx band_width
    let start = rb_start aes (get_or keys i 0) ctx columns band_width
    ok (decode_loop band_width 0 start bits table (replicate val_width 0))

  unfoldable pub rb_decode : List (List ℕ) → List ℕ → RbParams d.Num → Result (List (List ℕ))
  rb_decode table keys params = if length table == 0 then ok [] else do
    let columns = length table
    let val_width = length (get_or table 0 [])
    throw_if (not (params.columns == 0) && not (params.columns == columns))
        (invalid_argument "RBDecode columns mismatch")
    band_width ← rb_table_w d (length keys) columns params
    throw_if (ltb 256 band_width) (invalid_argument "RBDecode width > 256")
    throw_if (ltb columns band_width) (invalid_argument "RBDecode width > columns")
    rb_for hw (length keys) params.multi_thread params.worker_threads
        (decode_row table keys columns val_width band_width (rb_make_hash_ctx params))
        (replicate (length keys) (replicate val_width 0))
