-- ===== src/Okvs/Flat.antt =====
-- frontend/okvs/rb/rows.h and codec.h: RBRowsFlat and the overloads of RBEncode and RBDecode on
-- flat arrays, in which row `i` of width `w` is the slice from `i * w` on.
pub mod Slots
pub mod Elim
pub mod Fill
pub mod Solve
pub mod Made
pub mod Encode
pub mod Decode
pub mod Correct
pub mod Blocks
mod Tests
use pq_psi.Base.{
  ℕ, zero, suc, ◌+◌, ◌-◌, ◌*◌, ◌/◌, ◌%◌, Bool, true, false, not, ◌&&◌, ◌||◌, ◌==◌, ltb, leb,
  if◌then◌else◌, List, [], ◌∷◌, map, length, get_or, set, replicate, slice, write, Option, none,
  some, Result, ok, err, invalid_argument, ◌>>=◌, ◌>>◌, throw_if,
}
use mathlib.Core.Option
use pq_psi.Okvs.Bits.{RbBits, no_bits, rb_bit, rb_lead, rb_xor_shifted}
use pq_psi.Okvs.Double.{Double}
use pq_psi.Okvs.Params.{RbParams}
use pq_psi.Okvs.Parallel.{visited, rb_for_ranges}
use pq_psi.Okvs.Fit.{rb_info_of, rb_table_w}
use pq_psi.Okvs.Rows.{
  RbRow, RbHashCtx, rb_make_hash_ctx, xor_blocks, rb_for, rb_start, rb_row_bits, rb_rows,
}
use pq_psi.Okvs.Codec.{Pivoted, forward, rb_encode, rb_decode}

-- A row whose right-hand side is a slice of a shared array.
pub record RbFlatRow : Type 0 where
  pub start : ℕ
  pub bits : RbBits
  pub rhs : ℕ

-- RBXor on a vector and a slice
unfoldable pub rb_xor_ptr : List ℕ → List ℕ → ℕ → Result (List ℕ)
rb_xor_ptr a b n = do
  throw_if (not (length a == n)) (invalid_argument "RBXor ptr size mismatch")
  ok (xor_blocks a b)

pub record FlatPivoted : Type 0 where
  pub row : RbFlatRow
  pub pivot : ℕ

-- The inner loop of the elimination: the rows after `row`, and the array of right-hand sides.
unfoldable pub eliminate_flat :
    ℕ → RbFlatRow → ℕ → ℕ → ℕ → List RbFlatRow → List ℕ → Result (List RbFlatRow × List ℕ)
eliminate_flat w row lead pivot band_width [] rhs = ok ([], rhs)
eliminate_flat w row lead pivot band_width (r ∷ rs) rhs =
    let off = pivot - r.start in
    let rhs' = write rhs r.rhs (xor_blocks (slice w rhs r.rhs) (slice w rhs row.rhs)) in
    let skipped : Result (List RbFlatRow × List ℕ) = do
      rest ← eliminate_flat w row lead pivot band_width rs rhs
      ok (r ∷ rest.0, rest.1)
    in let added : Result (List RbFlatRow × List ℕ) = do
      bits ← rb_xor_shifted r.bits off row.bits lead band_width
      rest ← eliminate_flat w row lead pivot band_width rs rhs'
      ok (record r { bits = bits } ∷ rest.0, rest.1)
      in if ltb pivot r.start
        then ok (r ∷ rs, rhs)
        else if leb band_width off || not (rb_bit r.bits off)
        then skipped
        else added

-- The outer loop; `none` is `return false`.
unfoldable pub forward_flat :
    ℕ → ℕ → ℕ → List RbFlatRow → List ℕ → Result (Option (List FlatPivoted × List ℕ))
forward_flat w rounds band_width [] rhs = ok (some ([], rhs))
forward_flat w zero band_width (r ∷ rs) rhs = ok (some ([], rhs))
forward_flat w (suc rounds) band_width (r ∷ rs) rhs =
    let lead = rb_lead r.bits band_width in
    let p : FlatPivoted = record { row = r; pivot = r.start + lead } in
    let step : Result (Option (List FlatPivoted × List ℕ)) = do
      next ← eliminate_flat w r lead (r.start + lead) band_width rs rhs
      rest ← forward_flat w rounds band_width next.0 next.1
      ok (Option.map (λ x. (p ∷ x.0, x.1)) rest)
    in if lead == band_width then ok none else step

-- The loop over `j` that adds the known columns of a flat table to `sum`.
unfoldable pub sum_loop_flat : ℕ → ℕ → ℕ → RbBits → ℕ → ℕ → List ℕ → List ℕ → Result (List ℕ)
sum_loop_flat w zero j bits start pivot table sum = ok sum
sum_loop_flat w (suc rounds) j bits start pivot table sum =
    let col = start + j in
    let skip = not (rb_bit bits j) || (col == pivot) in
    do
      sum' ← if skip then ok sum else rb_xor_ptr sum (slice w table (col * w)) w
      sum_loop_flat w rounds (j + 1) bits start pivot table sum'

-- The back fill of a flat table, from the last row to the first.
unfoldable pub back_fill_mixed : ℕ → ℕ → ℕ → List Pivoted → Result (List ℕ)
back_fill_mixed w columns band_width [] = ok (replicate (columns * w) 0)
back_fill_mixed w columns band_width (p ∷ ps) = do
  table ← back_fill_mixed w columns band_width ps
  sum ← sum_loop_flat w band_width 0 p.row.bits p.row.start p.pivot table p.row.rhs
  ok (write table (p.pivot * w) sum)

unfoldable pub back_fill_flat : ℕ → ℕ → ℕ → List FlatPivoted → List ℕ → Result (List ℕ)
back_fill_flat w columns band_width [] rhs = ok (replicate (columns * w) 0)
back_fill_flat w columns band_width (p ∷ ps) rhs = do
  table ← back_fill_flat w columns band_width ps rhs
  sum ← sum_loop_flat w band_width 0 p.row.bits p.row.start p.pivot table (slice w rhs p.row.rhs)
  ok (write table (p.pivot * w) sum)

-- The loop over `j` of RBDecode on a flat table of `columns` rows.
unfoldable pub decode_loop_flat : ℕ → ℕ → ℕ → ℕ → RbBits → ℕ → List ℕ → List ℕ → List ℕ
decode_loop_flat w zero j start bits columns table out = out
decode_loop_flat w (suc rounds) j start bits columns table out =
    let col = start + j in
    let skipped = decode_loop_flat w rounds (j + 1) start bits columns table out in
    let added =
      decode_loop_flat w rounds (j + 1) start bits columns table
        (xor_blocks out (slice w table (col * w))) in
    if not (rb_bit bits j) then skipped else if leb columns col then out else added

-- for each index visited, row `i` of a flat array is updated in place
unfoldable pub fill_rows : ℕ → List ℕ → (ℕ → List ℕ → Result (List ℕ)) → List ℕ → Result (List ℕ)
fill_rows w [] f out = ok out
fill_rows w (i ∷ is) f out = do
  row ← f i (slice w out (i * w))
  fill_rows w is f (write out (i * w) row)

-- RBFor over `n` rows of a flat array
unfoldable pub rb_for_rows :
    ℕ → ℕ → ℕ → Bool → ℕ → (ℕ → List ℕ → Result (List ℕ)) → List ℕ → Result (List ℕ)
rb_for_rows w hw n multi_thread worker_threads f out =
    fill_rows w (visited (rb_for_ranges hw n multi_thread worker_threads)) f out

abbrev pub no_flat_row : RbFlatRow
no_flat_row = record { start = 0; bits = no_bits; rhs = 0 }

-- std::stable_sort by `start`
unfoldable pub insert_flat_row : RbFlatRow → List RbFlatRow → List RbFlatRow
insert_flat_row r [] = r ∷ []
insert_flat_row r (x ∷ xs) = if leb r.start x.start then r ∷ x ∷ xs else x ∷ insert_flat_row r xs

unfoldable pub sort_flat_rows : List RbFlatRow → List RbFlatRow
sort_flat_rows [] = []
sort_flat_rows (r ∷ rs) = insert_flat_row r (sort_flat_rows rs)

module _ (aes : ℕ → ℕ → ℕ) where
  -- The body of the loop of RBRowsFlat that makes row `i`.
  unfoldable pub make_flat_row : List ℕ → ℕ → ℕ → ℕ → RbHashCtx → ℕ → Result RbFlatRow
  make_flat_row keys w columns band_width ctx i = do
    bits ← rb_row_bits aes (get_or keys i 0) ctx band_width
    ok (record {
      start = rb_start aes (get_or keys i 0) ctx columns band_width;
      bits = bits;
      rhs = i * w;
    })

  -- The rows and their right-hand sides. The loop fills both arrays; each is a run of its own.
  unfoldable pub rb_rows_flat :
      {Num : Type 0}
      → ℕ
      → List ℕ
      → List ℕ
      → ℕ
      → ℕ
      → ℕ
      → RbParams Num
      → Result (List RbFlatRow × List ℕ)
  rb_rows_flat hw keys values w columns band_width params = do
    throw_if (w == 0) (invalid_argument "RBRowsFlat empty row")
    throw_if (not (length values == length keys * w))
        (invalid_argument "RBRowsFlat key/value mismatch")
    if length keys == 0 then ok ([], []) else (do
      throw_if (ltb columns band_width) (invalid_argument "RBRowsFlat columns < bandWidth")
      rows ←
          rb_for hw (length keys) params.multi_thread params.worker_threads
            (make_flat_row keys w columns band_width (rb_make_hash_ctx params))
            (replicate (length keys) no_flat_row)
      rhs ←
          rb_for_rows w hw (length keys) params.multi_thread params.worker_threads
            (λ i row. ok (slice w values (i * w))) (replicate (length values) 0)
      ok (sort_flat_rows rows, rhs))

module _ (d : Double) (aes : ℕ → ℕ → ℕ) (hw : ℕ) where
  -- Rows of blocks to a flat table.
  pub rb_encode_mixed : List ℕ → List (List ℕ) → ℕ → RbParams d.Num → Result (Option (List ℕ))
  rb_encode_mixed keys values w params = if length keys == 0 then ok (some []) else do
    throw_if (length values == 0 || not (length (get_or values 0 []) == w))
        (invalid_argument "RBEncode flat row width mismatch")
    cfg ← rb_info_of d hw (length keys) params
    rows ← rb_rows aes hw keys values cfg.columns cfg.band_width params
    pivots ← forward (length rows) cfg.band_width rows
    elim pivots [
      | none ↦ ok none
      | some ps ↦ do table ← back_fill_mixed w cfg.columns cfg.band_width ps; ok (some table)
    ]

  -- A flat array of rows to a flat table.
  unfoldable pub rb_encode_flat : List ℕ → List ℕ → ℕ → RbParams d.Num → Result (Option (List ℕ))
  rb_encode_flat keys values w params = if length keys == 0 then ok (some []) else do
    throw_if (w == 0 || not (length values == length keys * w))
        (invalid_argument "RBEncode flat values mismatch")
    cfg ← rb_info_of d hw (length keys) params
    rows ← rb_rows_flat aes hw keys values w cfg.columns cfg.band_width params
    pivots ← forward_flat w (length (rows.0)) cfg.band_width (rows.0) (rows.1)
    elim pivots [
      | none ↦ ok none
      | some ps ↦ do
        table ← back_fill_flat w cfg.columns cfg.band_width (ps.0) (ps.1)
        ok (some table)
    ]

  -- The body of the loops of both RBDecode on a flat table, from row `out` on.
  unfoldable pub decode_row_flat :
      List ℕ → ℕ → List ℕ → ℕ → ℕ → RbHashCtx → ℕ → List ℕ → Result (List ℕ)
  decode_row_flat table w keys columns band_width ctx i out = do
    bits ← rb_row_bits aes (get_or keys i 0) ctx band_width
    let start = rb_start aes (get_or keys i 0) ctx columns band_width
    ok (decode_loop_flat w band_width 0 start bits columns table out)

  -- The checks of both, up to the band width.
  unfoldable pub flat_band_width : List ℕ → ℕ → ℕ → RbParams d.Num → Result ℕ
  flat_band_width table w n params = do
    throw_if (w == 0 || not (length table % w == 0))
        (invalid_argument "RBDecode flat table size mismatch")
    throw_if (not (params.columns == 0) && not (params.columns == length table / w))
        (invalid_argument "RBDecode columns mismatch")
    band_width ← rb_table_w d n (length table / w) params
    throw_if (ltb 256 band_width) (invalid_argument "RBDecode width > 256")
    throw_if (ltb (length table / w) band_width) (invalid_argument "RBDecode width > columns")
    ok band_width

  -- A flat table to rows of blocks.
  pub rb_decode_mixed : List ℕ → ℕ → List ℕ → RbParams d.Num → Result (List (List ℕ))
  rb_decode_mixed table w keys params = if length table == 0 then ok [] else do
    band_width ← flat_band_width table w (length keys) params
    rb_for hw (length keys) params.multi_thread params.worker_threads
        (λ i.
          decode_row_flat table w keys (length table / w) band_width (rb_make_hash_ctx params) i
            (replicate w 0))
        (replicate (length keys) (replicate w 0))

  -- A flat table to a flat array of rows.
  unfoldable pub rb_decode_flat : List ℕ → ℕ → List ℕ → RbParams d.Num → Result (List ℕ)
  rb_decode_flat table w keys params = if length table == 0 then ok [] else do
    band_width ← flat_band_width table w (length keys) params
    rb_for_rows w hw (length keys) params.multi_thread params.worker_threads
        (decode_row_flat table w keys (length table / w) band_width (rb_make_hash_ctx params))
        (replicate (length keys * w) 0)

  -- One block for each key.
  unfoldable pub rb_encode_blocks : List ℕ → List ℕ → RbParams d.Num → Result (Option (List ℕ))
  rb_encode_blocks keys values params = do
    throw_if (not (length keys == length values)) (invalid_argument "RBEncode 1D mismatch")
    table ← rb_encode d aes hw keys (map (λ v. v ∷ []) values) params
    ok (Option.map (map (λ row. get_or row 0 0)) table)

  pub rb_decode_blocks : List ℕ → List ℕ → RbParams d.Num → Result (List ℕ)
  rb_decode_blocks table keys params = do
    rows ← rb_decode d aes hw (map (λ v. v ∷ []) table) keys params
    ok (map (λ row. get_or row 0 0) rows)
