-- ===== src/Okvs/Flat/Tests.antt =====
-- Runs of the flat codec on a toy arithmetic and a toy cipher.
use pq_psi.Base.{
  ℕ, ◌*◌, ◌<◌, ◌≡◌, refl, arith, inr, List, [], ◌∷◌, length, get_or, slice, write, ok, some,
}
use pq_psi.Okvs.Tests.{thousandths, thousandths-Truncates, toy_aes, params, keys, queries}
use pq_psi.Okvs.Bits.{
  word, set_word, clear_words, trim_words, rb_trim_bits, rb_mask_bits, rb_has_bits, rb_ensure_bits,
  rb_bit, ctz_from, ctz64, lead_loop, rb_lead, rb_zero_below, or_word, left_step, left_loop,
  rb_shift_left, right_step, right_loop, rb_shift_right, xor_words, rb_xor_shifted,
}
use pq_psi.Okvs.Parallel.{rb_hw_threads, rb_worker_threads, spawn, rb_for_ranges, indices, visited}
use pq_psi.Okvs.Fit.{
  rb_eps_of, rb_lambda_main, rb_lambda_of, rb_table_size, rb_table_w, rb_check, rb_info_of,
}
use pq_psi.Okvs.Fit.Gap.{
  rb_log2, rb_lerp, rb_approx, segment, interp_loop, rb_interp, measured, or_else, measured_g,
  paper_g, rb_g_of,
}
use pq_psi.Okvs.Rows.{
  rb_make_hash_ctx, xor_blocks, rb_xor, fill, rb_for, rb_hash64, rb_mask256, rb_start, rb_row_bits,
  make_row, insert_row, sort_rows, rb_rows,
}
use pq_psi.Okvs.Codec.{eliminate, forward, sum_loop, back_fill, rb_encode, rb_decode}
use pq_psi.Okvs.Flat.{
  rb_xor_ptr, eliminate_flat, forward_flat, sum_loop_flat, back_fill_flat, fill_rows, rb_for_rows,
  insert_flat_row, sort_flat_rows, make_flat_row, rb_rows_flat, rb_encode_flat, rb_encode_mixed,
  rb_decode_mixed, rb_decode_flat, rb_encode_blocks, rb_decode_blocks,
}
use pq_psi.Okvs.Flat.Fill.{IsFlat, slices, IsFlat-slices}
use pq_psi.Okvs.Flat.Encode.{IsFlatRun, rb_encode_mixed-IsFlatRun, rb_encode_flat-rb_encode_mixed}
use pq_psi.Okvs.Flat.Decode.{IsFlatOut, rb_decode_mixed-rb_decode, rb_decode_flat-IsFlatOut}
use pq_psi.Okvs.Flat.Correct.{rb_decode_flat-rb_encode_flat}
use pq_psi.Okvs.Flat.Blocks.{rb_decode_blocks-rb_encode_blocks}

abbrev values : List ℕ
values = 7 ∷ 1 ∷ 8 ∷ 2 ∷ 9 ∷ 3 ∷ 10 ∷ 4 ∷ []

abbrev rows : List (List ℕ)
rows = slices 2 values 4 0

abbrev table : List ℕ
table = 10 ∷ 4 ∷ 5 ∷ 7 ∷ 8 ∷ 2 ∷ 0 ∷ 0 ∷ 12 ∷ 4 ∷ 0 ∷ 0 ∷ []

abbrev blocks : List ℕ
blocks = 7 ∷ 8 ∷ 9 ∷ 10 ∷ []

abbrev block_table : List ℕ
block_table = 10 ∷ 5 ∷ 8 ∷ 0 ∷ 12 ∷ 0 ∷ []

IsFlat-table : IsFlat 2 (slices 2 table 6 0) table
IsFlat-table = IsFlat-slices 2 6 table refl

runs :
    (rb_encode_flat thousandths toy_aes 4 keys values 2 params ≡ ok (some table))
    × (rb_encode_blocks thousandths toy_aes 4 keys blocks params ≡ ok (some block_table))
unfolding word set_word clear_words trim_words rb_trim_bits rb_mask_bits rb_has_bits rb_ensure_bits
    rb_bit ctz_from ctz64 lead_loop rb_lead rb_zero_below or_word left_step left_loop rb_shift_left
    right_step right_loop rb_shift_right xor_words rb_xor_shifted rb_hw_threads rb_worker_threads
    spawn rb_for_ranges indices visited rb_eps_of rb_lambda_main rb_lambda_of rb_table_size
    rb_table_w rb_check rb_info_of rb_log2 rb_lerp rb_approx segment interp_loop rb_interp measured
    or_else measured_g paper_g rb_g_of rb_make_hash_ctx xor_blocks rb_xor fill rb_for rb_hash64
    rb_mask256 rb_start rb_row_bits make_row insert_row sort_rows rb_rows eliminate forward sum_loop
    back_fill rb_encode slice write rb_xor_ptr eliminate_flat forward_flat sum_loop_flat
    back_fill_flat fill_rows rb_for_rows insert_flat_row sort_flat_rows make_flat_row rb_rows_flat
    rb_encode_flat rb_encode_blocks
runs = (refl, refl)

rb_encode_flat-rb_encode_mixed_example :
    rb_encode_flat thousandths toy_aes 4 keys values 2 params
    ≡ rb_encode_mixed thousandths toy_aes 4 keys rows 2 params
rb_encode_flat-rb_encode_mixed_example =
    rb_encode_flat-rb_encode_mixed thousandths toy_aes 4 keys params rows values 2
      thousandths-Truncates (omega arith) (IsFlat-slices 2 4 values refl) refl

rb_encode_mixed-IsFlatRun_example :
    IsFlatRun 2
      (rb_encode thousandths toy_aes 4 keys rows params)
      (rb_encode_mixed thousandths toy_aes 4 keys rows 2 params)
unfolding slice
rb_encode_mixed-IsFlatRun_example =
    rb_encode_mixed-IsFlatRun thousandths toy_aes 4 keys params rows thousandths-Truncates
      (omega arith)

rb_decode_mixed-rb_decode_example :
    rb_decode_mixed thousandths toy_aes 4 table 2 queries params
    ≡ rb_decode thousandths toy_aes 4 (slices 2 table 6 0) queries params
rb_decode_mixed-rb_decode_example =
    rb_decode_mixed-rb_decode thousandths toy_aes 4 queries params 2 (slices 2 table 6 0) table
      IsFlat-table (omega arith)

rb_decode_flat-IsFlatOut_example :
    IsFlatOut 2
      (rb_decode thousandths toy_aes 4 (slices 2 table 6 0) queries params)
      (rb_decode_flat thousandths toy_aes 4 table 2 queries params)
rb_decode_flat-IsFlatOut_example =
    rb_decode_flat-IsFlatOut thousandths toy_aes 4 queries params 2 (slices 2 table 6 0) table
      IsFlat-table (omega arith)

rb_decode_flat-rb_encode_flat_example :
    (out : List ℕ) × (rb_decode_flat thousandths toy_aes 4 table 2 queries params ≡ ok out)
    × (length out ≡ 8)
    × ((i j : ℕ)
        → i < length keys
        → j < length queries
        → get_or queries j 0 ≡ get_or keys i 0
        → slice 2 out (j * 2) ≡ slice 2 values (i * 2))
rb_decode_flat-rb_encode_flat_example =
    rb_decode_flat-rb_encode_flat thousandths toy_aes 4 keys values 2 params table queries
      thousandths-Truncates (omega arith) refl (runs.0) refl (inr (omega arith))

rb_decode_blocks-rb_encode_blocks_example :
    (out : List ℕ) × (rb_decode_blocks thousandths toy_aes 4 block_table queries params ≡ ok out)
    × (length out ≡ length queries)
    × ((i j : ℕ)
        → i < length keys
        → j < length queries
        → get_or queries j 0 ≡ get_or keys i 0
        → get_or out j 0 ≡ get_or blocks i 0)
rb_decode_blocks-rb_encode_blocks_example =
    rb_decode_blocks-rb_encode_blocks thousandths toy_aes 4 keys blocks params block_table queries
      thousandths-Truncates (runs.1) refl (inr (omega arith))
