-- ===== src/Psi/RunTests.antt =====
-- A run of the two parties with ML-KEM, with toy libraries.
use pq_psi.Base.{
  Option, Result, err, ◌++◌, ℕ, ◌≤◌, ◌≡◌, refl, arith, inr, true, List, [], ◌∷◌, get_or, slice,
  write, some, ok,
}
use pq_psi.Okvs.Tests.{thousandths, thousandths-Truncates, toy_aes, params, keys}
use pq_psi.Okvs.Bits.{
  word, set_word, clear_words, trim_words, rb_trim_bits, rb_mask_bits, rb_has_bits, rb_ensure_bits,
  rb_bit, ctz_from, ctz64, lead_loop, rb_lead, rb_zero_below, or_word, left_step, left_loop,
  rb_shift_left, right_step, right_loop, rb_shift_right, xor_words, rb_xor_shifted,
}
use pq_psi.Okvs.Parallel.{rb_hw_threads, rb_worker_threads, spawn, rb_for_ranges, indices, visited}
use pq_psi.Okvs.Fit.{
  rb_eps_of, rb_lambda_main, rb_lambda_of, rb_table_size, rb_table_w, rb_check, rb_info_of,
}
use pq_psi.Okvs.Fit.Gap.{
  rb_log2, rb_lerp, rb_approx, segment, interp_loop, rb_interp, measured, or_else, measured_g,
  paper_g, rb_g_of,
}
use pq_psi.Okvs.Rows.{
  rb_make_hash_ctx, xor_blocks, fill, rb_for, rb_hash64, rb_mask256, rb_start, rb_row_bits,
}
use pq_psi.Okvs.Flat.{
  rb_xor_ptr, eliminate_flat, forward_flat, sum_loop_flat, back_fill_flat, decode_loop_flat,
  fill_rows, rb_for_rows, insert_flat_row, sort_flat_rows, make_flat_row, rb_rows_flat,
  rb_encode_flat, decode_row_flat, flat_band_width, rb_decode_flat,
}
use pq_psi.Psi.Workers.{
  worker_limit, worker_count, start_workers, parallel_for, run_rows, run_rows_caught, end_threads,
}
use pq_psi.Psi.Rows.{bytes_of, blocks_of, permute, mask_loop, fill_mask, xor_mask, precompute_masks}
use pq_psi.Psi.Protocol.{Kem, Setup, recv_rows, send_rows, psi}
use pq_psi.Perm.Bytes.{store, load, kem_key_block_size}
use pq_psi.Kem.Kemeleon.{
  trim_len, bit_len, from_digits, mask_back, encode_vec, unpack_triples, unpack_poly_bytes,
  key_high_mask, fill_key_high_bits, encode_key, clear_key_high_bits, decode_key, to_digits,
  pack_pairs, pack_poly_bytes, decode_vec,
}
use pq_psi.Kem.Tests.{toy_gmp, toy_gmp-IsGmp, small_info, small_info-IsInfo}
use pq_psi.Psi.KemRows.{
  seed_loop, fill_ml_kem_key_seed, attempt_key, try_keys, padded_row, gen_row, join_rows,
  gen_ml_kem_keys, encap_row, encap_ml_kem,
}
use pq_psi.Psi.KemRows.Interface.{ml_kem_rows}
use pq_psi.Psi.KemRows.Run.{psi-complete_ml_kem}
use pq_psi.Psi.Workers.{run_for, run_for_caught}
use pq_psi.Psi.Tests.{same_bytes, same_bytes-IsPerm}
use pq_psi.Psi.KemTests.{fixed_kem, fixed_kem-IsMlKem, fixed_kem-Agrees, no_random, key_row}

-- A run of the two parties.
abbrev two_keys : List ℕ
two_keys = 101 ∷ 202 ∷ []

abbrev two_peers : List ℕ
two_peers = 202 ∷ 303 ∷ []

abbrev wide : Setup ℕ
wide = record {
  table_size = 6;
  row_size = kem_key_block_size;
  multi_thread = true;
  worker_threads = 2;
  rb = params;
  bob_pi = true;
}

abbrev fixed_rows : Kem
fixed_rows =
    ml_kem_rows toy_gmp (λ key. 255) small_info fixed_kem no_random true (λ i. i ∷ []) 4 true 2

abbrev table_of : Result (Option (List ℕ)) → List ℕ
table_of (ok (some table)) = table
table_of _ = []

abbrev mask_rows : List ℕ → List ℕ
mask_rows keys =
    fill_mask toy_aes (get_or keys 0 0) kem_key_block_size
    ++ fill_mask toy_aes (get_or keys 1 0) kem_key_block_size

abbrev key_rows : List ℕ → List ℕ
key_rows keys = xor_mask (mask_rows keys) (key_row ++ key_row)

abbrev table1 : List ℕ
table1 =
    table_of
      (rb_encode_flat thousandths toy_aes 4 two_keys (key_rows two_keys) kem_key_block_size params)

abbrev rows_of : Result (List ℕ) → List ℕ
rows_of (ok rows) = rows
rows_of (err thrown) = []

abbrev sent : List ℕ
sent =
    rows_of (send_rows thousandths toy_aes 4 fixed_rows wide same_bytes same_bytes two_peers table1)

abbrev table2 : List ℕ
table2 = table_of (rb_encode_flat thousandths toy_aes 4 two_peers sent kem_key_block_size params)

first_run :
    recv_rows thousandths toy_aes 4 fixed_rows wide same_bytes two_keys
    ≡ ok ((9 ∷ []) ∷ (9 ∷ []) ∷ [], mask_rows two_keys, key_rows two_keys)
unfolding word set_word clear_words trim_words rb_trim_bits rb_mask_bits rb_has_bits rb_ensure_bits
    rb_bit ctz_from ctz64 lead_loop rb_lead rb_zero_below or_word left_step left_loop rb_shift_left
    right_step right_loop rb_shift_right xor_words rb_xor_shifted rb_hw_threads rb_worker_threads
    spawn rb_for_ranges indices visited rb_eps_of rb_lambda_main rb_lambda_of rb_table_size
    rb_table_w rb_check rb_info_of rb_log2 rb_lerp rb_approx segment interp_loop rb_interp measured
    or_else measured_g paper_g rb_g_of rb_make_hash_ctx xor_blocks fill rb_for rb_hash64 rb_mask256
    rb_start rb_row_bits slice write rb_xor_ptr eliminate_flat forward_flat sum_loop_flat
    back_fill_flat fill_rows rb_for_rows insert_flat_row sort_flat_rows make_flat_row rb_rows_flat
    rb_encode_flat decode_loop_flat decode_row_flat flat_band_width rb_decode_flat worker_limit
    worker_count start_workers parallel_for run_rows run_rows_caught end_threads precompute_masks
    fill_mask mask_loop permute bytes_of blocks_of store load xor_mask send_rows gen_ml_kem_keys
    run_for run_for_caught join_rows recv_rows gen_row padded_row trim_len bit_len from_digits
    mask_back encode_vec unpack_triples unpack_poly_bytes key_high_mask fill_key_high_bits
    encode_key seed_loop fill_ml_kem_key_seed attempt_key try_keys encap_ml_kem encap_row decode_key
    clear_key_high_bits decode_vec to_digits pack_pairs pack_poly_bytes
first_run = refl

tables_run :
    (rb_encode_flat thousandths toy_aes 4 two_keys (key_rows two_keys) kem_key_block_size params
      ≡ ok (some table1))
    × (rb_encode_flat thousandths toy_aes 4 two_peers sent kem_key_block_size params
        ≡ ok (some table2))
unfolding word set_word clear_words trim_words rb_trim_bits rb_mask_bits rb_has_bits rb_ensure_bits
    rb_bit ctz_from ctz64 lead_loop rb_lead rb_zero_below or_word left_step left_loop rb_shift_left
    right_step right_loop rb_shift_right xor_words rb_xor_shifted rb_hw_threads rb_worker_threads
    spawn rb_for_ranges indices visited rb_eps_of rb_lambda_main rb_lambda_of rb_table_size
    rb_table_w rb_check rb_info_of rb_log2 rb_lerp rb_approx segment interp_loop rb_interp measured
    or_else measured_g paper_g rb_g_of rb_make_hash_ctx xor_blocks fill rb_for rb_hash64 rb_mask256
    rb_start rb_row_bits slice write rb_xor_ptr eliminate_flat forward_flat sum_loop_flat
    back_fill_flat fill_rows rb_for_rows insert_flat_row sort_flat_rows make_flat_row rb_rows_flat
    rb_encode_flat decode_loop_flat decode_row_flat flat_band_width rb_decode_flat worker_limit
    worker_count start_workers parallel_for run_rows run_rows_caught end_threads precompute_masks
    fill_mask mask_loop permute bytes_of blocks_of store load xor_mask send_rows gen_ml_kem_keys
    run_for run_for_caught join_rows recv_rows gen_row padded_row trim_len bit_len from_digits
    mask_back encode_vec unpack_triples unpack_poly_bytes key_high_mask fill_key_high_bits
    encode_key seed_loop fill_ml_kem_key_seed attempt_key try_keys encap_ml_kem encap_row decode_key
    clear_key_high_bits decode_vec to_digits pack_pairs pack_poly_bytes
tables_run = (refl, refl)

second_run :
    send_rows thousandths toy_aes 4 fixed_rows wide same_bytes same_bytes two_peers table1 ≡ ok sent
unfolding word set_word clear_words trim_words rb_trim_bits rb_mask_bits rb_has_bits rb_ensure_bits
    rb_bit ctz_from ctz64 lead_loop rb_lead rb_zero_below or_word left_step left_loop rb_shift_left
    right_step right_loop rb_shift_right xor_words rb_xor_shifted rb_hw_threads rb_worker_threads
    spawn rb_for_ranges indices visited rb_eps_of rb_lambda_main rb_lambda_of rb_table_size
    rb_table_w rb_check rb_info_of rb_log2 rb_lerp rb_approx segment interp_loop rb_interp measured
    or_else measured_g paper_g rb_g_of rb_make_hash_ctx xor_blocks fill rb_for rb_hash64 rb_mask256
    rb_start rb_row_bits slice write rb_xor_ptr eliminate_flat forward_flat sum_loop_flat
    back_fill_flat fill_rows rb_for_rows insert_flat_row sort_flat_rows make_flat_row rb_rows_flat
    rb_encode_flat decode_loop_flat decode_row_flat flat_band_width rb_decode_flat worker_limit
    worker_count start_workers parallel_for run_rows run_rows_caught end_threads precompute_masks
    fill_mask mask_loop permute bytes_of blocks_of store load xor_mask send_rows gen_ml_kem_keys
    run_for run_for_caught join_rows recv_rows gen_row padded_row trim_len bit_len from_digits
    mask_back encode_vec unpack_triples unpack_poly_bytes key_high_mask fill_key_high_bits
    encode_key seed_loop fill_ml_kem_key_seed attempt_key try_keys encap_ml_kem encap_row decode_key
    clear_key_high_bits decode_vec to_digits pack_pairs pack_poly_bytes
second_run = refl

psi-complete_ml_kem_example :
    (hits : ℕ) × (psi thousandths toy_aes 4 fixed_rows wide same_bytes same_bytes two_keys two_peers
      ≡ ok hits)
    × (1 ≤ hits)
    × (hits ≤ 2)
psi-complete_ml_kem_example =
    psi-complete_ml_kem thousandths toy_aes 4 toy_gmp (λ key. 255) small_info fixed_kem no_random
      true (λ i. i ∷ []) wide same_bytes same_bytes two_keys two_peers ((9 ∷ []) ∷ (9 ∷ []) ∷ [])
      (mask_rows two_keys) (key_rows two_keys) table1 sent table2 toy_gmp-IsGmp small_info-IsInfo
      fixed_kem-IsMlKem
      (λ i j t. fixed_kem-Agrees (fill_ml_kem_key_seed no_random i t true) (j ∷ [])) refl
      thousandths-Truncates (same_bytes-IsPerm 800) (same_bytes-IsPerm 800) refl (inr (omega arith))
      first_run (tables_run.0) second_run (tables_run.1)
