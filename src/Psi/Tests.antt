-- ===== src/Psi/Tests.antt =====
-- Runs of the protocol with a toy cipher, a KEM of one key and permutations that change nothing.
use pq_psi.Base.{
  ℕ, zero, suc, ◌*◌, ◌%◌, ◌≤◌, ◌<◌, ◌≡◌, refl, sym, ◌∙◌, arith, inr, Bool, true, ◌==◌, List, [],
  ◌∷◌, length, get_or, slice, write, replicate, length-replicate, some, ok, ok-injective, subst,
}
use pq_psi.Perm.Bytes.{store, load}
use pq_psi.Okvs.Tests.{thousandths, thousandths-Truncates, toy_aes, params, keys}
use pq_psi.Okvs.Bits.{
  word, set_word, clear_words, trim_words, rb_trim_bits, rb_mask_bits, rb_has_bits, rb_ensure_bits,
  rb_bit, ctz_from, ctz64, lead_loop, rb_lead, rb_zero_below, or_word, left_step, left_loop,
  rb_shift_left, right_step, right_loop, rb_shift_right, xor_words, rb_xor_shifted,
}
use pq_psi.Okvs.Parallel.{rb_hw_threads, rb_worker_threads, spawn, rb_for_ranges, indices, visited}
use pq_psi.Okvs.Fit.{
  rb_eps_of, rb_lambda_main, rb_lambda_of, rb_table_size, rb_table_w, rb_check, rb_info_of,
}
use pq_psi.Okvs.Fit.Gap.{
  rb_log2, rb_lerp, rb_approx, segment, interp_loop, rb_interp, measured, or_else, measured_g,
  paper_g, rb_g_of,
}
use pq_psi.Okvs.Rows.{
  rb_make_hash_ctx, xor_blocks, fill, rb_for, rb_hash64, rb_mask256, rb_start, rb_row_bits,
}
use pq_psi.Okvs.Flat.{
  rb_xor_ptr, eliminate_flat, forward_flat, sum_loop_flat, back_fill_flat, decode_loop_flat,
  fill_rows, rb_for_rows, insert_flat_row, sort_flat_rows, make_flat_row, rb_rows_flat,
  rb_encode_flat, decode_row_flat, flat_band_width, rb_decode_flat,
}
use pq_psi.Okvs.Flat.Fill.{slot_fits, slice-replicate}
use pq_psi.Psi.Workers.{
  worker_limit, worker_count, start_workers, parallel_for, run_rows, run_rows_caught, end_threads,
}
use pq_psi.Psi.Workers.Cover.{parallel_for-visits}
use pq_psi.Psi.Count.{count_loop, count_tests}
use pq_psi.Psi.Count.Partial.{count_tests-count_loop}
use pq_psi.Psi.Net.{chunks, send, recv}
use pq_psi.Psi.Net.Transfer.{Tiles, chunks-Tiles, recv-send}
use pq_psi.Psi.Rows.{bytes_of, blocks_of, permute, mask_loop, fill_mask, xor_mask, precompute_masks}
use pq_psi.Psi.Rows.Memory.{AllBlocks}
use pq_psi.Psi.Rows.Undo.{IsPerm}
use pq_psi.Psi.Protocol.{Perm, Kem, Setup, recv_rows, send_rows, psi}
use pq_psi.Psi.Protocol.Stages.{IsKem}
use pq_psi.Psi.Protocol.Complete.{psi_complete}

parallel_for-visits_example : visited (parallel_for 8 1000 16 true 3) ≡ indices 1000 0
parallel_for-visits_example = parallel_for-visits 8 1000 16 true 3

abbrev is_even : ℕ → Bool
is_even i = i % 2 == 0

count_tests-count_loop_example :
    count_tests 8 1000 true 3 is_even ≡ ok (count_loop is_even 1000 0 0)
count_tests-count_loop_example = count_tests-count_loop is_even 8 1000 true 3

chunks-Tiles_example : Tiles 0 20000 (chunks 20000 3)
chunks-Tiles_example = chunks-Tiles 20000 3 (omega arith)

recv-send_example :
    recv true 4 (send true 4 (replicate 20000 7)) (replicate 20000 0) ≡ replicate 20000 7
recv-send_example =
    recv-send true 4 (replicate 20000 7) (replicate 20000 0) (length-zeros ∙ sym length-sevens)
  where
    length-zeros : length (replicate {A = ℕ} 20000 0) ≡ 20000
    length-zeros = length-replicate 20000 zero

    length-sevens : length (replicate {A = ℕ} 20000 7) ≡ 20000
    length-sevens = length-replicate 20000 (suc (suc (suc (suc (suc (suc (suc zero)))))))

abbrev pub same_bytes : Perm
same_bytes = record { encrypt = λ row. ok row; decrypt = λ row. ok row }

pub same_bytes-IsPerm : (n : ℕ) → IsPerm same_bytes.encrypt same_bytes.decrypt n
same_bytes-IsPerm n = record {
  undoes = λ row size all. (row, refl, size, all, refl);
  returns = λ row size all. (row, refl);
}

-- One key, one cipher text.
abbrev one_key : Kem
one_key = record {
  Secret = ℕ;
  gen_rows = λ n w. ok (replicate n 9, replicate (n * w) 0);
  encap_rows = λ rows w. ok (replicate (length rows) 0);
  count_hits = λ multi_thread worker_threads secrets rows w.
      count_tests 4 (length secrets) multi_thread worker_threads
        (λ i. get_or (slice w rows (i * w)) 0 0 == 0);
}

AllBlocks-zeros : (n : ℕ) → AllBlocks (replicate n 0)
AllBlocks-zeros zero = tt
AllBlocks-zeros (suc n) = (omega arith, AllBlocks-zeros n)

AllBlocks-slot : (n w i : ℕ) → i < n → AllBlocks (slice w (replicate (n * w) 0) (i * w))
AllBlocks-slot n w i h =
    rw (slice-replicate w (n * w) (i * w) (slot_fits w i n h)) (AllBlocks-zeros w)

get_or-zeros : (w : ℕ) → get_or {A = ℕ} (replicate w 0) 0 0 ≡ 0
get_or-zeros zero = refl
get_or-zeros (suc w) = refl

zeros_at : (n w i : ℕ) → i < n → get_or (slice w (replicate (n * w) 0) (i * w)) 0 0 ≡ 0
zeros_at n w i h = rw (slice-replicate w (n * w) (i * w) (slot_fits w i n h)) (get_or-zeros w)

one_key-generated :
    (w n : ℕ) (secrets pk : List ℕ)
    → one_key.gen_rows n w ≡ ok (secrets, pk)
    → (length secrets ≡ n)
      × (length pk ≡ n * w)
      × ((i : ℕ) → i < n → AllBlocks (slice w pk (i * w)))
one_key-generated w n secrets pk h =
    let nine : ℕ = 9 in
    subst
      (λ (p : List ℕ × List ℕ).
        (length p.0 ≡ n)
        × (length p.1 ≡ n * w)
        × ((i : ℕ) → i < n → AllBlocks (slice w (p.1) (i * w))))
      (ok-injective h)
      (length-replicate n nine, length-replicate (n * w) zero, λ i l. AllBlocks-slot n w i l)

one_key-sealed :
    (w m : ℕ) (rows ct : List ℕ)
    → length rows ≡ m * w
    → one_key.encap_rows rows w ≡ ok ct
    → (length ct ≡ m * w)
      × ((j : ℕ) → j < m → AllBlocks (slice w ct (j * w)) × (get_or (slice w ct (j * w)) 0 0 ≡ 0))
one_key-sealed w m rows ct size h =
    let made : replicate (length rows) 0 ≡ ct = ok-injective h in
    rw (← made, size)
      (length-replicate (m * w) zero, λ j l. (AllBlocks-slot m w j l, zeros_at m w j l))

one_key-IsKem : (w : ℕ) → IsKem one_key w
one_key-IsKem w = record {
  hit = λ secret row. get_or row 0 0 == 0;
  no_secret = 9;
  generated = one_key-generated w;
  sealed = λ m rows ct size h.
      let (width, each) = one_key-sealed w m rows ct size h in (width, λ j l. (each j l).0);
  opened = λ n m secrets pk rows ct i j gen size h hi hj same.
      let (width, each) = one_key-sealed w m rows ct size h in rw ((each j hj).1) refl;
  counted = λ multi_thread worker_threads secrets rows size.
      count_tests-count_loop (λ i. get_or (slice w rows (i * w)) 0 0 == 0) 4 (length secrets)
        multi_thread worker_threads;
}

abbrev ctx : Setup ℕ
ctx = record {
  table_size = 6;
  row_size = 1;
  multi_thread = true;
  worker_threads = 2;
  rb = params;
  bob_pi = true;
}

abbrev peer_keys : List ℕ
peer_keys = 303 ∷ 505 ∷ 101 ∷ 606 ∷ []

abbrev rows1 : List ℕ
rows1 = toy_aes 101 1 ∷ toy_aes 202 1 ∷ toy_aes 303 1 ∷ toy_aes 404 1 ∷ []

first :
    recv_rows thousandths toy_aes 4 one_key ctx same_bytes keys
    ≡ ok (9 ∷ 9 ∷ 9 ∷ 9 ∷ [], rows1, rows1)
unfolding worker_limit worker_count start_workers parallel_for run_rows run_rows_caught end_threads
    fill_rows visited indices slice write precompute_masks fill_mask mask_loop permute bytes_of
    blocks_of store load xor_mask xor_blocks recv_rows
first = refl

abbrev okvs1 : List ℕ
okvs1 =
    74092769956587057951569575895142124896 ∷ 160241019355118938102828466343862159739
    ∷ 117094600207117614276187544177616077824 ∷ 0 ∷ 409734108690848412158427264787919606 ∷ 0 ∷ []

abbrev rows2 : List ℕ
rows2 = toy_aes 303 1 ∷ toy_aes 505 1 ∷ toy_aes 101 1 ∷ toy_aes 606 1 ∷ []

abbrev okvs2 : List ℕ
okvs2 =
    63402893834965253020603833401833388089 ∷ 30987312885046514266229763099732377600
    ∷ 85518334508418931830838052696151376815 ∷ 148272957048229216280585122106444118925 ∷ 0 ∷ 0 ∷ []

tables :
    (rb_encode_flat thousandths toy_aes 4 keys rows1 1 params ≡ ok (some okvs1))
    × (rb_encode_flat thousandths toy_aes 4 peer_keys rows2 1 params ≡ ok (some okvs2))
unfolding word set_word clear_words trim_words rb_trim_bits rb_mask_bits rb_has_bits rb_ensure_bits
    rb_bit ctz_from ctz64 lead_loop rb_lead rb_zero_below or_word left_step left_loop rb_shift_left
    right_step right_loop rb_shift_right xor_words rb_xor_shifted rb_hw_threads rb_worker_threads
    spawn rb_for_ranges indices visited rb_eps_of rb_lambda_main rb_lambda_of rb_table_size
    rb_table_w rb_check rb_info_of rb_log2 rb_lerp rb_approx segment interp_loop rb_interp measured
    or_else measured_g paper_g rb_g_of rb_make_hash_ctx xor_blocks fill rb_for rb_hash64 rb_mask256
    rb_start rb_row_bits slice write rb_xor_ptr eliminate_flat forward_flat sum_loop_flat
    back_fill_flat fill_rows rb_for_rows insert_flat_row sort_flat_rows make_flat_row rb_rows_flat
    rb_encode_flat
tables = (refl, refl)

second :
    send_rows thousandths toy_aes 4 one_key ctx same_bytes same_bytes peer_keys okvs1 ≡ ok rows2
unfolding word set_word clear_words trim_words rb_trim_bits rb_mask_bits rb_has_bits rb_ensure_bits
    rb_bit ctz_from ctz64 lead_loop rb_lead rb_zero_below or_word left_step left_loop rb_shift_left
    right_step right_loop rb_shift_right xor_words rb_xor_shifted rb_hw_threads rb_worker_threads
    spawn rb_for_ranges indices visited rb_eps_of rb_lambda_main rb_lambda_of rb_table_size
    rb_table_w rb_check rb_info_of rb_log2 rb_lerp rb_approx segment interp_loop rb_interp measured
    or_else measured_g paper_g rb_g_of rb_make_hash_ctx xor_blocks fill rb_for rb_hash64 rb_mask256
    rb_start rb_row_bits slice write rb_xor_ptr eliminate_flat forward_flat sum_loop_flat
    back_fill_flat fill_rows rb_for_rows insert_flat_row sort_flat_rows make_flat_row rb_rows_flat
    rb_encode_flat decode_loop_flat decode_row_flat flat_band_width rb_decode_flat worker_limit
    worker_count start_workers parallel_for run_rows run_rows_caught end_threads precompute_masks
    fill_mask mask_loop permute bytes_of blocks_of store load xor_mask send_rows
second = refl

psi_complete_example :
    (hits : ℕ) × (psi thousandths toy_aes 4 one_key ctx same_bytes same_bytes keys peer_keys
      ≡ ok hits)
    × (2 ≤ hits)
    × (hits ≤ 4)
psi_complete_example =
    psi_complete thousandths toy_aes 4 one_key ctx (one_key-IsKem 1) same_bytes same_bytes keys
      peer_keys thousandths-Truncates (omega arith) (same_bytes-IsPerm 16) (same_bytes-IsPerm 16)
      refl (inr (omega arith)) (9 ∷ 9 ∷ 9 ∷ 9 ∷ []) rows1 rows1 okvs1 rows2 okvs2 first (tables.0)
      second (tables.1)
