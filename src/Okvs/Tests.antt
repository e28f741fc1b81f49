-- ===== src/Okvs/Tests.antt =====
-- Runs of the codec on a toy arithmetic and a toy cipher.
use pq_psi.Base.{
  ℕ, min, ◌+◌, ◌-◌, ◌*◌, ◌/◌, ◌%◌, ◌^◌, ◌≤◌, ◌<◌, ◌≡◌, refl, arith, inr, ◌⊎◌, ◌&&◌, if◌then◌else◌,
  true, false, ltb, leb, List, [], ◌∷◌, length, get_or, ok, err, invalid_argument, some,
}
use pq_psi.Okvs.Double.{Double}
use pq_psi.Okvs.Params.{RbParams, RbInfo}
use pq_psi.Okvs.Fit.Bounds.{Truncates, IsResolved, rb_info_of-IsResolved, rb_round_w_bounds}
use pq_psi.Okvs.Bits.Words.{IsWords, place}
use pq_psi.Okvs.Bits.Band.{IsBand, IsWords-words}
use pq_psi.Okvs.Bits.XorShifted.{rb_xor_shifted-places}
use pq_psi.Okvs.Bits.Lead.{IsLead, IsEmpty, rb_lead-finds}
use pq_psi.Okvs.Bits.Shift.{place-rb_shift_left, place-rb_shift_right}
use pq_psi.Okvs.Bits.Places.{place-rb_zero_below}
use pq_psi.Okvs.Parallel.Cover.{rb_for_ranges-visits}
use pq_psi.Okvs.Rows.Valid.{rb_row_bits-IsBand, rb_start_room}
use pq_psi.Okvs.Rows.Fill.{IsFilled, rb_for-IsFilled, rb_for-fills}
use pq_psi.Okvs.Bits.{
  RbBits, words, word, set_word, clear_words, trim_words, rb_trim_bits, rb_mask_bits, rb_has_bits,
  rb_ensure_bits, rb_bit, ctz_from, ctz64, lead_loop, rb_lead, rb_zero_below, or_word, left_step,
  left_loop, rb_shift_left, right_step, right_loop, rb_shift_right, xor_words, rb_xor_shifted,
}
use pq_psi.Okvs.Parallel.{rb_hw_threads, rb_worker_threads, spawn, rb_for_ranges, indices, visited}
use pq_psi.Okvs.Fit.{
  rb_round_w, rb_eps_of, rb_lambda_main, rb_lambda_of, rb_table_size, rb_table_w, rb_check,
  rb_info_of,
}
use pq_psi.Okvs.Fit.Gap.{
  rb_log2, rb_lerp, rb_approx, segment, interp_loop, rb_interp, measured, or_else, measured_g,
  paper_g, rb_g_of,
}
use pq_psi.Okvs.Rows.{
  rb_make_hash_ctx, xor_blocks, rb_xor, fill, rb_for, rb_hash64, rb_mask256, rb_start, rb_row_bits,
  make_row, insert_row, sort_rows, rb_rows,
}
use pq_psi.Okvs.Codec.Correct.{rb_decode-rb_encode, rb_decode-rb_encode_refused}
use pq_psi.Okvs.Codec.{eliminate, forward, sum_loop, back_fill, rb_encode, rb_decode}

-- Thousandths, without signs.
abbrev pub thousandths : Double
thousandths = record {
  Num = ℕ;
  of_ℕ = λ n. n * 1000;
  milli = λ n. n;
  neg = λ x. 0;
  add = λ x y. x + y;
  sub = λ x y. x - y;
  mul = λ x y. x * y / 1000;
  div = λ x y. x * 1000 / y;
  le = leb;
  lt = ltb;
  abs = λ x. x;
  round = λ x. (x + 500) / 1000 * 1000;
  ceil = λ x. (x + 999) / 1000 * 1000;
  log2 = λ x. 10000;
  to_size = λ x. min (x / 1000) (2 ^ 64 - 2 ^ 11);
  to_size_le = λ x. omega arith;
}

pub thousandths-Truncates : Truncates thousandths
thousandths-Truncates x h = ground arith

abbrev pub toy_aes : ℕ → ℕ → ℕ
toy_aes key x = (key * 31 + x * 17 + 5) ^ 5 * 98765432109876543211 % 2 ^ 127

abbrev pub params : RbParams ℕ
params = record {
  lambda = 40;
  eps = 0;
  columns = 6;
  band_width = 4;
  check = false;
  multi_thread = true;
  worker_threads = 2;
  start_seed = 11;
  mask_seed = 12;
}

abbrev pub keys : List ℕ
keys = 101 ∷ 202 ∷ 303 ∷ 404 ∷ []

abbrev values : List (List ℕ)
values = (7 ∷ 1 ∷ []) ∷ (8 ∷ 2 ∷ []) ∷ (9 ∷ 3 ∷ []) ∷ (10 ∷ 4 ∷ []) ∷ []

abbrev table : List (List ℕ)
table =
    (10 ∷ 4 ∷ []) ∷ (5 ∷ 7 ∷ []) ∷ (8 ∷ 2 ∷ []) ∷ (0 ∷ 0 ∷ []) ∷ (12 ∷ 4 ∷ []) ∷ (0 ∷ 0 ∷ []) ∷ []

-- One column for two keys.
abbrev narrow : RbParams ℕ
narrow = record params { columns = 1; band_width = 2 }

abbrev two_keys : List ℕ
two_keys = 11 ∷ 25 ∷ []

abbrev two_values : List (List ℕ)
two_values = (7 ∷ []) ∷ (8 ∷ []) ∷ []

abbrev narrow_table : List (List ℕ)
narrow_table = (7 ∷ []) ∷ (15 ∷ []) ∷ []

abbrev pub queries : List ℕ
queries = 999 ∷ 404 ∷ 101 ∷ 202 ∷ []

runs :
    (rb_encode thousandths toy_aes 4 keys values params ≡ ok (some table))
    × (rb_encode thousandths toy_aes 4 two_keys two_values narrow ≡ ok (some narrow_table))
unfolding word set_word clear_words trim_words rb_trim_bits rb_mask_bits rb_has_bits rb_ensure_bits
    rb_bit ctz_from ctz64 lead_loop rb_lead rb_zero_below or_word left_step left_loop rb_shift_left
    right_step right_loop rb_shift_right xor_words rb_xor_shifted rb_hw_threads rb_worker_threads
    spawn rb_for_ranges indices visited rb_eps_of rb_lambda_main rb_lambda_of rb_table_size
    rb_table_w rb_check rb_info_of rb_log2 rb_lerp rb_approx segment interp_loop rb_interp measured
    or_else measured_g paper_g rb_g_of rb_make_hash_ctx xor_blocks rb_xor fill rb_for rb_hash64
    rb_mask256 rb_start rb_row_bits make_row insert_row sort_rows rb_rows eliminate forward sum_loop
    back_fill rb_encode
runs = (refl, refl)

rb_decode-rb_encode_example :
    (out : List (List ℕ)) × (rb_decode thousandths toy_aes 4 table queries params ≡ ok out)
    × (length out ≡ length queries)
    × ((i j : ℕ)
        → i < length keys
        → j < length queries
        → get_or queries j 0 ≡ get_or keys i 0
        → get_or out j [] ≡ get_or values i [])
rb_decode-rb_encode_example =
    rb_decode-rb_encode thousandths toy_aes 4 keys values params table queries thousandths-Truncates
      (runs.0) refl (inr (omega arith))

rb_decode-rb_encode_refused_example :
    rb_decode thousandths toy_aes 4 narrow_table two_keys narrow
    ≡ err (invalid_argument "RBDecode columns mismatch")
rb_decode-rb_encode_refused_example =
    rb_decode-rb_encode_refused thousandths toy_aes 4 two_keys two_values narrow narrow_table
      two_keys thousandths-Truncates (runs.1) (omega arith) (omega arith)

abbrev some_bits : RbBits
some_bits = words 6 0 9 0

IsWords-some_bits : IsWords some_bits
IsWords-some_bits = IsWords-words 6 0 9 0 (omega arith) (omega arith) (omega arith) (omega arith)

rb_xor_shifted-places_example :
    (r : RbBits) × (rb_xor_shifted some_bits 3 some_bits 1 200 ≡ ok r)
    × ((i : ℕ)
        → i < 256
        → place r i
          ≡ (place some_bits i
              + (if ltb i 200 && (leb 3 i && ltb (i - 3 + 1) 256)
                  then place some_bits (i - 3 + 1)
                  else 0))
            % 2)
rb_xor_shifted-places_example =
    rb_xor_shifted-places some_bits 3 some_bits 1 200 IsWords-some_bits (omega arith) (omega arith)
      (omega arith)

rb_lead-finds_example :
    IsLead some_bits (rb_lead some_bits 40) ⊎ (IsEmpty some_bits × (rb_lead some_bits 40 ≡ 40))
rb_lead-finds_example = rb_lead-finds some_bits 40 IsWords-some_bits

place-rb_shift_left_example :
    place (rb_shift_left some_bits 70) 72 ≡ (if leb 70 72 then place some_bits (72 - 70) else 0)
place-rb_shift_left_example = place-rb_shift_left some_bits 70 72 IsWords-some_bits (omega arith)

place-rb_shift_right_example :
    place (rb_shift_right some_bits 70) 58
    ≡ (if ltb (58 + 70) 256 then place some_bits (58 + 70) else 0)
place-rb_shift_right_example = place-rb_shift_right some_bits 70 58 IsWords-some_bits (omega arith)

place-rb_zero_below_example :
    place (rb_zero_below some_bits 130) 131 ≡ (if ltb 131 130 then 0 else place some_bits 131)
place-rb_zero_below_example = place-rb_zero_below some_bits 130 131 (omega arith) (omega arith)

rb_for_ranges-visits_example : visited (rb_for_ranges 8 1000 true 3) ≡ indices 1000 0
rb_for_ranges-visits_example = rb_for_ranges-visits 8 1000 true 3

rb_round_w_bounds_example :
    (16 ≤ rb_round_w 100)
    × (rb_round_w 100 ≤ 256)
    × (rb_round_w 100 % 16 ≡ 0)
    × (min 100 256 ≤ rb_round_w 100)
rb_round_w_bounds_example = rb_round_w_bounds 100 (omega arith)

rb_row_bits-IsBand_example :
    (b : RbBits) × (rb_row_bits toy_aes 77 (rb_make_hash_ctx params) 40 ≡ ok b) × IsBand 40 b
rb_row_bits-IsBand_example =
    rb_row_bits-IsBand toy_aes 77 (rb_make_hash_ctx params) 40 (omega arith) (omega arith)

rb_start_room_example : rb_start toy_aes 77 (rb_make_hash_ctx params) 100 40 + 40 ≤ 100
rb_start_room_example = rb_start_room toy_aes 77 (rb_make_hash_ctx params) 100 40 (omega arith)

fill_run : rb_for 4 3 true 2 (λ i. ok (i + 1)) (0 ∷ 0 ∷ 0 ∷ []) ≡ ok (1 ∷ 2 ∷ 3 ∷ [])
unfolding rb_hw_threads rb_worker_threads spawn rb_for_ranges indices visited fill rb_for
fill_run = refl

rb_for-IsFilled_example : IsFilled (λ i. ok (i + 1)) 0 3 0 (0 ∷ 0 ∷ 0 ∷ []) (1 ∷ 2 ∷ 3 ∷ [])
rb_for-IsFilled_example =
    rb_for-IsFilled (λ i. ok (i + 1)) 0 4 3 true 2 (0 ∷ 0 ∷ 0 ∷ []) (1 ∷ 2 ∷ 3 ∷ []) (omega arith)
      fill_run

abbrev info : RbInfo ℕ
info = record {
  n = 4;
  lambda = 40;
  lambda_real = 5500;
  eps = 500;
  columns = 6;
  band_width = 4;
  worker_threads = 2;
}

info_run : rb_info_of thousandths 4 4 params ≡ ok info
unfolding rb_hw_threads rb_worker_threads rb_eps_of rb_lambda_main rb_lambda_of rb_table_size
    rb_table_w rb_check rb_info_of rb_log2 rb_lerp rb_approx segment interp_loop rb_interp measured
    or_else measured_g paper_g rb_g_of
info_run = refl

rb_info_of-IsResolved_example : IsResolved thousandths 4 params info
rb_info_of-IsResolved_example =
    rb_info_of-IsResolved thousandths 4 4 params thousandths-Truncates info_run

rb_for-fills_example :
    (ys : List ℕ) × (rb_for 4 3 true 2 (λ i. ok (i + 1)) (0 ∷ 0 ∷ 0 ∷ []) ≡ ok ys)
    × (length ys ≡ 3)
    × ((i : ℕ) → i < 3 → ok (i + 1) ≡ ok (get_or ys i 0))
rb_for-fills_example =
    rb_for-fills (λ i. ok (i + 1)) 0 4 3 true 2 (0 ∷ 0 ∷ 0 ∷ []) (omega arith)
      (λ i h. (i + 1, refl))
