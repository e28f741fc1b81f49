-- ===== src/Okvs/Flat/Decode.antt =====
-- RBDecode on flat tables against RBDecode on tables of rows.
use native.Mathlib.Nat.{zero-mul, mul-div_cancel, mul-mod_left, mul-le-mul_right}
use mathlib.Core.Path.{fun_ext}
use pq_psi.Base.{
  ℕ, zero, suc, ◌+◌, ◌*◌, ◌/◌, ◌%◌, ◌≤◌, ◌<◌, ◌≡◌, refl, sym, ◌∙◌, ap, arith, inl, inr, false,
  Bool-cases, not, ◌||◌, ◌&&◌, ltb, leb, ◌==◌, List, [], length, get_or, replicate,
  length-replicate, Result, ok, err, ◌>>=◌, ◌>>◌, throw_if, invalid_argument,
}
use pq_psi.Okvs.Bits.{RbBits, rb_bit, trim_words, rb_ensure_bits}
use pq_psi.Okvs.Bits.Band.{rb_mask_bits-ok}
use pq_psi.Okvs.Double.{Double}
use pq_psi.Okvs.Params.{RbParams}
use pq_psi.Okvs.Fit.{rb_table_w}
use pq_psi.Okvs.Rows.{
  RbHashCtx, rb_make_hash_ctx, xor_blocks, rb_mask256, rb_row_bits, rb_for, rb_start,
}
use pq_psi.Okvs.Rows.Vector.{length-xor_blocks, get_or-replicate_lt}
use pq_psi.Okvs.Codec.{decode_loop, decode_row, rb_decode}
use pq_psi.Okvs.Flat.{
  decode_loop_flat, decode_row_flat, flat_band_width, rb_for_rows, rb_decode_mixed, rb_decode_flat,
}
use pq_psi.Okvs.Flat.Fill.{IsFlat, IsFlat-width, IsFlat-replicate, rb_for_rows-IsFlat}

-- A run to a flat array ends as one to rows does: with the same exception, or with the same rows.
abbrev pub IsFlatOut : ℕ → Result (List (List ℕ)) → Result (List ℕ) → Type 0
IsFlatOut w (err e) (err e') = e ≡ e'
IsFlatOut w (ok rows) (ok t) = IsFlat w rows t
IsFlatOut w (err e) (ok t) = ⊥
IsFlatOut w (ok rows) (err e) = ⊥

rb_row_bits-total :
    (aes : ℕ → ℕ → ℕ) (key : ℕ) (ctx : RbHashCtx) (width : ℕ)
    → width ≤ 256
    → (b : RbBits) × (rb_row_bits aes key ctx width ≡ ok b)
unfolding rb_row_bits
rb_row_bits-total aes key ctx width h =
    let m = rb_mask256 aes key ctx in
    (rb_ensure_bits (trim_words m width), rw (rb_mask_bits-ok m width h) refl)

length-decode_loop :
    (rounds j start : ℕ) (bits : RbBits) (table : List (List ℕ)) (out : List ℕ)
    → length (decode_loop rounds j start bits table out) ≡ length out
unfolding decode_loop
length-decode_loop zero j start bits table out = refl
length-decode_loop (suc rounds) j start bits table out =
    let taken =
      length-decode_loop rounds (j + 1) start bits table
        (xor_blocks out (get_or table (start + j) [])) in
    ground (
      arith,
      taken,
      length-decode_loop rounds (j + 1) start bits table out,
      length-xor_blocks out (get_or table (start + j) []),
    )

module _ (w : ℕ) (rows : List (List ℕ)) (t : List ℕ) (flat : IsFlat w rows t) where
  decode_loop_flat-decode_loop :
      (rounds j start : ℕ) (bits : RbBits) (out : List ℕ)
      → decode_loop_flat w rounds j start bits (length rows) t out
        ≡ decode_loop rounds j start bits rows out
  unfolding decode_loop_flat decode_loop
  decode_loop_flat-decode_loop zero j start bits out = refl
  decode_loop_flat-decode_loop (suc rounds) j start bits out = elim (Bool-cases (rb_bit bits j)) [
    | inr skip ↦ rw skip (decode_loop_flat-decode_loop rounds (j + 1) start bits out)
    | inl add ↦ elim (Bool-cases (leb (length rows) (start + j))) [
      | inl past ↦ rw (add, past) refl
      | inr inside ↦
          rw (add, inside, flat.row (start + j) (ground arith))
            (decode_loop_flat-decode_loop rounds (j + 1) start bits
              (xor_blocks out (get_or rows (start + j) [])))
    ]
  ]

module _ (d : Double) (aes : ℕ → ℕ → ℕ) (hw : ℕ) (keys : List ℕ) (params : RbParams d.Num) (w : ℕ)
    (rows : List (List ℕ)) (t : List ℕ) (flat : IsFlat w rows t) (some_width : 0 < w) where
  rows_of_flat : length t / w ≡ length rows
  rows_of_flat = rw flat.size (mul-div_cancel (length rows) some_width)

  whole : length t % w ≡ 0
  whole = rw flat.size (mul-mod_left (length rows) w)

  empty_alike : (length t == 0) ≡ (length rows == 0)
  empty_alike = elim (Bool-cases (length rows == 0)) [
    | inl empty ↦
        let none_left : length rows ≡ 0 = ground arith in
        let e : length t ≡ 0 * w = flat.size ∙ ap (λ n. n * w) none_left in
        ground (arith, e, zero-mul w)
    | inr full ↦
        let step : 1 * w ≤ length rows * w = mul-le-mul_right w (ground arith) in
        ground (arith, step, flat.size)
  ]

  row_width : (length rows == 0) ≡ false → length (get_or rows 0 []) ≡ w
  row_width full = IsFlat-width w rows t flat 0 (ground arith)

  -- Row `i` is decoded alike, to a row of the width.
  decode_row_alike :
      (band_width i : ℕ) (ctx : RbHashCtx)
      → band_width ≤ 256
      → (v : List ℕ) × (decode_row d aes hw rows keys (length rows) w band_width ctx i ≡ ok v)
        × (decode_row_flat d aes hw t w keys (length rows) band_width ctx i (replicate w 0) ≡ ok v)
        × (length v ≡ w)
  unfolding decode_row_flat decode_row
  decode_row_alike band_width i ctx small =
      let (bits, e) = rb_row_bits-total aes (get_or keys i 0) ctx band_width small in
      let start = rb_start aes (get_or keys i 0) ctx (length rows) band_width in
      let zeros : List ℕ = replicate w 0 in
      (
        decode_loop band_width 0 start bits rows zeros,
        rw e refl,
        rw (e, decode_loop_flat-decode_loop w rows t flat band_width 0 start bits zeros) refl,
        length-decode_loop band_width 0 start bits rows zeros ∙ length-replicate w zero,
      )

  -- The checks and the loop after the band width is computed.
  abbrev row_tail : ℕ → Result (List (List ℕ))
  row_tail band_width =
      rb_for hw (length keys) params.multi_thread params.worker_threads
        (decode_row d aes hw rows keys (length rows) w band_width (rb_make_hash_ctx params))
        (replicate (length keys) (replicate w 0))

  abbrev mixed_tail : ℕ → Result (List (List ℕ))
  mixed_tail band_width =
      rb_for hw (length keys) params.multi_thread params.worker_threads
        (λ i.
          decode_row_flat d aes hw t w keys (length rows) band_width (rb_make_hash_ctx params) i
            (replicate w 0))
        (replicate (length keys) (replicate w 0))

  abbrev flat_tail : ℕ → Result (List ℕ)
  flat_tail band_width =
      rb_for_rows w hw (length keys) params.multi_thread params.worker_threads
        (decode_row_flat d aes hw t w keys (length rows) band_width (rb_make_hash_ctx params))
        (replicate (length keys * w) 0)

  mixed_alike : (band_width : ℕ) → band_width ≤ 256 → mixed_tail band_width ≡ row_tail band_width
  mixed_alike band_width small =
      ap
        (λ f.
          rb_for hw (length keys) params.multi_thread params.worker_threads f
            (replicate (length keys) (replicate w 0)))
        (fun_ext (λ i.
          let (v, e, f, size) = decode_row_alike band_width i (rb_make_hash_ctx params) small in
          f ∙ sym e))

  flat_alike :
      (band_width : ℕ) → band_width ≤ 256 → IsFlatOut w (row_tail band_width) (flat_tail band_width)
  flat_alike band_width small =
      let ctx = rb_make_hash_ctx params in
      let row : List ℕ = replicate w 0 in
      let n = length keys in
      let count = length-replicate n row in
      let (out, t', e, f, is_flat, size) =
        rb_for_rows-IsFlat w (decode_row d aes hw rows keys (length rows) w band_width ctx)
          (decode_row_flat d aes hw t w keys (length rows) band_width ctx) hw n params.multi_thread
          params.worker_threads (replicate n row) (replicate (n * w) 0) (omega (arith, count))
          (IsFlat-replicate w n)
          (λ i l.
            rw (get_or-replicate_lt n i row [] l) (decode_row_alike band_width i ctx small)) in
      rw (e, f) is_flat

  abbrev guarded {ℓ} : {A : Type ℓ} → Result ℕ → (ℕ → Result A) → Result A
  guarded width next = do
    band_width ← width
    throw_if (ltb 256 band_width) (invalid_argument "RBDecode width > 256")
    throw_if (ltb (length rows) band_width) (invalid_argument "RBDecode width > columns")
    next band_width

  mixed_guarded : (width : Result ℕ) → guarded width mixed_tail ≡ guarded width row_tail
  mixed_guarded (err e) = refl
  mixed_guarded (ok b) = elim (Bool-cases (ltb 256 b)) [
    | inl wide ↦ rw wide refl
    | inr small ↦ rw (small, mixed_alike b (ground arith)) refl
  ]

  flat_guarded : (width : Result ℕ) → IsFlatOut w (guarded width row_tail) (guarded width flat_tail)
  flat_guarded (err e) = refl
  flat_guarded (ok b) = elim (Bool-cases (ltb 256 b)) [
    | inl wide ↦ rw wide refl
    | inr small ↦ elim (Bool-cases (ltb (length rows) b)) [
      | inl past ↦ rw (small, past) refl
      | inr room ↦ rw (small, room) (flat_alike b (ground arith))
    ]
  ]

  -- The checks on flat tables are those on tables of rows.
  flat_band_width-guarded :
      {A : Type 0} (next : ℕ → Result A)
      → (flat_band_width d aes hw t w (length keys) params >>= next) ≡ (do
        throw_if
            (not (params.columns == 0) && not (params.columns == length rows))
            (invalid_argument "RBDecode columns mismatch")
        guarded (rb_table_w d (length keys) (length rows) params) next)
  unfolding flat_band_width
  flat_band_width-guarded next =
      let sized : (w == 0 || not (length t % w == 0)) ≡ false = ground (arith, whole) in
      rw (sized, rows_of_flat)
        (elim (Bool-cases (not (params.columns == 0) && not (params.columns == length rows))) [
          | inl mismatch ↦ rw mismatch refl
          | inr matches ↦ rw matches (checked (rb_table_w d (length keys) (length rows) params))
        ])
    where
      checked :
          (width : Result ℕ)
          → ((do
            band_width ← width
            throw_if (ltb 256 band_width) (invalid_argument "RBDecode width > 256")
            throw_if (ltb (length rows) band_width) (invalid_argument "RBDecode width > columns")
            ok band_width)
              >>= next)
            ≡ guarded width next
      checked (err e) = refl
      checked (ok b) = elim (Bool-cases (ltb 256 b)) [
        | inl wide ↦ rw wide refl
        | inr small ↦ elim (Bool-cases (ltb (length rows) b)) [
          | inl past ↦ rw (small, past) refl
          | inr room ↦ rw (small, room) refl
        ]
      ]

  -- On a flat array of rows of a positive width, RBDecode to a table of rows is RBDecode of the
  -- table of those rows, whatever either returns or throws.
  pub rb_decode_mixed-rb_decode :
      rb_decode_mixed d aes hw t w keys params ≡ rb_decode d aes hw rows keys params
  unfolding rb_decode_mixed rb_decode
  rb_decode_mixed-rb_decode = elim (Bool-cases (length rows == 0)) [
    | inl empty ↦ rw (empty_alike, empty) refl
    | inr full ↦
        rw (empty_alike, full, row_width full, flat_band_width-guarded, rows_of_flat)
          (elim (Bool-cases (not (params.columns == 0) && not (params.columns == length rows))) [
            | inl mismatch ↦ rw mismatch refl
            | inr matches ↦
                rw matches (mixed_guarded (rb_table_w d (length keys) (length rows) params))
          ])
  ]

  -- On a flat array of rows of a positive width, RBDecode to a flat array throws what RBDecode of
  -- the table of those rows throws, and else returns a flat array of the rows that it returns.
  pub rb_decode_flat-IsFlatOut :
      IsFlatOut w (rb_decode d aes hw rows keys params) (rb_decode_flat d aes hw t w keys params)
  unfolding rb_decode_flat rb_decode
  rb_decode_flat-IsFlatOut = elim (Bool-cases (length rows == 0)) [
    | inl empty ↦
        rw (empty_alike, empty)
          (record { size = sym (zero-mul w); row = λ i h. absurd (omega arith) })
    | inr full ↦
        rw (empty_alike, full, row_width full, rows_of_flat, flat_band_width-guarded flat_tail)
          (elim (Bool-cases (not (params.columns == 0) && not (params.columns == length rows))) [
            | inl mismatch ↦ rw mismatch refl
            | inr matches ↦
                rw matches (flat_guarded (rb_table_w d (length keys) (length rows) params))
          ])
  ]
