-- ===== src/Okvs/Codec/Correct.antt =====
-- RBDecode returns the encoded value of every key that RBEncode was given.
use pq_psi.Base.{
  ℕ, ◌≤◌, ◌<◌, ◌≡◌, refl, sym, ap, ◌∙◌, arith, ◌⊎◌, inl, inr, Bool-cases, true, false, ltb, not,
  ◌&&◌, ◌==◌, List, [], length, get_or, replicate, length-replicate, Result, ok, err, ok-injective,
  invalid_argument, ◌>>=◌, some,
}
use pq_psi.Okvs.Double.{Double}
use pq_psi.Okvs.Params.{RbParams}
use pq_psi.Okvs.Fit.{rb_table_w}
use pq_psi.Okvs.Fit.Bounds.{Truncates, rb_table_size_given}
use pq_psi.Okvs.Bits.{RbBits}
use pq_psi.Okvs.Rows.{rb_make_hash_ctx, rb_start}
use pq_psi.Okvs.Rows.Fill.{rb_for-IsFilled, rb_for-total}
use pq_psi.Okvs.Rows.Valid.{rb_row_bits-IsBand}
use pq_psi.Okvs.Codec.{rb_encode, rb_decode, decode_row, decode_loop}
use pq_psi.Okvs.Codec.Encode.{IsEncoded, rb_encode-IsEncoded, rb_encode_empty, rb_decode_empty}
use pq_psi.Okvs.Codec.Decode.{decode_loop-rhs}

module _ (d : Double) (aes : ℕ → ℕ → ℕ) (hw : ℕ) (keys : List ℕ) (values : List (List ℕ))
    (params : RbParams d.Num) where
  module _ (columns band_width : ℕ) (table : List (List ℕ))
      (encoded : IsEncoded d aes hw keys values params columns band_width table) where
    abbrev val_width : ℕ
    val_width = length (get_or table 0 [])

    val_width-values : val_width ≡ length (get_or values 0 [])
    val_width-values =
        encoded.is_table.width 0 (omega (arith, encoded.band_pos, encoded.band_table))

    -- The row of a key that was encoded decodes to its value.
    decode_row-value :
        (queries : List ℕ) (i j : ℕ)
        → i < length keys
        → get_or queries j 0 ≡ get_or keys i 0
        → decode_row d aes hw table queries columns val_width band_width (rb_make_hash_ctx params) j
          ≡ ok (get_or values i [])
    unfolding decode_row
    decode_row-value queries i j l same =
        let (r, row, valid, solves) = encoded.solved i l in
        rw (same, row.bits, ← row.start, val_width-values)
          (rw
            (decode_loop-rhs columns band_width (length (get_or values 0 [])) table r
              encoded.is_table valid solves)
            (rw row.rhs refl))

    decode_row-total :
        (queries : List ℕ) (j : ℕ)
        → (out : List ℕ) × (decode_row d aes hw table queries columns val_width band_width
              (rb_make_hash_ctx params)
              j
            ≡ ok out)
    unfolding decode_row
    decode_row-total queries j =
        let (bits, e, band) =
          rb_row_bits-IsBand aes (get_or queries j 0) (rb_make_hash_ctx params) band_width
            encoded.band_pos encoded.band_mask in
        (
          _,
          ap
              (λ (m : Result RbBits). do
                b ← m
                let start =
                    rb_start aes (get_or queries j 0) (rb_make_hash_ctx params) columns band_width
                ok (decode_loop band_width 0 start b table (replicate val_width 0)))
              e,
        )

    table_pos : (length table == 0) ≡ false
    table_pos = ground (arith, encoded.is_table.size, encoded.band_pos, encoded.band_table)

    no_mismatch :
        (params.columns ≡ 0) ⊎ (length keys ≤ params.columns)
        → 0 < length keys
        → (not (params.columns == 0) && not (params.columns == length table)) ≡ false
    no_mismatch cols some_key =
        ground (
          arith,
          rb_table_size_given d (length keys) params,
          encoded.resolved,
          encoded.is_table.size,
        )

    -- The guards of RBDecode pass, and every query decodes.
    decodes :
        (queries : List ℕ)
        → length queries ≡ length keys
        → (params.columns ≡ 0) ⊎ (length keys ≤ params.columns)
        → 0 < length keys
        → (out : List (List ℕ)) × (rb_decode d aes hw table queries params ≡ ok out)
          × (length out ≡ length queries)
          × ((i j : ℕ)
              → i < length keys
              → j < length queries
              → get_or queries j 0 ≡ get_or keys i 0
              → get_or out j [] ≡ get_or values i [])
    unfolding rb_decode
    decodes queries size cols some_key =
        let f =
          decode_row d aes hw table queries columns val_width band_width
            (rb_make_hash_ctx params) in
        let row : List ℕ = replicate val_width 0 in
        let zeros : List (List ℕ) = replicate (length queries) row in
        let (out, run) =
          rb_for-total f [] hw (length queries) params.multi_thread params.worker_threads zeros
            (λ i l. decode_row-total queries i) in
        let filled =
          rb_for-IsFilled f [] hw (length queries) params.multi_thread params.worker_threads zeros
            out (omega (arith, length-replicate (length queries) row)) run in
        let mismatch : (not (params.columns == 0) && not (params.columns == length table)) ≡ false =
          no_mismatch cols some_key in
        let decoder : rb_table_w d (length queries) (length table) params ≡ ok band_width =
          rw (size, encoded.is_table.size) encoded.decoder in
        let mask : ltb 256 band_width ≡ false = ground (arith, encoded.band_mask) in
        let room : ltb (length table) band_width ≡ false =
          ground (arith, encoded.is_table.size, encoded.band_table) in
        (
          out,
          rw (table_pos, mismatch, decoder, mask, room, encoded.is_table.size) run,
          filled.size ∙ length-replicate (length queries) row,
          λ i j l m same. ok-injective (
              sym (filled.inside j (omega arith) (omega arith))
              ∙ decode_row-value queries i j l same),
        )

  -- For a truncating conversion of doubles, when RBEncode returns a table, and the number of
  -- columns asked for is zero or at least the number of keys, RBDecode of that table on as many
  -- queries as there were keys returns as many rows, and at every query that is one of the keys
  -- its row is the value of that key.
  pub rb_decode-rb_encode :
      (table : List (List ℕ)) (queries : List ℕ)
      → Truncates d
      → rb_encode d aes hw keys values params ≡ ok (some table)
      → length queries ≡ length keys
      → (params.columns ≡ 0) ⊎ (length keys ≤ params.columns)
      → (out : List (List ℕ)) × (rb_decode d aes hw table queries params ≡ ok out)
        × (length out ≡ length queries)
        × ((i j : ℕ)
            → i < length keys
            → j < length queries
            → get_or queries j 0 ≡ get_or keys i 0
            → get_or out j [] ≡ get_or values i [])
  rb_decode-rb_encode table queries cast h size cols = elim (Bool-cases (length keys == 0)) [
    | inl empty ↦
        let same : table ≡ [] = rb_encode_empty d aes hw keys values params empty h in
        (
          [],
          rw same (rb_decode_empty d aes hw queries params),
          ground arith,
          λ i j l. absurd (ground arith),
        )
    | inr full ↦
        let some_key : 0 < length keys = ground arith in
        let (columns, band_width, encoded) =
          rb_encode-IsEncoded d aes hw keys values params table cast some_key h in
        decodes columns band_width table encoded queries size cols some_key
  ]

  -- For a truncating conversion of doubles, when RBEncode returns a table although a positive
  -- number of columns below the number of keys was asked for, RBDecode refuses that table under
  -- the same parameters with its columns mismatch.
  pub rb_decode-rb_encode_refused :
      (table : List (List ℕ)) (queries : List ℕ)
      → Truncates d
      → rb_encode d aes hw keys values params ≡ ok (some table)
      → 0 < params.columns
      → params.columns < length keys
      → rb_decode d aes hw table queries params ≡ err (invalid_argument "RBDecode columns mismatch")
  unfolding rb_decode
  rb_decode-rb_encode_refused table queries cast h p q =
      let (columns, band_width, encoded) =
        rb_encode-IsEncoded d aes hw keys values params table cast (omega arith) h in
      let mismatch : (not (params.columns == 0) && not (params.columns == length table)) ≡ true =
        ground (
          arith,
          rb_table_size_given d (length keys) params,
          encoded.resolved,
          encoded.is_table.size,
        ) in
      rw (table_pos columns band_width table encoded, mismatch) refl
