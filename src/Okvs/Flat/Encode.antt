-- ===== src/Okvs/Flat/Encode.antt =====
-- RBEncode on flat arrays against RBEncode on tables of rows.
use native.Mathlib.Nat.{zero-mul}
use pq_psi.Base.{
  ℕ, ◌*◌, ◌≤◌, ◌<◌, ◌≡◌, refl, sym, ◌∙◌, ap, arith, inl, inr, false, Bool-cases, not, ◌||◌, ◌==◌,
  List, [], length, get_or, Result, ok, err, Option, none, some, ◌>>=◌,
}
use pq_psi.Okvs.Double.{Double}
use pq_psi.Okvs.Params.{RbParams, RbInfo}
use pq_psi.Okvs.Fit.{rb_info_of}
use pq_psi.Okvs.Fit.Bounds.{Truncates, IsResolved, rb_info_of-IsResolved}
use pq_psi.Okvs.Rows.{RbRow, rb_rows}
use pq_psi.Okvs.Rows.Made.{IsRows, rb_rows-IsRows}
use pq_psi.Okvs.Codec.{forward, back_fill, rb_encode}
use pq_psi.Okvs.Codec.Equation.{IsRow}
use pq_psi.Okvs.Codec.Forward.{forward-IsForward}
use pq_psi.Okvs.Codec.Encode.{IsRowOf-IsRow}
use pq_psi.Okvs.Flat.{
  RbFlatRow, forward_flat, back_fill_flat, rb_rows_flat, back_fill_mixed, rb_encode_mixed,
  rb_encode_flat,
}
use pq_psi.Okvs.Flat.Slots.{AllApart, slots, all_loaded}
use pq_psi.Okvs.Flat.Elim.{forward_flat-IsForwarded}
use pq_psi.Okvs.Flat.Fill.{IsFlat, IsFlat-width}
use pq_psi.Okvs.Flat.Solve.{back_fill_mixed-IsFlat, back_fill_flat-mixed}
use pq_psi.Okvs.Flat.Made.{length-all_loaded, rb_rows_flat-IsMade}

-- A run on flat arrays ends as one on rows does: with the same exception, the same failure, or a
-- flat table of the same rows.
abbrev pub IsFlatRun : ℕ → Result (Option (List (List ℕ))) → Result (Option (List ℕ)) → Type 0
IsFlatRun w (err e) (err e') = e ≡ e'
IsFlatRun w (ok none) (ok none) = Unit
IsFlatRun w (ok (some rows)) (ok (some t)) = IsFlat w rows t
IsFlatRun w (err e) (ok x) = ⊥
IsFlatRun w (ok x) (err e) = ⊥
IsFlatRun w (ok none) (ok (some t)) = ⊥
IsFlatRun w (ok (some rows)) (ok none) = ⊥

module _ (d : Double) (aes : ℕ → ℕ → ℕ) (hw : ℕ) (keys : List ℕ) (params : RbParams d.Num) where
  module _ (rows : List (List ℕ)) (cast : Truncates d) (some_row : 0 < length rows) where
    abbrev width : ℕ
    width = length (get_or rows 0 [])

    abbrev row_tail : RbInfo d.Num → List RbRow → Result (Option (List (List ℕ)))
    row_tail info made = do
      pivots ← forward (length made) info.band_width made
      elim pivots [
        | none ↦ ok none
        | some ps ↦ do table ← back_fill info.columns width info.band_width ps; ok (some table)
      ]

    abbrev flat_tail : RbInfo d.Num → List RbRow → Result (Option (List ℕ))
    flat_tail info made = do
      pivots ← forward (length made) info.band_width made
      elim pivots [
        | none ↦ ok none
        | some ps ↦ do
          table ← back_fill_mixed width info.columns info.band_width ps
          ok (some table)
      ]

    -- The part of both after the rows are made.
    solved_alike :
        (info : RbInfo d.Num) (made : List RbRow)
        → IsResolved d (length keys) params info
        → IsRows aes hw keys rows info.columns info.band_width params made
        → IsFlatRun width (row_tail info made) (flat_tail info made)
    solved_alike info made res is_rows =
        let small = res.band_mask in
        let step =
          forward-IsForward info.columns info.band_width width small (length made) 0 made
            (omega arith) is_rows.sorted
            (is_rows.of_keys (IsRow info.columns info.band_width width) (λ i r l row.
              IsRowOf-IsRow d aes hw keys rows params info.columns info.band_width i r res.band_pos
                small res.band_table row)) in
        elim step [
          | inl failed ↦ rw failed tt
          | inr (ps, g, fwd) ↦
              let (table, t, e, f, is_table, flat) =
                back_fill_mixed-IsFlat info.columns info.band_width width small ps fwd.echelon in
              rw (g, e, f) flat
        ]

    made_alike :
        (info : RbInfo d.Num)
        → (made : Result (List RbRow))
        → made ≡ rb_rows aes hw keys rows info.columns info.band_width params
        → 0 < length keys
        → IsResolved d (length keys) params info
        → IsFlatRun width (made >>= row_tail info) (made >>= flat_tail info)
    made_alike info (err e) h some_key res = refl
    made_alike info (ok made) h some_key res =
        solved_alike info made res (
          rb_rows-IsRows aes hw keys rows info.columns info.band_width params made some_key (sym h))

    info_alike :
        (info : Result (RbInfo d.Num))
        → info ≡ rb_info_of d hw (length keys) params
        → 0 < length keys
        → IsFlatRun width
            (do
              cfg ← info
              made ← rb_rows aes hw keys rows cfg.columns cfg.band_width params
              row_tail cfg made)
            (do
              cfg ← info
              made ← rb_rows aes hw keys rows cfg.columns cfg.band_width params
              flat_tail cfg made)
    info_alike (err e) h some_key = refl
    info_alike (ok info) h some_key =
        made_alike info (rb_rows aes hw keys rows info.columns info.band_width params) refl some_key
          (rb_info_of-IsResolved d hw (length keys) params cast (sym h))

    -- For a truncating conversion of doubles and at least one row, RBEncode of a table of rows to a
    -- flat table of the first row's width throws what RBEncode to a table of rows throws, fails
    -- when it fails, and else returns a flat array of the rows that it returns.
    pub rb_encode_mixed-IsFlatRun :
        IsFlatRun width
          (rb_encode d aes hw keys rows params)
          (rb_encode_mixed d aes hw keys rows width params)
    unfolding rb_encode rb_encode_mixed
    rb_encode_mixed-IsFlatRun = elim (Bool-cases (length keys == 0)) [
      | inl empty ↦
          rw empty (record { size = sym (zero-mul width); row = λ i h. absurd (omega arith) })
      | inr full ↦
          let matches : (length rows == 0 || not (width == width)) ≡ false = ground arith in
          rw (full, matches) (info_alike (rb_info_of d hw (length keys) params) refl (ground arith))
    ]

  module _ (rows : List (List ℕ)) (values : List ℕ) (w : ℕ) (cast : Truncates d)
      (some_width : 0 < w) (flat : IsFlat w rows values) (size : length rows ≡ length keys) where
    abbrev rows_run : RbInfo d.Num → List RbRow → Result (Option (List ℕ))
    rows_run info made = do
      pivots ← forward (length made) info.band_width made
      elim pivots [
        | none ↦ ok none
        | some ps ↦ do table ← back_fill_mixed w info.columns info.band_width ps; ok (some table)
      ]

    abbrev flat_run : RbInfo d.Num → List RbFlatRow × List ℕ → Result (Option (List ℕ))
    flat_run info made = do
      pivots ← forward_flat w (length (made.0)) info.band_width (made.0) (made.1)
      elim pivots [
        | none ↦ ok none
        | some ps ↦ do
          table ← back_fill_flat w info.columns info.band_width (ps.0) (ps.1)
          ok (some table)
      ]

    same_run :
        (info : RbInfo d.Num) (made : List RbFlatRow) (rhs : List ℕ)
        → info.band_width ≤ 256
        → AllApart w (length rhs) (slots made)
        → flat_run info (made, rhs) ≡ rows_run info (all_loaded w rhs made)
    same_run info made rhs small apart =
        elim (forward_flat-IsForwarded w info.band_width small (length made) made rhs apart) [
          | inl (failed, failed') ↦ rw (failed, length-all_loaded w rhs made, failed') refl
          | inr (ps, rhs', run) ↦
              rw
                (
                  run.flat,
                  length-all_loaded w rhs made,
                  run.on_rows,
                  back_fill_flat-mixed w info.columns info.band_width ps rhs',
                )
                refl
        ]

    same_info :
        (info : Result (RbInfo d.Num))
        → info ≡ rb_info_of d hw (length keys) params
        → 0 < length keys
        → (do
          cfg ← info
          made ← rb_rows_flat aes hw keys values w cfg.columns cfg.band_width params
          flat_run cfg made)
          ≡ (do
            cfg ← info
            made ← rb_rows aes hw keys rows cfg.columns cfg.band_width params
            rows_run cfg made)
    same_info (err e) h some_key = refl
    same_info (ok info) h some_key =
        let res = rb_info_of-IsResolved d hw (length keys) params cast (sym h) in
        let (made, rhs, made_both) =
          rb_rows_flat-IsMade aes hw keys values w info.columns info.band_width params rows flat
            size some_width some_key res.band_pos res.band_mask res.band_table in
        rw (made_both.flat_run, made_both.on_rows)
          (same_run info made rhs res.band_mask made_both.apart)

    -- For a truncating conversion of doubles and rows of a positive width, one for each key, RBEncode
    -- of the rows in a flat array is RBEncode of the table of the rows to a flat table, whatever
    -- either returns or throws.
    pub rb_encode_flat-rb_encode_mixed :
        rb_encode_flat d aes hw keys values w params ≡ rb_encode_mixed d aes hw keys rows w params
    unfolding rb_encode_flat rb_encode_mixed
    rb_encode_flat-rb_encode_mixed = elim (Bool-cases (length keys == 0)) [
      | inl empty ↦ rw empty refl
      | inr full ↦
          let some_key : 0 < length keys = ground arith in
          let values_size : length values ≡ length keys * w = flat.size ∙ ap (λ n. n * w) size in
          let matches : (w == 0 || not (length values == length keys * w)) ≡ false =
            ground (arith, values_size) in
          let first : (length rows == 0 || not (length (get_or rows 0 []) == w)) ≡ false =
            ground (arith, IsFlat-width w rows values flat 0) in
          rw (full, matches, first) (same_info (rb_info_of d hw (length keys) params) refl some_key)
    ]
