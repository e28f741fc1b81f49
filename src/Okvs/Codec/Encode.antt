-- ===== src/Okvs/Codec/Encode.antt =====
-- What a successful RBEncode leaves: a table that solves the equation of every key.
use pq_psi.Base.{
  ℕ, ◌≤◌, ◌<◌, max, ◌≡◌, true, false, refl, sym, ◌∙◌, arith, inl, inr, ◌==◌, List, [], length,
  get_or, ok, >>=-eq-ok, ok-injective, some,
}
use pq_psi.Okvs.Double.{Double}
use pq_psi.Okvs.Params.{RbParams, RbInfo}
use pq_psi.Okvs.Fit.{rb_info_of, rb_table_w, rb_table_size}
use pq_psi.Okvs.Fit.Bounds.{Truncates, IsResolved, rb_info_of-IsResolved}
use pq_psi.Okvs.Rows.{RbRow, rb_make_hash_ctx, rb_rows}
use pq_psi.Okvs.Rows.Valid.{rb_row_bits-IsBand, rb_start_room}
use pq_psi.Okvs.Rows.Made.{IsRowOf, IsRows, rb_rows-IsRows}
use pq_psi.Okvs.Rows.Sort.{all_families}
use pq_psi.Okvs.Codec.{Pivoted, rb_encode, rb_decode}
use pq_psi.Okvs.Codec.Equation.{IsRow, Solves}
use pq_psi.Okvs.Codec.Forward.{IsForward, forward-IsForward}
use pq_psi.Okvs.Codec.Solve.{component, IsTable, IsSolution, back_fill-IsSolution}

module _ (d : Double) (aes : ℕ → ℕ → ℕ) (hw : ℕ) (keys : List ℕ) (values : List (List ℕ))
    (params : RbParams d.Num) where
  abbrev val_width : ℕ
  val_width = length (get_or values 0 [])

  pub record IsEncoded (columns band_width : ℕ) (table : List (List ℕ)) : Type 0 where
    pub is_table : IsTable columns (length (get_or values 0 [])) table
    pub some_width : 0 < length (get_or values 0 [])
    pub band_pos : 1 ≤ band_width
    pub band_mask : band_width ≤ 256
    pub band_table : band_width ≤ columns
    pub resolved : columns ≡ rb_table_size d (length keys) params
    pub decoder : rb_table_w d (length keys) columns params ≡ ok band_width
    -- The equation of each key holds.
    pub solved :
        (i : ℕ)
        → i < length keys
        → (r : RbRow) × IsRowOf aes hw keys values columns band_width params i r
          × IsRow columns band_width (length (get_or values 0 [])) r
          × ((k : ℕ)
              → Solves columns band_width (length (get_or values 0 [])) (component table k) k r)

  -- The row of a key is valid in a resolved table.
  pub IsRowOf-IsRow :
      (columns band_width i : ℕ) (r : RbRow)
      → 1 ≤ band_width
      → band_width ≤ 256
      → band_width ≤ columns
      → IsRowOf aes hw keys values columns band_width params i r
      → IsRow columns band_width val_width r
  IsRowOf-IsRow columns band_width i r p q w row =
      let key = get_or keys i 0 in
      let ctx = rb_make_hash_ctx params in
      let (bits, e, band) = rb_row_bits-IsBand aes key ctx band_width p q in
      let same : bits ≡ r.bits = ok-injective (sym e ∙ row.bits) in
      record {
        band = rw same at band;
        room = rw row.start (rb_start_room aes key ctx columns band_width w);
        width = row.width;
      }

  encoded :
      (info : RbInfo d.Num) (rows : List RbRow) (ps : List Pivoted) (table : List (List ℕ))
      → 0 < length keys
      → IsResolved d (length keys) params info
      → IsRows aes hw keys values info.columns info.band_width params rows
      → (small : info.band_width ≤ 256)
      → IsForward info.columns info.band_width val_width small rows ps
      → IsTable info.columns val_width table
      → IsSolution info.columns info.band_width val_width small ps table
      → IsEncoded info.columns info.band_width table
  encoded info rows ps table some_key res is_rows small fwd is_table sol =
      let n : max (length keys) 1 ≡ length keys = omega arith in
      record {
        is_table = is_table;
        some_width = is_rows.some_width;
        band_pos = res.band_pos;
        band_mask = small;
        band_table = res.band_table;
        resolved = rw n at res.columns;
        decoder = rw n at res.band_decoder;
        solved = λ i l.
            let (r, row, solves) =
              is_rows.to_keys
                (λ r.
                  (k : ℕ) → Solves info.columns info.band_width val_width (component table k) k r)
                (all_families
                  (λ k r. Solves info.columns info.band_width val_width (component table k) k r)
                  rows (λ k. fwd.implied (component table k) k (sol k)))
                i l in
            (
              r,
              row,
              IsRowOf-IsRow info.columns info.band_width i r res.band_pos small res.band_table row,
              solves,
            );
      }

  pub rb_encode-IsEncoded :
      (table : List (List ℕ))
      → Truncates d
      → 0 < length keys
      → rb_encode d aes hw keys values params ≡ ok (some table)
      → (columns : ℕ) × (band_width : ℕ) × IsEncoded columns band_width table
  unfolding rb_encode
  rb_encode-IsEncoded table cast some_key h =
      let has_key : (length keys == 0) ≡ false = ground arith in
      let body = rw has_key at h in
      let (info, e, rest) = >>=-eq-ok (rb_info_of d hw (length keys) params) _ body in
      let res = rb_info_of-IsResolved d hw (length keys) params cast e in
      let (rows, f, run) =
        >>=-eq-ok (rb_rows aes hw keys values info.columns info.band_width params) _ rest in
      let is_rows =
        rb_rows-IsRows aes hw keys values info.columns info.band_width params rows some_key f in
      let small = res.band_mask in
      let step =
        forward-IsForward info.columns info.band_width val_width small (length rows) 0 rows
          (omega arith) is_rows.sorted
          (is_rows.of_keys (IsRow info.columns info.band_width val_width) (λ i r l row.
            IsRowOf-IsRow info.columns info.band_width i r res.band_pos small res.band_table
              row)) in
      elim step [
        | inl failed ↦ absurd (cc (rw failed at run))
        | inr (ps, g, fwd) ↦
            let (filled, b, is_table, sol) =
              back_fill-IsSolution info.columns info.band_width val_width small ps fwd.echelon in
            let done = rw (g, b) at run in
            let same : filled ≡ table = cc done in
            (
              info.columns,
              info.band_width,
              rw same at (encoded info rows ps filled some_key res is_rows small fwd is_table sol),
            )
      ]

  pub rb_encode_empty :
      {table : List (List ℕ)}
      → (length keys == 0) ≡ true
      → rb_encode d aes hw keys values params ≡ ok (some table)
      → table ≡ []
  unfolding rb_encode
  rb_encode_empty empty h = cc (rw empty at h)

pub rb_decode_empty :
    (d : Double) (aes : ℕ → ℕ → ℕ) (hw : ℕ) (queries : List ℕ) (params : RbParams d.Num)
    → rb_decode d aes hw [] queries params ≡ ok []
unfolding rb_decode
rb_decode_empty d aes hw queries params = refl
