-- ===== src/Okvs/Rows/Made.antt =====
-- The rows of RBRows: one valid row for each key, sorted by start.
use pq_psi.Base.{
  ℕ, ◌≤◌, ◌<◌, ◌≡◌, false, refl, ◌∙◌, arith, not, ◌==◌, ltb, List, [], length, get_or, replicate,
  length-replicate, ok, >>=-eq-ok, throw_if-eq-ok, ok-injective, subst,
}
use pq_psi.Okvs.Params.{RbParams}
use pq_psi.Okvs.Rows.{
  RbRow, rb_make_hash_ctx, rb_for, rb_start, rb_row_bits, make_row, no_row, sort_rows, rb_rows,
}
use pq_psi.Okvs.Rows.Fill.{IsFilled, rb_for-IsFilled}
use pq_psi.Okvs.Rows.Sort.{
  AllRows, SortedFrom, sort_rows-SortedFrom, length-sort_rows, all-sort_rows, sort_rows-all,
  all-get_or, get_or-all,
}

module _ {Num : Type 0} (aes : ℕ → ℕ → ℕ) (hw : ℕ) (keys : List ℕ) (values : List (List ℕ))
    (columns band_width : ℕ) (params : RbParams Num) where
  -- `r` is the row of key `i` with its value.
  pub record IsRowOf (i : ℕ) (r : RbRow) : Type 0 where
    pub start :
        r.start ≡ rb_start aes (get_or keys i 0) (rb_make_hash_ctx params) columns band_width
    pub bits : rb_row_bits aes (get_or keys i 0) (rb_make_hash_ctx params) band_width ≡ ok r.bits
    pub rhs : r.rhs ≡ get_or values i []
    pub width : length r.rhs ≡ length (get_or values 0 [])

  pub record IsRows (rows : List RbRow) : Type 1 where
    pub values_size : length keys ≡ length values
    pub some_width : 0 < length (get_or values 0 [])
    pub room : band_width ≤ columns
    pub sorted : SortedFrom 0 rows
    pub size : length rows ≡ length keys
    -- What holds of the row of each key holds of the rows, and the other way.
    pub of_keys :
        (P : RbRow → Type 0)
        → ((i : ℕ) (r : RbRow) → i < length keys → IsRowOf i r → P r)
        → AllRows P rows
    pub to_keys :
        (P : RbRow → Type 0)
        → AllRows P rows
        → (i : ℕ) → i < length keys
        → (r : RbRow) × IsRowOf i r × P r

  make_row-IsRowOf :
      (i : ℕ) (r : RbRow)
      → make_row aes keys values
          (length (get_or values 0 []))
          columns
          band_width
          (rb_make_hash_ctx params)
          i
        ≡ ok r
      → IsRowOf i r
  unfolding make_row
  make_row-IsRowOf i r h =
      let (same, rest) =
        throw_if-eq-ok (not (length (get_or values i []) == length (get_or values 0 []))) _ _ h in
      let (bits, e, made) =
        >>=-eq-ok (rb_row_bits aes (get_or keys i 0) (rb_make_hash_ctx params) band_width) _ rest in
      subst (IsRowOf i) (ok-injective made)
        (record { start = refl; bits = e; rhs = refl; width = ground arith })

  IsRows-of :
      (rs : List RbRow)
      → length keys ≡ length values
      → 0 < length (get_or values 0 [])
      → band_width ≤ columns
      → IsFilled
          (make_row aes keys values
            (length (get_or values 0 []))
            columns
            band_width
            (rb_make_hash_ctx params))
          no_row
          (length keys)
          0
          (replicate (length keys) no_row)
          rs
      → IsRows (sort_rows rs)
  IsRows-of rs p q w filled =
      let size : length rs ≡ length keys = filled.size ∙ length-replicate (length keys) no_row in
      let row : (i : ℕ) → i < length keys → IsRowOf i (get_or rs i no_row) =
        λ i l. make_row-IsRowOf i _ (filled.inside i (omega arith) (omega arith)) in
      record {
        values_size = p;
        some_width = q;
        room = w;
        sorted = sort_rows-SortedFrom rs;
        size = length-sort_rows rs ∙ size;
        of_keys = λ P h. all-sort_rows P rs (
            all-get_or P no_row rs
              (λ i l. h i (get_or rs i no_row) (omega arith) (row i (omega arith))));
        to_keys = λ P all i l. (
          get_or rs i no_row,
          row i l,
          get_or-all P no_row rs i (sort_rows-all P rs all) (omega arith),
        );
      }

  pub rb_rows-IsRows :
      (rows : List RbRow)
      → 0 < length keys
      → rb_rows aes hw keys values columns band_width params ≡ ok rows
      → IsRows rows
  unfolding rb_rows
  rb_rows-IsRows rows some_key h =
      let (same, rest) = throw_if-eq-ok (not (length keys == length values)) _ _ h in
      let has_key : (length keys == 0) ≡ false = ground arith in
      let body = rw has_key at rest in
      let (width, rest2) = throw_if-eq-ok (length (get_or values 0 []) == 0) _ _ body in
      let (narrow, rest3) = throw_if-eq-ok (ltb columns band_width) _ _ rest2 in
      let f =
        make_row aes keys values (length (get_or values 0 [])) columns band_width
          (rb_make_hash_ctx params) in
      let (rs, run, made) =
        >>=-eq-ok
          (rb_for hw (length keys) params.multi_thread params.worker_threads f
            (replicate (length keys) no_row))
          _ rest3 in
      let filled =
        rb_for-IsFilled f no_row hw (length keys) params.multi_thread params.worker_threads
          (replicate (length keys) no_row) rs (omega (arith, length-replicate (length keys) no_row))
          run in
      subst IsRows (ok-injective made)
        (IsRows-of rs (ground arith) (ground arith) (ground arith) filled)
