-- ===== src/Okvs/Flat/Made.antt =====
-- The rows of RBRowsFlat are those of RBRows, in slots apart from each other.
use pq_psi.Base.{
  ℕ, zero, suc, ◌+◌, ◌*◌, ◌≤◌, ◌<◌, ◌≡◌, refl, sym, ◌∙◌, ap, arith, inl, true, false, ltb, ◌==◌,
  List, [], ◌∷◌, length, get_or, replicate, length-replicate, Result, ok, slice, ok-injective,
}
use pq_psi.Okvs.Params.{RbParams}
use pq_psi.Okvs.Rows.{RbRow, RbHashCtx, rb_make_hash_ctx, rb_start, make_row, no_row, rb_rows}
use pq_psi.Okvs.Rows.Fill.{rb_for-IsFilled, rb_for-total}
use pq_psi.Okvs.Rows.Valid.{rb_row_bits-IsBand}
use pq_psi.Okvs.Flat.{RbFlatRow, make_flat_row, no_flat_row, sort_flat_rows, rb_rows_flat}
use pq_psi.Okvs.Flat.Slots.{
  AllFrom, AllApart, slots, loaded, all_loaded, all_loaded-sort, AllApart-sort,
}
use pq_psi.Okvs.Flat.Fill.{IsFlat, IsFlat-width, IsFlat-replicate, slot_fits, rb_for_rows-IsFlat}

pub eq_of_entries :
    {A : Type 0} (d : A) (a b : List A)
    → length a ≡ length b
    → ((i : ℕ) → i < length a → get_or a i d ≡ get_or b i d)
    → a ≡ b
eq_of_entries d [] [] e h = refl
eq_of_entries d [] (y ∷ b) e h = absurd (omega arith)
eq_of_entries d (x ∷ a) [] e h = absurd (omega arith)
eq_of_entries d (x ∷ a) (y ∷ b) e h =
    let first = h 0 (omega arith) in
    let tails = eq_of_entries d a b (omega arith) (λ i l. h (suc i) (omega arith)) in cc first

pub length-all_loaded :
    (w : ℕ) (rhs : List ℕ) (rs : List RbFlatRow) → length (all_loaded w rhs rs) ≡ length rs
length-all_loaded w rhs [] = refl
length-all_loaded w rhs (r ∷ rs) = ap suc (length-all_loaded w rhs rs)

get_or-all_loaded :
    (w : ℕ) (rhs : List ℕ) (rs : List RbFlatRow) (i : ℕ)
    → i < length rs
    → get_or (all_loaded w rhs rs) i no_row ≡ loaded w rhs (get_or rs i no_flat_row)
get_or-all_loaded w rhs [] i h = absurd (omega arith)
get_or-all_loaded w rhs (r ∷ rs) zero h = refl
get_or-all_loaded w rhs (r ∷ rs) (suc i) h = get_or-all_loaded w rhs rs i (omega arith)

-- Rows in the slots from `b * w` on.
abbrev InSlots : ℕ → ℕ → List RbFlatRow → Type 0
InSlots w b rs = (i : ℕ) → i < length rs → (get_or rs i no_flat_row).rhs ≡ (b + i) * w

InSlots-tail :
    (w b : ℕ) (r : RbFlatRow) (rs : List RbFlatRow) → InSlots w b (r ∷ rs) → InSlots w (b + 1) rs
InSlots-tail w b r rs h i l =
    let e : b + suc i ≡ b + 1 + i = omega arith in h (suc i) (omega arith) ∙ ap (λ x. x * w) e

AllFrom-slots :
    (w a b : ℕ) (rs : List RbFlatRow) → a < b → InSlots w b rs → AllFrom w (a * w) (slots rs)
AllFrom-slots w a b [] h at = tt
AllFrom-slots w a b (r ∷ rs) h at =
    let e : b + 0 ≡ b = omega arith in
    let first : r.rhs ≡ b * w = at 0 (omega arith) ∙ ap (λ x. x * w) e in
    (
      inl (rw first (slot_fits w a b h)),
      AllFrom-slots w a (b + 1) rs (omega arith) (InSlots-tail w b r rs at),
    )

AllApart-slots :
    (w b n : ℕ) (rs : List RbFlatRow)
    → b + length rs ≤ n
    → InSlots w b rs
    → AllApart w (n * w) (slots rs)
AllApart-slots w b n [] h at = tt
AllApart-slots w b n (r ∷ rs) h at =
    let e : b + 0 ≡ b = omega arith in
    let first : r.rhs ≡ b * w = at 0 (omega arith) ∙ ap (λ x. x * w) e in
    (
      rw first (slot_fits w b n (omega arith)),
      rw first (AllFrom-slots w b (b + 1) rs (omega arith) (InSlots-tail w b r rs at)),
      AllApart-slots w (b + 1) n rs (omega arith) (InSlots-tail w b r rs at),
    )

module _ {Num : Type 0} (aes : ℕ → ℕ → ℕ) (hw : ℕ) (keys values : List ℕ) (w columns band_width : ℕ)
    (params : RbParams Num) (rows : List (List ℕ)) (flat : IsFlat w rows values)
    (size : length rows ≡ length keys) (some_width : 0 < w) (some_key : 0 < length keys)
    (pos : 1 ≤ band_width) (small : band_width ≤ 256) (room : band_width ≤ columns) where
  -- What RBRowsFlat returns.
  pub record IsMade (rs : List RbFlatRow) (rhs : List ℕ) : Type 0 where
    pub flat_run : rb_rows_flat aes hw keys values w columns band_width params ≡ ok (rs, rhs)
    pub on_rows : rb_rows aes hw keys rows columns band_width params ≡ ok (all_loaded w rhs rs)
    pub apart : AllApart w (length rhs) (slots rs)

  abbrev ctx' : RbHashCtx
  ctx' = rb_make_hash_ctx params

  row_width_of : (i : ℕ) → i < length keys → length (get_or rows i []) ≡ w
  row_width_of i h = IsFlat-width w rows values flat i (omega arith)

  make_flat_row-total :
      (i : ℕ) → (r : RbFlatRow) × (make_flat_row aes keys w columns band_width ctx' i ≡ ok r)
  unfolding make_flat_row
  make_flat_row-total i =
      let (bits, e, band) = rb_row_bits-IsBand aes (get_or keys i 0) ctx' band_width pos small in
      (
        record {
          start = rb_start aes (get_or keys i 0) ctx' columns band_width;
          bits = bits;
          rhs = i * w;
        },
        rw e refl,
      )

  make_row-total :
      (i : ℕ)
      → i < length keys
      → (r : RbRow) × (make_row aes keys rows (length (get_or rows 0 [])) columns band_width ctx' i
          ≡ ok r)
  unfolding make_row
  make_row-total i h =
      let (bits, e, band) = rb_row_bits-IsBand aes (get_or keys i 0) ctx' band_width pos small in
      let same : (length (get_or rows i []) == length (get_or rows 0 [])) ≡ true =
        ground (arith, row_width_of i h, row_width_of 0 some_key) in
      (
        record {
          start = rb_start aes (get_or keys i 0) ctx' columns band_width;
          bits = bits;
          rhs = get_or rows i [];
        },
        rw (same, e) refl,
      )

  make_flat_row-slot :
      (i : ℕ) (r : RbFlatRow)
      → make_flat_row aes keys w columns band_width ctx' i ≡ ok r
      → r.rhs ≡ i * w
  unfolding make_flat_row
  make_flat_row-slot i r h =
      let (bits, e, band) = rb_row_bits-IsBand aes (get_or keys i 0) ctx' band_width pos small in
      cc (rw e at h)

  make_row-loaded :
      (i : ℕ) (r : RbFlatRow) (r' : RbRow) (rhs : List ℕ)
      → i < length keys
      → slice w rhs (i * w) ≡ get_or rows i []
      → make_flat_row aes keys w columns band_width ctx' i ≡ ok r
      → make_row aes keys rows (length (get_or rows 0 [])) columns band_width ctx' i ≡ ok r'
      → loaded w rhs r ≡ r'
  unfolding make_flat_row make_row
  make_row-loaded i r r' rhs h same e f =
      let (bits, run, band) = rb_row_bits-IsBand aes (get_or keys i 0) ctx' band_width pos small in
      let ok_width : (length (get_or rows i []) == length (get_or rows 0 [])) ≡ true =
        ground (arith, row_width_of i h, row_width_of 0 some_key) in
      let made = ok-injective (rw run at e) in
      let made' = ok-injective (rw (ok_width, run) at f) in
      sym (ap (loaded w rhs) made) ∙ rw same made'

  pub rb_rows_flat-IsMade : (rs : List RbFlatRow) × (rhs : List ℕ) × IsMade rs rhs
  unfolding rb_rows rb_rows_flat
  rb_rows_flat-IsMade =
      let n = length keys in
      let zero_row : List ℕ = replicate w 0 in
      let zeros : List (List ℕ) = replicate n zero_row in
      let spare : List RbFlatRow = replicate n no_flat_row in
      let blank : List RbRow = replicate n no_row in
      let f = make_flat_row aes keys w columns band_width ctx' in
      let g = make_row aes keys rows (length (get_or rows 0 [])) columns band_width ctx' in
      let (rs, run) =
        rb_for-total f no_flat_row hw n params.multi_thread params.worker_threads spare
          (λ i l. make_flat_row-total i) in
      let (rs', run') =
        rb_for-total g no_row hw n params.multi_thread params.worker_threads blank
          (λ i l. make_row-total i l) in
      let filled =
        rb_for-IsFilled f no_flat_row hw n params.multi_thread params.worker_threads spare rs
          (omega (arith, length-replicate n no_flat_row)) run in
      let filled' =
        rb_for-IsFilled g no_row hw n params.multi_thread params.worker_threads blank rs'
          (omega (arith, length-replicate n no_row)) run' in
      let h : ℕ → Result (List ℕ) = λ i. ok (slice w values (i * w)) in
      let (copied, rhs, run_rows, run_flat, flat', count) =
        rb_for_rows-IsFlat w h (λ i row. h i) hw n params.multi_thread params.worker_threads zeros
          (replicate (n * w) 0) (omega (arith, length-replicate n zero_row)) (IsFlat-replicate w n)
          (λ i l. (
            slice w values (i * w),
            refl,
            refl,
            ap length (flat.row i (omega arith)) ∙ row_width_of i l,
          )) in
      let source =
        rb_for-IsFilled h [] hw n params.multi_thread params.worker_threads zeros copied
          (omega (arith, length-replicate n zero_row)) run_rows in
      let here : (i : ℕ) → i < n → slice w rhs (i * w) ≡ get_or rows i [] = λ i l.
        flat'.row i (omega (arith, length-replicate n zero_row))
        ∙ sym (ok-injective (source.inside i (omega arith) (omega arith)))
        ∙ flat.row i (omega arith) in
      let count_rs : length rs ≡ n = filled.size ∙ length-replicate n no_flat_row in
      let count_rs' : length rs' ≡ n = filled'.size ∙ length-replicate n no_row in
      let same : all_loaded w rhs rs ≡ rs' =
        eq_of_entries no_row _ _ (omega (arith, length-all_loaded w rhs rs)) (λ i l.
          let l' : i < n = omega (arith, length-all_loaded w rhs rs) in
          get_or-all_loaded w rhs rs i (omega arith)
          ∙ make_row-loaded i _ _ rhs l' (here i l') (filled.inside i (omega arith) (omega arith))
              (filled'.inside i (omega arith) (omega arith))) in
      let total : length rhs ≡ n * w =
        flat'.size ∙ ap (λ x. x * w) (count ∙ length-replicate n zero_row) in
      let full : (n == 0) ≡ false = ground arith in
      let wide : (length (get_or rows 0 []) == 0) ≡ false =
        ground (arith, row_width_of 0 some_key) in
      let narrow : ltb columns band_width ≡ false = ground arith in
      let sizes : (n == length rows) ≡ true = ground arith in
      let positive : (w == 0) ≡ false = ground arith in
      let values_size : length values ≡ n * w = flat.size ∙ ap (λ x. x * w) size in
      let matches : (length values == n * w) ≡ true = ground (arith, values_size) in
      (
        sort_flat_rows rs,
        rhs,
        record {
          flat_run = rw (positive, matches, full, narrow, run, values_size, run_flat) refl;
          on_rows = rw (sizes, full, wide, narrow, run', ← same, all_loaded-sort w rhs rs) refl;
          apart = AllApart-sort w (length rhs) rs (
              rw total (
                AllApart-slots w 0 n rs (omega arith) (λ i l.
                  let e : 0 + i ≡ i = omega arith in
                  make_flat_row-slot i _ (filled.inside i (omega arith) (omega arith))
                  ∙ ap (λ x. x * w) (sym e))));
        },
      )
