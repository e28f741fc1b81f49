-- ===== src/Okvs/Flat/Blocks.antt =====
-- RBDecode on one block for each key returns the blocks that RBEncode was given.
use pq_psi.Base.{
  ℕ, zero, suc, ◌≤◌, ◌<◌, ◌≡◌, refl, sym, ◌∙◌, ap, arith, ◌⊎◌, inl, inr, Bool-cases, ◌==◌, not,
  List, [], ◌∷◌, map, length, get_or, ok, Option, none, some, >>=-eq-ok, throw_if-eq-ok,
  ok-injective,
}
use mathlib.Core.Option
use pq_psi.Okvs.Double.{Double}
use pq_psi.Okvs.Params.{RbParams}
use pq_psi.Okvs.Fit.Bounds.{Truncates}
use pq_psi.Okvs.Codec.{rb_encode}
use pq_psi.Okvs.Codec.Encode.{rb_encode-IsEncoded, rb_encode_empty}
use pq_psi.Okvs.Codec.Correct.{rb_decode-rb_encode}
use pq_psi.Okvs.Flat.{rb_encode_blocks, rb_decode_blocks}

abbrev single : ℕ → List ℕ
single v = v ∷ []

abbrev head : List ℕ → ℕ
head row = get_or row 0 0

length-singles : (xs : List ℕ) → length (map single xs) ≡ length xs
length-singles [] = refl
length-singles (x ∷ xs) = ap suc (length-singles xs)

length-heads : (rows : List (List ℕ)) → length (map head rows) ≡ length rows
length-heads [] = refl
length-heads (r ∷ rows) = ap suc (length-heads rows)

get_or-singles :
    (xs : List ℕ) (i : ℕ) → i < length xs → get_or (map single xs) i [] ≡ single (get_or xs i 0)
get_or-singles [] i h = absurd (omega arith)
get_or-singles (x ∷ xs) zero h = refl
get_or-singles (x ∷ xs) (suc i) h = get_or-singles xs i (omega arith)

get_or-heads : (rows : List (List ℕ)) (i : ℕ) → get_or (map head rows) i 0 ≡ head (get_or rows i [])
get_or-heads [] i = refl
get_or-heads (r ∷ rows) zero = refl
get_or-heads (r ∷ rows) (suc i) = get_or-heads rows i

single-head : (row : List ℕ) → length row ≡ 1 → single (head row) ≡ row
single-head [] h = absurd (omega arith)
single-head (x ∷ []) h = refl
single-head (x ∷ y ∷ row) h = absurd (omega arith)

singles-heads :
    (rows : List (List ℕ))
    → ((i : ℕ) → i < length rows → length (get_or rows i []) ≡ 1)
    → map single (map head rows) ≡ rows
singles-heads [] h = refl
singles-heads (r ∷ rows) h =
    rw (single-head r (h 0 (omega arith)), singles-heads rows (λ i l. h (suc i) (omega arith))) refl

module _ (d : Double) (aes : ℕ → ℕ → ℕ) (hw : ℕ) (keys values : List ℕ) (params : RbParams d.Num)
    (t : List ℕ) where
  -- The table of rows of one block behind a table of blocks.
  rows_of :
      (table : Option (List (List ℕ)))
      → Option.map (map head) table ≡ some t
      → (rows : List (List ℕ)) × (table ≡ some rows) × (map head rows ≡ t)
  rows_of none h = absurd (cc h)
  rows_of (some rows) h = (rows, refl, cc h)

  widths :
      (rows : List (List ℕ))
      → Truncates d
      → length keys ≡ length values
      → rb_encode d aes hw keys (map single values) params ≡ ok (some rows)
      → (i : ℕ) → i < length rows
      → length (get_or rows i []) ≡ 1
  widths rows cast same e i l = elim (Bool-cases (length keys == 0)) [
    | inl empty ↦
        let none_left = rb_encode_empty d aes hw keys (map single values) params empty e in
        absurd (omega (arith, ap length none_left))
    | inr full ↦
        let some_key : 0 < length keys = ground arith in
        let (columns, band_width, encoded) =
          rb_encode-IsEncoded d aes hw keys (map single values) params rows cast some_key e in
        encoded.is_table.width i (omega (arith, encoded.is_table.size))
        ∙ ap length (get_or-singles values 0 (omega arith))
  ]

  encoded_rows :
      rb_encode_blocks d aes hw keys values params ≡ ok (some t)
      → (length keys ≡ length values)
        × ((rows : List (List ℕ)) × (rb_encode d aes hw keys (map single values) params
              ≡ ok (some rows))
            × (map head rows ≡ t))
  unfolding rb_encode_blocks
  encoded_rows h =
      let (same, rest) = throw_if-eq-ok (not (length keys == length values)) _ _ h in
      let (table, e, mapped) =
        >>=-eq-ok (rb_encode d aes hw keys (map single values) params) _ rest in
      let (rows, f, g) = rows_of table (ok-injective mapped) in
      (ground arith, (rows, e ∙ ap ok f, g))

  -- For a truncating conversion of doubles, when RBEncode of one block for each key returns a
  -- table of blocks, and the number of columns asked for is zero or at least the number of keys,
  -- RBDecode of that table on as many queries as there were keys returns as many blocks, and at
  -- every query that is one of the keys the block of that key.
  pub rb_decode_blocks-rb_encode_blocks :
      (queries : List ℕ)
      → Truncates d
      → rb_encode_blocks d aes hw keys values params ≡ ok (some t)
      → length queries ≡ length keys
      → (params.columns ≡ 0) ⊎ (length keys ≤ params.columns)
      → (out : List ℕ) × (rb_decode_blocks d aes hw t queries params ≡ ok out)
        × (length out ≡ length queries)
        × ((i j : ℕ)
            → i < length keys
            → j < length queries
            → get_or queries j 0 ≡ get_or keys i 0
            → get_or out j 0 ≡ get_or values i 0)
  unfolding rb_decode_blocks
  rb_decode_blocks-rb_encode_blocks queries cast h size cols =
      let (same, (rows, e, heads)) = encoded_rows h in
      let back : map single t ≡ rows =
        ap (map single) (sym heads) ∙ singles-heads rows (widths rows cast same e) in
      let (out, run, out_size, right) =
        rb_decode-rb_encode d aes hw keys (map single values) params rows queries cast e size
          cols in
      (
        map head out,
        rw (back, run) refl,
        length-heads out ∙ out_size,
        λ i j l m query.
            get_or-heads out j
            ∙ ap head (right i j l m query ∙ get_or-singles values i (omega arith)),
      )
