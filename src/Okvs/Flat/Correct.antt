-- ===== src/Okvs/Flat/Correct.antt =====
-- RBDecode on flat arrays returns the rows that RBEncode on flat arrays was given.
use native.Mathlib.Nat.{zero-mul}
use pq_psi.Base.{
  ℕ, ◌*◌, ◌≤◌, ◌<◌, ◌≡◌, refl, sym, ◌∙◌, ap, arith, ◌⊎◌, inl, inr, true, Bool-cases, ◌==◌, List, [],
  length, get_or, slice, Result, ok, err, Option, none, some, subst,
}
use pq_psi.Okvs.Double.{Double}
use pq_psi.Okvs.Params.{RbParams}
use pq_psi.Okvs.Fit.Bounds.{Truncates}
use pq_psi.Okvs.Codec.{rb_encode}
use pq_psi.Okvs.Codec.Correct.{rb_decode-rb_encode}
use pq_psi.Okvs.Flat.{rb_encode_flat, rb_decode_flat}
use pq_psi.Okvs.Flat.Fill.{IsFlat, IsFlat-width, slices, length-slices, IsFlat-slices}
use pq_psi.Okvs.Flat.Encode.{IsFlatRun, rb_encode_mixed-IsFlatRun, rb_encode_flat-rb_encode_mixed}
use pq_psi.Okvs.Flat.Decode.{IsFlatOut, rb_decode_flat-IsFlatOut}

IsFlatRun-some :
    (w : ℕ) (run : Result (Option (List (List ℕ)))) (t : List ℕ)
    → IsFlatRun w run (ok (some t))
    → (rows : List (List ℕ)) × (run ≡ ok (some rows)) × IsFlat w rows t
IsFlatRun-some w (err e) t h = absurd h
IsFlatRun-some w (ok none) t h = absurd h
IsFlatRun-some w (ok (some rows)) t h = (rows, refl, h)

IsFlatOut-ok :
    (w : ℕ) (rows : List (List ℕ)) (run : Result (List ℕ))
    → IsFlatOut w (ok rows) run
    → (t : List ℕ) × (run ≡ ok t) × IsFlat w rows t
IsFlatOut-ok w rows (err e) h = absurd h
IsFlatOut-ok w rows (ok t) h = (t, refl, h)

module _ (d : Double) (aes : ℕ → ℕ → ℕ) (hw : ℕ) (keys : List ℕ) (rows : List (List ℕ))
    (values : List ℕ) (w : ℕ) (params : RbParams d.Num) (t queries : List ℕ) where
  -- The decoded array holds the value of every key that is queried.
  abbrev Answers : Type 0
  Answers =
      (out : List ℕ) × (rb_decode_flat d aes hw t w queries params ≡ ok out)
      × (length out ≡ length queries * w)
      × ((i j : ℕ)
          → i < length keys
          → j < length queries
          → get_or queries j 0 ≡ get_or keys i 0
          → slice w out (j * w) ≡ slice w values (i * w))

  answers_empty : length keys ≡ 0 → length queries ≡ length keys → t ≡ [] → Answers
  unfolding rb_decode_flat
  answers_empty none_left size same =
      let no_query : length queries ≡ 0 = omega arith in
      (
        [],
        rw same refl,
        sym (zero-mul w) ∙ ap (λ n. n * w) (sym no_query),
        λ i j l. absurd (omega arith),
      )

  encode_empty :
      (length keys == 0) ≡ true
      → rb_encode_flat d aes hw keys values w params ≡ ok (some t)
      → t ≡ []
  unfolding rb_encode_flat
  encode_empty empty h = cc (rw empty at h)

  answers_full :
      Truncates d
      → 0 < w
      → IsFlat w rows values
      → length rows ≡ length keys
      → 0 < length keys
      → rb_encode_flat d aes hw keys values w params ≡ ok (some t)
      → length queries ≡ length keys
      → (params.columns ≡ 0) ⊎ (length keys ≤ params.columns)
      → Answers
  answers_full cast some_width flat count some_key h size cols =
      let first : length (get_or rows 0 []) ≡ w = IsFlat-width w rows values flat 0 (omega arith) in
      let mixed =
        sym (
          rb_encode_flat-rb_encode_mixed d aes hw keys params rows values w cast some_width flat
            count)
        ∙ h in
      let alike =
        rw first at (rb_encode_mixed-IsFlatRun d aes hw keys params rows cast (omega arith)) in
      let (table, e, is_flat) =
        IsFlatRun-some w (rb_encode d aes hw keys rows params) t
          (subst (IsFlatRun w _) mixed alike) in
      let (out, f, out_size, right) =
        rb_decode-rb_encode d aes hw keys rows params table queries cast e size cols in
      let decoded =
        rw f at (rb_decode_flat-IsFlatOut d aes hw queries params w table t is_flat some_width) in
      let (out', g, out_flat) = IsFlatOut-ok w out _ decoded in
      (
        out',
        g,
        out_flat.size ∙ ap (λ n. n * w) out_size,
        λ i j l m same.
            out_flat.row j (omega arith) ∙ right i j l m same ∙ sym (flat.row i (omega arith)),
      )

module _ (d : Double) (aes : ℕ → ℕ → ℕ) (hw : ℕ) (keys values : List ℕ) (w : ℕ)
    (params : RbParams d.Num) (t queries : List ℕ) where
  -- For a truncating conversion of doubles, when RBEncode of a flat array of one row of a
  -- positive width for each key returns a table, and the number of columns asked for is zero or at least the number of
  -- keys, RBDecode of that table on as many queries as there were keys returns a flat array of as
  -- many rows, and at every query that is one of the keys its slice is the slice of that key.
  pub rb_decode_flat-rb_encode_flat :
      Truncates d
      → 0 < w
      → length values ≡ length keys * w
      → rb_encode_flat d aes hw keys values w params ≡ ok (some t)
      → length queries ≡ length keys
      → (params.columns ≡ 0) ⊎ (length keys ≤ params.columns)
      → (out : List ℕ) × (rb_decode_flat d aes hw t w queries params ≡ ok out)
        × (length out ≡ length queries * w)
        × ((i j : ℕ)
            → i < length keys
            → j < length queries
            → get_or queries j 0 ≡ get_or keys i 0
            → slice w out (j * w) ≡ slice w values (i * w))
  rb_decode_flat-rb_encode_flat cast some_width whole h size cols =
      let rows = slices w values (length keys) 0 in
      elim (Bool-cases (length keys == 0)) [
        | inl empty ↦
            answers_empty d aes hw keys rows values w params t queries (ground arith) size
              (encode_empty d aes hw keys rows values w params t queries empty h)
        | inr full ↦
            answers_full d aes hw keys rows values w params t queries cast some_width
              (IsFlat-slices w (length keys) values whole) (length-slices w values (length keys) 0)
              (ground arith) h size cols
      ]
