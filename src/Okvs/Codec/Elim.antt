-- ===== src/Okvs/Codec/Elim.antt =====
-- The forward elimination: it never throws on rows of the table, keeps the solutions, and
-- leaves each pivot column to its row alone among the rows after it.
use pq_psi.Base.{
  ℕ, ◌+◌, ◌-◌, ◌≤◌, ◌<◌, ◌≡◌, refl, arith, inl, inr, Bool-cases, leb, ltb, not, ◌||◌, List, [], ◌∷◌,
  length, ok,
}
use pq_psi.Okvs.Bits.{rb_bit}
use pq_psi.Okvs.Bits.Words.{rb_bit-place, rb_bit-place_zero}
use pq_psi.Okvs.Bits.Lead.{IsLead}
use pq_psi.Okvs.Bits.XorShifted.{rb_xor_shifted-ok}
use pq_psi.Okvs.Rows.{RbRow}
use pq_psi.Okvs.Rows.Vector.{rb_xor-ok}
use pq_psi.Okvs.Rows.Sort.{SortedFrom, AllRows}
use pq_psi.Okvs.Codec.{eliminate}
use pq_psi.Okvs.Codec.Equation.{coef, IsRow, Solves, added, coef-added, IsRow-added, Solves-added}

module _ (columns band_width val_width : ℕ) (small : band_width ≤ 256) where
  abbrev pub IsRow' : RbRow → Type 0
  IsRow' = IsRow columns band_width val_width

  abbrev pub at : RbRow → ℕ → ℕ
  at = coef columns band_width val_width

  abbrev pub Solves' : (ℕ → ℕ) → ℕ → RbRow → Type 0
  Solves' = Solves columns band_width val_width

  -- `r'` is `r` with the pivot column cleared by `row`.
  pub record Reduced (row : RbRow) (pivot : ℕ) (r r' : RbRow) : Type 0 where
    pub valid : IsRow' r'
    pub start : r'.start ≡ r.start
    pub cleared : at r' pivot ≡ 0
    pub keeps : (c : ℕ) → at r c ≡ 0 → at row c ≡ 0 → at r' c ≡ 0
    pub implied : (t : ℕ → ℕ) (k : ℕ) → Solves' t k row → Solves' t k r' → Solves' t k r

  abbrev pub AllReduced : RbRow → ℕ → List RbRow → List RbRow → Type 0
  AllReduced row pivot [] [] = Unit
  AllReduced row pivot [] (r' ∷ rs') = ⊥
  AllReduced row pivot (r ∷ rs) [] = ⊥
  AllReduced row pivot (r ∷ rs) (r' ∷ rs') = Reduced row pivot r r' × AllReduced row pivot rs rs'

  module _ (row : RbRow) (lead : ℕ) (is_row : IsRow' row) (is_lead : IsLead row.bits lead)
      (in_band : lead < band_width) where
    Reduced-same :
        (r : RbRow) → IsRow' r → at r (row.start + lead) ≡ 0 → Reduced row (row.start + lead) r r
    Reduced-same r is_r h = record {
      valid = is_r;
      start = refl;
      cleared = h;
      keeps = λ c p q. p;
      implied = λ t k p q. q;
    }

    AllReduced-past :
        (s : ℕ) (rs : List RbRow)
        → row.start + lead < s
        → SortedFrom s rs
        → AllRows IsRow' rs
        → AllReduced row (row.start + lead) rs rs
    AllReduced-past s [] h sorted valid = tt
    AllReduced-past s (r ∷ rs) h sorted valid = (
      Reduced-same r valid.0 (ground arith),
      AllReduced-past r.start rs (omega arith) sorted.1 valid.1,
    )

    Reduced-added :
        (r : RbRow)
        → IsRow' r
        → row.start ≤ r.start
        → r.start ≤ row.start + lead
        → at r (row.start + lead) ≡ 1
        → Reduced row (row.start + lead) r (added columns band_width val_width row lead r)
    Reduced-added r is_r sorted reached h =
        let sum =
          coef-added columns band_width val_width row r lead is_row is_r small is_lead sorted
            reached in
        let is_set = is_lead.is_set in
        let back : row.start + lead - row.start ≡ lead = omega arith in
        let own : at row (row.start + lead) ≡ 1 = rw back (ground arith) in
        record {
          valid =
              IsRow-added columns band_width val_width row r lead is_row is_r small is_lead sorted
                reached;
          start = refl;
          cleared = omega (arith, sum (row.start + lead));
          keeps = λ c p q. omega (arith, sum c);
          implied =
              Solves-added columns band_width val_width row r lead is_row is_r small is_lead sorted
                reached;
        }

    pub eliminate-reduces :
        (s : ℕ) (rs : List RbRow)
        → row.start ≤ s
        → SortedFrom s rs
        → AllRows IsRow' rs
        → (rs' : List RbRow) × (eliminate row lead (row.start + lead) band_width rs ≡ ok rs')
          × AllReduced row (row.start + lead) rs rs'
    unfolding eliminate
    eliminate-reduces s [] p sorted valid = ([], refl, tt)
    eliminate-reduces s (r ∷ rs) p sorted valid =
        elim (Bool-cases (ltb (row.start + lead) r.start)) [
          | inl past ↦ (
            r ∷ rs,
            rw past refl,
            AllReduced-past r.start (r ∷ rs) (ground arith) (omega arith, sorted.1) valid,
          )
          | inr reached ↦
              let (rs', e, rest) = eliminate-reduces r.start rs (omega arith) sorted.1 valid.1 in
              let off = row.start + lead - r.start in
              elim (Bool-cases (leb band_width off || not (rb_bit r.bits off))) [
                | inl skip ↦ (
                  r ∷ rs',
                  rw (reached, skip, e) refl,
                  (Reduced-same r valid.0 (ground (arith, rb_bit-place_zero r.bits off)), rest),
                )
                | inr add ↦ (
                  added columns band_width val_width row lead r ∷ rs',
                  rw
                      (
                        reached,
                        add,
                        rb_xor_shifted-ok r.bits off row.bits lead band_width small,
                        rb_xor-ok r.rhs row.rhs (omega (arith, valid.0.width, is_row.width)),
                        e,
                      )
                      refl,
                  (
                    Reduced-added r valid.0 (omega arith) (ground arith)
                        (ground (arith, (rb_bit-place r.bits off).0)),
                    rest,
                  ),
                )
              ]
        ]

  pub reduced_valid :
      (row : RbRow) (c : ℕ) (rs rs' : List RbRow) → AllReduced row c rs rs' → AllRows IsRow' rs'
  reduced_valid row c [] [] h = tt
  reduced_valid row c [] (r' ∷ rs') h = absurd h
  reduced_valid row c (r ∷ rs) [] h = absurd h
  reduced_valid row c (r ∷ rs) (r' ∷ rs') h = (h.0.valid, reduced_valid row c rs rs' h.1)

  pub reduced_sorted :
      (row : RbRow) (c s : ℕ) (rs rs' : List RbRow)
      → AllReduced row c rs rs'
      → SortedFrom s rs
      → SortedFrom s rs'
  reduced_sorted row c s [] [] h p = tt
  reduced_sorted row c s [] (r' ∷ rs') h p = absurd h
  reduced_sorted row c s (r ∷ rs) [] h p = absurd h
  reduced_sorted row c s (r ∷ rs) (r' ∷ rs') h p =
      (rw h.0.start p.0, rw h.0.start (reduced_sorted row c r.start rs rs' h.1 p.1))

  pub reduced_cleared :
      (row : RbRow) (c : ℕ) (rs rs' : List RbRow)
      → AllReduced row c rs rs'
      → AllRows (λ r. at r c ≡ 0) rs'
  reduced_cleared row c [] [] h = tt
  reduced_cleared row c [] (r' ∷ rs') h = absurd h
  reduced_cleared row c (r ∷ rs) [] h = absurd h
  reduced_cleared row c (r ∷ rs) (r' ∷ rs') h = (h.0.cleared, reduced_cleared row c rs rs' h.1)

  pub reduced_keeps :
      (row : RbRow) (c z : ℕ) (rs rs' : List RbRow)
      → AllReduced row c rs rs'
      → at row z ≡ 0
      → AllRows (λ r. at r z ≡ 0) rs
      → AllRows (λ r. at r z ≡ 0) rs'
  reduced_keeps row c z [] [] h e p = tt
  reduced_keeps row c z [] (r' ∷ rs') h e p = absurd h
  reduced_keeps row c z (r ∷ rs) [] h e p = absurd h
  reduced_keeps row c z (r ∷ rs) (r' ∷ rs') h e p =
      (h.0.keeps z p.0 e, reduced_keeps row c z rs rs' h.1 e p.1)

  pub reduced_implied :
      (row : RbRow) (c : ℕ) (t : ℕ → ℕ) (k : ℕ) (rs rs' : List RbRow)
      → AllReduced row c rs rs'
      → Solves' t k row
      → AllRows (Solves' t k) rs'
      → AllRows (Solves' t k) rs
  reduced_implied row c t k [] [] h e p = tt
  reduced_implied row c t k [] (r' ∷ rs') h e p = absurd h
  reduced_implied row c t k (r ∷ rs) [] h e p = absurd h
  reduced_implied row c t k (r ∷ rs) (r' ∷ rs') h e p =
      (h.0.implied t k e p.0, reduced_implied row c t k rs rs' h.1 e p.1)

  pub length-reduced :
      (row : RbRow) (c : ℕ) (rs rs' : List RbRow) → AllReduced row c rs rs' → length rs' ≡ length rs
  length-reduced row c [] [] h = refl
  length-reduced row c [] (r' ∷ rs') h = absurd h
  length-reduced row c (r ∷ rs) [] h = absurd h
  length-reduced row c (r ∷ rs) (r' ∷ rs') h = omega (arith, length-reduced row c rs rs' h.1)
