-- ===== src/Okvs/Codec/Forward.antt =====
-- The outer loop of the elimination ends in an echelon form with the same solutions, or stops
-- at a row with no coefficient left.
use pq_psi.Base.{
  ℕ, zero, suc, ◌+◌, ◌≤◌, ◌<◌, ◌≡◌, false, ◌-◌, refl, arith, ◌⊎◌, inl, inr, Bool-cases, ◌==◌, List,
  [], ◌∷◌, length, ok, none, some,
}
use pq_psi.Okvs.Bits.{rb_lead}
use pq_psi.Okvs.Bits.Lead.{IsLead, rb_lead-finds}
use pq_psi.Okvs.Rows.{RbRow}
use pq_psi.Okvs.Rows.Sort.{SortedFrom, AllRows}
use pq_psi.Okvs.Codec.{Pivoted, forward}
use pq_psi.Okvs.Codec.Equation.{coef, IsRow, Solves}
use pq_psi.Okvs.Codec.Elim.{
  AllReduced, eliminate-reduces, reduced_valid, reduced_sorted, reduced_cleared, reduced_keeps,
  reduced_implied, length-reduced,
}

module _ (columns band_width val_width : ℕ) (small : band_width ≤ 256) where
  abbrev pub AllPivoted : (Pivoted → Type 0) → List Pivoted → Type 0
  AllPivoted P [] = Unit
  AllPivoted P (p ∷ ps) = P p × AllPivoted P ps

  -- Each row has its pivot, and no later row has a coefficient there.
  abbrev pub IsEchelon : List Pivoted → Type 0
  IsEchelon [] = Unit
  IsEchelon (p ∷ ps) =
      IsRow columns band_width val_width p.row
      × (p.pivot < columns)
      × (coef columns band_width val_width p.row p.pivot ≡ 1)
      × AllPivoted (λ q. coef columns band_width val_width q.row p.pivot ≡ 0) ps
      × IsEchelon ps

  -- What the elimination of `rs` ends in.
  pub record IsForward (rs : List RbRow) (ps : List Pivoted) : Type 0 where
    pub echelon : IsEchelon ps
    pub keeps :
        (c : ℕ)
        → AllRows (λ r. coef columns band_width val_width r c ≡ 0) rs
        → AllPivoted (λ p. coef columns band_width val_width p.row c ≡ 0) ps
    pub implied :
        (t : ℕ → ℕ) (k : ℕ)
        → AllPivoted (λ p. Solves columns band_width val_width t k p.row) ps
        → AllRows (Solves columns band_width val_width t k) rs

  IsLead-in_band :
      (r : RbRow)
      → IsRow columns band_width val_width r
      → (rb_lead r.bits band_width == band_width) ≡ false
      → IsLead r.bits (rb_lead r.bits band_width) × (rb_lead r.bits band_width < band_width)
  IsLead-in_band r valid h = elim (rb_lead-finds r.bits band_width valid.band.fits) [
    | inl lead ↦ (
      lead,
      ground (arith, valid.band.trimmed (rb_lead r.bits band_width), lead.is_set, lead.inside),
    )
    | inr (empty, e) ↦ absurd (ground (arith, e))
  ]

  extended :
      (r : RbRow) (lead : ℕ) (rs rs' : List RbRow) (ps : List Pivoted)
      → IsRow columns band_width val_width r
      → IsLead r.bits lead × (lead < band_width)
      → AllReduced columns band_width val_width small r (r.start + lead) rs rs'
      → IsForward rs' ps
      → IsForward (r ∷ rs) (record { row = r; pivot = r.start + lead } ∷ ps)
  extended r lead rs rs' ps valid found reduced step =
      let pivot = r.start + lead in
      let back : r.start + lead - r.start ≡ lead = omega arith in
      record {
        echelon = (
          valid,
          omega (arith, valid.room, found.1),
          rw back (ground (arith, found.0.is_set, found.1)),
          step.keeps pivot
              (reduced_cleared columns band_width val_width small r pivot rs rs' reduced),
          step.echelon,
        );
        keeps = λ c p. (
          p.0,
          step.keeps c
              (reduced_keeps columns band_width val_width small r pivot c rs rs' reduced p.0 p.1),
        );
        implied = λ t k p. (
          p.0,
          reduced_implied columns band_width val_width small r pivot t k rs rs' reduced p.0
              (step.implied t k p.1),
        );
      }

  pub forward-IsForward :
      (rounds s : ℕ) (rs : List RbRow)
      → length rs ≤ rounds
      → SortedFrom s rs
      → AllRows (IsRow columns band_width val_width) rs
      → (forward rounds band_width rs ≡ ok none)
        ⊎ ((ps : List Pivoted) × (forward rounds band_width rs ≡ ok (some ps)) × IsForward rs ps)
  unfolding forward
  forward-IsForward rounds s [] h sorted valid =
      inr ([], refl, record { echelon = tt; keeps = λ c p. tt; implied = λ t k p. tt })
  forward-IsForward zero s (r ∷ rs) h sorted valid = absurd (omega arith)
  forward-IsForward (suc rounds) s (r ∷ rs) h sorted valid =
      elim (Bool-cases (rb_lead r.bits band_width == band_width)) [
        | inl stop ↦ inl (rw stop refl)
        | inr go ↦
            let lead = rb_lead r.bits band_width in
            let found = IsLead-in_band r valid.0 go in
            let (rs', e, reduced) =
              eliminate-reduces columns band_width val_width small r lead valid.0 found.0 found.1
                r.start rs (omega arith) sorted.1 valid.1 in
            let pivot = r.start + lead in
            let ih =
              forward-IsForward rounds r.start rs'
                (omega
                  (arith, length-reduced columns band_width val_width small r pivot rs rs' reduced))
                (reduced_sorted columns band_width val_width small r pivot r.start rs rs' reduced
                  sorted.1)
                (reduced_valid columns band_width val_width small r pivot rs rs' reduced) in
            elim ih [
              | inl failed ↦ inl (rw (go, e, failed) refl)
              | inr (ps, f, step) ↦ inr (
                record { row = r; pivot = pivot } ∷ ps,
                rw (go, e, f) refl,
                extended r lead rs rs' ps valid.0 found reduced step,
              )
            ]
      ]
