-- ===== src/Okvs/Flat/Elim.antt =====
-- The elimination on flat right-hand sides is the elimination on the rows they hold.
use pq_psi.Base.{
  ℕ, zero, suc, ◌+◌, ◌-◌, ◌≤◌, ◌≡◌, refl, sym, ◌∙◌, ap, arith, ◌⊎◌, inl, inr, leb, ltb, not, ◌||◌,
  ◌==◌, Bool-cases, List, [], ◌∷◌, length, ok, none, some, slice, write, length-slice, length-write,
  slice-write_self,
}
use pq_psi.Okvs.Bits.{rb_bit, rb_lead}
use pq_psi.Okvs.Bits.XorShifted.{rb_xor_shifted-ok, xor_shifted}
use pq_psi.Okvs.Rows.{RbRow, xor_blocks}
use pq_psi.Okvs.Rows.Vector.{rb_xor-ok, length-xor_blocks}
use pq_psi.Okvs.Codec.{Pivoted, eliminate, forward}
use pq_psi.Okvs.Flat.{RbFlatRow, FlatPivoted, eliminate_flat, forward_flat}
use pq_psi.Okvs.Flat.Slots.{
  AllFrom, AllApart, slots, loaded, all_loaded, Keeps, Keeps-refl, Keeps-more, Keeps-write,
  Keeps-trans, loaded_same, all_loaded_same,
}

-- What a run over the rows `rs` leaves: the rows of the run on rows of blocks, in the same slots.
pub record IsEliminated (w : ℕ) (row : RbRow) (lead pivot band_width : ℕ) (rs : List RbFlatRow)
    (rhs : List ℕ) (rs' : List RbFlatRow) (rhs' : List ℕ) : Type 0 where
  pub on_rows :
      eliminate row lead pivot band_width (all_loaded w rhs rs) ≡ ok (all_loaded w rhs' rs')
  pub same_slots : slots rs' ≡ slots rs
  pub keeps : Keeps w rhs rhs' (slots rs)

module _ (w lead pivot band_width : ℕ) (row : RbFlatRow) (small : band_width ≤ 256) where
  pub eliminate_flat-IsEliminated :
      (rs : List RbFlatRow) (rhs : List ℕ)
      → row.rhs + w ≤ length rhs
      → AllFrom w row.rhs (slots rs)
      → AllApart w (length rhs) (slots rs)
      → (rs' : List RbFlatRow) × (rhs' : List ℕ) × (eliminate_flat w row lead pivot band_width rs
            rhs
          ≡ ok (rs', rhs'))
        × IsEliminated w (loaded w rhs row) lead pivot band_width rs rhs rs' rhs'
  unfolding eliminate eliminate_flat
  eliminate_flat-IsEliminated [] rhs inside from apart =
      ([], rhs, refl, record { on_rows = refl; same_slots = refl; keeps = Keeps-refl w rhs [] })
  eliminate_flat-IsEliminated (r ∷ rs) rhs inside from (h, g, apart) =
      elim (Bool-cases (ltb pivot r.start)) [
        | inl past ↦ (
          r ∷ rs,
          rhs,
          rw past refl,
          record {
            on_rows = rw past refl;
            same_slots = refl;
            keeps = Keeps-refl w rhs (slots (r ∷ rs));
          },
        )
        | inr reached ↦
            elim (Bool-cases
              (leb band_width (pivot - r.start) || not (rb_bit r.bits (pivot - r.start)))) [
                | inl skip ↦
                    let (rs', rhs', e, step) =
                      eliminate_flat-IsEliminated rs rhs inside from.1 apart in
                    (
                      r ∷ rs',
                      rhs',
                      rw (reached, skip, e) refl,
                      record {
                        on_rows =
                            rw
                              (
                                reached,
                                skip,
                                step.on_rows,
                                loaded_same w rhs rhs' (slots rs) r step.keeps h g,
                              )
                              refl;
                        same_slots = ap (◌∷◌ r.rhs) step.same_slots;
                        keeps = Keeps-more w rhs rhs' r.rhs (slots rs) step.keeps;
                      },
                    )
                | inr add ↦
                    let off = pivot - r.start in
                    let old = slice w rhs r.rhs in
                    let own = slice w rhs row.rhs in
                    let v = xor_blocks old own in
                    let rhs1 = write rhs r.rhs v in
                    let size : length v ≡ w =
                      length-xor_blocks old own ∙ length-slice w rhs r.rhs h in
                    let same_size : length rhs1 ≡ length rhs =
                      length-write rhs r.rhs v (omega arith) in
                    let one : Keeps w rhs rhs1 (r.rhs ∷ []) =
                      Keeps-write w rhs rhs1 r.rhs v [] size h (Keeps-refl w rhs1 []) in
                    let (rs', rhs', e, step) =
                      eliminate_flat-IsEliminated rs rhs1 (omega arith) from.1
                        (rw same_size apart) in
                    let bits = xor_shifted r.bits off row.bits lead band_width in
                    let ran = rb_xor_shifted-ok r.bits off row.bits lead band_width small in
                    let xored =
                      rb_xor-ok old own
                        (length-slice w rhs r.rhs h ∙ sym (length-slice w rhs row.rhs inside)) in
                    let row_same =
                      loaded_same w rhs rhs1 (r.rhs ∷ []) row one inside (from.0, tt) in
                    let rows_same = all_loaded_same w rhs rhs1 r.rhs rs one g apart in
                    let run = rw (row_same, rows_same) at step.on_rows in
                    let kept =
                      step.keeps.same r.rhs (omega arith) g
                      ∙ slice-write_self w rhs r.rhs v size h in
                    (
                      record r { bits = bits } ∷ rs',
                      rhs',
                      rw (reached, add, ran, e) refl,
                      record {
                        on_rows = rw (reached, add, ran, xored, run, kept) refl;
                        same_slots = ap (◌∷◌ r.rhs) step.same_slots;
                        keeps = Keeps-write w rhs rhs' r.rhs v (slots rs) size h step.keeps;
                      },
                    )
              ]
      ]

abbrev pub all_pivots : ℕ → List ℕ → List FlatPivoted → List Pivoted
all_pivots w rhs [] = []
all_pivots w rhs (p ∷ ps) =
    record { row = loaded w rhs p.row; pivot = p.pivot } ∷ all_pivots w rhs ps

-- What the outer loop leaves when it does not fail.
pub record IsForwarded (w rounds band_width : ℕ) (rs : List RbFlatRow) (rhs : List ℕ)
    (ps : List FlatPivoted) (rhs' : List ℕ) : Type 0 where
  pub flat : forward_flat w rounds band_width rs rhs ≡ ok (some (ps, rhs'))
  pub on_rows : forward rounds band_width (all_loaded w rhs rs) ≡ ok (some (all_pivots w rhs' ps))
  pub keeps : Keeps w rhs rhs' (slots rs)

module _ (w band_width : ℕ) (small : band_width ≤ 256) where
  pub forward_flat-IsForwarded :
      (rounds : ℕ) (rs : List RbFlatRow) (rhs : List ℕ)
      → AllApart w (length rhs) (slots rs)
      → ((forward_flat w rounds band_width rs rhs ≡ ok none)
          × (forward rounds band_width (all_loaded w rhs rs) ≡ ok none))
        ⊎ ((ps : List FlatPivoted) × (rhs' : List ℕ) × IsForwarded w rounds band_width rs rhs ps
              rhs')
  unfolding forward forward_flat
  forward_flat-IsForwarded rounds [] rhs apart =
      inr ([], rhs, record { flat = refl; on_rows = refl; keeps = Keeps-refl w rhs [] })
  forward_flat-IsForwarded zero (r ∷ rs) rhs apart =
      inr
        ([], rhs, record { flat = refl; on_rows = refl; keeps = Keeps-refl w rhs (slots (r ∷ rs)) })
  forward_flat-IsForwarded (suc rounds) (r ∷ rs) rhs (h, g, apart) =
      elim (Bool-cases (rb_lead r.bits band_width == band_width)) [
        | inl stop ↦ inl (rw stop refl, rw stop refl)
        | inr go ↦
            let lead = rb_lead r.bits band_width in
            let (rs1, rhs1, e, step) =
              eliminate_flat-IsEliminated w lead (r.start + lead) band_width r small rs rhs h g
                apart in
            let apart1 : AllApart w (length rhs1) (slots rs1) =
              rw (step.same_slots, step.keeps.size) apart in
            elim (forward_flat-IsForwarded rounds rs1 rhs1 apart1) [
              | inl (failed, failed') ↦
                  inl (rw (go, e, failed) refl, rw (go, step.on_rows, failed') refl)
              | inr (ps, rhs', rest) ↦
                  let later : Keeps w rhs1 rhs' (slots rs) = rw step.same_slots at rest.keeps in
                  let keeps = Keeps-trans w rhs rhs1 rhs' (slots rs) step.keeps later in
                  inr (
                    record { row = r; pivot = r.start + lead } ∷ ps,
                    rhs',
                    record {
                      flat = rw (go, e, rest.flat) refl;
                      on_rows =
                          rw
                            (
                              go,
                              step.on_rows,
                              rest.on_rows,
                              loaded_same w rhs rhs' (slots rs) r keeps h g,
                            )
                            refl;
                      keeps = Keeps-more w rhs rhs' r.rhs (slots rs) keeps;
                    },
                  )
            ]
      ]
