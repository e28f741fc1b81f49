-- ===== src/Okvs/Codec/Equation.antt =====
-- A row as a linear equation over the columns of the table.
use pq_psi.Base.{
  ℕ, ◌+◌, ◌-◌, ◌/◌, ◌%◌, ◌≤◌, ◌<◌, bit_xor, ◌≡◌, sym, ◌∙◌, ap₂, arith, Bool-cases, inl, inr, leb,
  ltb, if◌then◌else◌, ◌&&◌, leb→le, length, get_or,
}
use pq_psi.Base.Bits.{bit-lt, bit_xor_cancel}
use pq_psi.Okvs.Bits.{word}
use pq_psi.Okvs.Bits.Words.{place}
use pq_psi.Okvs.Bits.Band.{IsBand}
use pq_psi.Okvs.Bits.Lead.{IsLead}
use pq_psi.Okvs.Bits.XorShifted.{xor_shifted, place-xor_shifted, IsWords-xor_shifted}
use pq_psi.Okvs.Rows.{RbRow, xor_blocks}
use pq_psi.Okvs.Rows.Vector.{get_or-xor_blocks, length-xor_blocks}
use pq_psi.Okvs.Codec.Linear.{dot, dot-add}

module _ (columns band_width val_width : ℕ) where
  -- The coefficient of a row at a column of the table.
  abbrev pub coef : RbRow → ℕ → ℕ
  coef r c = if leb r.start c && ltb c (r.start + band_width) then place r.bits (c - r.start) else 0

  pub record IsRow (r : RbRow) : Type 0 where
    pub band : IsBand band_width r.bits
    pub room : r.start + band_width ≤ columns
    pub width : length r.rhs ≡ val_width

  -- The values `t` of the columns, at component `k` of the blocks, solve the row.
  abbrev pub Solves : (ℕ → ℕ) → ℕ → RbRow → Type 0
  Solves t k r = dot (coef r) t columns ≡ get_or r.rhs k 0

  pub coef-lt : (r : RbRow) (c : ℕ) → coef r c < 2
  coef-lt r c = ground (arith, bit-lt (word r.bits ((c - r.start) / 64)) ((c - r.start) % 64))

  -- The row after the elimination of the pivot column by `row`.
  abbrev pub added : RbRow → ℕ → RbRow → RbRow
  added row lead r = record r {
    bits = xor_shifted r.bits (row.start + lead - r.start) row.bits lead band_width;
    rhs = xor_blocks r.rhs row.rhs;
  }

  module _ (row r : RbRow) (lead : ℕ) (is_row : IsRow row) (is_r : IsRow r)
      (small : band_width ≤ 256) (is_lead : IsLead row.bits lead) (sorted : row.start ≤ r.start)
      (reached : r.start ≤ row.start + lead) where
    -- Below its pivot a row has no coefficient.
    coef-below : (c : ℕ) → c < row.start + lead → coef row c ≡ 0
    coef-below c h = ground (arith, is_lead.below (c - row.start))

    pub coef-added : (c : ℕ) → coef (added row lead r) c ≡ (coef r c + coef row c) % 2
    coef-added c = elim (Bool-cases (leb r.start c && ltb c (r.start + band_width))) [
      | inl inside ↦ elim (Bool-cases (leb (row.start + lead) c)) [
        | inl above ↦ from_pivot (ground arith) (ground arith) (leb→le (row.start + lead) c above)
        | inr below ↦
            rw (coef-below c (ground arith)) (ground (arith, at_place (c - r.start), coef-lt r c))
      ]
      | inr outside ↦ elim (Bool-cases (ltb c r.start)) [
        | inl left ↦ rw (coef-below c (ground arith)) (ground arith)
        | inr right ↦ ground arith
      ]
    ]
      where
        off : ℕ
        off = row.start + lead - r.start

        at_place :
            (i : ℕ)
            → i < 256
            → place (xor_shifted r.bits off row.bits lead band_width) i
              ≡ (place r.bits i
                  + (if ltb i band_width && (leb off i && ltb (i - off + lead) 256)
                      then place row.bits (i - off + lead)
                      else 0))
                % 2
        at_place i q =
            place-xor_shifted r.bits off row.bits lead band_width i is_row.band.fits is_lead.inside
              (omega (arith, is_lead.inside)) small q

        from_pivot :
            r.start ≤ c
            → c < r.start + band_width
            → row.start + lead ≤ c
            → coef (added row lead r) c ≡ (coef r c + coef row c) % 2
        from_pivot p q above =
            let same : c - r.start - off + lead ≡ c - row.start = omega arith in
            let here = rw same at (at_place (c - r.start) (omega arith)) in
            ground (arith, here, is_row.band.trimmed (c - row.start))

    pub IsRow-added : IsRow (added row lead r)
    IsRow-added = record {
      band = record {
        fits =
            IsWords-xor_shifted r.bits (row.start + lead - r.start) row.bits lead band_width
              is_r.band.fits is_row.band.fits;
        trimmed = λ i p q. ground (
          arith,
          place-xor_shifted r.bits (row.start + lead - r.start) row.bits lead band_width i
              is_row.band.fits is_lead.inside (omega (arith, is_lead.inside)) small q,
          is_r.band.trimmed i p q,
        );
      };
      room = is_r.room;
      width = length-xor_blocks r.rhs row.rhs ∙ is_r.width;
    }

    -- What solves the two rows solves the row as it was.
    pub Solves-added :
        (t : ℕ → ℕ) (k : ℕ) → Solves t k row → Solves t k (added row lead r) → Solves t k r
    Solves-added t k p q =
        let sum =
          dot-add (coef r) (coef row) (coef (added row lead r)) t columns (coef-lt r) (coef-lt row)
            (λ i l. coef-added i) in
        let right = get_or-xor_blocks r.rhs row.rhs k (is_r.width ∙ sym is_row.width) in
        let both : bit_xor (dot (coef r) t columns) (dot (coef row) t columns)
            ≡ bit_xor (get_or r.rhs k 0) (get_or row.rhs k 0) =
          sym sum ∙ q ∙ right in
        sym (bit_xor_cancel (dot (coef r) t columns) (dot (coef row) t columns))
        ∙ ap₂ bit_xor both p
        ∙ bit_xor_cancel (get_or r.rhs k 0) (get_or row.rhs k 0)
