-- ===== src/Okvs/Codec/Solve.antt =====
-- The back fill of an echelon form: it never throws, and its table solves every row.
use pq_psi.Base.{
  ℕ, zero, suc, ◌+◌, ◌-◌, ◌≤◌, ◌<◌, bit_xor, ◌≡◌, refl, sym, ap, ◌∙◌, arith, inl, inr, Bool-cases,
  true, false, not, ◌||◌, ◌==◌, leb, ltb, ◌&&◌, if◌then◌else◌, List, [], ◌∷◌, length, get_or, set,
  replicate, length-set, length-replicate, get_or-set_self, get_or-set_ne, ok,
}
use pq_psi.Base.Bits.{bit_xor_comm, bit_xor_assoc, bit_xor-zero, bit_xor_cancel}
use pq_psi.Okvs.Bits.{rb_bit}
use pq_psi.Okvs.Bits.Words.{place, rb_bit-place, rb_bit-place_zero}
use pq_psi.Okvs.Rows.{RbRow, xor_blocks}
use pq_psi.Okvs.Rows.Vector.{rb_xor-ok, length-xor_blocks, get_or-xor_blocks, get_or-replicate_lt}
use pq_psi.Okvs.Codec.{Pivoted, sum_loop, back_fill}
use pq_psi.Okvs.Codec.Linear.{
  dot, dot-zero, dot-skip, dot-take, dot_congr, dot-split, dot-band, without,
}
use pq_psi.Okvs.Codec.Equation.{coef, IsRow, Solves}
use pq_psi.Okvs.Codec.Forward.{AllPivoted, IsEchelon}

-- The component `k` of the rows of a table.
abbrev pub component : List (List ℕ) → ℕ → ℕ → ℕ
component table k c = get_or (get_or table c []) k 0

pub record IsTable (columns val_width : ℕ) (table : List (List ℕ)) : Type 0 where
  pub size : length table ≡ columns
  pub width : (c : ℕ) → c < columns → length (get_or table c []) ≡ val_width

-- The coefficients of a band without that of the pivot.
abbrev banded : RbRow → ℕ → ℕ → ℕ
banded row pivot i = if row.start + i == pivot then 0 else place row.bits i

-- One round of the loop at a selected column.
xor_step : (a d x s y : ℕ) → s ≡ bit_xor a d → y ≡ bit_xor s x → y ≡ bit_xor a (bit_xor d x)
xor_step a d x s y e f = f ∙ rw (e, bit_xor_assoc a d x) refl

module _ (columns band_width val_width : ℕ) (row : RbRow) (pivot : ℕ) (table : List (List ℕ))
    (valid : IsRow columns band_width val_width row)
    (is_table : IsTable columns val_width table) where
  abbrev at_band : ℕ → ℕ → ℕ
  at_band k i = component table k (row.start + i)

  pub record IsSum (j : ℕ) (sum : List ℕ) : Type 0 where
    pub width : length sum ≡ val_width
    pub value :
        (k : ℕ)
        → get_or sum k 0 ≡ bit_xor (get_or row.rhs k 0) (dot (banded row pivot) (at_band k) j)

  IsSum-skip :
      (j : ℕ) (sum : List ℕ)
      → (not (rb_bit row.bits j) || (row.start + j == pivot)) ≡ true
      → IsSum j sum
      → IsSum (j + 1) sum
  IsSum-skip j sum h s =
      let zero_here : banded row pivot j ≡ 0 = ground (arith, rb_bit-place_zero row.bits j) in
      record {
        width = s.width;
        value = λ k. s.value k ∙ rw (dot-skip (banded row pivot) (at_band k) j zero_here) refl;
      }

  IsSum-add :
      (j : ℕ) (sum : List ℕ)
      → j < band_width
      → (not (rb_bit row.bits j) || (row.start + j == pivot)) ≡ false
      → IsSum j sum
      → IsSum (j + 1) (xor_blocks sum (get_or table (row.start + j) []))
  IsSum-add j sum l h s =
      let one_here : banded row pivot j ≡ 1 = ground (arith, (rb_bit-place row.bits j).0) in
      let same = s.width ∙ sym (is_table.width (row.start + j) (omega (arith, valid.room))) in
      record {
        width = length-xor_blocks sum (get_or table (row.start + j) []) ∙ s.width;
        value = λ k. rw (dot-take (banded row pivot) (at_band k) j one_here) (
            xor_step (get_or row.rhs k 0) (dot (banded row pivot) (at_band k) j) (at_band k j)
              (get_or sum k 0) _ (s.value k)
              (get_or-xor_blocks sum (get_or table (row.start + j) []) k same));
      }

  pub sum_loop-IsSum :
      (rounds j : ℕ) (sum : List ℕ)
      → j + rounds ≤ band_width
      → IsSum j sum
      → (out : List ℕ) × (sum_loop rounds j row pivot table sum ≡ ok out) × IsSum (j + rounds) out
  unfolding sum_loop
  sum_loop-IsSum zero j sum h s = let same : j + 0 ≡ j = omega arith in (sum, refl, rw same s)
  sum_loop-IsSum (suc rounds) j sum h s =
      let shift : j + suc rounds ≡ j + 1 + rounds = omega arith in
      elim (Bool-cases (not (rb_bit row.bits j) || (row.start + j == pivot))) [
        | inl skip ↦
            let (out, e, t) =
              sum_loop-IsSum rounds (j + 1) sum (omega arith) (IsSum-skip j sum skip s) in
            (out, rw (skip) e, rw shift t)
        | inr add ↦
            let next = xor_blocks sum (get_or table (row.start + j) []) in
            let (out, e, t) =
              sum_loop-IsSum rounds (j + 1) next (omega arith)
                (IsSum-add j sum (omega arith) add s) in
            let run =
              rb_xor-ok sum (get_or table (row.start + j) [])
                (s.width ∙ sym (is_table.width (row.start + j) (omega (arith, valid.room)))) in
            (out, rw (add, run) e, rw shift t)
      ]

-- The table after the row of a pivot is filled in.
module _ (columns band_width val_width : ℕ) (row : RbRow) (pivot : ℕ) (table : List (List ℕ))
    (sum : List ℕ) (valid : IsRow columns band_width val_width row) (in_table : pivot < columns)
    (is_table : IsTable columns val_width table)
    (is_sum : IsSum columns band_width val_width row pivot table valid is_table band_width
      sum) where
  pub set-IsTable : IsTable columns val_width (set table pivot sum)
  set-IsTable = record {
    size = length-set table pivot sum ∙ is_table.size;
    width = λ c h. elim (Bool-cases (c == pivot)) [
      | inl here ↦
          let same : c ≡ pivot = ground arith in
          rw (same, get_or-set_self table pivot sum [] (omega (arith, is_table.size))) is_sum.width
      | inr other ↦
          rw (get_or-set_ne table pivot c sum [] (λ e. ground (arith, e))) (is_table.width c h)
    ];
  }

  component-set_ne :
      (k c : ℕ) → (c ≡ pivot → ⊥) → component (set table pivot sum) k c ≡ component table k c
  component-set_ne k c h =
      ap (λ x. get_or x k 0) (get_or-set_ne table pivot c sum [] (λ e. h (sym e)))

  component-set_self : (k : ℕ) → component (set table pivot sum) k pivot ≡ get_or sum k 0
  component-set_self k =
      ap (λ x. get_or x k 0) (get_or-set_self table pivot sum [] (omega (arith, is_table.size)))

  -- An equation without the pivot column stays solved.
  Solves-set_ne :
      (k : ℕ) (r : RbRow)
      → coef columns band_width val_width r pivot ≡ 0
      → Solves columns band_width val_width (component table k) k r
      → Solves columns band_width val_width (component (set table pivot sum) k) k r
  Solves-set_ne k r h e =
      dot_congr (coef columns band_width val_width r) (coef columns band_width val_width r)
        (component (set table pivot sum) k) (component table k) columns (λ i l. refl)
        (λ i l one. component-set_ne k i (λ same. ground (arith, rw same at one)))
      ∙ e

  Solves-set_self :
      (k : ℕ)
      → coef columns band_width val_width row pivot ≡ 1
      → Solves columns band_width val_width (component (set table pivot sum) k) k row
  Solves-set_self k h =
      let c = coef columns band_width val_width row in
      let others : dot (without c pivot) (component (set table pivot sum) k) columns
          ≡ dot (banded row pivot) (λ j. component table k (row.start + j)) band_width =
        dot_congr (without c pivot) (without c pivot) (component (set table pivot sum) k)
          (component table k) columns (λ i l. refl)
          (λ i l one. component-set_ne k i (λ same. ground (arith, same)))
        ∙ dot-band (without c pivot) (banded row pivot) (component table k) row.start band_width
            columns valid.room in_band in
      dot-split c (component (set table pivot sum) k) pivot columns in_table h
      ∙ rw (others, component-set_self k, is_sum.value k) (bit_xor_comm _ _ ∙ bit_xor_cancel _ _)
    where
      in_band :
          (i : ℕ)
          → i < columns
          → without (coef columns band_width val_width row) pivot i ≡ (
              if leb row.start i && ltb i (row.start + band_width)
              then banded row pivot (i - row.start)
              else 0)
      in_band i l = ground arith

module _ (columns band_width val_width : ℕ) (small : band_width ≤ 256) where
  abbrev pub IsSolution : List Pivoted → List (List ℕ) → Type 0
  IsSolution ps table =
      (k : ℕ)
      → AllPivoted columns band_width val_width small
          (λ p. Solves columns band_width val_width (component table k) k p.row) ps

  kept :
      (k pivot : ℕ) (t u : ℕ → ℕ) (ps : List Pivoted)
      → ((r : RbRow)
          → coef columns band_width val_width r pivot ≡ 0
          → Solves columns band_width val_width t k r
          → Solves columns band_width val_width u k r)
      → AllPivoted columns band_width val_width small
          (λ q. coef columns band_width val_width q.row pivot ≡ 0)
          ps
      → AllPivoted columns band_width val_width small
          (λ q. Solves columns band_width val_width t k q.row)
          ps
      → AllPivoted columns band_width val_width small
          (λ q. Solves columns band_width val_width u k q.row)
          ps
  kept k pivot t u [] h clear solved = tt
  kept k pivot t u (q ∷ ps) h clear solved =
      (h q.row clear.0 solved.0, kept k pivot t u ps h clear.1 solved.1)

  pub IsTable-replicate : IsTable columns val_width (replicate columns (replicate val_width 0))
  IsTable-replicate = record {
    size = length-replicate columns zeros;
    width = λ c h. rw (get_or-replicate_lt columns c zeros [] h) (length-replicate val_width 0);
  }
    where
      zeros : List ℕ
      zeros = replicate val_width 0

  -- The sum starts as the right-hand side of the row.
  pub IsSum-rhs :
      (row : RbRow) (pivot : ℕ) (table : List (List ℕ))
      (valid : IsRow columns band_width val_width row) (is_table : IsTable columns val_width table)
      → IsSum columns band_width val_width row pivot table valid is_table 0 row.rhs
  IsSum-rhs row pivot table valid is_table = record {
    width = valid.width;
    value = λ k. rw (dot-zero _ _, bit_xor-zero) refl;
  }

  pub back_fill-IsSolution :
      (ps : List Pivoted)
      → IsEchelon columns band_width val_width small ps
      → (table : List (List ℕ)) × (back_fill columns val_width band_width ps ≡ ok table)
        × IsTable columns val_width table
        × IsSolution ps table
  unfolding back_fill
  back_fill-IsSolution [] h = (_, refl, IsTable-replicate, λ k. tt)
  back_fill-IsSolution (p ∷ ps) (valid, in_table, own, clear, rest) =
      let (table, e, is_table, solved) = back_fill-IsSolution ps rest in
      let (sum, f, is_sum) =
        sum_loop-IsSum columns band_width val_width p.row p.pivot table valid is_table band_width 0
          p.row.rhs (omega arith) (IsSum-rhs p.row p.pivot table valid is_table) in
      let same : 0 + band_width ≡ band_width = omega arith in
      let is_sum' = rw same at is_sum in
      (
        set table p.pivot sum,
        rw (e, f) refl,
        set-IsTable columns band_width val_width p.row p.pivot table sum valid in_table is_table
            is_sum',
        λ k. (
          Solves-set_self columns band_width val_width p.row p.pivot table sum valid in_table
              is_table is_sum' k own,
          kept k p.pivot (component table k) (component (set table p.pivot sum) k) ps
              (Solves-set_ne columns band_width val_width p.row p.pivot table sum valid in_table
                is_table is_sum' k)
              clear (solved k),
        ),
      )
