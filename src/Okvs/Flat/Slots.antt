-- ===== src/Okvs/Flat/Slots.antt =====
-- The slices that the rows of a flat array occupy: pairwise apart, so that a write to one leaves
-- the others.
use pq_psi.Base.{
  ℕ, ◌+◌, ◌≤◌, ◌≡◌, refl, ◌∙◌, arith, ◌⊎◌, inl, inr, leb, Bool-cases, List, [], ◌∷◌, length, slice,
  write, length-write, slice-write_apart,
}
use pq_psi.Okvs.Rows.{RbRow, insert_row, sort_rows}
use pq_psi.Okvs.Flat.{RbFlatRow, insert_flat_row, sort_flat_rows}

abbrev pub Apart : ℕ → ℕ → ℕ → Type 0
Apart w a b = (a + w ≤ b) ⊎ (b + w ≤ a)

abbrev pub AllFrom : ℕ → ℕ → List ℕ → Type 0
AllFrom w a [] = Unit
AllFrom w a (s ∷ ss) = Apart w a s × AllFrom w a ss

-- Slots inside an array of a size, apart from each other.
abbrev pub AllApart : ℕ → ℕ → List ℕ → Type 0
AllApart w size [] = Unit
AllApart w size (s ∷ ss) = (s + w ≤ size) × AllFrom w s ss × AllApart w size ss

abbrev pub slots : List RbFlatRow → List ℕ
slots [] = []
slots (r ∷ rs) = r.rhs ∷ slots rs

-- The row with its right-hand side read from the array.
abbrev pub loaded : ℕ → List ℕ → RbFlatRow → RbRow
loaded w rhs r = record { start = r.start; bits = r.bits; rhs = slice w rhs r.rhs }

abbrev pub all_loaded : ℕ → List ℕ → List RbFlatRow → List RbRow
all_loaded w rhs [] = []
all_loaded w rhs (r ∷ rs) = loaded w rhs r ∷ all_loaded w rhs rs

-- `rhs'` is `rhs` but for the slots `ss`.
pub record Keeps (w : ℕ) (rhs rhs' : List ℕ) (ss : List ℕ) : Type 0 where
  pub size : length rhs' ≡ length rhs
  pub same : (b : ℕ) → b + w ≤ length rhs → AllFrom w b ss → slice w rhs' b ≡ slice w rhs b

pub Keeps-refl : (w : ℕ) (rhs ss : List ℕ) → Keeps w rhs rhs ss
Keeps-refl w rhs ss = record { size = refl; same = λ b h g. refl }

pub Keeps-more :
    (w : ℕ) (rhs rhs' : List ℕ) (s : ℕ) (ss : List ℕ)
    → Keeps w rhs rhs' ss
    → Keeps w rhs rhs' (s ∷ ss)
Keeps-more w rhs rhs' s ss k = record { size = k.size; same = λ b h g. k.same b h g.1 }

pub Keeps-write :
    (w : ℕ) (rhs rhs' : List ℕ) (s : ℕ) (v ss : List ℕ)
    → length v ≡ w
    → s + w ≤ length rhs
    → Keeps w (write rhs s v) rhs' ss
    → Keeps w rhs rhs' (s ∷ ss)
Keeps-write w rhs rhs' s v ss e h k =
    let size : length (write rhs s v) ≡ length rhs = length-write rhs s v (omega arith) in
    record {
      size = k.size ∙ size;
      same = λ b g apart.
          k.same b (omega arith) apart.1
          ∙ slice-write_apart w rhs s b v e h g (elim apart.0 [ inl p ↦ inr p | inr p ↦ inl p ]);
    }

pub Keeps-trans : (w : ℕ) (a b c ss : List ℕ) → Keeps w a b ss → Keeps w b c ss → Keeps w a c ss
Keeps-trans w a b c ss p q = record {
  size = q.size ∙ p.size;
  same = λ s h g. q.same s (omega (arith, p.size)) g ∙ p.same s h g;
}

-- Rows in slots apart from those written are read as before.
pub loaded_same :
    (w : ℕ) (rhs rhs' ss : List ℕ) (r : RbFlatRow)
    → Keeps w rhs rhs' ss
    → r.rhs + w ≤ length rhs
    → AllFrom w r.rhs ss
    → loaded w rhs' r ≡ loaded w rhs r
loaded_same w rhs rhs' ss r k h g = rw (k.same r.rhs h g) refl

pub all_loaded_same :
    (w : ℕ) (rhs rhs' : List ℕ) (s : ℕ) (rs : List RbFlatRow)
    → Keeps w rhs rhs' (s ∷ [])
    → AllFrom w s (slots rs)
    → AllApart w (length rhs) (slots rs)
    → all_loaded w rhs' rs ≡ all_loaded w rhs rs
all_loaded_same w rhs rhs' s [] k from apart = refl
all_loaded_same w rhs rhs' s (r ∷ rs) k from (h, g, apart) =
    let flip : Apart w r.rhs s = elim from.0 [ inl p ↦ inr p | inr p ↦ inl p ] in
    rw
      (
        loaded_same w rhs rhs' (s ∷ []) r k h (flip, tt),
        all_loaded_same w rhs rhs' s rs k from.1 apart,
      )
      refl

-- Sorting loaded rows and loading sorted rows are the same.
all_loaded-insert :
    (w : ℕ) (rhs : List ℕ) (r : RbFlatRow) (rs : List RbFlatRow)
    → insert_row (loaded w rhs r) (all_loaded w rhs rs) ≡ all_loaded w rhs (insert_flat_row r rs)
unfolding insert_row insert_flat_row
all_loaded-insert w rhs r [] = refl
all_loaded-insert w rhs r (x ∷ xs) = elim (Bool-cases (leb r.start x.start)) [
  | inl first ↦ rw first refl
  | inr later ↦ rw (later, all_loaded-insert w rhs r xs) refl
]

pub all_loaded-sort :
    (w : ℕ) (rhs : List ℕ) (rs : List RbFlatRow)
    → sort_rows (all_loaded w rhs rs) ≡ all_loaded w rhs (sort_flat_rows rs)
unfolding sort_rows sort_flat_rows
all_loaded-sort w rhs [] = refl
all_loaded-sort w rhs (r ∷ rs) =
    rw (all_loaded-sort w rhs rs) (all_loaded-insert w rhs r (sort_flat_rows rs))

-- Sorting keeps the slots apart.
AllFrom-insert :
    (w s : ℕ) (r : RbFlatRow) (rs : List RbFlatRow)
    → Apart w s r.rhs
    → AllFrom w s (slots rs)
    → AllFrom w s (slots (insert_flat_row r rs))
unfolding insert_flat_row
AllFrom-insert w s r [] p h = (p, tt)
AllFrom-insert w s r (x ∷ xs) p h = elim (Bool-cases (leb r.start x.start)) [
  | inl first ↦ rw first (p, h)
  | inr later ↦ rw later (h.0, AllFrom-insert w s r xs p h.1)
]

AllApart-insert :
    (w size : ℕ) (r : RbFlatRow) (rs : List RbFlatRow)
    → r.rhs + w ≤ size
    → AllFrom w r.rhs (slots rs)
    → AllApart w size (slots rs)
    → AllApart w size (slots (insert_flat_row r rs))
unfolding insert_flat_row
AllApart-insert w size r [] h p apart = (h, tt, tt)
AllApart-insert w size r (x ∷ xs) h p (g, q, apart) = elim (Bool-cases (leb r.start x.start)) [
  | inl first ↦ rw first (h, p, (g, q, apart))
  | inr later ↦
      let flip : Apart w x.rhs r.rhs = elim p.0 [ inl a ↦ inr a | inr a ↦ inl a ] in
      rw later (g, AllFrom-insert w x.rhs r xs flip q, AllApart-insert w size r xs h p.1 apart)
]

AllFrom-sort :
    (w s : ℕ) (rs : List RbFlatRow)
    → AllFrom w s (slots rs)
    → AllFrom w s (slots (sort_flat_rows rs))
unfolding sort_flat_rows
AllFrom-sort w s [] h = tt
AllFrom-sort w s (r ∷ rs) h = AllFrom-insert w s r (sort_flat_rows rs) h.0 (AllFrom-sort w s rs h.1)

pub AllApart-sort :
    (w size : ℕ) (rs : List RbFlatRow)
    → AllApart w size (slots rs)
    → AllApart w size (slots (sort_flat_rows rs))
unfolding sort_flat_rows
AllApart-sort w size [] h = tt
AllApart-sort w size (r ∷ rs) (h, p, apart) =
    AllApart-insert w size r (sort_flat_rows rs) h (AllFrom-sort w r.rhs rs p)
      (AllApart-sort w size rs apart)
