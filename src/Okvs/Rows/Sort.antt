-- ===== src/Okvs/Rows/Sort.antt =====
-- The stable sort of the rows by their starts.
use pq_psi.Base.{
  ℕ, zero, suc, ◌≤◌, ◌<◌, ◌≡◌, refl, ap, ◌∙◌, arith, Bool-cases, inl, inr, leb, List, [], ◌∷◌,
  length, get_or,
}
use pq_psi.Okvs.Rows.{RbRow, insert_row, sort_rows}

-- The rows start no earlier than `s`, in order.
abbrev pub SortedFrom : ℕ → List RbRow → Type 0
SortedFrom s [] = Unit
SortedFrom s (r ∷ rs) = (s ≤ r.start) × SortedFrom r.start rs

abbrev pub AllRows : (RbRow → Type 0) → List RbRow → Type 0
AllRows P [] = Unit
AllRows P (r ∷ rs) = P r × AllRows P rs

insert_row-SortedFrom :
    (s : ℕ) (r : RbRow) (rs : List RbRow)
    → s ≤ r.start
    → SortedFrom s rs
    → SortedFrom s (insert_row r rs)
unfolding insert_row
insert_row-SortedFrom s r [] h sorted = (h, tt)
insert_row-SortedFrom s r (x ∷ xs) h sorted = elim (Bool-cases (leb r.start x.start)) [
  | inl first ↦ rw first (h, (ground arith, sorted.1))
  | inr later ↦ rw later (sorted.0, insert_row-SortedFrom x.start r xs (ground arith) sorted.1)
]

pub sort_rows-SortedFrom : (rs : List RbRow) → SortedFrom 0 (sort_rows rs)
unfolding sort_rows
sort_rows-SortedFrom [] = tt
sort_rows-SortedFrom (r ∷ rs) =
    insert_row-SortedFrom 0 r (sort_rows rs) (omega arith) (sort_rows-SortedFrom rs)

length-insert_row : (r : RbRow) (rs : List RbRow) → length (insert_row r rs) ≡ suc (length rs)
unfolding insert_row
length-insert_row r [] = refl
length-insert_row r (x ∷ xs) = elim (Bool-cases (leb r.start x.start)) [
  | inl first ↦ rw first refl
  | inr later ↦ rw later (ap suc (length-insert_row r xs))
]

pub length-sort_rows : (rs : List RbRow) → length (sort_rows rs) ≡ length rs
unfolding sort_rows
length-sort_rows [] = refl
length-sort_rows (r ∷ rs) = length-insert_row r (sort_rows rs) ∙ ap suc (length-sort_rows rs)

-- A family of facts on the rows is a fact on the families.
pub all_families :
    {A : Type 0} (P : A → RbRow → Type 0) (rs : List RbRow)
    → ((a : A) → AllRows (P a) rs)
    → AllRows (λ r. (a : A) → P a r) rs
all_families P [] h = tt
all_families P (r ∷ rs) h = (λ a. (h a).0, all_families P rs (λ a. (h a).1))

module _ (P : RbRow → Type 0) where
  all-insert_row : (r : RbRow) (rs : List RbRow) → P r → AllRows P rs → AllRows P (insert_row r rs)
  unfolding insert_row
  all-insert_row r [] h all = (h, tt)
  all-insert_row r (x ∷ xs) h all = elim (Bool-cases (leb r.start x.start)) [
    | inl first ↦ rw first (h, all)
    | inr later ↦ rw later (all.0, all-insert_row r xs h all.1)
  ]

  insert_row-all : (r : RbRow) (rs : List RbRow) → AllRows P (insert_row r rs) → P r × AllRows P rs
  unfolding insert_row
  insert_row-all r [] all = all
  insert_row-all r (x ∷ xs) all = elim (Bool-cases (leb r.start x.start)) [
    | inl first ↦ (rw first at all)
    | inr later ↦
        let all' = rw later at all in
        let rest = insert_row-all r xs all'.1 in (rest.0, (all'.0, rest.1))
  ]

  pub all-sort_rows : (rs : List RbRow) → AllRows P rs → AllRows P (sort_rows rs)
  unfolding sort_rows
  all-sort_rows [] all = tt
  all-sort_rows (r ∷ rs) all = all-insert_row r (sort_rows rs) all.0 (all-sort_rows rs all.1)

  pub sort_rows-all : (rs : List RbRow) → AllRows P (sort_rows rs) → AllRows P rs
  unfolding sort_rows
  sort_rows-all [] all = tt
  sort_rows-all (r ∷ rs) all =
      let both = insert_row-all r (sort_rows rs) all in (both.0, sort_rows-all rs both.1)

  -- What holds of the rows at all indices.
  pub all-get_or :
      (d : RbRow) (rs : List RbRow) → ((i : ℕ) → i < length rs → P (get_or rs i d)) → AllRows P rs
  all-get_or d [] h = tt
  all-get_or d (r ∷ rs) h = (h 0 (omega arith), all-get_or d rs (λ i p. h (suc i) (omega arith)))

  pub get_or-all :
      (d : RbRow) (rs : List RbRow) (i : ℕ) → AllRows P rs → i < length rs → P (get_or rs i d)
  get_or-all d [] i all h = absurd (omega arith)
  get_or-all d (r ∷ rs) zero all h = all.0
  get_or-all d (r ∷ rs) (suc i) all h = get_or-all d rs i all.1 (omega arith)
