-- ===== src/Okvs/Flat/Fill.antt =====
-- A flat array as the rows that it holds, and the loops that fill it a row at a time.
use native.Mathlib.Nat.{mul-le-mul_right}
use pq_psi.Base.{
  ℕ, zero, suc, ◌+◌, ◌*◌, ◌≤◌, ◌<◌, ◌≡◌, refl, sym, ◌∙◌, ap, arith, ◌⊎◌, inl, inr, false, Bool,
  Bool-cases, ltb, ◌==◌, List, [], ◌∷◌, length, get_or, set, replicate, length-set,
  length-replicate, get_or-set_self, get_or-set_ne, Result, ok, slice, write, get_or-slice,
  length-slice, length-write, slice-write_self, slice-write_apart, eq_of_get_or,
}
use pq_psi.Okvs.Parallel.{indices}
use pq_psi.Okvs.Parallel.Cover.{rb_for_ranges-visits}
use pq_psi.Okvs.Rows.Vector.{get_or-replicate, get_or-replicate_lt}
use pq_psi.Okvs.Rows.{fill, rb_for}
use pq_psi.Okvs.Flat.{fill_rows, rb_for_rows}

-- Row `i` of `rows` is the slice of `t` from `i * w` on.
pub record IsFlat (w : ℕ) (rows : List (List ℕ)) (t : List ℕ) : Type 0 where
  pub size : length t ≡ length rows * w
  pub row : (i : ℕ) → i < length rows → slice w t (i * w) ≡ get_or rows i []

pub slot_fits : (w i n : ℕ) → i < n → i * w + w ≤ n * w
slot_fits w i n h = let step : suc i * w ≤ n * w = mul-le-mul_right w h in omega (arith, step)

pub slots_apart : (w i j : ℕ) → (i == j) ≡ false → (i * w + w ≤ j * w) ⊎ (j * w + w ≤ i * w)
slots_apart w i j h = elim (Bool-cases (ltb i j)) [
  | inl before ↦ inl (slot_fits w i j (ground arith))
  | inr after ↦ inr (slot_fits w j i (ground arith))
]

pub IsFlat-width :
    (w : ℕ) (rows : List (List ℕ)) (t : List ℕ)
    → IsFlat w rows t
    → (i : ℕ) → i < length rows
    → length (get_or rows i []) ≡ w
IsFlat-width w rows t flat i h =
    sym (ap length (flat.row i h))
    ∙ length-slice w t (i * w) (omega (arith, slot_fits w i (length rows) h, flat.size))

pub IsFlat-set :
    (w : ℕ) (rows : List (List ℕ)) (t : List ℕ) (i : ℕ) (v : List ℕ)
    → IsFlat w rows t
    → i < length rows
    → length v ≡ w
    → IsFlat w (set rows i v) (write t (i * w) v)
IsFlat-set w rows t i v flat h e =
    let fits = slot_fits w i (length rows) h in
    let inside : i * w + w ≤ length t = omega (arith, fits, flat.size) in
    record {
      size = rw (length-set rows i v) (length-write t (i * w) v (omega arith) ∙ flat.size);
      row = λ j l. elim (Bool-cases (j == i)) [
        | inl here ↦
            let same : j ≡ i = ground arith in
            rw (same, get_or-set_self rows i v [] h) (slice-write_self w t (i * w) v e inside)
        | inr other ↦
            let l' : j < length rows = omega (arith, length-set rows i v) in
            let there : j * w + w ≤ length t =
              omega (arith, slot_fits w j (length rows) l', flat.size) in
            rw (get_or-set_ne rows i j v [] (λ s. ground arith)) (
              slice-write_apart w t (i * w) (j * w) v e inside there
                (slots_apart w i j (ground arith))
              ∙ flat.row j l')
      ];
    }

pub slice-replicate : (w m a : ℕ) → a + w ≤ m → slice w (replicate m zero) a ≡ replicate w zero
slice-replicate w m a h =
    let inside : a + w ≤ length (replicate m zero) = omega (arith, length-replicate m zero) in
    eq_of_get_or _ _ (length-slice w (replicate m zero) a inside ∙ sym (length-replicate w zero))
      (λ k.
        get_or-slice w (replicate m zero) a k
        ∙ rw (get_or-replicate m (a + k) zero, get_or-replicate w k zero) (ground arith))

pub IsFlat-replicate : (w n : ℕ) → IsFlat w (replicate n (replicate w 0)) (replicate (n * w) 0)
IsFlat-replicate w n =
    let row : List ℕ = replicate w 0 in
    record {
      size = rw (length-replicate n row) (length-replicate (n * w) zero);
      row = λ i h.
          let l : i < n = omega (arith, length-replicate n row) in
          rw (get_or-replicate_lt n i row [] l)
            (slice-replicate w (n * w) (i * w) (slot_fits w i n l));
    }

-- The rows from row `k` on that a flat array is made of.
abbrev pub slices : ℕ → List ℕ → ℕ → ℕ → List (List ℕ)
slices w t zero k = []
slices w t (suc n) k = slice w t (k * w) ∷ slices w t n (k + 1)

pub length-slices : (w : ℕ) (t : List ℕ) (n k : ℕ) → length (slices w t n k) ≡ n
length-slices w t zero k = refl
length-slices w t (suc n) k = ap suc (length-slices w t n (k + 1))

get_or-slices :
    (w : ℕ) (t : List ℕ) (n k i : ℕ)
    → i < n
    → get_or (slices w t n k) i [] ≡ slice w t ((k + i) * w)
get_or-slices w t zero k i h = absurd (omega arith)
get_or-slices w t (suc n) k zero h = let z : k + 0 ≡ k = omega arith in rw z refl
get_or-slices w t (suc n) k (suc i) h =
    let shift : k + suc i ≡ k + 1 + i = omega arith in
    rw shift (get_or-slices w t n (k + 1) i (omega arith))

pub IsFlat-slices : (w n : ℕ) (t : List ℕ) → length t ≡ n * w → IsFlat w (slices w t n 0) t
IsFlat-slices w n t size = record {
  size = size ∙ ap (λ k. k * w) (sym (length-slices w t n 0));
  row = λ i h.
      let z : 0 + i ≡ i = omega arith in
      sym (rw z at (get_or-slices w t n 0 i (omega (arith, length-slices w t n 0))));
}

-- A flat array of rows that the body gives agrees with the array of rows of a body that gives the
-- same, and is filled without an exception.
module _ (w : ℕ) (f : ℕ → Result (List ℕ)) (g : ℕ → List ℕ → Result (List ℕ)) where
  fill_rows-IsFlat :
      (n b : ℕ) (rows : List (List ℕ)) (t : List ℕ)
      → b + n ≤ length rows
      → IsFlat w rows t
      → ((i : ℕ)
          → b ≤ i
          → i < b + n
          → (v : List ℕ) × (f i ≡ ok v) × (g i (get_or rows i []) ≡ ok v) × (length v ≡ w))
      → (rows' : List (List ℕ)) × (t' : List ℕ) × (fill (indices n b) f rows ≡ ok rows')
        × (fill_rows w (indices n b) g t ≡ ok t')
        × IsFlat w rows' t'
        × (length rows' ≡ length rows)
  unfolding fill fill_rows indices
  fill_rows-IsFlat zero b rows t h flat each = (rows, t, refl, refl, flat, refl)
  fill_rows-IsFlat (suc n) b rows t h flat each =
      let (v, e, e', size) = each b (omega arith) (omega arith) in
      let same = length-set rows b v in
      let later : (i : ℕ)
          → b + 1 ≤ i
          → i < b + 1 + n
          → (u : List ℕ) × (f i ≡ ok u)
            × (g i (get_or (set rows b v) i []) ≡ ok u)
            × (length u ≡ w) =
        λ i p q.
          rw (get_or-set_ne rows b i v [] (λ s. absurd (omega arith)))
            (each i (omega arith) (omega arith)) in
      let (rows', t', r, r', flat', size') =
        fill_rows-IsFlat n (b + 1) (set rows b v) (write t (b * w) v) (omega arith)
          (IsFlat-set w rows t b v flat (omega arith) size) later in
      (rows', t', rw e r, rw (flat.row b (omega arith), e') r', flat', size' ∙ same)

  pub rb_for_rows-IsFlat :
      (hw n : ℕ) (multi_thread : Bool) (worker_threads : ℕ) (rows : List (List ℕ)) (t : List ℕ)
      → n ≤ length rows
      → IsFlat w rows t
      → ((i : ℕ)
          → i < n
          → (v : List ℕ) × (f i ≡ ok v) × (g i (get_or rows i []) ≡ ok v) × (length v ≡ w))
      → (rows' : List (List ℕ)) × (t' : List ℕ) × (rb_for hw n multi_thread worker_threads f rows
          ≡ ok rows')
        × (rb_for_rows w hw n multi_thread worker_threads g t ≡ ok t')
        × IsFlat w rows' t'
        × (length rows' ≡ length rows)
  unfolding rb_for rb_for_rows
  rb_for_rows-IsFlat hw n multi_thread worker_threads rows t h flat each =
      rw (rb_for_ranges-visits hw n multi_thread worker_threads)
        (fill_rows-IsFlat n 0 rows t (omega arith) flat (λ i p q. each i (omega arith)))
