-- ===== src/Okvs/Rows/Fill.antt =====
-- A run of RBFor fills every index by the body's value at that index, however it is split.
use pq_psi.Base.{
  ℕ, zero, suc, ◌+◌, ◌≤◌, ◌<◌, ◌≡◌, refl, ◌==◌, Bool-cases, inl, inr, ◌∙◌, Bool, List, length,
  get_or, set, length-set, get_or-set_self, get_or-set_ne, Result, ok, >>=-eq-ok, arith,
}
use pq_psi.Okvs.Parallel.{indices}
use pq_psi.Okvs.Parallel.Cover.{rb_for_ranges-visits}
use pq_psi.Okvs.Rows.{fill, rb_for}

module _ {ℓ} {A : Type ℓ} (f : ℕ → Result A) (d : A) where
  -- What a fill of the indices from `b` to `b + n` leaves.
  pub record IsFilled (n b : ℕ) (xs ys : List A) : Type ℓ where
    pub size : length ys ≡ length xs
    pub inside : (i : ℕ) → b ≤ i → i < b + n → f i ≡ ok (get_or ys i d)
    pub before : (i : ℕ) → i < b → get_or ys i d ≡ get_or xs i d

  pub fill-IsFilled :
      (n b : ℕ) (xs ys : List A)
      → b + n ≤ length xs
      → fill (indices n b) f xs ≡ ok ys
      → IsFilled n b xs ys
  unfolding fill indices
  fill-IsFilled zero b xs ys h e = record {
    size = cc;
    inside = λ i p q. absurd (omega arith);
    before = λ i p. cc;
  }
  fill-IsFilled (suc n) b xs ys h e =
      let (a, fa, rest) = >>=-eq-ok (f b) _ e in
      let later = fill-IsFilled n (b + 1) (set xs b a) ys (omega (arith, length-set xs b a)) rest in
      record {
        size = omega (arith, later.size, length-set xs b a);
        inside = λ i p q. elim (Bool-cases (i == b)) [
          | inl here ↦
              let same : i ≡ b = ground arith in
              rw (same, later.before b (omega arith), get_or-set_self xs b a d (omega arith)) fa
          | inr past ↦ later.inside i (ground arith) (omega arith)
        ];
        before = λ i p.
            later.before i (omega arith) ∙ get_or-set_ne xs b i a d (λ e. absurd (omega arith));
      }

  pub fill-total :
      (n b : ℕ) (xs : List A)
      → ((i : ℕ) → i < b + n → (a : A) × (f i ≡ ok a))
      → (ys : List A) × (fill (indices n b) f xs ≡ ok ys)
  unfolding fill indices
  fill-total zero b xs h = (xs, refl)
  fill-total (suc n) b xs h =
      let (a, fa) = h b (omega arith) in
      let (ys, rest) = fill-total n (b + 1) (set xs b a) (λ i p. h i (omega arith)) in
      (ys, rw fa rest)

  -- When a run over n indices of an array at least as long returns, the array has its length, and
  -- the entry at each of the n indices is what the body returns there.
  pub rb_for-IsFilled :
      (hw n : ℕ) (multi_thread : Bool) (worker_threads : ℕ) (xs ys : List A)
      → n ≤ length xs
      → rb_for hw n multi_thread worker_threads f xs ≡ ok ys
      → IsFilled n 0 xs ys
  unfolding rb_for
  rb_for-IsFilled hw n multi_thread worker_threads xs ys h e =
      fill-IsFilled n 0 xs ys (omega arith)
        (rw (rb_for_ranges-visits hw n multi_thread worker_threads) at e)

  -- When the body returns at each of the n indices, the run over them returns.
  pub rb_for-total :
      (hw n : ℕ) (multi_thread : Bool) (worker_threads : ℕ) (xs : List A)
      → ((i : ℕ) → i < n → (a : A) × (f i ≡ ok a))
      → (ys : List A) × (rb_for hw n multi_thread worker_threads f xs ≡ ok ys)
  unfolding rb_for
  rb_for-total hw n multi_thread worker_threads xs h =
      rw (rb_for_ranges-visits hw n multi_thread worker_threads)
        (fill-total n 0 xs (λ i p. h i (omega arith)))

  -- When the body returns at each of the n indices of an array at least as long, the run returns, the
  -- array keeps its length, and the entry at each of the n indices is what the body returns there.
  pub rb_for-fills :
      (hw n : ℕ) (multi_thread : Bool) (worker_threads : ℕ) (xs : List A)
      → n ≤ length xs
      → ((i : ℕ) → i < n → (a : A) × (f i ≡ ok a))
      → (ys : List A) × (rb_for hw n multi_thread worker_threads f xs ≡ ok ys)
        × (length ys ≡ length xs)
        × ((i : ℕ) → i < n → f i ≡ ok (get_or ys i d))
  rb_for-fills hw n multi_thread worker_threads xs h total =
      let (ys, run) = rb_for-total hw n multi_thread worker_threads xs total in
      let filled = rb_for-IsFilled hw n multi_thread worker_threads xs ys h run in
      (ys, run, filled.size, λ i l. filled.inside i (omega arith) (omega arith))
