-- ===== src/Psi/Protocol/Update.antt =====
-- A run over the rows of a flat array puts at each row what the body returns there.
use pq_psi.Base.{
  ℕ, zero, suc, ◌+◌, ◌*◌, ◌≤◌, ◌<◌, ◌≡◌, refl, sym, ap, ◌∙◌, arith, inl, inr, Bool, Bool-cases,
  ◌==◌, List, length, slice, write, length-slice, length-write, slice-write_self, slice-write_apart,
  Result, ok, >>=-eq-ok, ok-injective, false,
}
use pq_psi.Okvs.Parallel.{indices, visited}
use pq_psi.Okvs.Flat.{fill_rows}
use pq_psi.Okvs.Flat.Fill.{slot_fits, slots_apart}
use pq_psi.Psi.Workers.{
  parallel_for, run_rows, run_rows_caught, end_threads, end_threads-eq-ok, end_threads-ok,
}
use pq_psi.Psi.Workers.Cover.{parallel_for-visits}

module _ (w : ℕ) (f : ℕ → List ℕ → Result (List ℕ)) where
  -- What an update of the rows from `b` to `b + n` leaves.
  pub record IsUpdated (n b : ℕ) (t t' : List ℕ) : Type 0 where
    pub size : length t' ≡ length t
    pub inside : (i : ℕ) → b ≤ i → i < b + n → f i (slice w t (i * w)) ≡ ok (slice w t' (i * w))
    pub before : (i : ℕ) → i < b → slice w t' (i * w) ≡ slice w t (i * w)

  -- The body returns rows of the width on rows of the width, at the indices of the run.
  abbrev pub KeepsWidth : ℕ → ℕ → Type 0
  KeepsWidth n b =
      (i : ℕ) (x y : List ℕ) → b ≤ i → i < b + n → length x ≡ w → f i x ≡ ok y → length y ≡ w

  abbrev pub AllReturn : ℕ → ℕ → Type 0
  AllReturn n b =
      (i : ℕ) (x : List ℕ)
      → b ≤ i
      → i < b + n
      → length x ≡ w
      → (y : List ℕ) × (f i x ≡ ok y) × (length y ≡ w)

  row_fits : (n b i : ℕ) (t : List ℕ) → (b + n) * w ≤ length t → i < b + n → i * w + w ≤ length t
  row_fits n b i t h l = omega (arith, slot_fits w i (b + n) l)

  -- One row written, and the rows after it updated.
  IsUpdated-step :
      (n b : ℕ) (t t' v : List ℕ)
      → (b + suc n) * w ≤ length t
      → length v ≡ w
      → f b (slice w t (b * w)) ≡ ok v
      → IsUpdated n (b + 1) (write t (b * w) v) t'
      → IsUpdated (suc n) b t t'
  IsUpdated-step n b t t' v h e run later =
      let fits : b * w + w ≤ length t = row_fits (suc n) b b t h (omega arith) in
      let size : length (write t (b * w) v) ≡ length t = length-write t (b * w) v (omega arith) in
      let apart : (i : ℕ)
          → (b == i) ≡ false
          → i < b + suc n
          → slice w (write t (b * w) v) (i * w) ≡ slice w t (i * w) =
        λ i other l.
          slice-write_apart w t (b * w) (i * w) v e fits (row_fits (suc n) b i t h l)
            (slots_apart w b i other) in
      record {
        size = later.size ∙ size;
        inside = λ i p q. elim (Bool-cases (b == i)) [
          | inl here ↦
              let same : i ≡ b = ground arith in
              rw same (
                run
                ∙ ap ok
                    (sym (later.before b (omega arith) ∙ slice-write_self w t (b * w) v e fits)))
          | inr other ↦
              ap (f i) (sym (apart i other q)) ∙ later.inside i (ground arith) (omega arith)
        ];
        before = λ i p. later.before i (omega arith) ∙ apart i (ground arith) (omega arith);
      }

  fill_rows-IsUpdated :
      (n b : ℕ) (t t' : List ℕ)
      → (b + n) * w ≤ length t
      → KeepsWidth n b
      → fill_rows w (indices n b) f t ≡ ok t'
      → IsUpdated n b t t'
  unfolding fill_rows indices
  fill_rows-IsUpdated zero b t t' h keeps e = record {
    size = cc;
    inside = λ i p q. absurd (omega arith);
    before = λ i p. cc;
  }
  fill_rows-IsUpdated (suc n) b t t' h keeps e =
      let (v, run, rest) = >>=-eq-ok (f b (slice w t (b * w))) _ e in
      let fits : b * w + w ≤ length t = row_fits (suc n) b b t h (omega arith) in
      let width = keeps b _ v (omega arith) (omega arith) (length-slice w t (b * w) fits) run in
      let shift : b + suc n ≡ b + 1 + n = omega arith in
      let size : length (write t (b * w) v) ≡ length t = length-write t (b * w) v (omega arith) in
      IsUpdated-step n b t t' v h width run (
        fill_rows-IsUpdated n (b + 1) (write t (b * w) v) t' (rw size (rw shift at h))
          (λ i x y p q. keeps i x y (omega arith) (omega arith)) rest)

  fill_rows-returns :
      (n b : ℕ) (t : List ℕ)
      → (b + n) * w ≤ length t
      → AllReturn n b
      → (t' : List ℕ) × (fill_rows w (indices n b) f t ≡ ok t')
  unfolding fill_rows indices
  fill_rows-returns zero b t h total = (t, refl)
  fill_rows-returns (suc n) b t h total =
      let fits : b * w + w ≤ length t = row_fits (suc n) b b t h (omega arith) in
      let (v, run, width) = total b _ (omega arith) (omega arith) (length-slice w t (b * w) fits) in
      let shift : b + suc n ≡ b + 1 + n = omega arith in
      let size : length (write t (b * w) v) ≡ length t = length-write t (b * w) v (omega arith) in
      let (t', rest) =
        fill_rows-returns n (b + 1) (write t (b * w) v) (rw size (rw shift at h))
          (λ i x p q. total i x (omega arith) (omega arith)) in
      (t', rw run rest)

  -- A run of parallelFor over the rows.
  pub run_rows_caught-IsUpdated :
      (hw n min_work : ℕ) (multi_thread : Bool) (worker_threads : ℕ) (t t' : List ℕ)
      → length t ≡ n * w
      → KeepsWidth n 0
      → run_rows_caught w hw n min_work multi_thread worker_threads f t ≡ ok t'
      → IsUpdated n 0 t t'
  unfolding run_rows_caught
  run_rows_caught-IsUpdated hw n min_work multi_thread worker_threads t t' size keeps e =
      let z : 0 + n ≡ n = omega arith in
      let room : (0 + n) * w ≤ length t = rw z (omega arith) in
      fill_rows-IsUpdated n 0 t t' room keeps
        (rw (parallel_for-visits hw n min_work multi_thread worker_threads) at e)

  pub run_rows-IsUpdated :
      (hw n min_work : ℕ) (multi_thread : Bool) (worker_threads : ℕ) (t t' : List ℕ)
      → length t ≡ n * w
      → KeepsWidth n 0
      → run_rows w hw n min_work multi_thread worker_threads f t ≡ ok t'
      → IsUpdated n 0 t t'
  unfolding run_rows
  run_rows-IsUpdated hw n min_work multi_thread worker_threads t t' size keeps e =
      run_rows_caught-IsUpdated hw n min_work multi_thread worker_threads t t' size keeps
        (end_threads-eq-ok (parallel_for hw n min_work multi_thread worker_threads) _ e)

  pub run_rows-returns :
      (hw n min_work : ℕ) (multi_thread : Bool) (worker_threads : ℕ) (t : List ℕ)
      → length t ≡ n * w
      → AllReturn n 0
      → (t' : List ℕ) × (run_rows w hw n min_work multi_thread worker_threads f t ≡ ok t')
        × IsUpdated n 0 t t'
  unfolding run_rows run_rows_caught
  run_rows-returns hw n min_work multi_thread worker_threads t size total =
      let z : 0 + n ≡ n = omega arith in
      let room : (0 + n) * w ≤ length t = rw z (omega arith) in
      let (t', run) = fill_rows-returns n 0 t room total in
      let keeps : KeepsWidth n 0 = λ i x y p q e g.
        let (y', g', width) = total i x p q e in
        let same : y' ≡ y = ok-injective (sym g' ∙ g) in rw same at width in
      let ranges = parallel_for hw n min_work multi_thread worker_threads in
      let whole : fill_rows w (visited ranges) f t ≡ ok t' =
        rw (parallel_for-visits hw n min_work multi_thread worker_threads) run in
      (
        t',
        ap (end_threads ranges) whole ∙ end_threads-ok ranges t',
        fill_rows-IsUpdated n 0 t t' room keeps run,
      )
