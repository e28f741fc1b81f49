-- ===== src/Psi/Workers.antt =====
-- frontend/pqpsi/protocols/tools/parallel.h. Threads write disjoint ranges of indices, so a run is
-- the list of ranges that it hands out, in order; `hw` is std::thread::hardware_concurrency().
pub mod Cover
use pq_psi.Base.{
  ℕ, zero, suc, ◌+◌, ◌-◌, ◌*◌, ◌/◌, min, max, Bool, true, false, not, ◌||◌, if◌then◌else◌, ltb, leb,
  ◌==◌, List, [], ◌∷◌, Result, ok, err, terminated, ◌≡◌, refl,
}
use pq_psi.Okvs.Parallel.{Range, visited}
use pq_psi.Okvs.Rows.{fill}
use pq_psi.Okvs.Flat.{fill_rows}

unfoldable pub worker_limit : ℕ → Bool → ℕ → ℕ
worker_limit hw multi_thread requested =
    if not multi_thread
    then 1
    else if requested == 0
    then max 1 hw
    else max 1 (min requested (max 1 hw))

unfoldable pub worker_count : ℕ → ℕ → ℕ → Bool → ℕ → ℕ
worker_count hw n min_work multi_thread worker_threads =
    if n == 0 || not multi_thread
    then 1
    else max 1 (min (worker_limit hw multi_thread worker_threads) (max 1 (n / max 1 min_work)))

-- The loop over `t` of parallelFor, with `rounds` threads left to start.
unfoldable pub start_workers : ℕ → ℕ → ℕ → ℕ → List Range
start_workers zero t n chunk = []
start_workers (suc rounds) t n chunk =
    let begin = t * chunk in
    let rest = start_workers rounds (t + 1) n chunk in
    if leb n begin then [] else record { begin = begin; end = min n (begin + chunk) } ∷ rest

-- The ranges that parallelFor calls `fn` on.
unfoldable pub parallel_for : ℕ → ℕ → ℕ → Bool → ℕ → List Range
parallel_for hw n min_work multi_thread worker_threads =
    let count = worker_count hw n min_work multi_thread worker_threads in
    let whole : Range = record { begin = 0; end = n } in
    if n == 0
    then []
    else if not multi_thread || leb count 1
    then whole ∷ []
    else start_workers count 0 n ((n + count - 1) / count)

-- A run that fills an array, and one that updates the rows of a flat array in place, with bodies
-- that catch what they throw: the run ends with the exception of the lowest index, where the code
-- keeps the earliest.
unfoldable pub run_for_caught {ℓ} :
    {A : Type ℓ} → ℕ → ℕ → ℕ → Bool → ℕ → (ℕ → Result A) → List A → Result (List A)
run_for_caught hw n min_work multi_thread worker_threads f out =
    fill (visited (parallel_for hw n min_work multi_thread worker_threads)) f out

unfoldable pub run_rows_caught :
    ℕ → ℕ → ℕ → ℕ → Bool → ℕ → (ℕ → List ℕ → Result (List ℕ)) → List ℕ → Result (List ℕ)
run_rows_caught w hw n min_work multi_thread worker_threads f out =
    fill_rows w (visited (parallel_for hw n min_work multi_thread worker_threads)) f out

-- An exception leaves a call of `fn` in the caller's thread, and ends the process where the ranges
-- have threads of their own, which is where there are several.
unfoldable pub end_threads {ℓ} : {A : Type ℓ} → List Range → Result A → Result A
end_threads (r ∷ s ∷ ranges) (err thrown) = err terminated
end_threads ranges result = result

-- The same runs with bodies that catch nothing.
unfoldable pub run_for {ℓ} :
    {A : Type ℓ} → ℕ → ℕ → ℕ → Bool → ℕ → (ℕ → Result A) → List A → Result (List A)
run_for hw n min_work multi_thread worker_threads f out =
    end_threads (parallel_for hw n min_work multi_thread worker_threads)
      (run_for_caught hw n min_work multi_thread worker_threads f out)

unfoldable pub run_rows :
    ℕ → ℕ → ℕ → ℕ → Bool → ℕ → (ℕ → List ℕ → Result (List ℕ)) → List ℕ → Result (List ℕ)
run_rows w hw n min_work multi_thread worker_threads f out =
    end_threads (parallel_for hw n min_work multi_thread worker_threads)
      (run_rows_caught w hw n min_work multi_thread worker_threads f out)

-- A run that returns is not ended.
pub end_threads-eq-ok {ℓ} :
    {A : Type ℓ} (ranges : List Range) (result : Result A) {a : A}
    → end_threads ranges result ≡ ok a
    → result ≡ ok a
unfolding end_threads
end_threads-eq-ok [] (err thrown) h = h
end_threads-eq-ok (r ∷ []) (err thrown) h = h
end_threads-eq-ok (r ∷ s ∷ ranges) (err thrown) h = cc
end_threads-eq-ok [] (ok a) h = h
end_threads-eq-ok (r ∷ []) (ok a) h = h
end_threads-eq-ok (r ∷ s ∷ ranges) (ok a) h = h

pub end_threads-ok {ℓ} :
    {A : Type ℓ} (ranges : List Range) (a : A) → end_threads ranges (ok a) ≡ ok a
unfolding end_threads
end_threads-ok [] a = refl
end_threads-ok (r ∷ []) a = refl
end_threads-ok (r ∷ s ∷ ranges) a = refl
