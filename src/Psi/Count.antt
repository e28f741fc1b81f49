-- ===== src/Psi/Count.antt =====
-- The counts of hits of frontend/pqpsi/protocols/tools: countHits of mask.h, countDecapHits and
-- countEcHits of kem_rows.h, which run one test at every index and add up.
pub mod Partial
use pq_psi.Base.{
  ℕ, zero, suc, ◌+◌, ◌-◌, ◌*◌, ◌/◌, min, Bool, true, false, not, ◌||◌, if◌then◌else◌, ltb, ◌==◌,
  List, [], ◌∷◌, length, get_or, replicate, Result, ok, ◌>>=◌,
}
use pq_psi.Psi.Workers.{worker_limit, run_for}

-- `rounds` rounds of the loop over `i` that adds the test's value.
unfoldable pub count_loop : (ℕ → Bool) → ℕ → ℕ → ℕ → ℕ
count_loop test zero i hits = hits
count_loop test (suc rounds) i hits =
    count_loop test rounds (i + 1) (hits + (if test i then 1 else 0))

-- The loop over the partial counts.
unfoldable pub sum_partial : List ℕ → ℕ → ℕ
sum_partial [] hits = hits
sum_partial (v ∷ vs) hits = sum_partial vs (hits + v)

-- The count of thread `t`.
unfoldable pub count_part : (ℕ → Bool) → ℕ → ℕ → ℕ → ℕ
count_part test n chunk t =
    let from = t * chunk in let to = min n (from + chunk) in count_loop test (to - from) from 0

unfoldable pub count_tests : ℕ → ℕ → Bool → ℕ → (ℕ → Bool) → Result ℕ
count_tests hw n multi_thread worker_threads test =
    let threads = min (worker_limit hw multi_thread worker_threads) n in
    let chunk = (n + threads - 1) / threads in
    if not multi_thread || ltb n 64 then ok (count_loop test n 0 0) else (do
      partial ←
          run_for hw threads 1 true threads (λ t. ok (count_part test n chunk t))
            (replicate threads 0)
      ok (sum_partial partial 0))

-- countHits of mask.h
unfoldable pub count_mask : ℕ → List ℕ → Bool → ℕ → Result ℕ
count_mask hw mask multi_thread worker_threads =
    count_tests hw (length mask) multi_thread worker_threads (λ i. not (get_or mask i 0 == 0))
