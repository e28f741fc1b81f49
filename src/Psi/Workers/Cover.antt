-- ===== src/Psi/Workers/Cover.antt =====
-- The ranges of parallelFor cover the indices from 0 to n, each once and in order.
use pq_psi.Base.{
  ℕ, zero, suc, ◌+◌, ◌-◌, ◌*◌, ◌/◌, ◌≤◌, ◌<◌, ◌≡◌, refl, min, Bool, false, true, not, ◌||◌, leb,
  ◌==◌, [], ◌∷◌, arith, Bool-cases, inl, inr,
}
use mathlib.Core.List.{append-nil}
use pq_psi.Okvs.Parallel.{spawn, indices, visited}
use pq_psi.Okvs.Parallel.Cover.{spawn-visits, ceil_div, ceil_div_pos}
use pq_psi.Base.{List, Result, ok, ap, ◌∙◌}
use pq_psi.Okvs.Rows.{fill}
use pq_psi.Psi.Workers.{
  worker_count, start_workers, parallel_for, run_for, run_for_caught, end_threads, end_threads-ok,
}

-- The loop is the one of RBFor.
start_workers-spawn :
    (rounds t n chunk : ℕ) → 0 < chunk → start_workers rounds t n chunk ≡ spawn rounds t n chunk
unfolding start_workers spawn
start_workers-spawn zero t n chunk pos = refl
start_workers-spawn (suc rounds) t n chunk pos = elim (Bool-cases (leb n (t * chunk))) [
  | inl stop ↦
      let first : min n (t * chunk) ≡ n = ground arith in
      let last : leb (min n (n + chunk)) n ≡ true = ground arith in rw (stop, first, last) refl
  | inr more ↦
      let first : min n (t * chunk) ≡ t * chunk = ground arith in
      let last : leb (min n (t * chunk + chunk)) (t * chunk) ≡ false = ground arith in
      rw (more, first, last, start_workers-spawn rounds (t + 1) n chunk pos) refl
]

one_range : (n : ℕ) → visited (record { begin = 0; end = n } ∷ []) ≡ indices n 0
unfolding visited
one_range n = let e : n - 0 ≡ n = omega arith in rw e (append-nil (indices n 0))

from_zero :
    (n k chunk : ℕ)
    → visited (spawn k 0 n chunk) ≡ indices (n - 0 * chunk) (0 * chunk)
    → visited (spawn k 0 n chunk) ≡ indices n 0
from_zero n k chunk h =
    let e : n - 0 * chunk ≡ n = omega arith in let z : 0 * chunk ≡ 0 = omega arith in rw (e, z) at h

enough_workers : (n k chunk : ℕ) → n ≤ k * chunk → n ≤ (0 + k) * chunk
enough_workers n k chunk h = omega arith

-- For every number of hardware threads, indices, least work and requested threads, the ranges
-- that parallelFor hands out visit each index below n once, in order.
pub parallel_for-visits :
    (hw n min_work : ℕ) (multi_thread : Bool) (worker_threads : ℕ)
    → visited (parallel_for hw n min_work multi_thread worker_threads) ≡ indices n 0
unfolding parallel_for
parallel_for-visits hw n min_work multi_thread worker_threads =
    let count = worker_count hw n min_work multi_thread worker_threads in
    let chunk = (n + count - 1) / count in
    elim (Bool-cases (n == 0)) [
      | inl empty ↦ let e : n ≡ 0 = ground arith in rw e (unfold visited indices in refl)
      | inr some_work ↦ elim (Bool-cases (not multi_thread || leb count 1)) [
        | inl alone ↦ rw (some_work, alone) (one_range n)
        | inr shared ↦
            let many : 1 < count = ground arith in
            let some_index : 0 < n = ground arith in
            let pos = ceil_div_pos n count (omega arith) some_index in
            let enough = enough_workers n count chunk (ceil_div n count (omega arith)) in
            rw (some_work, shared, start_workers-spawn count 0 n chunk pos)
              (from_zero n count chunk (spawn-visits count 0 n chunk pos enough))
      ]
    ]

-- A run whose bodies return at every index returns what they fill.
pub run_for-fill {ℓ} :
    {A : Type ℓ} (hw n min_work : ℕ) (multi_thread : Bool) (worker_threads : ℕ) (f : ℕ → Result A)
    (out : List A) {filled : List A}
    → fill (indices n 0) f out ≡ ok filled
    → run_for hw n min_work multi_thread worker_threads f out ≡ ok filled
unfolding run_for run_for_caught
run_for-fill hw n min_work multi_thread worker_threads f out {filled} h =
    let ranges = parallel_for hw n min_work multi_thread worker_threads in
    let whole : fill (visited ranges) f out ≡ ok filled =
      rw (parallel_for-visits hw n min_work multi_thread worker_threads) h in
    ap (end_threads ranges) whole ∙ end_threads-ok ranges filled
