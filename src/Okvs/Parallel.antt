-- ===== src/Okvs/Parallel.antt =====
-- frontend/okvs/rb/parallel.h. Threads write disjoint ranges of indices, so a run is the list of
-- ranges that it hands out, in order; `hw` is std::thread::hardware_concurrency().
pub mod Cover
use pq_psi.Base.{
  ℕ, zero, suc, ◌+◌, ◌-◌, ◌*◌, ◌/◌, min, max, Bool, true, false, not, ◌||◌, if◌then◌else◌, ltb, leb,
  ◌==◌, List, [], ◌∷◌, ◌++◌,
}

unfoldable pub rb_hw_threads : ℕ → ℕ
rb_hw_threads hw = max 1 hw

unfoldable pub rb_worker_threads : ℕ → Bool → ℕ → ℕ
rb_worker_threads hw multi_thread requested =
    if not multi_thread
    then 1
    else (if requested == 0 then rb_hw_threads hw else max 1 (min requested (rb_hw_threads hw)))

-- A half-open range of indices, one call of `fn`.
pub record Range : Type 0 where
  pub begin : ℕ
  pub end : ℕ

-- The loop over `t` of RBFor, with `rounds` threads left to start.
unfoldable pub spawn : ℕ → ℕ → ℕ → ℕ → List Range
spawn zero t n chunk = []
spawn (suc rounds) t n chunk =
    let begin = min n (t * chunk) in
    let end = min n (begin + chunk) in
    let rest = spawn rounds (t + 1) n chunk in
    if leb end begin then [] else record { begin = begin; end = end } ∷ rest

-- The ranges that RBFor runs.
unfoldable pub rb_for_ranges : ℕ → ℕ → Bool → ℕ → List Range
rb_for_ranges hw n multi_thread worker_threads =
    let threads = min (rb_worker_threads hw multi_thread worker_threads) n in
    let chunk = (n + threads - 1) / threads in
    if n == 0
    then []
    else (if not multi_thread || (leb threads 1 || ltb n 64)
        then record { begin = 0; end = n } ∷ []
        else spawn threads 0 n chunk)

-- The indices that a run visits.
unfoldable pub indices : ℕ → ℕ → List ℕ
indices zero begin = []
indices (suc rounds) begin = begin ∷ indices rounds (begin + 1)

unfoldable pub visited : List Range → List ℕ
visited [] = []
visited (r ∷ rs) = indices (r.end - r.begin) r.begin ++ visited rs
