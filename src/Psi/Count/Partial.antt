-- ===== src/Psi/Count/Partial.antt =====
-- The partial counts of the threads add up to the count of one loop.
use pq_psi.Base.{
  ℕ, zero, suc, ◌+◌, ◌-◌, ◌*◌, ◌/◌, ◌≤◌, ◌<◌, ◌≡◌, refl, sym, ap, ◌∙◌, min, Bool, true, not, ◌||◌,
  ltb, leb, if◌then◌else◌, Bool-cases, inl, inr, List, [], ◌∷◌, length, length-replicate, get_or,
  replicate, arith, Result, ok, ok-injective,
}
use pq_psi.Okvs.Parallel.Cover.{ceil_div}
use pq_psi.Okvs.Rows.Fill.{fill-IsFilled, fill-total}
use pq_psi.Psi.Workers.{worker_limit}
use pq_psi.Psi.Workers.Cover.{run_for-fill}
use pq_psi.Psi.Count.{count_loop, sum_partial, count_part, count_tests}

worker_limit_pos :
    (hw : ℕ) (multi_thread : Bool) (requested : ℕ) → 1 ≤ worker_limit hw multi_thread requested
unfolding worker_limit
worker_limit_pos hw multi_thread requested = ground arith

zero_first : (n chunk : ℕ) → min n (0 * chunk) ≡ 0
zero_first n chunk = omega arith

module _ (test : ℕ → Bool) where
  -- The number of indices that pass among `n` from `i` on.
  abbrev pub passes : ℕ → ℕ → ℕ
  passes zero i = 0
  passes (suc n) i = (if test i then 1 else 0) + passes n (i + 1)

  pub count_loop-passes : (n i hits : ℕ) → count_loop test n i hits ≡ hits + passes n i
  unfolding count_loop
  count_loop-passes zero i hits = omega arith
  count_loop-passes (suc n) i hits =
      count_loop-passes n (i + 1) (hits + (if test i then 1 else 0)) ∙ omega arith

  passes-add : (a b i : ℕ) → passes (a + b) i ≡ passes a i + passes b (i + a)
  passes-add zero b i =
      let e : 0 + b ≡ b = omega arith in let f : i + 0 ≡ i = omega arith in rw (e, f) (omega arith)
  passes-add (suc a) b i =
      let e : suc a + b ≡ suc (a + b) = omega arith in
      let f : i + suc a ≡ i + 1 + a = omega arith in
      rw (e, f) (omega (arith, passes-add a b (i + 1)))

  piece : (from to : ℕ) → from ≤ to → passes from 0 + passes (to - from) from ≡ passes to 0
  piece from to h =
      let e : from + (to - from) ≡ to = omega arith in
      let z : 0 + from ≡ from = omega arith in sym (rw (e, z) at (passes-add from (to - from) 0))

  -- The parts before thread `t + 1` are those before thread `t` and its own.
  next_part :
      (n chunk t : ℕ)
      → passes (min n (t * chunk)) 0 + count_part test n chunk t
        ≡ passes (min n ((t + 1) * chunk)) 0
  unfolding count_part
  next_part n chunk t =
      let from = t * chunk in
      let size = min n (from + chunk) - from in
      let step : (t + 1) * chunk ≡ from + chunk = omega arith in
      let part = count_loop-passes size from 0 in
      rw (step, part)
        (elim (Bool-cases (leb n from)) [
          | inl past ↦
              let nothing : size ≡ 0 = ground arith in
              let same : min n (from + chunk) ≡ min n from = ground arith in
              rw (nothing, same) (omega arith)
          | inr more ↦
              let first : min n from ≡ from = ground arith in
              let pos = piece from (min n (from + chunk)) (ground arith) in
              rw first (omega (arith, pos))
        ])

  sum_partial-passes :
      (n chunk t : ℕ) (ps : List ℕ) (hits : ℕ)
      → ((i : ℕ) → i < length ps → get_or ps i 0 ≡ count_part test n chunk (t + i))
      → hits ≡ passes (min n (t * chunk)) 0
      → sum_partial ps hits ≡ passes (min n ((t + length ps) * chunk)) 0
  unfolding sum_partial
  sum_partial-passes n chunk t [] hits parts e = let z : t + 0 ≡ t = omega arith in rw z e
  sum_partial-passes n chunk t (v ∷ ps) hits parts e =
      let z : t + 0 ≡ t = omega arith in
      let shift : t + suc (length ps) ≡ t + 1 + length ps = omega arith in
      let own : v ≡ count_part test n chunk t = rw z at (parts 0 (omega arith)) in
      rw shift (
        sum_partial-passes n chunk (t + 1) ps (hits + v)
          (λ i h.
            let next : t + suc i ≡ t + 1 + i = omega arith in
            rw next at (parts (suc i) (omega arith)))
          (rw (e, own) (next_part n chunk t)))

  -- For every number of hardware threads, indices and requested threads, with threads or without,
  -- the count returns, and is the count of one loop over all the indices.
  pub count_tests-count_loop :
      (hw n : ℕ) (multi_thread : Bool) (worker_threads : ℕ)
      → count_tests hw n multi_thread worker_threads test ≡ ok (count_loop test n 0 0)
  unfolding count_tests
  count_tests-count_loop hw n multi_thread worker_threads =
      elim (Bool-cases (not multi_thread || ltb n 64)) [
        | inl alone ↦ rw alone refl
        | inr shared ↦
            let threads = min (worker_limit hw multi_thread worker_threads) n in
            let some_index : 0 < n = ground arith in
            let some_thread : 0 < threads =
              omega (arith, worker_limit_pos hw multi_thread worker_threads) in
            let chunk = (n + threads - 1) / threads in
            let f : ℕ → Result ℕ = λ t. ok (count_part test n chunk t) in
            let zeros : List ℕ = replicate threads 0 in
            let (ps, run) =
              fill-total f 0 threads 0 zeros (λ t h. (count_part test n chunk t, refl)) in
            let filled =
              fill-IsFilled f 0 threads 0 zeros ps (omega (arith, length-replicate threads zero))
                run in
            let size : length ps ≡ threads = filled.size ∙ length-replicate threads zero in
            let total =
              sum_partial-passes n chunk 0 ps 0
                (λ i h.
                  let z : 0 + i ≡ i = omega arith in
                  rw z (sym (ok-injective (filled.inside i (omega arith) (omega arith)))))
                (rw (zero_first n chunk) refl) in
            let all : min n (threads * chunk) ≡ n = omega (arith, ceil_div n threads some_thread) in
            let z : 0 + threads ≡ threads = omega arith in
            rw
              (
                shared,
                run_for-fill hw threads 1 true threads f zeros run,
                total,
                size,
                z,
                all,
                count_loop-passes n 0 0,
              )
              (ap ok (omega arith))
      ]
