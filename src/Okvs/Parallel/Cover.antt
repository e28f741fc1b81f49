-- ===== src/Okvs/Parallel/Cover.antt =====
-- The ranges of RBFor cover the indices from 0 to n, each once and in order.
use pq_psi.Base.{
  ℕ, zero, suc, ◌+◌, ◌-◌, ◌*◌, ◌/◌, ◌≤◌, ◌<◌, ◌≡◌, ◌⊎◌, refl, ap, min, Bool, false, not, ◌||◌, ltb,
  leb, ◌==◌, [], ◌∷◌, ◌++◌, arith, Bool-cases, inl, inr, ltb→lt, ltb→ge, le→leb,
}
use mathlib.Core.List.{append-nil}
use native.Mathlib.Nat.{div-add-mod, mod-lt, le-div_iff_mul-le}
use pq_psi.Okvs.Parallel.{spawn, rb_for_ranges, indices, visited, rb_worker_threads}

indices-append : (a b i : ℕ) → indices (a + b) i ≡ indices a i ++ indices b (i + a)
unfolding indices
indices-append zero b i =
    let e : 0 + b ≡ b = omega arith in let f : i + 0 ≡ i = omega arith in rw (e, f)
indices-append (suc a) b i =
    let e : suc a + b ≡ suc (a + b) = omega arith in
    let f : i + suc a ≡ i + 1 + a = omega arith in
    rw (e, f) (ap (◌∷◌ i) (indices-append a b (i + 1)))

-- From thread `t` on, the ranges cover what is left.
pub spawn-visits :
    (rounds t n chunk : ℕ)
    → 0 < chunk
    → n ≤ (t + rounds) * chunk
    → visited (spawn rounds t n chunk) ≡ indices (n - t * chunk) (t * chunk)
unfolding spawn visited indices
spawn-visits zero t n chunk pos h =
    let none_left : n - t * chunk ≡ 0 = omega arith in rw none_left (unfold indices in refl)
spawn-visits (suc rounds) t n chunk pos h = elim (Bool-cases (ltb (t * chunk) n)) [
  | inl more ↦
      goes_on (spawn-visits rounds (t + 1) n chunk pos (omega arith)) (ltb→lt (t * chunk) n more)
  | inr stop ↦
      let none_left : n - t * chunk ≡ 0 = omega (arith, ltb→ge (t * chunk) n stop) in
      let first : min n (t * chunk) ≡ n = omega (arith, ltb→ge (t * chunk) n stop) in
      rw (none_left, first, le→leb (min n (n + chunk)) n (omega arith)) (unfold indices in refl)
]
  where
    goes_on :
        visited (spawn rounds (t + 1) n chunk) ≡ indices (n - (t + 1) * chunk) ((t + 1) * chunk)
        → t * chunk < n
        → visited (spawn (suc rounds) t n chunk) ≡ indices (n - t * chunk) (t * chunk)
    goes_on rest more =
        let first : min n (t * chunk) ≡ t * chunk = omega arith in
        let last = min n (t * chunk + chunk) in
        let later : leb last (t * chunk) ≡ false = ground arith in
        rw (first, later, rest)
          (joined (last - t * chunk) (n - (t + 1) * chunk) (omega arith) (omega arith))
      where
        joined :
            (size left : ℕ)
            → size + left ≡ n - t * chunk
            → (left ≡ 0) ⊎ (t * chunk + size ≡ (t + 1) * chunk)
            → indices size (t * chunk) ++ indices left ((t + 1) * chunk)
              ≡ indices (n - t * chunk) (t * chunk)
        joined size left e (inl none_left) =
            let whole : n - t * chunk ≡ size = omega arith in
            rw (none_left, whole) (append-nil (indices size (t * chunk)))
        joined size left e (inr next) = rw (← e, indices-append size left (t * chunk), next) refl

pub ceil_div : (n k : ℕ) → 0 < k → n ≤ k * ((n + k - 1) / k)
ceil_div n k h = omega (arith, div-add-mod (n + k - 1) k, mod-lt (n + k - 1) h)

pub ceil_div_pos : (n k : ℕ) → 0 < k → 0 < n → 0 < (n + k - 1) / k
ceil_div_pos n k h p = (le-div_iff_mul-le {k = k} {x = 1} {y = n + k - 1} h).1 (omega arith)

-- For every number of hardware threads, indices and requested threads, the ranges of a run visit
-- each index below n once, in order.
pub rb_for_ranges-visits :
    (hw n : ℕ) (multi_thread : Bool) (worker_threads : ℕ)
    → visited (rb_for_ranges hw n multi_thread worker_threads) ≡ indices n 0
unfolding rb_for_ranges
rb_for_ranges-visits hw n multi_thread worker_threads =
    let threads = min (rb_worker_threads hw multi_thread worker_threads) n in
    let chunk = (n + threads - 1) / threads in
    elim (Bool-cases (n == 0)) [
      | inl empty ↦ let e : n ≡ 0 = ground arith in rw e (unfold visited indices in refl)
      | inr some_work ↦
          rw some_work (elim (Bool-cases (not multi_thread || (leb threads 1 || ltb n 64))) [
            | inl alone ↦ rw alone (one_range n)
            | inr shared ↦
                let many : 1 < threads = ground arith in
                rw shared (
                  from_zero threads chunk (
                    spawn-visits threads 0 n chunk
                      (ceil_div_pos n threads (omega arith) (omega arith))
                      (enough threads chunk (ceil_div n threads (omega arith)))))
          ])
    ]
  where
    one_range : (n : ℕ) → visited (record { begin = 0; end = n } ∷ []) ≡ indices n 0
    one_range n =
        let e : n - 0 ≡ n = omega arith in unfold visited in rw e (append-nil (indices n 0))

    enough : (threads chunk : ℕ) → n ≤ threads * chunk → n ≤ (0 + threads) * chunk
    enough threads chunk h = omega arith

    from_zero :
        (threads chunk : ℕ)
        → visited (spawn threads 0 n chunk) ≡ indices (n - 0 * chunk) (0 * chunk)
        → visited (spawn threads 0 n chunk) ≡ indices n 0
    from_zero threads chunk h =
        let e : n - 0 * chunk ≡ n = omega arith in
        let f : 0 * chunk ≡ 0 = omega arith in rw (e, f) at h
