-- ===== src/Perm/Params.antt =====
-- frontend/permutation/params.h and the checks of the constructor of frontend/permutation/cons.h:
-- the step of the construction over a small permutation. Twice the level is a word of 64 bits.
pub mod Step
use pq_psi.Base.{
  ℕ, zero, suc, ◌+◌, ◌-◌, ◌*◌, ◌/◌, ◌%◌, ◌^◌, Bool, true, false, not, ◌&&◌, ◌||◌, ◌==◌, ltb, leb,
  if◌then◌else◌, Result, ok, err, invalid_argument, ◌>>=◌, ◌>>◌, throw_if,
}

pub data Kind : Type 0 where
  keccak800 : Kind
  keccak1600 : Kind
  keccak1600_r12 : Kind
  sneik_f512 : Kind

-- The bits of the small permutation, of the state and of a step, and the security level.
pub record Params : Type 0 where
  pub kind : Kind
  pub small_bits : ℕ
  pub total_bits : ℕ
  pub step : ℕ
  pub lambda : ℕ

unfoldable pub width_of : Kind → ℕ
width_of keccak800 = 800
width_of keccak1600 = 1600
width_of keccak1600_r12 = 1600
width_of sneik_f512 = 512

-- The loop over `s` of `bestStep`.
unfoldable pub best_loop : ℕ → ℕ → ℕ → ℕ → ℕ → ℕ → ℕ
best_loop zero s small gap min_gap best = best
best_loop (suc rounds) s small gap min_gap best =
    let fits = gap % s == 0 && (leb min_gap s && leb min_gap (small - s)) in
    best_loop rounds (s + 1) small gap min_gap (if fits then s else best)

unfoldable pub best_step : ℕ → ℕ → ℕ → Result ℕ
best_step small total lambda = do
  throw_if (leb total small) (invalid_argument "Pi needs N > n")
  let best = best_loop small 1 small (total - small) (2 * lambda % 2 ^ 64) 0
  throw_if (best == 0) (invalid_argument "no valid Pi step for this small permutation")
  ok best

unfoldable pub defaults : Kind → ℕ → ℕ → Result Params
defaults kind total lambda = do
  step ← best_step (width_of kind) total lambda
  ok (record {
    kind = kind;
    small_bits = width_of kind;
    total_bits = total;
    step = step;
    lambda = lambda;
  })

-- `width` is the width of the small permutation that the constructor made.
pub check_params : ℕ → Params → Result (Unit {0})
check_params width p = do
  throw_if (p.small_bits == 0 || (p.total_bits == 0 || p.step == 0))
      (invalid_argument "Pi params must be positive")
  throw_if (not (p.small_bits == width))
      (invalid_argument "Pi n must match the small permutation width")
  throw_if (leb p.total_bits p.small_bits) (invalid_argument "Pi needs N > n")
  throw_if (not ((p.total_bits - p.small_bits) % p.step == 0))
      (invalid_argument "Pi needs step to divide N - n")
  throw_if (ltb p.small_bits p.step) (invalid_argument "Pi needs s <= n")
  throw_if
      (not
        (leb (2 * p.lambda % 2 ^ 64) p.step && leb (2 * p.lambda % 2 ^ 64) (p.small_bits - p.step)))
      (invalid_argument "Pi lambda check failed")
