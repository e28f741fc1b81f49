-- ===== src/Okvs/Fit.antt =====
-- frontend/okvs/rb/fit.h: the size and the band width of a table, and the checks on them.
pub mod Gap
pub mod Bounds
use pq_psi.Base.{
  ℕ, ◌+◌, ◌-◌, ◌*◌, ◌/◌, ◌%◌, ◌^◌, max, Bool, true, false, not, ◌&&◌, ◌||◌, if◌then◌else◌, ltb, leb,
  ◌==◌, Result, ok, err, invalid_argument, ◌>>=◌, ◌>>◌, throw_if,
}
use pq_psi.Okvs.Double.{Double}
use pq_psi.Okvs.Params.{RbParams, RbInfo}
use pq_psi.Okvs.Parallel.{rb_worker_threads}
use Gap.{rb_g_of}

unfoldable pub rb_round_w : ℕ → ℕ
rb_round_w w =
    let widened = (max w 16 + 16 - 1) % 2 ^ 64 / 16 * 16 in if ltb 256 widened then 256 else widened

module _ (d : Double) where
  open d use {Num, of_ℕ, milli, add, sub, mul, div, le, lt, ceil, to_size}

  abbrev pub zero_num : Num
  zero_num = milli 0

  -- std::max<double>
  abbrev pub max_num : Num → Num → Num
  max_num a b = if lt a b then b else a

  unfoldable pub rb_default_eps : ℕ → Num
  rb_default_eps n =
      if leb (max n 1) 128 then milli 120 else if leb (max n 1) 1024 then milli 70 else milli 70

  unfoldable pub rb_eps_of : ℕ → ℕ → Num
  rb_eps_of n columns = sub (div (of_ℕ (max columns (max n 1))) (of_ℕ (max n 1))) (milli 1000)

  unfoldable pub rb_lambda_main : ℕ → Num → Num
  rb_lambda_main band_width eps =
      if le eps zero_num || band_width == 0
      then zero_num
      else mul (mul (milli 2751) eps) (of_ℕ band_width)

  unfoldable pub rb_lambda_of : ℕ → ℕ → Num → Result Num
  rb_lambda_of n band_width eps = do g ← rb_g_of d n eps; ok (add (rb_lambda_main band_width eps) g)

  -- ceil((lambda - g) / (2.751 * eps))
  abbrev pub need_d : ℕ → Num → Num → Num
  need_d lambda g eps = ceil (div (sub (of_ℕ lambda) g) (mul (milli 2751) eps))

  unfoldable pub rb_need_w : ℕ → ℕ → Num → Result ℕ
  rb_need_w n lambda eps = do
    throw_if (le eps zero_num) (invalid_argument "RBNeedW eps <= 0")
    g ← rb_g_of d n eps
    ok (if le (need_d lambda g eps) (milli 1000) then 1 else to_size (need_d lambda g eps))

  -- The width for sizes past the measured ones, from the fit.
  unfoldable pub fitted_width : ℕ → ℕ → Result ℕ
  fitted_width n lambda = do
    g ← rb_g_of d n (rb_default_eps n)
    ok (rb_round_w (to_size (max_num (milli 1000) (need_d lambda g (rb_default_eps n)))))

  unfoldable pub rb_width : ℕ → ℕ → Result ℕ
  rb_width n lambda =
      if leb (max n 1) 128
      then ok 64
      else if leb (max n 1) 256
      then ok 88
      else if leb (max n 1) 512
      then ok 96
      else if leb (max n 1) 1024
      then ok 104
      else if leb (max n 1) 2048
      then ok 240
      else fitted_width (max n 1) lambda

  -- max(n, ceil((1 + eps) n))
  unfoldable pub scaled_size : ℕ → Num → ℕ
  scaled_size n eps = max n (to_size (ceil (mul (add (milli 1000) eps) (of_ℕ n))))

  unfoldable pub rb_size : ℕ → ℕ
  rb_size n = scaled_size (max n 1) (rb_default_eps (max n 1))

  unfoldable pub rb_table_size : ℕ → RbParams Num → ℕ
  rb_table_size n params =
      if not (params.columns == 0)
      then max params.columns (max n 1)
      else if lt zero_num params.eps
      then scaled_size (max n 1) params.eps
      else rb_size (max n 1)

  unfoldable pub rb_table_w : ℕ → ℕ → RbParams Num → Result ℕ
  rb_table_w n columns params =
      if not (params.band_width == 0)
      then ok params.band_width
      else if not (params.columns == 0) || lt zero_num params.eps
      then rb_need_w n params.lambda (rb_eps_of n columns)
      else rb_width n params.lambda

  -- The part of RBCheck that `params.check` turns on; its message goes on with the numbers.
  unfoldable pub check_target : RbInfo Num → Result (Unit {0})
  check_target info = do
    need_w ← rb_need_w info.n info.lambda info.eps
    throw_if (ltb info.band_width need_w) (invalid_argument "RBCheck lambda target not met")

  unfoldable pub rb_check : ℕ → RbParams Num → RbInfo Num → Result (Unit {0})
  rb_check n params info = do
    throw_if (params.lambda == 0) (invalid_argument "RBCheck lambda == 0")
    throw_if (lt params.eps zero_num) (invalid_argument "RBCheck eps < 0")
    throw_if (ltb 256 info.band_width) (invalid_argument "RBCheck width > 256")
    throw_if (ltb info.columns info.band_width) (invalid_argument "RBCheck width > columns")
    throw_if
        (not (params.columns == 0)
          && (lt zero_num params.eps && not (params.columns == scaled_size (max n 1) params.eps)))
        (invalid_argument "RBCheck eps and columns mismatch")
    if params.check then check_target info else ok tt

  -- `hw` is the number of hardware threads.
  unfoldable pub rb_info_of : ℕ → ℕ → RbParams Num → Result (RbInfo Num)
  rb_info_of hw n params = do
    let columns = rb_table_size (max n 1) params
    let eps = rb_eps_of (max n 1) columns
    width ← rb_table_w (max n 1) columns params
    lambda_real ← rb_lambda_of (max n 1) width eps
    let band_width : ℕ = if width == 0 then 1 else width
    throw_if (ltb 256 band_width) (invalid_argument "RBInfoOf width > 256")
    throw_if (ltb columns band_width) (invalid_argument "RBInfoOf width > columns")
    let info : RbInfo Num = record {
      n = max n 1;
      lambda = params.lambda;
      lambda_real = lambda_real;
      eps = eps;
      columns = columns;
      band_width = band_width;
      worker_threads = rb_worker_threads hw params.multi_thread params.worker_threads;
    }
    rb_check (max n 1) params info
    ok info
