-- ===== src/Okvs/Fit/Gap.antt =====
-- `RBGOf` of frontend/okvs/rb/fit.h: the correction g(eps, n), from two tables and an
-- interpolation.
use pq_psi.Base.{
  ℕ, suc, ◌+◌, ◌-◌, max, Bool, not, ◌||◌, if◌then◌else◌, leb, ◌==◌, List, [], ◌∷◌, length, get_or,
  Option, none, some, Result, ok, invalid_argument, ◌>>=◌, ◌>>◌, throw_if,
}
use pq_psi.Okvs.Double.{Double}

module _ (d : Double) where
  open d use {Num, of_ℕ, milli, neg, add, sub, mul, div, le, lt, abs, round, log2}

  unfoldable pub rb_log2 : ℕ → Num
  rb_log2 n = log2 (of_ℕ (max n 1))

  unfoldable pub rb_lerp : Num → Num → Num → Num
  rb_lerp a b t = add a (mul (sub b a) t)

  -- with the default tolerance 0.005
  unfoldable pub rb_approx : Num → Num → Bool
  rb_approx a b = le (abs (sub a b)) (milli 5)

  -- xs[i]; the code reads inside the table only.
  abbrev at : List Num → ℕ → Num
  at xs i = get_or xs i (milli 0)

  -- ys on the line through the points i and i + 1
  unfoldable pub segment : List Num → List Num → Num → ℕ → Num
  segment xs ys x i =
      rb_lerp (at ys i) (at ys (i + 1)) (div (sub x (at xs i)) (sub (at xs (i + 1)) (at xs i)))

  -- The loop of RBInterp from index `i`; past its end the last value is returned.
  unfoldable pub interp_loop : ℕ → ℕ → List Num → List Num → Num → Num
  interp_loop ℕ.zero i xs ys x = at ys (length ys - 1)
  interp_loop (suc rounds) i xs ys x =
      if le x (at xs (i + 1)) then segment xs ys x i else interp_loop rounds (i + 1) xs ys x

  unfoldable pub rb_interp : List Num → List Num → Num → Result Num
  rb_interp xs ys x = do
    throw_if (length xs == 0 || (length ys == 0 || not (length xs == length ys)))
        (invalid_argument "RBInterp bad table")
    ok (
        if le x (at xs 0)
        then at ys 0
        else if le (at xs (length xs - 1)) x
        then segment xs ys x (length xs - 2)
        else interp_loop (length xs - 1) 0 xs ys x)

  -- A chain of `if (RBApprox(eps2, key)) return value;`
  unfoldable pub measured : List (ℕ × ℕ) → Num → Option Num
  measured [] eps2 = none
  measured ((key, value) ∷ rows) eps2 =
      if rb_approx eps2 (milli key) then some (milli value) else measured rows eps2

  abbrev rows_128 : List (ℕ × ℕ)
  rows_128 =
      (100, 21290)
      ∷ (110, 20630)
      ∷ (120, 21510)
      ∷ (130, 19970)
      ∷ (140, 21510)
      ∷ (150, 26800)
      ∷ (160, 22390)
      ∷ (170, 21290)
      ∷ (180, 24150)
      ∷ (190, 23270)
      ∷ (200, 22390)
      ∷ []

  abbrev rows_256 : List (ℕ × ℕ)
  rows_256 =
      (70, 25360) ∷ (80, 27680) ∷ (90, 24150) ∷ (100, 26800) ∷ (110, 27900) ∷ (120, 26800) ∷ []

  abbrev rows_512 : List (ℕ × ℕ)
  rows_512 =
      (70, 24590) ∷ (80, 27680) ∷ (90, 28120) ∷ (100, 26800) ∷ (110, 27900) ∷ (120, 26800) ∷ []

  abbrev rows_1024 : List (ℕ × ℕ)
  rows_1024 = (70, 23820) ∷ []

  unfoldable pub or_else : Option Num → Option Num → Option Num
  or_else (some g) rest = some g
  or_else none rest = rest

  unfoldable pub measured_g : ℕ → Num → Option Num
  measured_g n eps2 =
      let upto =
        λ (limit : ℕ) (rows : List (ℕ × ℕ)). if leb n limit then measured rows eps2 else none in
      or_else (upto 128 rows_128)
        (or_else (upto 256 rows_256) (or_else (upto 512 rows_512) (upto 1024 rows_1024)))

  abbrev eps_xs : List Num
  eps_xs = milli 30 ∷ milli 50 ∷ milli 70 ∷ milli 100 ∷ []

  abbrev log_xs : List Num
  log_xs = milli 10000 ∷ milli 14000 ∷ milli 16000 ∷ milli 18000 ∷ milli 20000 ∷ []

  -- A row of gGrid, of negative numbers.
  abbrev grid_row : ℕ → ℕ → ℕ → ℕ → ℕ → List Num
  grid_row a b c e f =
      neg (milli a) ∷ neg (milli b) ∷ neg (milli c) ∷ neg (milli e) ∷ neg (milli f) ∷ []

  unfoldable pub paper_g : ℕ → Num → Result Num
  paper_g n eps = do
    let log_n : Num = if lt (milli 10000) (rb_log2 n) then rb_log2 n else milli 10000
    g0 ← rb_interp log_xs (grid_row 3400 6100 7500 9000 10700) log_n
    g1 ← rb_interp log_xs (grid_row 4300 7500 9200 10800 12900) log_n
    g2 ← rb_interp log_xs (grid_row 5300 8300 10300 12100 14000) log_n
    g3 ← rb_interp log_xs (grid_row 6300 9400 11600 13500 15300) log_n
    let g_at_n : List Num = g0 ∷ g1 ∷ g2 ∷ g3 ∷ []
    if le eps (at eps_xs 0)
        then ok (at g_at_n 0)
        else if le (at eps_xs 3) eps
        then ok (segment eps_xs g_at_n eps 2)
        else rb_interp eps_xs g_at_n eps

  unfoldable pub rb_g_of : ℕ → Num → Result Num
  rb_g_of n eps =
      let eps2 = div (round (mul eps (milli 100000))) (milli 100000) in
      elim (measured_g n eps2) [ some g ↦ ok g | none ↦ paper_g n eps ]
