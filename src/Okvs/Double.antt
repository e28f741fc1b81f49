-- ===== src/Okvs/Double.antt =====
-- What frontend/okvs/rb/fit.h takes from C++ `double` and <cmath>, as a parameter.
use pq_psi.Base.{ℕ, ◌-◌, ◌^◌, ◌≤◌, Bool}

pub record Double : Type 1 where
  pub Num : Type 0
  -- static_cast<double>(n), and the literal n / 1000
  pub of_ℕ : ℕ → Num
  pub milli : ℕ → Num
  pub neg : Num → Num
  pub add : Num → Num → Num
  pub sub : Num → Num → Num
  pub mul : Num → Num → Num
  pub div : Num → Num → Num
  pub le : Num → Num → Bool
  pub lt : Num → Num → Bool
  pub abs : Num → Num
  pub round : Num → Num
  pub ceil : Num → Num
  pub log2 : Num → Num
  -- static_cast<size_t>(x), defined up to the greatest double below 2^64
  pub to_size : Num → ℕ
  pub to_size_le : (x : Num) → to_size x ≤ 2 ^ 64 - 2 ^ 11
