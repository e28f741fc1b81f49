-- ===== src/Okvs/Params.antt =====
-- `RBParams` and `RBInfo` of frontend/okvs/rb/types.h, over the type of the doubles.
use pq_psi.Base.{ℕ, Bool}

pub record RbParams (Num : Type 0) : Type 0 where
  pub lambda : ℕ
  pub eps : Num
  pub columns : ℕ
  pub band_width : ℕ
  pub check : Bool
  pub multi_thread : Bool
  pub worker_threads : ℕ
  pub start_seed : ℕ
  pub mask_seed : ℕ

pub record RbInfo (Num : Type 0) : Type 0 where
  pub n : ℕ
  pub lambda : ℕ
  pub lambda_real : Num
  pub eps : Num
  pub columns : ℕ
  pub band_width : ℕ
  pub worker_threads : ℕ
