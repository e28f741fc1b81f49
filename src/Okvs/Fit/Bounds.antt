-- ===== src/Okvs/Fit/Bounds.antt =====
-- What a resolved configuration guarantees: the band fits the table and the 256 coefficients of
-- a row, and the decoder resolves the width that the encoder used.
use pq_psi.Base.{
  ℕ, ◌+◌, ◌-◌, ◌%◌, ◌^◌, ◌≤◌, ◌<◌, ◌≡◌, max, min, false, ok, >>=-eq-ok, throw_if-eq-ok, arith, inl,
  inr, Result-cases,
}
use pq_psi.Okvs.Double.{Double}
use pq_psi.Okvs.Params.{RbParams, RbInfo}
use pq_psi.Okvs.Fit.{
  rb_round_w, rb_need_w, rb_width, fitted_width, rb_table_w, rb_table_size, rb_eps_of, rb_lambda_of,
  rb_info_of, scaled_size, rb_size, rb_default_eps, need_d, max_num,
}
use pq_psi.Okvs.Fit.Gap.{rb_g_of}

-- For a width below 2^64 - 15, RBRoundW returns a multiple of 16 from 16 to 256 that is at least the width asked for or 256.
pub rb_round_w_bounds :
    (w : ℕ)
    → w < 2 ^ 64 - 15
    → (16 ≤ rb_round_w w)
      × (rb_round_w w ≤ 256)
      × (rb_round_w w % 16 ≡ 0)
      × (min w 256 ≤ rb_round_w w)
unfolding rb_round_w
rb_round_w_bounds w h =
    let exact : (max w 16 + 16 - 1) % 2 ^ 64 ≡ max w 16 + 16 - 1 = omega arith in
    rw exact (ground arith)

-- static_cast<size_t> of a double above 1 is at least 1.
abbrev pub Truncates : Double → Type 0
Truncates d = (x : d.Num) → d.le x (d.milli 1000) ≡ false → 0 < d.to_size x

module _ (d : Double) where
  open d use {Num, milli}

  need_w_pos :
      (n lambda : ℕ) (eps : Num) (w : ℕ) → Truncates d → rb_need_w d n lambda eps ≡ ok w → 0 < w
  unfolding rb_need_w
  need_w_pos n lambda eps w cast h =
      let checked = throw_if-eq-ok (d.le eps (milli 0)) _ _ h in
      let (g, e, r) = >>=-eq-ok (rb_g_of d n eps) _ checked.1 in
      ground (arith, cast (need_d d lambda g eps))

  fitted_pos : (n lambda w : ℕ) → fitted_width d n lambda ≡ ok w → 0 < w
  unfolding fitted_width
  fitted_pos n lambda w h =
      let (g, e, r) = >>=-eq-ok (rb_g_of d n (rb_default_eps d n)) _ h in
      ground (
        arith,
        rb_round_w_bounds
            (d.to_size (max_num d (milli 1000) (need_d d lambda g (rb_default_eps d n))))
            (omega (
              arith,
              d.to_size_le (max_num d (milli 1000) (need_d d lambda g (rb_default_eps d n))),
            )),
      )

  width_pos : (n lambda w : ℕ) → rb_width d n lambda ≡ ok w → 0 < w
  unfolding rb_width
  width_pos n lambda w h = ground (arith, fitted_pos (max n 1) lambda w)

  table_w_pos :
      (n columns : ℕ) (params : RbParams Num) (w : ℕ)
      → Truncates d
      → rb_table_w d n columns params ≡ ok w
      → 0 < w
  unfolding rb_table_w
  table_w_pos n columns params w cast h = ground (
    arith,
    width_pos n params.lambda w,
    need_w_pos n params.lambda (rb_eps_of d n columns) w cast,
  )

  -- What `RBInfoOf` promises of the configuration that it returns for `n` keys.
  pub record IsResolved (n : ℕ) (params : RbParams Num) (info : RbInfo Num) : Type 0 where
    pub size : info.n ≡ max n 1
    pub columns : info.columns ≡ rb_table_size d (max n 1) params
    pub room : n ≤ info.columns
    pub band_pos : 1 ≤ info.band_width
    pub band_mask : info.band_width ≤ 256
    pub band_table : info.band_width ≤ info.columns
    -- The decoder's own width, from the number of columns that the table has.
    pub band_decoder : rb_table_w d (max n 1) info.columns params ≡ ok info.band_width

  table_size_room : (n : ℕ) (params : RbParams Num) → n ≤ rb_table_size d n params
  unfolding rb_table_size rb_size scaled_size
  table_size_room n params = ground arith

  -- The columns asked for count, and are raised to the number of keys.
  pub rb_table_size_given :
      (n : ℕ) (params : RbParams Num)
      → 0 < params.columns
      → rb_table_size d n params ≡ max params.columns (max n 1)
  unfolding rb_table_size
  rb_table_size_given n params h = ground arith

  -- For a truncating conversion of doubles, a configuration that RBInfoOf returns for n keys has
  -- at least n columns, a band width from 1 to 256 and to the number of columns, and the width
  -- that the decoder computes from the number of columns is that band width.
  pub rb_info_of-IsResolved :
      (hw n : ℕ) (params : RbParams Num) {info : RbInfo Num}
      → Truncates d
      → rb_info_of d hw n params ≡ ok info
      → IsResolved n params info
  unfolding rb_info_of
  rb_info_of-IsResolved hw n params {info} cast h =
      elim (Result-cases (rb_table_w d (max n 1) columns params)) [
        | inl (w, e) ↦
            elim (Result-cases (rb_lambda_of d (max n 1) w (rb_eps_of d (max n 1) columns))) [
              | inl (real, f) ↦ resolved w real e f (table_w_pos (max n 1) columns params w cast e)
              | inr (x, f) ↦ ground arith
            ]
        | inr (x, e) ↦ ground arith
      ]
    where
      columns : ℕ
      columns = rb_table_size d (max n 1) params

      resolved :
          (w : ℕ) (real : Num)
          → rb_table_w d (max n 1) columns params ≡ ok w
          → rb_lambda_of d (max n 1) w (rb_eps_of d (max n 1) columns) ≡ ok real
          → 0 < w
          → IsResolved n params info
      resolved w real e f pos = ground (arith, table_size_room (max n 1) params)
