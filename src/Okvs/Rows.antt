-- ===== src/Okvs/Rows.antt =====
-- frontend/okvs/rb/rows.h, past the operations on bits: the linear equation of each key. A
-- `block` is a number below 2^128; `aes key` is AES::ecbEncBlock under `key`, a parameter.
pub mod Vector
pub mod Fill
pub mod Sort
pub mod Valid
pub mod Made
use pq_psi.Base.{
  ℕ, zero, suc, ◌+◌, ◌-◌, ◌*◌, ◌/◌, ◌%◌, ◌^◌, bit_xor, Bool, true, false, not, ◌==◌, ltb, leb,
  if◌then◌else◌, List, [], ◌∷◌, length, get_or, set, replicate, Result, ok, err, invalid_argument,
  ◌>>=◌, ◌>>◌, throw_if,
}
use pq_psi.Okvs.Bits.{RbBits, words, rb_mask_bits, rb_ensure_bits, no_bits}
use pq_psi.Okvs.Params.{RbParams}
use pq_psi.Okvs.Parallel.{visited, rb_for_ranges}

-- toBlock(high, low)
abbrev pub to_block : ℕ → ℕ → ℕ
to_block high low = high * 2 ^ 64 + low

-- The two u64 words of a block.
abbrev pub low_word : ℕ → ℕ
low_word x = x % 2 ^ 64

abbrev pub high_word : ℕ → ℕ
high_word x = x / 2 ^ 64 % 2 ^ 64

pub record RbRow : Type 0 where
  pub start : ℕ
  pub bits : RbBits
  pub rhs : List ℕ

-- The keys of the three AES instances.
pub record RbHashCtx : Type 0 where
  pub start : ℕ
  pub mask0 : ℕ
  pub mask1 : ℕ

unfoldable pub rb_make_hash_ctx : {Num : Type 0} → RbParams Num → RbHashCtx
rb_make_hash_ctx params = record {
  start = params.start_seed;
  mask0 = bit_xor params.mask_seed (to_block 0 1);
  mask1 = bit_xor params.mask_seed (to_block 0 2);
}

-- a[i] ^= b[i] up to the size of `a`
unfoldable pub xor_blocks : List ℕ → List ℕ → List ℕ
xor_blocks [] b = []
xor_blocks (x ∷ a) [] = x ∷ a
xor_blocks (x ∷ a) (y ∷ b) = bit_xor x y ∷ xor_blocks a b

unfoldable pub rb_xor : List ℕ → List ℕ → Result (List ℕ)
rb_xor a b = do
  throw_if (not (length a == length b)) (invalid_argument "RBXor size mismatch")
  ok (xor_blocks a b)

-- for each index visited, out[i] = f(i); an exception ends the run
unfoldable pub fill {ℓ} : {A : Type ℓ} → List ℕ → (ℕ → Result A) → List A → Result (List A)
fill [] f out = ok out
fill (i ∷ is) f out = do a ← f i; fill is f (set out i a)

-- RBFor over `n` indices of an array
unfoldable pub rb_for {ℓ} :
    {A : Type ℓ} → ℕ → ℕ → Bool → ℕ → (ℕ → Result A) → List A → Result (List A)
rb_for hw n multi_thread worker_threads f out =
    fill (visited (rb_for_ranges hw n multi_thread worker_threads)) f out

module _ (aes : ℕ → ℕ → ℕ) where
  unfoldable pub rb_hash64 : ℕ → ℕ → ℕ
  rb_hash64 key seed = let x = aes seed key in bit_xor (low_word x) (high_word x)

  unfoldable pub rb_mask256 : ℕ → RbHashCtx → RbBits
  rb_mask256 key ctx =
      let x0 = aes ctx.mask0 key in
      let x1 = aes ctx.mask1 key in words (low_word x0) (high_word x0) (low_word x1) (high_word x1)

  -- The column where the band of a key begins.
  unfoldable pub rb_start : ℕ → RbHashCtx → ℕ → ℕ → ℕ
  rb_start key ctx columns band_width =
      let h = rb_hash64 key ctx.start in
      let range = (columns - band_width + 1) % 2 ^ 64 in if range == 0 then 0 else h % range

  -- The coefficients of a key within its band.
  unfoldable pub rb_row_bits : ℕ → RbHashCtx → ℕ → Result RbBits
  rb_row_bits key ctx band_width = do
    bits ← rb_mask_bits (rb_mask256 key ctx) band_width
    ok (rb_ensure_bits bits)

  -- The body of the loop of RBRows.
  unfoldable pub make_row : List ℕ → List (List ℕ) → ℕ → ℕ → ℕ → RbHashCtx → ℕ → Result RbRow
  make_row keys values row_size columns band_width ctx i = do
    throw_if (not (length (get_or values i []) == row_size))
        (invalid_argument "RBRows row width mismatch")
    bits ← rb_row_bits (get_or keys i 0) ctx band_width
    ok (record {
      start = rb_start (get_or keys i 0) ctx columns band_width;
      bits = bits;
      rhs = get_or values i [];
    })

abbrev pub no_row : RbRow
no_row = record { start = 0; bits = no_bits; rhs = [] }

-- std::stable_sort by `start`
unfoldable pub insert_row : RbRow → List RbRow → List RbRow
insert_row r [] = r ∷ []
insert_row r (x ∷ xs) = if leb r.start x.start then r ∷ x ∷ xs else x ∷ insert_row r xs

unfoldable pub sort_rows : List RbRow → List RbRow
sort_rows [] = []
sort_rows (r ∷ rs) = insert_row r (sort_rows rs)

unfoldable pub rb_rows :
    {Num : Type 0}
    → (ℕ → ℕ → ℕ)
    → ℕ
    → List ℕ
    → List (List ℕ)
    → ℕ
    → ℕ
    → RbParams Num
    → Result (List RbRow)
rb_rows aes hw keys values columns band_width params = do
  throw_if (not (length keys == length values)) (invalid_argument "RBRows key/value mismatch")
  if length keys == 0 then ok [] else (do
    let row_size = length (get_or values 0 [])
    throw_if (row_size == 0) (invalid_argument "RBRows empty row")
    throw_if (ltb columns band_width) (invalid_argument "RBRows columns < bandWidth")
    rows ←
        rb_for hw (length keys) params.multi_thread params.worker_threads
          (make_row aes keys values row_size columns band_width (rb_make_hash_ctx params))
          (replicate (length keys) no_row)
    ok (sort_rows rows))
