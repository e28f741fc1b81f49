-- ===== src/Psi/KemRows.antt =====
-- frontend/pqpsi/protocols/tools/kem_rows.h: the calls of ML-KEM on rows of blocks. MlKem is a
-- parameter: `key_gen` gives a public and a secret key, `encaps` a cipher text and a shared secret.
-- The seeds that randombytes_buf fills are parameters too. A body that throws ends the run with
-- the first exception in the order of the rows, and the row's index in a message is left out.
pub mod Tries
pub mod Opened
pub mod Filled
pub mod Interface
pub mod Run
use pq_psi.Base.{
  ℕ, zero, suc, ◌+◌, ◌-◌, ◌*◌, ◌/◌, ◌%◌, Bool, true, false, not, ◌||◌, ◌==◌, ltb, if◌then◌else◌,
  List, [], ◌∷◌, ◌++◌, map, length, get_or, take, drop, replicate, slice, Option, none, some,
  Result, ok, err, invalid_argument, runtime_error, ◌>>=◌, ◌>>◌, throw_if,
}
use pq_psi.Perm.Bytes.{kem_key_block_size}
use pq_psi.Kem.Kemeleon.{Gmp, Info, encode_key, decode_key, code_key_bytes}
use pq_psi.Psi.Workers.{run_for_caught, run_rows_caught}
use pq_psi.Psi.Count.{count_tests}
use pq_psi.Psi.Rows.{bytes_of, blocks_of}

abbrev pub max_key_tries : ℕ
max_key_tries = 64

abbrev pub key_gen_seed_size : ℕ
key_gen_seed_size = 64

abbrev pub shared_secret_size : ℕ
shared_secret_size = 32

-- MlKem in one mode.
pub record MlKem : Type 0 where
  pub public_key_bytes : ℕ
  pub secret_key_bytes : ℕ
  pub cipher_text_bytes : ℕ
  pub key_gen : List ℕ → List ℕ × List ℕ
  pub encaps : List ℕ → List ℕ → List ℕ × List ℕ
  pub decaps : List ℕ → List ℕ → List ℕ

-- The loop over `j` of fillMlKemKeySeed.
unfoldable pub seed_loop : ℕ → ℕ → ℕ → ℕ → List ℕ
seed_loop zero j row attempt = []
seed_loop (suc rounds) j row attempt =
    ((row + 1) * 131 + (j + 3) * 17 + attempt * 29) % 256 ∷ seed_loop rounds (j + 1) row attempt

unfoldable pub fill_ml_kem_key_seed : (ℕ → ℕ → List ℕ) → ℕ → ℕ → Bool → List ℕ
fill_ml_kem_key_seed random row attempt deterministic =
    if not deterministic then random row attempt else seed_loop key_gen_seed_size 0 row attempt

-- A row of blocks whose bytes are `data_bytes` and then zeros.
unfoldable pub padded_row : ℕ → List ℕ → List ℕ
padded_row row_size data_bytes =
    blocks_of row_size (data_bytes ++ replicate (row_size * 16 - length data_bytes) 0)

-- The rows of a flat array, one after the other.
unfoldable pub join_rows : List (List ℕ) → List ℕ
join_rows [] = []
join_rows (r ∷ rows) = r ++ join_rows rows

module _ (g : Gmp) (hash_byte : List ℕ → ℕ) (info : Info) (kem : MlKem) (random : ℕ → ℕ → List ℕ)
    (deterministic : Bool) where
  -- The public key of an attempt, encoded, and its secret key.
  unfoldable pub attempt_key : ℕ → ℕ → Result (Option (List ℕ × List ℕ))
  attempt_key row t =
      let pair = kem.key_gen (fill_ml_kem_key_seed random row t deterministic) in
      do
        code ← encode_key g hash_byte kem.public_key_bytes info (pair.0)
        elim code [ none ↦ ok none | some c ↦ ok (some (c, pair.1)) ]

  -- The loop over `t`, with `rounds` tries left.
  unfoldable pub try_keys : ℕ → ℕ → ℕ → Result (Option (List ℕ × List ℕ))
  try_keys zero t row = ok none
  try_keys (suc rounds) t row = do
    key ← attempt_key row t
    elim key [ none ↦ try_keys rounds (t + 1) row | some found ↦ ok (some found) ]

  -- The secret key and the row of one index.
  unfoldable pub gen_row : ℕ → ℕ → Result (List ℕ × List ℕ)
  gen_row row_size i = do
    key ← try_keys max_key_tries 0 i
    elim key [
      | none ↦ err (runtime_error "genMlKemKeys: encodeKey failed")
      | some found ↦ do
        throw_if (ltb (row_size * 16) (length (found.0)))
            (runtime_error "genMlKemKeys: encoded pk too large")
        ok (found.1, padded_row row_size (found.0))
    ]

  -- genMlKemKeys on an array `pk` of `size` blocks.
  unfoldable pub gen_ml_kem_keys : ℕ → ℕ → ℕ → Bool → ℕ → Result (List (List ℕ) × List ℕ)
  gen_ml_kem_keys hw size row_size multi_thread worker_threads = do
    throw_if (not (row_size == kem_key_block_size) || not (size % row_size == 0))
        (invalid_argument "genMlKemKeys: wrong row size")
    let count = size / row_size
    pairs ←
        run_for_caught hw count 8 multi_thread worker_threads (gen_row row_size)
          (replicate count ([], []))
    ok (map (λ p. p.0) pairs, join_rows (map (λ p. p.1) pairs))

  -- The body of encapMlKem for one row, with the seed of the row.
  unfoldable pub encap_row : (ℕ → List ℕ) → ℕ → ℕ → List ℕ → Result (List ℕ)
  encap_row seed row_size i row = do
    raw ←
        decode_key g hash_byte kem.public_key_bytes info
          (take (code_key_bytes g hash_byte kem.public_key_bytes info) (bytes_of row))
    elim raw [
      | none ↦ err (runtime_error "encapMlKem: decodeKey failed at row")
      | some pk ↦ do
        let out = kem.encaps pk (seed i)
        throw_if (ltb (row_size * 16) (kem.cipher_text_bytes + shared_secret_size))
            (runtime_error "encapMlKem: output row too small")
        ok (padded_row row_size (out.0 ++ out.1))
    ]

  unfoldable pub encap_ml_kem : (ℕ → List ℕ) → ℕ → List ℕ → ℕ → Bool → ℕ → Result (List ℕ)
  encap_ml_kem seed hw rows row_size multi_thread worker_threads = do
    throw_if (not (row_size == kem_key_block_size) || not (length rows % row_size == 0))
        (invalid_argument "encapMlKem: flat row size mismatch")
    run_rows_caught row_size hw (length rows / row_size) 8 multi_thread worker_threads
        (λ i row. encap_row seed row_size i (slice row_size rows (i * row_size)))
        (replicate (length rows) 0)

-- std::equal
unfoldable pub equal_bytes : List ℕ → List ℕ → Bool
equal_bytes [] b = true
equal_bytes (x ∷ a) [] = false
equal_bytes (x ∷ a) (y ∷ b) = if x == y then equal_bytes a b else false

module _ (kem : MlKem) where
  unfoldable pub decap_bytes : List ℕ → List ℕ → ℕ → Bool
  decap_bytes secret row row_size =
      let data_bytes = bytes_of row in
      let got = kem.decaps (take kem.cipher_text_bytes data_bytes) secret in
      if not (row_size == kem_key_block_size) || not (length secret == kem.secret_key_bytes)
      then false
      else if ltb (kem_key_block_size * 16) (kem.cipher_text_bytes + shared_secret_size)
      then false
      else equal_bytes got (drop kem.cipher_text_bytes data_bytes)

  -- countDecapHits on a flat array
  unfoldable pub count_decap_hits : ℕ → List (List ℕ) → List ℕ → ℕ → Bool → ℕ → Result ℕ
  count_decap_hits hw secrets rows row_size multi_thread worker_threads = do
    throw_if
        (not (row_size == kem_key_block_size) || not (length rows == length secrets * row_size))
        (invalid_argument "countDecapHits: flat size mismatch")
    count_tests hw (length secrets) multi_thread worker_threads
        (λ i. decap_bytes (get_or secrets i []) (slice row_size rows (i * row_size)) row_size)
