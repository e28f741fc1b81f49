-- ===== src/Psi/EcRows.antt =====
-- frontend/pqpsi/protocols/tools/kem_rows.h: the calls of the KEM on an elliptic curve on rows of
-- blocks. The seeds of the rows are parameters.
pub mod Opened
use pq_psi.Base.{
  ℕ, ◌*◌, ◌/◌, ◌%◌, Bool, false, not, ◌||◌, ◌==◌, if◌then◌else◌, List, [], map, length, get_or,
  take, replicate, slice, Result, ok, invalid_argument, ◌>>=◌, ◌>>◌, throw_if,
}
use pq_psi.Kem.EcKem.{Monocypher, point_bytes, secret_bytes, key_gen, encap, decap}
use pq_psi.Psi.Workers.{run_for, run_rows}
use pq_psi.Psi.Count.{count_tests}
use pq_psi.Psi.Rows.{ec_kem, kem_row_blocks, bytes_of}
use pq_psi.Psi.KemRows.{padded_row, join_rows}

module _ (mono : Monocypher) (seed : ℕ → List ℕ) where
  -- The secret key and the row of one index.
  unfoldable pub gen_ec_row : ℕ → ℕ → List ℕ × List ℕ
  gen_ec_row row_size i = let pair = key_gen mono (seed i) in (pair.1, padded_row row_size (pair.0))

  -- genEcKeys on an array `pk` of `size` blocks.
  unfoldable pub gen_ec_keys : ℕ → ℕ → ℕ → Bool → ℕ → Result (List (List ℕ) × List ℕ)
  gen_ec_keys hw size row_size multi_thread worker_threads = do
    blocks ← kem_row_blocks ec_kem
    throw_if (not (row_size == blocks) || not (size % row_size == 0))
        (invalid_argument "genEcKeys: wrong row size")
    let count = size / row_size
    pairs ←
        run_for hw count 8 multi_thread worker_threads (λ i. ok (gen_ec_row row_size i))
          (replicate count ([], []))
    ok (map (λ p. p.0) pairs, join_rows (map (λ p. p.1) pairs))

  unfoldable pub encap_ec_row : ℕ → ℕ → List ℕ → List ℕ
  encap_ec_row row_size i row =
      padded_row row_size (encap mono (take point_bytes (bytes_of row)) (seed i)).0

  unfoldable pub encap_ec : ℕ → List ℕ → ℕ → Bool → ℕ → Result (List ℕ)
  encap_ec hw rows row_size multi_thread worker_threads = do
    blocks ← kem_row_blocks ec_kem
    throw_if (not (row_size == blocks) || not (length rows % row_size == 0))
        (invalid_argument "encapEc: wrong row size")
    run_rows row_size hw (length rows / row_size) 8 multi_thread worker_threads
        (λ i row. ok (encap_ec_row row_size i (slice row_size rows (i * row_size))))
        (replicate (length rows) 0)

module _ (mono : Monocypher) where
  -- The test of one row.
  unfoldable pub ec_hit : List ℕ → List ℕ → Bool
  ec_hit secret row =
      if not (length secret == secret_bytes) then false else (decap mono secret (bytes_of row)).1

  unfoldable pub count_ec_hits : ℕ → List (List ℕ) → List ℕ → ℕ → Bool → ℕ → Result ℕ
  count_ec_hits hw secrets rows row_size multi_thread worker_threads = do
    blocks ← kem_row_blocks ec_kem
    throw_if (not (row_size == blocks) || not (length rows == length secrets * row_size))
        (invalid_argument "countEcHits: flat size mismatch")
    count_tests hw (length secrets) multi_thread worker_threads
        (λ i. ec_hit (get_or secrets i []) (slice row_size rows (i * row_size)))
