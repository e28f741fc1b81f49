-- ===== src/Psi/KemRows/Filled.antt =====
-- The arrays that the calls of ML-KEM fill, row by row.
use pq_psi.Base.{
  ℕ, zero, suc, ◌+◌, ◌-◌, ◌*◌, ◌≤◌, ◌<◌, ◌≡◌, refl, arith, Bool, inl, inr, List, [], ◌∷◌, ◌++◌, map,
  length, get_or, take, drop, replicate, slice, take-append, length-append, length-replicate, ltb,
  Option-cases, Result, ok, >>=-eq-ok, throw_if-eq-ok, ok-injective,
}
use pq_psi.Perm.Bytes.{AllBytes, AllBytes-append}
use pq_psi.Kem.Kemeleon.{Gmp, Info, decode_key, code_key_bytes}
use pq_psi.Okvs.Rows.Fill.{IsFilled, fill-IsFilled}
use pq_psi.Psi.Workers.{run_for_caught}
use pq_psi.Psi.Workers.Cover.{parallel_for-visits}
use pq_psi.Psi.Rows.{bytes_of}
use pq_psi.Psi.Rows.Memory.{AllBlocks, AllBlocks-blocks_of, length-blocks_of}
use pq_psi.Psi.KemRows.{MlKem, padded_row, join_rows, shared_secret_size, encap_row}
use pq_psi.Psi.KemRows.Opened.{IsMlKem, zeros-AllBytes}

pub run_for_caught-IsFilled {ℓ} :
    {A : Type ℓ} (f : ℕ → Result A) (d : A) (hw n min_work : ℕ) (multi_thread : Bool)
    (worker_threads : ℕ) (xs ys : List A)
    → n ≤ length xs
    → run_for_caught hw n min_work multi_thread worker_threads f xs ≡ ok ys
    → IsFilled f d n 0 xs ys
unfolding run_for_caught
run_for_caught-IsFilled f d hw n min_work multi_thread worker_threads xs ys h e =
    fill-IsFilled f d n 0 xs ys (omega arith)
      (rw (parallel_for-visits hw n min_work multi_thread worker_threads) at e)

pub get_or-map {ℓ κ} :
    {A : Type ℓ} {B : Type κ} (f : A → B) (xs : List A) (i : ℕ) (d : A)
    → get_or (map f xs) i (f d) ≡ f (get_or xs i d)
get_or-map f [] i d = refl
get_or-map f (x ∷ xs) zero d = refl
get_or-map f (x ∷ xs) (suc i) d = get_or-map f xs i d

drop-append_past : (a b : List ℕ) (k : ℕ) → drop (length a + k) (a ++ b) ≡ drop k b
drop-append_past [] b k = let z : 0 + k ≡ k = omega arith in rw z refl
drop-append_past (x ∷ a) b k =
    let s : suc (length a) + k ≡ suc (length a + k) = omega arith in rw s (drop-append_past a b k)

-- Rows of one width.
abbrev pub AllRows : ℕ → List (List ℕ) → Type 0
AllRows w rows = (i : ℕ) → i < length rows → length (get_or rows i []) ≡ w

pub length-join_rows :
    (w : ℕ) (rows : List (List ℕ)) → AllRows w rows → length (join_rows rows) ≡ length rows * w
unfolding join_rows
length-join_rows w [] h = omega arith
length-join_rows w (r ∷ rows) h = omega (
  arith,
  length-append r (join_rows rows),
  h 0 (omega arith),
  length-join_rows w rows (λ i l. h (suc i) (omega arith)),
)

pub slice-join_rows :
    (w : ℕ) (rows : List (List ℕ)) (i : ℕ)
    → AllRows w rows
    → i < length rows
    → slice w (join_rows rows) (i * w) ≡ get_or rows i []
unfolding join_rows slice
slice-join_rows w [] i h l = absurd (omega arith)
slice-join_rows w (r ∷ rows) zero h l =
    let z : 0 * w ≡ 0 = omega arith in rw z (rw (h 0 l) at (take-append r (join_rows rows)))
slice-join_rows w (r ∷ rows) (suc i) h l =
    let width : length r ≡ w = h 0 (omega arith) in
    let s : suc i * w ≡ length r + i * w = omega (arith, width) in
    rw (s, drop-append_past r (join_rows rows) (i * w))
      (slice-join_rows w rows i (λ k m. h (suc k) (omega arith)) (omega arith))

pub padded_row-IsRow :
    (w : ℕ) (bytes : List ℕ)
    → AllBytes bytes
    → length bytes ≤ w * 16
    → (length (padded_row w bytes) ≡ w) × AllBlocks (padded_row w bytes)
unfolding padded_row
padded_row-IsRow w bytes all fits =
    let rest : List ℕ = replicate (w * 16 - length bytes) 0 in
    (
      length-blocks_of w (bytes ++ rest),
      AllBlocks-blocks_of w (bytes ++ rest)
          (omega
            (arith, length-append bytes rest, length-replicate {A = ℕ} (w * 16 - length bytes) 0))
          (AllBytes-append bytes rest all (zeros-AllBytes (w * 16 - length bytes))),
    )

module _ (g : Gmp) (hash_byte : List ℕ → ℕ) (info : Info) (kem : MlKem) (random : ℕ → ℕ → List ℕ)
    (deterministic : Bool) (is_kem : IsMlKem kem info) where
  -- Whatever the row is, what is written for it is a cipher text and its shared secret.
  pub encap_row-IsRow :
      (w j : ℕ) (seed : ℕ → List ℕ) (row out : List ℕ)
      → encap_row g hash_byte info kem random deterministic seed w j row ≡ ok out
      → (length out ≡ w) × AllBlocks out
  unfolding encap_row
  encap_row-IsRow w j seed row out h =
      let (raw, run, rest) =
        >>=-eq-ok
          (decode_key g hash_byte kem.public_key_bytes info
            (take (code_key_bytes g hash_byte kem.public_key_bytes info) (bytes_of row)))
          _ h in
      elim (Option-cases raw) [
        | inl nothing ↦ absurd (cc (rw nothing at rest))
        | inr (pk, found) ↦
            let (room, made) =
              throw_if-eq-ok (ltb (w * 16) (kem.cipher_text_bytes + shared_secret_size)) _ _
                (rw found at rest) in
            let ct = (kem.encaps pk (seed j)).0 in
            let shared = (kem.encaps pk (seed j)).1 in
            let size : length (ct ++ shared) ≡ kem.cipher_text_bytes + shared_secret_size = omega (
              arith,
              length-append ct shared,
              is_kem.cipher_size pk (seed j),
              is_kem.shared_size pk (seed j),
            ) in
            rw (ok-injective made) at (
              padded_row-IsRow w (ct ++ shared)
                (AllBytes-append ct shared (is_kem.cipher_bytes pk (seed j))
                  (is_kem.shared_bytes pk (seed j)))
                (ground (arith, size)))
      ]
