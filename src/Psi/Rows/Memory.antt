-- ===== src/Psi/Rows/Memory.antt =====
-- Blocks to bytes and back.
use pq_psi.Base.{
  ℕ, zero, suc, ◌+◌, ◌*◌, ◌/◌, ◌%◌, ◌^◌, ◌<◌, ◌≡◌, refl, ap, arith, List, [], ◌∷◌, length, take,
  drop, length-append, length-take, length-drop, take-append, drop-append, take-append-drop,
}
use pq_psi.Perm.Bytes.{
  store, load, AllBytes, length-store, store-AllBytes, load-store, AllBytes-append, AllBytes-take,
  AllBytes-drop,
}
use pq_psi.Psi.Rows.{bytes_of, blocks_of}

abbrev pub AllBlocks : List ℕ → Type 0
AllBlocks [] = Unit
AllBlocks (x ∷ row) = (x < 2 ^ 128) × AllBlocks row

pub store-load : (bs : List ℕ) → AllBytes bs → store (length bs) (load bs) ≡ bs
unfolding store load
store-load [] all = refl
store-load (b ∷ bs) all =
    let low : (b + 256 * load bs) % 256 ≡ b = omega (arith, all.0) in
    let high : (b + 256 * load bs) / 256 ≡ load bs = omega (arith, all.0) in
    rw (low, high, store-load bs all.1) refl

load_lt : (bs : List ℕ) → AllBytes bs → load bs < 256 ^ length bs
unfolding load
load_lt [] all = omega arith
load_lt (b ∷ bs) all =
    let below : b + 256 * load bs < 256 ^ suc (length bs) =
      omega (arith, load_lt bs all.1, all.0) in
    below

pub length-bytes_of : (row : List ℕ) → length (bytes_of row) ≡ length row * 16
unfolding bytes_of
length-bytes_of [] = refl
length-bytes_of (x ∷ row) =
    omega (arith, length-append (store 16 x) (bytes_of row), length-store 16 x, length-bytes_of row)

pub AllBytes-bytes_of : (row : List ℕ) → AllBytes (bytes_of row)
unfolding bytes_of
AllBytes-bytes_of [] = tt
AllBytes-bytes_of (x ∷ row) =
    AllBytes-append (store 16 x) (bytes_of row) (store-AllBytes 16 x) (AllBytes-bytes_of row)

pub length-blocks_of : (n : ℕ) (bytes : List ℕ) → length (blocks_of n bytes) ≡ n
unfolding blocks_of
length-blocks_of zero bytes = refl
length-blocks_of (suc n) bytes = ap suc (length-blocks_of n (drop 16 bytes))

pub AllBlocks-blocks_of :
    (n : ℕ) (bytes : List ℕ)
    → length bytes ≡ n * 16
    → AllBytes bytes
    → AllBlocks (blocks_of n bytes)
unfolding blocks_of
AllBlocks-blocks_of zero bytes h all = tt
AllBlocks-blocks_of (suc n) bytes h all =
    let size : length (take 16 bytes) ≡ 16 = omega (arith, length-take 16 bytes) in
    let first = rw size at (load_lt (take 16 bytes) (AllBytes-take 16 bytes all)) in
    (
      first,
      AllBlocks-blocks_of n (drop 16 bytes) (omega (arith, length-drop 16 bytes))
          (AllBytes-drop 16 bytes all),
    )

pub blocks_of-bytes_of :
    (row : List ℕ) → AllBlocks row → blocks_of (length row) (bytes_of row) ≡ row
unfolding blocks_of bytes_of
blocks_of-bytes_of [] all = refl
blocks_of-bytes_of (x ∷ row) all =
    let first = rw (length-store 16 x) at (take-append (store 16 x) (bytes_of row)) in
    let rest = rw (length-store 16 x) at (drop-append (store 16 x) (bytes_of row)) in
    rw (first, rest, load-store 16 x all.0, blocks_of-bytes_of row all.1) refl

pub bytes_of-blocks_of :
    (n : ℕ) (bytes : List ℕ)
    → length bytes ≡ n * 16
    → AllBytes bytes
    → bytes_of (blocks_of n bytes) ≡ bytes
unfolding blocks_of bytes_of
bytes_of-blocks_of zero [] h all = refl
bytes_of-blocks_of zero (b ∷ bytes) h all = absurd (omega arith)
bytes_of-blocks_of (suc n) bytes h all =
    let size : length (take 16 bytes) ≡ 16 = omega (arith, length-take 16 bytes) in
    let first = rw size at (store-load (take 16 bytes) (AllBytes-take 16 bytes all)) in
    let rest =
      bytes_of-blocks_of n (drop 16 bytes) (omega (arith, length-drop 16 bytes))
        (AllBytes-drop 16 bytes all) in
    rw (first, rest) (take-append-drop 16 bytes)
