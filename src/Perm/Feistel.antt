-- ===== src/Perm/Feistel.antt =====
-- frontend/permutation/feistel.h: an unbalanced Feistel network over the halves of a row.
-- `shake d m` is crypto_hash_shake256 with `d` bytes of output, `none` where it reports an
-- error.
pub mod Inverse
use pq_psi.Base.{
  ℕ, zero, suc, ◌+◌, ◌*◌, ◌/◌, ◌%◌, ◌==◌, not, List, [], ◌∷◌, ◌++◌, length, take, drop, Option,
  none, some, Result, ok, err, invalid_argument, runtime_error, ◌>>=◌, ◌>>◌, throw_if,
}
use pq_psi.Perm.Bytes.{kem_key_size_bit, xor_bytes, store64}

pub record Feistel : Type 0 where
  pub rounds : ℕ
  pub party : ℕ

abbrev pub bytes : ℕ
bytes = kem_key_size_bit / 8

abbrev pub half_bytes : ℕ
half_bytes = bytes / 2

abbrev pub default_rounds : ℕ
default_rounds = 8

-- The constructor.
pub make_feistel : ℕ → ℕ → Result Feistel
make_feistel rounds party = do
  throw_if (rounds == 0) (invalid_argument "feistel needs at least one round")
  ok (record { rounds = rounds; party = party % 2 })

pub check : ℕ → Result (Unit {0})
check n = throw_if (not (n == bytes)) (invalid_argument "feistel expects one full PQ row")

-- "PQFSTL1" with its closing zero.
abbrev pub label : List ℕ
label = 80 ∷ 81 ∷ 70 ∷ 83 ∷ 84 ∷ 76 ∷ 49 ∷ 0 ∷ []

-- A hash that reports an error throws.
abbrev pub hashed : Option (List ℕ) → Result (List ℕ)
hashed none = err (runtime_error "SHAKE256 failed")
hashed (some out) = ok out

module _ (shake : ℕ → List ℕ → Option (List ℕ)) where
  pub round_mask : ℕ → List ℕ → ℕ → Result (List ℕ)
  round_mask party curr r = hashed (shake half_bytes (label ++ party ∷ store64 r ++ curr))

  -- The rounds `r`, `r + 1`, ... of an encryption on the two halves.
  pub encrypt_rounds : ℕ → ℕ → ℕ → List ℕ → List ℕ → Result (List ℕ × List ℕ)
  encrypt_rounds zero party r prev curr = ok (prev, curr)
  encrypt_rounds (suc n) party r prev curr = do
    next ← round_mask party curr r
    encrypt_rounds n party (r + 1) curr (xor_bytes next prev)

  -- The rounds from `r - 1` down to 0 of a decryption.
  pub decrypt_rounds : ℕ → ℕ → List ℕ → List ℕ → Result (List ℕ × List ℕ)
  decrypt_rounds zero party curr next = ok (curr, next)
  decrypt_rounds (suc r) party curr next = do
    prev ← round_mask party curr r
    decrypt_rounds r party (xor_bytes prev next) curr

  pub encrypt_bytes : Feistel → List ℕ → Result (List ℕ)
  encrypt_bytes f data_row = do
    check (length data_row)
    halves ← encrypt_rounds f.rounds f.party 0 (take half_bytes data_row) (drop half_bytes data_row)
    ok (halves.0 ++ halves.1)

  pub decrypt_bytes : Feistel → List ℕ → Result (List ℕ)
  decrypt_bytes f data_row = do
    check (length data_row)
    halves ← decrypt_rounds f.rounds f.party (take half_bytes data_row) (drop half_bytes data_row)
    ok (halves.0 ++ halves.1)
