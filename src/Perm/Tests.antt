-- ===== src/Perm/Tests.antt =====
-- Runs of the permutations with a toy hash and a toy cipher.
use pq_psi.Base.{
  ℕ, zero, suc, ◌≤◌, ◌≡◌, true, false, refl, arith, List, ◌++◌, length, replicate, take,
  length-take, length-append, length-replicate, take-append, ok, err, invalid_argument, ◌⊎◌, Option,
  some,
}
use pq_psi.Perm.Bytes.{AllBytes, load, store, load-store}
use pq_psi.Perm.Feistel.{Feistel, encrypt_bytes, decrypt_bytes}
use pq_psi.Perm.Feistel.Inverse.{IsDigest, decrypt_bytes-encrypt_bytes}
use pq_psi.Perm.Params.{Params, sneik_f512, width_of, best_loop, best_step, defaults, check_params}
use pq_psi.Perm.Params.Step.{IsStep, best_step-greatest, defaults-check_params}
use pq_psi.Perm.Hctr.{crypt, make_key, party_key, party_tweak}
use pq_psi.Perm.Hctr.Inverse.{IsBlock, IsCipher, crypt-crypt}

abbrev toy_shake : ℕ → List ℕ → Option (List ℕ)
toy_shake n m = some (replicate n (length m))

toy_shake-IsDigest : IsDigest toy_shake
toy_shake-IsDigest n m h e =
    let same : replicate n (length m) ≡ h = cc e in rw same at (length-replicate n (length m))

abbrev two_rounds : Feistel
two_rounds = record { rounds = 2; party = 1 }

abbrev row : List ℕ
row = replicate 800 5

decrypt_bytes-encrypt_bytes_example :
    (out : List ℕ) × (encrypt_bytes toy_shake two_rounds row ≡ ok out)
    × (decrypt_bytes toy_shake two_rounds out ≡ ok row)
decrypt_bytes-encrypt_bytes_example =
    decrypt_bytes-encrypt_bytes toy_shake toy_shake-IsDigest two_rounds row
      (λ n m. (replicate n (length m), refl)) (length-replicate 800 row_byte)
  where
    row_byte : ℕ
    row_byte = 5

-- A block as it is, whatever the key.
abbrev padded : List ℕ → List ℕ → List ℕ
padded key b = take 16 (b ++ replicate 16 0)

padded-IsCipher : IsCipher padded padded
padded-IsCipher = record {
  size = λ key b.
      omega (arith, length-take 16 (b ++ zeros), length-append b zeros, length-replicate 16 nil);
  undoes = λ key b block. rw (once b block, once b block) refl;
}
  where
    nil : ℕ
    nil = 0

    zeros : List ℕ
    zeros = replicate 16 nil

    once : (b : List ℕ) → IsBlock b → take 16 (b ++ replicate 16 0) ≡ b
    once b block = rw block.size at (take-append b (replicate 16 0))

abbrev short_row : List ℕ
short_row = replicate 20 200

short_row-AllBytes : (n : ℕ) → AllBytes (replicate n 200)
short_row-AllBytes zero = tt
short_row-AllBytes (suc n) = (omega arith, short_row-AllBytes n)

crypt-crypt_example :
    (out : List ℕ) × (crypt padded padded short_row
        (make_key padded (party_key 1) (party_tweak 1))
        true
      ≡ ok out)
    × (crypt padded padded out (make_key padded (party_key 1) (party_tweak 1)) false ≡ ok short_row)
crypt-crypt_example =
    crypt-crypt padded padded padded-IsCipher short_row
      (make_key padded (party_key 1) (party_tweak 1)) (short_row-AllBytes 20) (omega arith)
      (omega arith)

load-store_example : load (store 8 1234567) ≡ 1234567
load-store_example = load-store 8 1234567 (omega arith)

best_step-greatest_example :
    ((s : ℕ) × (best_step 1600 6400 128 ≡ ok s)
      × IsStep 1600 4800 256 s
      × ((t : ℕ) → IsStep 1600 4800 256 t → t ≤ s))
    ⊎ ((best_step 1600 6400 128
          ≡ err (invalid_argument "no valid Pi step for this small permutation"))
        × ((t : ℕ) → IsStep 1600 4800 256 t → ⊥))
best_step-greatest_example = best_step-greatest 1600 6400 128 (omega arith) (omega arith)

abbrev small_params : Params
small_params = record {
  kind = sneik_f512;
  small_bits = 512;
  total_bits = 612;
  step = 100;
  lambda = 40;
}

small_run : defaults sneik_f512 612 40 ≡ ok small_params
unfolding width_of best_loop best_step defaults
small_run = refl

defaults-check_params_example : check_params (width_of sneik_f512) small_params ≡ ok tt
defaults-check_params_example = defaults-check_params sneik_f512 612 40 small_params small_run
