-- ===== src/Psi/EcTests.antt =====
-- A run of the KEM on an elliptic curve on rows of blocks, with a toy Monocypher.
use pq_psi.Base.{
  ℕ, zero, suc, ◌+◌, ◌%◌, ◌≡◌, ap, arith, true, ◌==◌, List, [], ◌∷◌, get_or, replicate,
  length-replicate,
}
use pq_psi.Perm.Bytes.{AllBytes}
use pq_psi.Kem.EcKem.{Monocypher}
use pq_psi.Psi.EcRows.{gen_ec_row, encap_ec_row, ec_hit}
use pq_psi.Psi.EcRows.Opened.{IsMonocypher, ec_hit-encap_ec_row}

-- Keys are copies of one number, which an exchange adds.
abbrev toy_mono : Monocypher
toy_mono = record {
  elligator_key_pair =
      λ seed. (replicate 32 (get_or seed 0 0 % 256), replicate 32 (get_or seed 0 0 % 256));
  elligator_map = λ rep. rep;
  x25519 = λ secret point. replicate 32 (get_or secret 0 0 + get_or point 0 0);
  blake2b = λ n text. replicate n (get_or text 9 0 % 256);
  verify16 = λ a b. get_or a 0 0 == get_or b 0 0;
}

copies-AllBytes : (n x : ℕ) → AllBytes (replicate n (x % 256))
copies-AllBytes zero x = tt
copies-AllBytes (suc n) x = (omega arith, copies-AllBytes n x)

toy_mono-IsMonocypher : IsMonocypher toy_mono
toy_mono-IsMonocypher = record {
  key_size = λ seed. length-replicate 32 (get_or seed 0 0 % 256);
  secret_size = λ seed. length-replicate 32 (get_or seed 0 0 % 256);
  key_bytes = λ seed. copies-AllBytes 32 (get_or seed 0 0);
  hash_size = λ n text. length-replicate n (get_or text 9 0 % 256);
  hash_bytes = λ n text. copies-AllBytes n (get_or text 9 0);
  exchange = λ s t. ap (replicate 32) (omega arith);
  same_verifies = λ a size. ground arith;
}

abbrev low_seeds : ℕ → List ℕ
low_seeds i = (i + 3) ∷ []

abbrev high_seeds : ℕ → List ℕ
high_seeds i = (i + 200) ∷ []

ec_hit-encap_ec_row_example :
    ec_hit toy_mono
      (gen_ec_row toy_mono low_seeds 3 0).0
      (encap_ec_row toy_mono high_seeds 3 1 (gen_ec_row toy_mono low_seeds 3 0).1)
    ≡ true
ec_hit-encap_ec_row_example =
    ec_hit-encap_ec_row toy_mono toy_mono-IsMonocypher 3 0 1 low_seeds high_seeds (omega arith)
