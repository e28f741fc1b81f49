-- ===== src/Kem/EcKem.antt =====
-- frontend/kem/eckem/raw.h: the KEM on an elliptic curve. Monocypher is a parameter, and so are
-- the seeds that libsodium draws.
use pq_psi.Base.{ℕ, Bool, List, [], ◌∷◌, ◌++◌, take, drop}

pub record Monocypher : Type 0 where
  -- crypto_elligator_key_pair: the representative of the public key, and the secret key
  pub elligator_key_pair : List ℕ → List ℕ × List ℕ
  pub elligator_map : List ℕ → List ℕ
  -- crypto_x25519(_, secret, point)
  pub x25519 : List ℕ → List ℕ → List ℕ
  -- crypto_blake2b of a number of bytes
  pub blake2b : ℕ → List ℕ → List ℕ
  -- crypto_verify16(_, _) == 0
  pub verify16 : List ℕ → List ℕ → Bool

abbrev pub point_bytes : ℕ
point_bytes = 32

abbrev pub secret_bytes : ℕ
secret_bytes = 32

abbrev pub tag_bytes : ℕ
tag_bytes = 16

-- kLabel, "eckem/tag"
abbrev pub kdf_label : List ℕ
kdf_label = 101 ∷ 99 ∷ 107 ∷ 101 ∷ 109 ∷ 47 ∷ 116 ∷ 97 ∷ 103 ∷ []

module _ (mono : Monocypher) where
  unfoldable pub kdf : List ℕ → List ℕ
  kdf secret = mono.blake2b tag_bytes (kdf_label ++ secret)

  unfoldable pub key_gen : List ℕ → List ℕ × List ℕ
  key_gen seed = mono.elligator_key_pair seed

  -- The cipher text and the tag.
  unfoldable pub encap : List ℕ → List ℕ → List ℕ × List ℕ
  encap pk seed =
      let point = mono.elligator_map pk in
      let pair = mono.elligator_key_pair seed in
      let tag = kdf (mono.x25519 pair.1 point) in (pair.0 ++ tag, tag)

  -- The tag, and whether it is that of the cipher text.
  unfoldable pub decap : List ℕ → List ℕ → List ℕ × Bool
  decap sk ct =
      let point = mono.elligator_map (take point_bytes ct) in
      let tag = kdf (mono.x25519 sk point) in
      (tag, mono.verify16 tag (take tag_bytes (drop point_bytes ct)))
