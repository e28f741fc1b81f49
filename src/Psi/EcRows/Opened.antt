-- ===== src/Psi/EcRows/Opened.antt =====
-- A row that is encapsulated to the key of a row is a hit of the secret key of that row.
use pq_psi.Base.{
  ℕ, ◌+◌, ◌-◌, ◌*◌, ◌≤◌, ◌≡◌, sym, ◌∙◌, arith, true, false, not, ◌==◌, List, ◌++◌, length, take,
  replicate, length-append, take-append,
}
use pq_psi.Perm.Bytes.{AllBytes, AllBytes-append}
use pq_psi.Kem.EcKem.{Monocypher, point_bytes, secret_bytes, tag_bytes, kdf, key_gen, encap, decap}
use pq_psi.Kem.Kemeleon.Key.{split_at}
use pq_psi.Psi.Rows.{bytes_of}
use pq_psi.Psi.KemRows.{padded_row}
use pq_psi.Psi.KemRows.Opened.{bytes_of-padded_row, append_assoc}
use pq_psi.Psi.EcRows.{gen_ec_row, encap_ec_row, ec_hit}

-- What Monocypher documents of the calls: the sizes, the exchange of keys, and the comparison.
pub record IsMonocypher (mono : Monocypher) : Type 0 where
  pub key_size : (seed : List ℕ) → length (mono.elligator_key_pair seed).0 ≡ point_bytes
  pub secret_size : (seed : List ℕ) → length (mono.elligator_key_pair seed).1 ≡ secret_bytes
  pub key_bytes : (seed : List ℕ) → AllBytes (mono.elligator_key_pair seed).0
  pub hash_size : (n : ℕ) (text : List ℕ) → length (mono.blake2b n text) ≡ n
  pub hash_bytes : (n : ℕ) (text : List ℕ) → AllBytes (mono.blake2b n text)
  pub exchange :
      (s t : List ℕ)
      → mono.x25519 (mono.elligator_key_pair s).1 (mono.elligator_map (mono.elligator_key_pair t).0)
        ≡ mono.x25519
            (mono.elligator_key_pair t).1
            (mono.elligator_map (mono.elligator_key_pair s).0)
  pub same_verifies : (a : List ℕ) → length a ≡ tag_bytes → mono.verify16 a a ≡ true

module _ (mono : Monocypher) (is_mono : IsMonocypher mono) where
  -- The bytes of a padded row begin with what it holds.
  take-padded_row :
      (row_size : ℕ) (bytes : List ℕ) (n : ℕ)
      → AllBytes bytes
      → length bytes ≡ n
      → n ≤ row_size * 16
      → take n (bytes_of (padded_row row_size bytes)) ≡ bytes
  take-padded_row row_size bytes n all size fits =
      rw (bytes_of-padded_row row_size bytes all (omega (arith, size)), sym size)
        (take-append bytes (replicate (row_size * 16 - length bytes) 0))

  -- For a Monocypher that exchanges keys as documented and rows with room for a cipher text, the
  -- row that encapsulates to the row generated at index `i` is a hit of the secret key of `i`.
  pub ec_hit-encap_ec_row :
      (row_size i j : ℕ) (key_seed seed : ℕ → List ℕ)
      → point_bytes + tag_bytes ≤ row_size * 16
      → ec_hit mono
          (gen_ec_row mono key_seed row_size i).0
          (encap_ec_row mono seed row_size j (gen_ec_row mono key_seed row_size i).1)
        ≡ true
  unfolding gen_ec_row encap_ec_row ec_hit key_gen encap decap kdf
  ec_hit-encap_ec_row row_size i j key_seed seed room =
      let pk = (mono.elligator_key_pair (key_seed i)).0 in
      let sk = (mono.elligator_key_pair (key_seed i)).1 in
      let rep = (mono.elligator_key_pair (seed j)).0 in
      let rep_size = is_mono.key_size (seed j) in
      let read : take point_bytes (bytes_of (padded_row row_size pk)) ≡ pk =
        take-padded_row row_size pk point_bytes (is_mono.key_bytes (key_seed i))
          (is_mono.key_size (key_seed i)) (omega arith) in
      let tag =
        kdf mono (mono.x25519 (mono.elligator_key_pair (seed j)).1 (mono.elligator_map pk)) in
      let tag_size : length tag ≡ tag_bytes = is_mono.hash_size tag_bytes _ in
      let rest : List ℕ = replicate (row_size * 16 - length (rep ++ tag)) 0 in
      let bytes : bytes_of (padded_row row_size (rep ++ tag)) ≡ rep ++ (tag ++ rest) =
        bytes_of-padded_row row_size (rep ++ tag)
          (AllBytes-append rep tag (is_mono.key_bytes (seed j)) (is_mono.hash_bytes tag_bytes _))
          (omega (arith, length-append rep tag, rep_size, tag_size))
        ∙ append_assoc rep tag rest in
      let (front, back) = split_at point_bytes rep (tag ++ rest) rep_size in
      let (held, _) = split_at tag_bytes tag rest tag_size in
      let whole : not (length sk == secret_bytes) ≡ false =
        ground (arith, is_mono.secret_size (key_seed i)) in
      rw (read, whole, bytes, front, back, held, is_mono.exchange (key_seed i) (seed j))
        (is_mono.same_verifies tag tag_size)
