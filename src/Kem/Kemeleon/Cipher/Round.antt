-- ===== src/Kem/Kemeleon/Cipher/Round.antt =====
-- Compression after decompression is the identity, and compression has the range asked for.
use pq_psi.Base.{ℕ, ◌^◌, ◌<◌, ◌≡◌, ◌⊎◌, inl, inr, refl, arith}
use pq_psi.Kem.Kemeleon.{Mode, Gmp, ml_kem512, ml_kem768, ml_kem1024, make_info, info_of, q}
use pq_psi.Kem.Kemeleon.Cipher.{compress_value, decompress_value}

back10 : (x : ℕ) → x < 2 ^ 10 → compress_value (decompress_value x 10) 10 ≡ x
unfolding compress_value decompress_value
back10 x h = omega arith

back11 : (x : ℕ) → x < 2 ^ 11 → compress_value (decompress_value x 11) 11 ≡ x
unfolding compress_value decompress_value
back11 x h = omega arith

du_of : (g : Gmp) (mode : Mode) → ((make_info g mode).du ≡ 10) ⊎ ((make_info g mode).du ≡ 11)
unfolding make_info info_of
du_of g ml_kem512 = inl refl
du_of g ml_kem768 = inl refl
du_of g ml_kem1024 = inr refl

-- In every mode, a value of `du` bits that is decompressed is a residue below q, and compresses
-- to the value again.
pub compress_value-decompress_value :
    (g : Gmp) (mode : Mode) (x : ℕ)
    → x < 2 ^ (make_info g mode).du
    → (decompress_value x (make_info g mode).du < q)
      × (compress_value (decompress_value x (make_info g mode).du) (make_info g mode).du ≡ x)
unfolding decompress_value
compress_value-decompress_value g mode x h = elim (du_of g mode) [
  | inl e ↦ rw e (ground (arith, rw e at h), back10 x (rw e at h))
  | inr e ↦ rw e (ground (arith, rw e at h), back11 x (rw e at h))
]
