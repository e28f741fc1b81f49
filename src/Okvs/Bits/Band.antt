-- ===== src/Okvs/Bits/Band.antt =====
-- `RBMaskBits` and `RBEnsureBits`: the coefficients of a row within its band.
use pq_psi.Base.{ℕ, zero, suc, ◌/◌, ◌%◌, ◌^◌, ◌≤◌, ◌<◌, ◌≡◌, Bool-cases, inl, inr, ◌==◌, arith, ok}
use pq_psi.Base.Bits.{bit-zero, bit}
use pq_psi.Okvs.Bits.{
  RbBits, words, word, rb_mask_bits, rb_ensure_bits, rb_has_bits, trim_words, set_word,
}
use pq_psi.Okvs.Bits.Words.{place, IsWords, word-set_word}
use pq_psi.Okvs.Bits.Places.{place-trim_words, rb_trim_bits-ok}
use pq_psi.Okvs.Bits.Fits.{IsWords-trim_words, IsWords-rb_ensure_bits}

-- Coefficients within a band of `width` places.
pub record IsBand (width : ℕ) (b : RbBits) : Type 0 where
  pub fits : IsWords b
  pub trimmed : (i : ℕ) → width ≤ i → i < 256 → place b i ≡ 0

pub IsBand-trim_words :
    (b : RbBits) (width : ℕ) → width ≤ 256 → IsWords b → IsBand width (trim_words b width)
IsBand-trim_words b width h fits = record {
  fits = IsWords-trim_words b width fits;
  trimmed = λ i p q. ground (arith, place-trim_words b width i h q);
}

place-set_first : (b : RbBits) (i : ℕ) → 1 ≤ i → place b i ≡ 0 → place (set_word b 0 1) i ≡ 0
place-set_first b i p h = elim (Bool-cases (0 == i / 64)) [
  | inl first ↦
      let at : word (set_word b 0 1) (i / 64) ≡ 1 =
        ground (arith, word-set_word b 0 (i / 64) 1 (omega arith)) in
      rw at (one (i % 64) (ground arith))
  | inr later ↦
      let at : word (set_word b 0 1) (i / 64) ≡ word b (i / 64) =
        ground (arith, word-set_word b 0 (i / 64) 1 (omega arith)) in
      rw at h
]
  where
    one : (j : ℕ) → 1 ≤ j → bit 1 j ≡ 0
    one zero q = absurd (omega arith)
    one (suc j) q = bit-zero j

pub IsBand-rb_ensure_bits :
    (b : RbBits) (width : ℕ) → 1 ≤ width → IsBand width b → IsBand width (rb_ensure_bits b)
unfolding rb_ensure_bits
IsBand-rb_ensure_bits b width h band = record {
  fits = IsWords-rb_ensure_bits b band.fits;
  trimmed = λ i p q. elim (Bool-cases (rb_has_bits b)) [
    | inl has ↦ rw has (band.trimmed i p q)
    | inr empty ↦ rw empty (place-set_first b i (omega arith) (band.trimmed i p q))
  ];
}

pub IsWords-words :
    (a b c e : ℕ) → a < 2 ^ 64 → b < 2 ^ 64 → c < 2 ^ 64 → e < 2 ^ 64 → IsWords (words a b c e)
unfolding word
IsWords-words a b c e p q r s zero = p
IsWords-words a b c e p q r s (suc zero) = q
IsWords-words a b c e p q r s (suc (suc zero)) = r
IsWords-words a b c e p q r s (suc (suc (suc zero))) = s
IsWords-words a b c e p q r s (suc (suc (suc (suc i)))) = omega arith

pub rb_mask_bits-ok :
    (b : RbBits) (width : ℕ) → width ≤ 256 → rb_mask_bits b width ≡ ok (trim_words b width)
unfolding rb_mask_bits
rb_mask_bits-ok b width h = rb_trim_bits-ok b width h
