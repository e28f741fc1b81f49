-- ===== src/Kem/Kemeleon/Fits.antt =====
-- Which vectors `encodeVec` accepts: those whose number fits the bits.
use native.Mathlib.Nat.{pow-le-pow_right}
use pq_psi.Base.{
  ℕ, zero, suc, ◌-◌, ◌^◌, ◌≤◌, ◌<◌, ◌≡◌, true, false, refl, arith, ◌⊎◌, inl, inr, Bool, Bool-cases,
  ◌==◌, ltb, if◌then◌else◌, List, none, some,
}
use pq_psi.Base.Bits.{bit_at, bit-bit_at, bit-high}
use pq_psi.Kem.Kemeleon.{Gmp, trim_len, bit_len, from_digits, encode_vec}
use pq_psi.Kem.Kemeleon.Vec.{IsGmp, bit_len-lt, clear-place_lt}

-- A number with a place set is at least the power of two of the place.
set-place_le : (x m : ℕ) → (bit_at x m == 0) ≡ false → 2 ^ m ≤ x
set-place_le x m h = elim (Bool-cases (ltb x (2 ^ m))) [
  | inl low ↦ absurd (ground (arith, bit-bit_at x m, bit-high x m m (ground arith)))
  | inr high ↦ ground arith
]

trim_len-le : (m x : ℕ) → 0 < x → x < 2 ^ m → 2 ^ (trim_len m x - 1) ≤ x
unfolding trim_len
trim_len-le zero x p h = absurd (omega arith)
trim_len-le (suc m) x p h = elim (Bool-cases (bit_at x m == 0)) [
  | inl clear ↦ rw clear (trim_len-le m x p (clear-place_lt m x h (ground arith)))
  | inr kept ↦ let e : suc m - 1 ≡ m = omega arith in rw (kept, e) (set-place_le x m kept)
]

accepted :
    (t : Bool) (bytes : List ℕ)
    → t ≡ false
    → (out : List ℕ) × ((if t then none else some bytes) ≡ some out)
accepted t bytes h = (bytes, rw h refl)

module _ (g : Gmp) (is_gmp : IsGmp g) where
  bit_len-le : (x bits : ℕ) → x < 2 ^ bits → bit_len g x ≤ bits
  unfolding bit_len
  bit_len-le x bits h = elim (Bool-cases (x == 0)) [
    | inl empty ↦ rw empty (omega arith)
    | inr full ↦
        let least = trim_len-le (g.size_in_base2 x) x (ground arith) (is_gmp.sized x) in
        rw full (elim (Bool-cases (ltb bits (trim_len (g.size_in_base2 x) x))) [
          | inl long ↦ absurd (
              over least h (
                pow-le-pow_right (omega arith)
                  (before bits (trim_len (g.size_in_base2 x) x) (ground arith))))
          | inr short ↦ ground arith
        ])
  ]
    where
      before : (a b : ℕ) → a < b → a ≤ b - 1
      before a b l = omega arith

      over : {a b c : ℕ} → a ≤ b → b < c → c ≤ a → ⊥
      over p l r = omega arith

  -- For an arithmetic library that sizes numbers as its documentation says, a vector whose number
  -- in base q is below two to the number of bits is encoded, and every other vector is refused.
  pub encode_vec-decides :
      (digits : List ℕ) (bits : ℕ)
      → ((from_digits digits < 2 ^ bits) × ((out : List ℕ) × (encode_vec g digits bits ≡ some out)))
        ⊎ ((2 ^ bits ≤ from_digits digits) × (encode_vec g digits bits ≡ none))
  unfolding encode_vec
  encode_vec-decides digits bits =
      let x = from_digits digits in
      elim (Bool-cases (ltb x (2 ^ bits))) [
        | inl low ↦
            let room : ltb bits (bit_len g x) ≡ false =
              ground (arith, bit_len-le x bits (ground arith)) in
            inl (ground arith, accepted (ltb bits (bit_len g x)) _ room)
        | inr high ↦
            let long : ltb bits (bit_len g x) ≡ true = too_long x bits (ground arith) in
            inr (ground arith, rw long refl)
      ]
    where
      too_long : (x bits : ℕ) → 2 ^ bits ≤ x → ltb bits (bit_len g x) ≡ true
      too_long x bits h = elim (Bool-cases (ltb bits (bit_len g x))) [
        | inl long ↦ long
        | inr short ↦
            absurd
              (outside h (bit_len-lt g x is_gmp) (pow-le-pow_right (omega arith) (ground arith)))
      ]
        where
          outside : {a b c : ℕ} → a ≤ b → b < c → c ≤ a → ⊥
          outside p l r = omega arith
