-- ===== src/Okvs/Bits/Lead.antt =====
-- `RBLead`: the lowest place that is set.
use pq_psi.Base.{
  ℕ, zero, suc, ◌+◌, ◌*◌, ◌/◌, ◌%◌, ◌^◌, ◌≤◌, ◌<◌, ◌≡◌, ◌≢◌, ◌⊎◌, inl, inr, refl, arith, ◌==◌,
  Bool-cases,
}
use native.Mathlib.Nat.{pow-suc}
use pq_psi.Base.Bits.{bit, bit-zero}
use pq_psi.Okvs.Bits.{RbBits, word, ctz_from, ctz64, lead_loop, rb_lead}
use pq_psi.Okvs.Bits.Words.{place, IsWords}

-- `l` is the lowest place of `b` that is set.
pub record IsLead (b : RbBits) (l : ℕ) : Type 0 where
  pub inside : l < 256
  pub is_set : place b l ≡ 1
  pub below : (i : ℕ) → i < l → place b i ≡ 0

-- Where no place is set, every word is zero.
abbrev pub IsEmpty : RbBits → Type 0
IsEmpty b = (k : ℕ) → k < 4 → word b k ≡ 0

record IsLowest (x c : ℕ) : Type 0 where
  is_set : bit x c ≡ 1
  below : (j : ℕ) → j < c → bit x j ≡ 0

ctz_from-IsLowest :
    (n x : ℕ) → x ≢ 0 → x < 2 ^ suc n → (ctz_from n x ≤ n) × IsLowest x (ctz_from n x)
unfolding ctz_from
ctz_from-IsLowest zero x h p = (
  omega arith,
  record { is_set = omega (arith, pow-suc 2 0); below = λ j q. absurd (omega arith) },
)
ctz_from-IsLowest (suc n) x h p = elim (Bool-cases (x % 2 == 0)) [
  | inl even ↦
      let half = ctz_from-IsLowest n (x / 2) (ground arith) (omega (arith, pow-suc 2 (suc n))) in
      rw even (
        omega (arith, half.0),
        record { is_set = half.1.is_set; below = λ j. shifted (ground arith) j half.1.below },
      )
  | inr odd ↦
      rw odd (omega arith, record { is_set = ground arith; below = λ j q. absurd (omega arith) })
]
  where
    shifted :
        x % 2 ≡ 0
        → (j : ℕ) → ((i : ℕ) → i < ctz_from n (x / 2) → bit (x / 2) i ≡ 0)
        → j < suc (ctz_from n (x / 2))
        → bit x j ≡ 0
    shifted e zero below q = e
    shifted e (suc j) below q = below j (omega arith)

word-IsLead :
    (b : RbBits) (i : ℕ)
    → IsWords b
    → i < 4
    → word b i ≢ 0
    → ((k : ℕ) → k < i → word b k ≡ 0)
    → IsLead b (i * 64 + ctz64 (word b i))
unfolding ctz64
word-IsLead b i fits inside here above =
    let low = ctz_from-IsLowest 63 (word b i) here (fits i) in
    let c = ctz_from 63 (word b i) in
    let at_word : (i * 64 + c) / 64 ≡ i = omega (arith, low.0) in
    let at_bit : (i * 64 + c) % 64 ≡ c = omega (arith, low.0) in
    record {
      inside = omega (arith, low.0);
      is_set = rw (at_word, at_bit) (low.1.is_set);
      below = λ j q. elim (Bool-cases (j / 64 == i)) [
        | inl same ↦ let e : j / 64 ≡ i = ground arith in rw e (low.1.below (j % 64) (omega arith))
        | inr other ↦
            let lower : j / 64 < i = ground (arith, low.0) in
            rw (above (j / 64) lower) (bit-zero (j % 64))
      ];
    }

lead_loop-finds :
    (rounds i : ℕ) (b : RbBits) (width : ℕ)
    → IsWords b
    → i + rounds ≡ 4
    → ((k : ℕ) → k < i → word b k ≡ 0)
    → IsLead b (lead_loop rounds i b width) ⊎ (IsEmpty b × (lead_loop rounds i b width ≡ width))
unfolding lead_loop
lead_loop-finds zero i b width fits e above = inr ((λ k h. above k (omega arith)), refl)
lead_loop-finds (suc rounds) i b width fits e above = elim (Bool-cases (word b i == 0)) [
  | inl empty ↦
      rw empty
        (lead_loop-finds rounds (i + 1) b width fits (omega arith) (λ k h. past (ground arith) k h))
  | inr found ↦ rw found (inl (word-IsLead b i fits (omega arith) (ground arith) above))
]
  where
    past : word b i ≡ 0 → (k : ℕ) → k < i + 1 → word b k ≡ 0
    past z k h = elim (Bool-cases (k == i)) [
      | inl same ↦ let e : k ≡ i = ground arith in rw e z
      | inr other ↦ above k (ground arith)
    ]

-- For words below 2^64, RBLead is the lowest place that is set, or it is the width and every word
-- is zero.
pub rb_lead-finds :
    (b : RbBits) (width : ℕ)
    → IsWords b
    → IsLead b (rb_lead b width) ⊎ (IsEmpty b × (rb_lead b width ≡ width))
unfolding rb_lead
rb_lead-finds b width fits = lead_loop-finds 4 0 b width fits refl (λ k h. absurd (omega arith))
