-- ===== src/Psi/KemRows/Tries.antt =====
-- The key of a row is that of the first attempt whose public key has an encoding.
use pq_psi.Base.{
  ℕ, zero, suc, ◌+◌, ◌≤◌, ◌<◌, ◌≡◌, ◌∙◌, arith, Bool, inl, inr, Bool-cases, ◌==◌, List, Option,
  none, some, Result, ok, >>=-eq-ok,
}
use pq_psi.Kem.Kemeleon.{Gmp, Info}
use pq_psi.Psi.KemRows.{MlKem, attempt_key, try_keys}

module _ (g : Gmp) (hash_byte : List ℕ → ℕ) (info : Info) (kem : MlKem) (random : ℕ → ℕ → List ℕ)
    (deterministic : Bool) where
  abbrev pub attempted : ℕ → ℕ → Result (Option (List ℕ × List ℕ))
  attempted = attempt_key g hash_byte info kem random deterministic

  -- The outcome of the tries from `t` on: the first that succeeds, or that none does.
  abbrev pub IsFirst : ℕ → ℕ → ℕ → Option (List ℕ × List ℕ) → Type 0
  IsFirst rounds t row none = (s : ℕ) → t ≤ s → s < t + rounds → attempted row s ≡ ok none
  IsFirst rounds t row (some key) =
      (s : ℕ) × (t ≤ s)
      × (s < t + rounds)
      × (attempted row s ≡ ok (some key))
      × ((u : ℕ) → t ≤ u → u < s → attempted row u ≡ ok none)

  IsFirst-later :
      (rounds t row : ℕ) (key : Option (List ℕ × List ℕ))
      → attempted row t ≡ ok none
      → IsFirst rounds (t + 1) row key
      → IsFirst (suc rounds) t row key
  IsFirst-later rounds t row none e h = λ s p q. elim (Bool-cases (s == t)) [
    | inl here ↦ let same : s ≡ t = ground arith in rw same e
    | inr later ↦ h s (ground arith) (omega arith)
  ]
  IsFirst-later rounds t row (some key) e (s, p, q, run, before) = (
    s,
    omega arith,
    omega arith,
    run,
    λ u a b. elim (Bool-cases (u == t)) [
      | inl here ↦ let same : u ≡ t = ground arith in rw same e
      | inr later ↦ before u (ground arith) b
    ],
  )

  -- When the tries for a row return, they return the key of the first attempt whose public key
  -- encodes, or nothing where none of the attempts does.
  pub try_keys-IsFirst :
      (rounds t row : ℕ) (out : Option (List ℕ × List ℕ))
      → try_keys g hash_byte info kem random deterministic rounds t row ≡ ok out
      → IsFirst rounds t row out
  unfolding try_keys
  try_keys-IsFirst zero t row none h = λ s p q. absurd (omega arith)
  try_keys-IsFirst zero t row (some key) h = absurd (cc h)
  try_keys-IsFirst (suc rounds) t row out h =
      let (key, e, rest) = >>=-eq-ok (attempted row t) _ h in
      go key out (try_keys-IsFirst rounds (t + 1) row) e rest
    where
      go :
          (key out : Option (List ℕ × List ℕ))
          → ((o : Option (List ℕ × List ℕ))
              → try_keys g hash_byte info kem random deterministic rounds (t + 1) row ≡ ok o
              → IsFirst rounds (t + 1) row o)
          → attempted row t ≡ ok key
          → (elim key [
            | none ↦ try_keys g hash_byte info kem random deterministic rounds (t + 1) row
            | some found ↦ ok (some found)
          ])
            ≡ ok out
          → IsFirst (suc rounds) t row out
      go none out later e rest = IsFirst-later rounds t row out e (later out rest)
      go (some found) none later e rest = absurd (cc rest)
      go (some found) (some key) later e rest =
          (t, omega arith, omega arith, e ∙ rest, λ u a b. absurd (omega arith))
