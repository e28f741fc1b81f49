-- ===== src/Base/Slices.antt =====
-- Flat arrays read and written a row at a time.
use Prim.Native.Nat.{ℕ, zero, suc, ◌+◌, ◌-◌, ◌≤◌}
use mathlib.Core.Path.{◌≡◌, refl}
use mathlib.Core.Bool.{true, false}
use mathlib.Core.Logic.{◌⊎◌, inl, inr}
use mathlib.Core.List.{List, [], ◌∷◌, ◌++◌}
use native.Mathlib.Omega.{arith}
use pq_psi.Base.Tests.{ltb, if◌then◌else◌, Bool-cases}
use pq_psi.Base.Lists.{length, get_or, take, drop, length-append, length-take, length-drop}

-- The `w` entries from `a` on, and a write of entries from `a` on.
unfoldable pub slice : ℕ → List ℕ → ℕ → List ℕ
slice w t a = take w (drop a t)

unfoldable pub write : List ℕ → ℕ → List ℕ → List ℕ
write t a v = take a t ++ (v ++ drop (a + length v) t)

get_or-drop : (a : ℕ) (t : List ℕ) (k : ℕ) → get_or (drop a t) k 0 ≡ get_or t (a + k) 0
get_or-drop zero t k = let e : 0 + k ≡ k = omega arith in rw e refl
get_or-drop (suc a) [] k = refl
get_or-drop (suc a) (x ∷ t) k =
    let e : suc a + k ≡ suc (a + k) = omega arith in rw e (get_or-drop a t k)

get_or-take :
    (w : ℕ) (t : List ℕ) (k : ℕ) → get_or (take w t) k 0 ≡ (if ltb k w then get_or t k 0 else 0)
get_or-take zero t k = ground arith
get_or-take (suc w) [] k = ground arith
get_or-take (suc w) (x ∷ t) zero = ground arith
get_or-take (suc w) (x ∷ t) (suc k) = ground (arith, get_or-take w t k)

get_or-append :
    (u v : List ℕ) (k : ℕ)
    → get_or (u ++ v) k 0 ≡ (if ltb k (length u) then get_or u k 0 else get_or v (k - length u) 0)
get_or-append [] v k = let e : k - 0 ≡ k = omega arith in ground (arith, e)
get_or-append (x ∷ u) v zero = ground arith
get_or-append (x ∷ u) v (suc k) =
    let e : suc k - suc (length u) ≡ k - length u = omega arith in
    rw e (ground (arith, get_or-append u v k))

pub get_or-slice :
    (w : ℕ) (t : List ℕ) (a k : ℕ)
    → get_or (slice w t a) k 0 ≡ (if ltb k w then get_or t (a + k) 0 else 0)
unfolding slice
get_or-slice w t a k = rw (get_or-take w (drop a t) k, get_or-drop a t k) refl

pub length-slice : (w : ℕ) (t : List ℕ) (a : ℕ) → a + w ≤ length t → length (slice w t a) ≡ w
unfolding slice
length-slice w t a h = omega (arith, length-take w (drop a t), length-drop a t)

pub length-write :
    (t : List ℕ) (a : ℕ) (v : List ℕ) → a + length v ≤ length t → length (write t a v) ≡ length t
unfolding write
length-write t a v h = omega (
  arith,
  length-append (take a t) (v ++ drop (a + length v) t),
  length-append v (drop (a + length v) t),
  length-take a t,
  length-drop (a + length v) t,
)

pub get_or-write :
    (t : List ℕ) (a : ℕ) (v : List ℕ) (k : ℕ)
    → a + length v ≤ length t
    → get_or (write t a v) k 0 ≡ (
        if ltb k a
        then get_or t k 0
        else if ltb k (a + length v)
        then get_or v (k - a) 0
        else get_or t k 0)
unfolding write
get_or-write t a v k h =
    let front : length (take a t) ≡ a = omega (arith, length-take a t) in
    elim (Bool-cases (ltb k a)) [
      | inl before ↦
          rw
            (
              get_or-append (take a t) (v ++ drop (a + length v) t) k,
              front,
              before,
              get_or-take a t k,
              before,
            )
            refl
      | inr from ↦ elim (Bool-cases (ltb k (a + length v))) [
        | inl inside ↦
            let here : ltb (k - a) (length v) ≡ true = ground arith in
            rw
              (
                get_or-append (take a t) (v ++ drop (a + length v) t) k,
                front,
                from,
                inside,
                get_or-append v (drop (a + length v) t) (k - a),
                here,
              )
              refl
        | inr past ↦
            let there : ltb (k - a) (length v) ≡ false = ground arith in
            let e : a + length v + (k - a - length v) ≡ k = ground arith in
            rw
              (
                get_or-append (take a t) (v ++ drop (a + length v) t) k,
                front,
                from,
                past,
                get_or-append v (drop (a + length v) t) (k - a),
                there,
                get_or-drop (a + length v) t (k - a - length v),
                e,
              )
              refl
      ]
    ]

-- Lists of one length with the same entries are equal.
pub eq_of_get_or :
    (a b : List ℕ) → length a ≡ length b → ((k : ℕ) → get_or a k 0 ≡ get_or b k 0) → a ≡ b
eq_of_get_or [] [] e h = refl
eq_of_get_or [] (y ∷ b) e h = absurd (omega arith)
eq_of_get_or (x ∷ a) [] e h = absurd (omega arith)
eq_of_get_or (x ∷ a) (y ∷ b) e h =
    let tails = eq_of_get_or a b (omega arith) (λ k. h (suc k)) in cc (h 0)

pub get_or_past : (v : List ℕ) (k : ℕ) → length v ≤ k → get_or v k 0 ≡ 0
get_or_past [] k h = refl
get_or_past (x ∷ v) zero h = absurd (omega arith)
get_or_past (x ∷ v) (suc k) h = get_or_past v k (omega arith)

-- Reading back what was written, and what lies apart from it.
pub slice-write_self :
    (w : ℕ) (t : List ℕ) (a : ℕ) (v : List ℕ)
    → length v ≡ w
    → a + w ≤ length t
    → slice w (write t a v) a ≡ v
slice-write_self w t a v e h =
    let fits : a + length v ≤ length t = omega arith in
    eq_of_get_or _ _
      (omega (arith, length-slice w (write t a v) a (omega (arith, length-write t a v fits))))
      (λ k.
        ground (arith, get_or-slice w (write t a v) a k, get_or-write t a v (a + k) fits, tail k))
  where
    tail : (k : ℕ) → ltb k w ≡ false → get_or v k 0 ≡ 0
    tail k h = get_or_past v k (ground arith)

pub slice-write_apart :
    (w : ℕ) (t : List ℕ) (a b : ℕ) (v : List ℕ)
    → length v ≡ w
    → a + w ≤ length t
    → b + w ≤ length t
    → (a + w ≤ b) ⊎ (b + w ≤ a)
    → slice w (write t a v) b ≡ slice w t b
slice-write_apart w t a b v e h g apart =
    let fits : a + length v ≤ length t = omega arith in
    eq_of_get_or _ _
      (omega (
        arith,
        length-slice w t b g,
        length-slice w (write t a v) b (omega (arith, length-write t a v fits)),
      ))
      (λ k. ground (
        arith,
        get_or-slice w (write t a v) b k,
        get_or-slice w t b k,
        get_or-write t a v (b + k) fits,
        apart,
      ))
