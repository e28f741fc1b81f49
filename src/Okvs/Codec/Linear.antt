-- ===== src/Okvs/Codec/Linear.antt =====
-- Linear equations over exclusive or: the sum of the columns that a row selects.
use pq_psi.Base.{
  ℕ, zero, suc, ◌+◌, ◌-◌, ◌%◌, ◌≤◌, ◌<◌, bit_xor, ◌≡◌, false, refl, sym, arith, Bool-cases, inl,
  inr, ◌==◌, leb, ltb, if◌then◌else◌, ◌&&◌,
}
use pq_psi.Base.Bits.{bit_xor_comm, bit_xor_assoc, bit_xor-zero, zero-bit_xor, bit_xor_self}

-- The term that a coefficient selects.
pub term : ℕ → ℕ → ℕ
term c x = if c == 1 then x else 0

-- The sum of `t` over the columns below `n` that the coefficients `c` select.
pub dot : (ℕ → ℕ) → (ℕ → ℕ) → ℕ → ℕ
dot c t zero = 0
dot c t (suc n) = bit_xor (dot c t n) (term (c n) (t n))

xor_swap : (a b x y : ℕ) → bit_xor (bit_xor a b) (bit_xor x y) ≡ bit_xor (bit_xor a x) (bit_xor b y)
xor_swap a b x y = rw (
  bit_xor_assoc a b (bit_xor x y),
  ← bit_xor_assoc b x y,
  bit_xor_comm b x,
  bit_xor_assoc x b y,
  ← bit_xor_assoc a x (bit_xor b y),
)

term-add : (a b x : ℕ) → a < 2 → b < 2 → term ((a + b) % 2) x ≡ bit_xor (term a x) (term b x)
unfolding term
term-add a b x p q = ground (arith, bit_xor-zero x, zero-bit_xor x, bit_xor_self x, bit_xor-zero 0)

-- The sum is additive in the coefficients.
pub dot-add :
    (a b c t : ℕ → ℕ) (n : ℕ)
    → ((i : ℕ) → a i < 2)
    → ((i : ℕ) → b i < 2)
    → ((i : ℕ) → i < n → c i ≡ (a i + b i) % 2)
    → dot c t n ≡ bit_xor (dot a t n) (dot b t n)
unfolding dot
dot-add a b c t zero p q h = sym (bit_xor-zero 0)
dot-add a b c t (suc n) p q h =
    rw
      (
        dot-add a b c t n p q (λ i l. h i (omega arith)),
        h n (omega arith),
        term-add (a n) (b n) (t n) (p n) (q n),
      )
      (xor_swap (dot a t n) (dot b t n) (term (a n) (t n)) (term (b n) (t n)))

-- Only the values at selected columns matter.
pub dot_congr :
    (c e t u : ℕ → ℕ) (n : ℕ)
    → ((i : ℕ) → i < n → c i ≡ e i)
    → ((i : ℕ) → i < n → e i ≡ 1 → t i ≡ u i)
    → dot c t n ≡ dot e u n
unfolding dot term
dot_congr c e t u zero h g = refl
dot_congr c e t u (suc n) h g =
    rw
      (dot_congr c e t u n (λ i l. h i (omega arith)) (λ i l. g i (omega arith)), h n (omega arith))
      (ground (arith, g n))

pub dot-zero : (c t : ℕ → ℕ) → dot c t 0 ≡ 0
unfolding dot
dot-zero c t = refl

-- One more column, not selected or selected.
pub dot-skip : (c t : ℕ → ℕ) (n : ℕ) → c n ≡ 0 → dot c t (n + 1) ≡ dot c t n
unfolding dot term
dot-skip c t n h = let e : n + 1 ≡ suc n = omega arith in rw (e, h, bit_xor-zero) refl

pub dot-take : (c t : ℕ → ℕ) (n : ℕ) → c n ≡ 1 → dot c t (n + 1) ≡ bit_xor (dot c t n) (t n)
unfolding dot term
dot-take c t n h = let e : n + 1 ≡ suc n = omega arith in rw (e, h) refl

-- The coefficients with the one at `p` struck out.
abbrev pub without : (ℕ → ℕ) → ℕ → ℕ → ℕ
without c p i = if i == p then 0 else c i

-- Taking one selected column out of the sum.
pub dot-split :
    (c t : ℕ → ℕ) (p n : ℕ) → p < n → c p ≡ 1 → dot c t n ≡ bit_xor (dot (without c p) t n) (t p)
unfolding dot
dot-split c t p zero h e = absurd (omega arith)
dot-split c t p (suc n) h e = elim (Bool-cases (n == p)) [
  | inl last ↦ at_last (ground arith)
  | inr inner ↦ inside inner (dot-split c t p n (ground arith) e)
]
  where
    at_last :
        n ≡ p
        → bit_xor (dot c t n) (term (c n) (t n))
          ≡ bit_xor (bit_xor (dot (without c p) t n) (term (without c p n) (t n))) (t p)
    at_last same =
        let now : without c p n ≡ 0 = ground arith in
        let here : c n ≡ 1 = rw same e in
        let below : dot (without c p) t n ≡ dot c t n =
          dot_congr (without c p) c t t n (λ i l. ground arith) (λ i l g. refl) in
        rw (now, here, below, ← same) (unfold term in rw bit_xor-zero refl)

    inside :
        (n == p) ≡ false
        → dot c t n ≡ bit_xor (dot (without c p) t n) (t p)
        → bit_xor (dot c t n) (term (c n) (t n))
          ≡ bit_xor (bit_xor (dot (without c p) t n) (term (without c p n) (t n))) (t p)
    inside ne ih =
        let now : without c p n ≡ c n = ground arith in
        let x = dot (without c p) t n in
        let y = term (c n) (t n) in
        rw (now, ih, bit_xor_assoc x (t p) y, bit_xor_comm (t p) y, ← bit_xor_assoc x y (t p)) refl

-- A sum over columns that are not selected.
pub dot-none : (c t : ℕ → ℕ) (n : ℕ) → ((i : ℕ) → i < n → c i ≡ 0) → dot c t n ≡ 0
unfolding dot term
dot-none c t zero h = refl
dot-none c t (suc n) h =
    rw (dot-none c t n (λ i l. h i (omega arith)), h n (omega arith)) (bit_xor-zero 0)

dot-append :
    (c t : ℕ → ℕ) (a b : ℕ)
    → dot c t (a + b) ≡ bit_xor (dot c t a) (dot (λ j. c (a + j)) (λ j. t (a + j)) b)
unfolding dot
dot-append c t a zero = let e : a + 0 ≡ a = omega arith in rw e (sym (bit_xor-zero (dot c t a)))
dot-append c t a (suc b) =
    let e : a + suc b ≡ suc (a + b) = omega arith in
    rw (e, dot-append c t a b)
      (bit_xor_assoc (dot c t a) (dot (λ j. c (a + j)) (λ j. t (a + j)) b)
        (term (c (a + b)) (t (a + b))))

-- A band of columns: the sum over all columns is the sum over the band.
pub dot-band :
    (c b t : ℕ → ℕ) (s w n : ℕ)
    → s + w ≤ n
    → ((i : ℕ) → i < n → c i ≡ (if leb s i && ltb i (s + w) then b (i - s) else 0))
    → dot c t n ≡ dot b (λ j. t (s + j)) w
dot-band c b t s w n h e =
    let whole : n ≡ s + w + (n - (s + w)) = omega arith in
    rw (whole, dot-append c t (s + w) (n - (s + w)), dot-append c t s w)
      (rw
        (
          dot-none c t s before,
          dot-none (λ j. c (s + w + j)) (λ j. t (s + w + j)) (n - (s + w)) after,
        )
        (rw (bit_xor-zero, zero-bit_xor)
          (dot_congr (λ j. c (s + j)) b (λ j. t (s + j)) (λ j. t (s + j)) w inside
            (λ i l g. refl))))
  where
    before : (i : ℕ) → i < s → c i ≡ 0
    before i l = ground (arith, e i)

    after : (i : ℕ) → i < n - (s + w) → c (s + w + i) ≡ 0
    after i l = ground (arith, e (s + w + i))

    inside : (i : ℕ) → i < w → c (s + i) ≡ b i
    inside i l =
        let back : s + i - s ≡ i = omega arith in
        let here : c (s + i) ≡ b (s + i - s) = ground (arith, e (s + i)) in rw back at here
