-- ===== src/Okvs/Rows/Vector.antt =====
-- Rows of blocks under componentwise exclusive or.
use pq_psi.Base.{
  ℕ, zero, suc, ◌<◌, bit_xor, ◌≡◌, refl, ap, arith, List, [], ◌∷◌, length, get_or, replicate, ok,
}
use pq_psi.Okvs.Rows.{xor_blocks, rb_xor}

pub length-xor_blocks : (a b : List ℕ) → length (xor_blocks a b) ≡ length a
unfolding xor_blocks
length-xor_blocks [] b = refl
length-xor_blocks (x ∷ a) [] = refl
length-xor_blocks (x ∷ a) (y ∷ b) = ap suc (length-xor_blocks a b)

pub get_or-xor_blocks :
    (a b : List ℕ) (k : ℕ)
    → length a ≡ length b
    → get_or (xor_blocks a b) k 0 ≡ bit_xor (get_or a k 0) (get_or b k 0)
unfolding xor_blocks
get_or-xor_blocks [] [] k e = refl
get_or-xor_blocks [] (y ∷ b) k e = absurd (omega arith)
get_or-xor_blocks (x ∷ a) [] k e = absurd (omega arith)
get_or-xor_blocks (x ∷ a) (y ∷ b) zero e = refl
get_or-xor_blocks (x ∷ a) (y ∷ b) (suc k) e = get_or-xor_blocks a b k (omega arith)

pub rb_xor-ok : (a b : List ℕ) → length a ≡ length b → rb_xor a b ≡ ok (xor_blocks a b)
unfolding rb_xor
rb_xor-ok a b e = ground arith

pub get_or-replicate {ℓ} : {A : Type ℓ} (n i : ℕ) (a : A) → get_or (replicate n a) i a ≡ a
get_or-replicate zero i a = refl
get_or-replicate (suc n) zero a = refl
get_or-replicate (suc n) (suc i) a = get_or-replicate n i a

pub get_or-replicate_lt {ℓ} :
    {A : Type ℓ} (n i : ℕ) (a d : A) → i < n → get_or (replicate n a) i d ≡ a
get_or-replicate_lt zero i a d h = absurd (omega arith)
get_or-replicate_lt (suc n) zero a d h = refl
get_or-replicate_lt (suc n) (suc i) a d h = get_or-replicate_lt n i a d (omega arith)
