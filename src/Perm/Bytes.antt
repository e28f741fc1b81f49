-- ===== src/Perm/Bytes.antt =====
-- Rows of bytes: the sizes of frontend/permutation/types.h, exclusive or, and 64-bit words in
-- little-endian order.
use pq_psi.Base.{
  ℕ, zero, suc, ◌+◌, ◌*◌, ◌/◌, ◌%◌, ◌^◌, ◌≤◌, ◌<◌, bit_xor, ◌≡◌, refl, ap, arith, List, [], ◌∷◌,
  ◌++◌, length, take, drop,
}
use pq_psi.Base.Bits.{bit_xor_cancel, bit_xor_cancel_left, bit_xor-lt}

abbrev pub kem_key_block_size : ℕ
kem_key_block_size = 50

abbrev pub kem_key_size_bit : ℕ
kem_key_size_bit = kem_key_block_size * 16 * 8

-- out[i] = a[i] ^ b[i]
pub xor_bytes : List ℕ → List ℕ → List ℕ
xor_bytes [] b = []
xor_bytes (x ∷ a) [] = []
xor_bytes (x ∷ a) (y ∷ b) = bit_xor x y ∷ xor_bytes a b

-- The low `n` bytes of `x`, least first: `store64` for `n = 8`.
unfoldable pub store : ℕ → ℕ → List ℕ
store zero x = []
store (suc n) x = x % 256 ∷ store n (x / 256)

unfoldable pub load : List ℕ → ℕ
load [] = 0
load (b ∷ bs) = b + 256 * load bs

abbrev pub store64 : ℕ → List ℕ
store64 x = store 8 x

abbrev pub AllBytes : List ℕ → Type 0
AllBytes [] = Unit
AllBytes (b ∷ bs) = (b < 256) × AllBytes bs

pub length-xor_bytes : (a b : List ℕ) → length a ≤ length b → length (xor_bytes a b) ≡ length a
unfolding xor_bytes
length-xor_bytes [] b e = refl
length-xor_bytes (x ∷ a) [] e = absurd (omega arith)
length-xor_bytes (x ∷ a) (y ∷ b) e = ap suc (length-xor_bytes a b (omega arith))

pub xor_bytes_cancel : (a b : List ℕ) → length a ≤ length b → xor_bytes (xor_bytes a b) b ≡ a
unfolding xor_bytes
xor_bytes_cancel [] b e = refl
xor_bytes_cancel (x ∷ a) [] e = absurd (omega arith)
xor_bytes_cancel (x ∷ a) (y ∷ b) e =
    rw (bit_xor_cancel x y, xor_bytes_cancel a b (omega arith)) refl

pub xor_bytes_cancel_left : (a b : List ℕ) → length a ≡ length b → xor_bytes a (xor_bytes a b) ≡ b
unfolding xor_bytes
xor_bytes_cancel_left [] [] e = refl
xor_bytes_cancel_left [] (y ∷ b) e = absurd (omega arith)
xor_bytes_cancel_left (x ∷ a) [] e = absurd (omega arith)
xor_bytes_cancel_left (x ∷ a) (y ∷ b) e =
    rw (bit_xor_cancel_left x y, xor_bytes_cancel_left a b (omega arith)) refl

pub xor_bytes-AllBytes : (a b : List ℕ) → AllBytes a → AllBytes b → AllBytes (xor_bytes a b)
unfolding xor_bytes
xor_bytes-AllBytes [] b p q = tt
xor_bytes-AllBytes (x ∷ a) [] p q = tt
xor_bytes-AllBytes (x ∷ a) (y ∷ b) p q = (bit_xor-lt 8 x y p.0 q.0, xor_bytes-AllBytes a b p.1 q.1)

pub length-store : (n x : ℕ) → length (store n x) ≡ n
unfolding store
length-store zero x = refl
length-store (suc n) x = ap suc (length-store n (x / 256))

pub store-AllBytes : (n x : ℕ) → AllBytes (store n x)
unfolding store
store-AllBytes zero x = tt
store-AllBytes (suc n) x = (omega arith, store-AllBytes n (x / 256))

-- Loading the n bytes that were stored of a number below 256^n gives the number.
pub load-store : (n x : ℕ) → x < 256 ^ n → load (store n x) ≡ x
unfolding load store
load-store zero x h = omega arith
load-store (suc n) x h = omega (arith, load-store n (x / 256) (omega arith))

pub AllBytes-append : (a b : List ℕ) → AllBytes a → AllBytes b → AllBytes (a ++ b)
AllBytes-append [] b p q = q
AllBytes-append (x ∷ a) b p q = (p.0, AllBytes-append a b p.1 q)

pub AllBytes-take : (n : ℕ) (a : List ℕ) → AllBytes a → AllBytes (take n a)
AllBytes-take zero a p = tt
AllBytes-take (suc n) [] p = tt
AllBytes-take (suc n) (x ∷ a) p = (p.0, AllBytes-take n a p.1)

pub AllBytes-drop : (n : ℕ) (a : List ℕ) → AllBytes a → AllBytes (drop n a)
AllBytes-drop zero a p = p
AllBytes-drop (suc n) [] p = tt
AllBytes-drop (suc n) (x ∷ a) p = AllBytes-drop n a p.1
