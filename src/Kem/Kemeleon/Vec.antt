-- ===== src/Kem/Kemeleon/Vec.antt =====
-- Writing a vector as a number in base q and reading it back.
use native.Mathlib.Nat.{mul_assoc, mod-eq_of_lt, pow-le-pow_right, pow-succ'}
use pq_psi.Base.{
  ℕ, zero, suc, ◌+◌, ◌-◌, ◌*◌, ◌/◌, ◌%◌, ◌^◌, ◌≤◌, ◌<◌, bit_and, ◌≡◌, true, false, refl, ap, ◌∙◌,
  arith, inl, inr, Bool-cases, not, ◌&&◌, ◌==◌, ltb, if◌then◌else◌, List, [], ◌∷◌, ◌++◌, length,
  get_or, drop, replicate, length-append, length-drop, length-replicate, some,
}
use pq_psi.Base.Bits.{bit_at, bit-bit_at, bit-high, lt-two-pow, bit_and-ones, bit_and-disjoint}
use pq_psi.Perm.Bytes.{AllBytes, AllBytes-append, load}
use pq_psi.Kem.Kemeleon.{
  Gmp, q, trim_len, bit_len, from_digits, to_digits, mask_back, write_front, encode_vec, decode_vec,
}

-- What GMP documents of the three calls.
pub record IsGmp (g : Gmp) : Type 0 where
  pub sized : (x : ℕ) → x < 2 ^ g.size_in_base2 x
  pub writes : (x : ℕ) → AllBytes (g.to_bytes x) × (load (g.to_bytes x) ≡ x)
  pub fits : (x n : ℕ) → x < 256 ^ n → length (g.to_bytes x) ≤ n
  pub reads : (bs : List ℕ) → AllBytes bs → g.of_bytes bs ≡ load bs

abbrev pub AllResidues : List ℕ → Type 0
AllResidues [] = Unit
AllResidues (d ∷ ds) = (d < q) × AllResidues ds

to_digits-from_digits :
    (ds : List ℕ) → AllResidues ds → to_digits (length ds) (from_digits ds) ≡ (ds, 0)
unfolding to_digits from_digits
to_digits-from_digits [] h = refl
to_digits-from_digits (d ∷ ds) h =
    let low : (from_digits ds * q + d) % q ≡ d = omega (arith, h.0) in
    let high : (from_digits ds * q + d) / q ≡ from_digits ds = omega (arith, h.0) in
    rw (low, high, to_digits-from_digits ds h.1) refl

-- A number whose highest place is clear is below the power of two of that place.
pub clear-place_lt : (m x : ℕ) → x < 2 ^ suc m → bit_at x m ≡ 0 → x < 2 ^ m
clear-place_lt m x h e = lt-two-pow m x λ i l. elim (Bool-cases (i == m)) [
  | inl top ↦ let same : i ≡ m = ground arith in rw same (omega (arith, bit-bit_at x m))
  | inr above ↦ bit-high x (suc m) i h (ground arith)
]

trim_len-lt : (m x : ℕ) → x < 2 ^ m → x < 2 ^ trim_len m x
unfolding trim_len
trim_len-lt zero x h = h
trim_len-lt (suc m) x h = elim (Bool-cases (bit_at x m == 0)) [
  | inl clear ↦ rw clear (trim_len-lt m x (clear-place_lt m x h (ground arith)))
  | inr kept ↦ rw kept h
]

pub bit_len-lt : (g : Gmp) (x : ℕ) → IsGmp g → x < 2 ^ bit_len g x
unfolding bit_len
bit_len-lt g x is_gmp = elim (Bool-cases (x == 0)) [
  | inl empty ↦ rw empty (ground arith)
  | inr full ↦ rw full (trim_len-lt (g.size_in_base2 x) x (is_gmp.sized x))
]

load-append_zeros : (bs : List ℕ) (n : ℕ) → load (bs ++ replicate n 0) ≡ load bs
unfolding load
load-append_zeros [] zero = refl
load-append_zeros [] (suc n) = omega (arith, load-append_zeros [] n)
load-append_zeros (b ∷ bs) n = omega (arith, load-append_zeros bs n)

drop-replicate : (k n z : ℕ) → drop k (replicate n z) ≡ replicate (n - k) z
drop-replicate zero n z = let e : n - 0 ≡ n = omega arith in rw e refl
drop-replicate (suc k) zero z = let e : 0 - suc k ≡ 0 = omega arith in rw e refl
drop-replicate (suc k) (suc n) z =
    let e : suc n - suc k ≡ n - k = omega arith in rw e (drop-replicate k n z)

-- A number below 256^n * m has a last byte below m.
back-lt : (bs : List ℕ) (n m : ℕ) → length bs ≡ suc n → load bs < 256 ^ n * m → get_or bs n 0 < m
unfolding load
back-lt [] n m e h = absurd (omega arith)
back-lt (b ∷ bs) zero m e h = omega arith
back-lt (b ∷ bs) (suc n) m e h =
    back-lt bs n m (omega arith) (tail_lt (load bs) (256 ^ n * m) (omega (arith, scaled)))
  where
    scaled : 256 ^ suc n * m ≡ 256 * (256 ^ n * m)
    scaled = rw (pow-succ' 256 n, mul_assoc 256 (256 ^ n) m) refl

    tail_lt : (x y : ℕ) → b + 256 * x < 256 * y → x < y
    tail_lt x y l = omega arith

mask_back-id :
    (bs : List ℕ) (n w : ℕ)
    → length bs ≡ suc n
    → get_or bs n 0 < 2 ^ w
    → mask_back (2 ^ w - 1) bs ≡ bs
unfolding mask_back
mask_back-id [] n w e h = absurd (omega arith)
mask_back-id (b ∷ []) zero w e h = rw (bit_and-ones w b, mod-eq_of_lt h) refl
mask_back-id (b ∷ []) (suc n) w e h = absurd (omega arith)
mask_back-id (b ∷ c ∷ bs) zero w e h = absurd (omega arith)
mask_back-id (b ∷ c ∷ bs) (suc n) w e h =
    ap (λ t. b ∷ t) (mask_back-id (c ∷ bs) n w (omega arith) h)

two_pow-add8 : (m : ℕ) → 2 ^ (8 + m) ≡ 256 * 2 ^ m
two_pow-add8 m =
    let e : 8 + m ≡ suc (suc (suc (suc (suc (suc (suc (suc m))))))) = omega arith in
    rw e (
      omega (
        arith,
        pow-succ' 2 m,
        pow-succ' 2 (suc m),
        pow-succ' 2 (suc (suc m)),
        pow-succ' 2 (suc (suc (suc m))),
        pow-succ' 2 (suc (suc (suc (suc m)))),
        pow-succ' 2 (suc (suc (suc (suc (suc m))))),
        pow-succ' 2 (suc (suc (suc (suc (suc (suc m)))))),
        pow-succ' 2 (suc (suc (suc (suc (suc (suc (suc m))))))),
      ))

byte_pow : (n r : ℕ) → 256 ^ n * 2 ^ r ≡ 2 ^ (8 * n + r)
byte_pow zero r = let e : 8 * 0 + r ≡ r = omega arith in rw e (omega arith)
byte_pow (suc n) r =
    let e : 8 * suc n + r ≡ 8 + (8 * n + r) = omega arith in
    rw
      (
        e,
        two_pow-add8 (8 * n + r),
        ← byte_pow n r,
        pow-succ' 256 n,
        mul_assoc 256 (256 ^ n) (2 ^ r),
      )
      refl

AllBytes-zeros : (n : ℕ) → AllBytes (replicate n 0)
AllBytes-zeros zero = tt
AllBytes-zeros (suc n) = (omega arith, AllBytes-zeros n)

-- A number of as many bits fits the bytes that hold the bits.
bytes_hold : (x bits : ℕ) → x < 2 ^ bits → x < 256 ^ ((bits + 7) / 8)
bytes_hold x bits h =
    let size = (bits + 7) / 8 in
    let wide : 2 ^ bits ≤ 2 ^ (8 * size + 0) = pow-le-pow_right (omega arith) (omega arith) in
    omega (arith, wide, byte_pow size 0)

-- The spare bits of a byte are a multiple of 2^r.
pub spare_mask : (r : ℕ) → r < 8 → 255 - (2 ^ r - 1) ≡ (2 ^ (8 - r) - 1) * 2 ^ r
spare_mask zero h = refl
spare_mask (suc zero) h = refl
spare_mask (suc (suc zero)) h = refl
spare_mask (suc (suc (suc zero))) h = refl
spare_mask (suc (suc (suc (suc zero)))) h = refl
spare_mask (suc (suc (suc (suc (suc zero))))) h = refl
spare_mask (suc (suc (suc (suc (suc (suc zero)))))) h = refl
spare_mask (suc (suc (suc (suc (suc (suc (suc zero))))))) h = refl
spare_mask (suc (suc (suc (suc (suc (suc (suc (suc r)))))))) h = absurd (omega arith)

module _ (g : Gmp) (is_gmp : IsGmp g) (digits : List ℕ) (bits : ℕ) where
  abbrev size : ℕ
  size = (bits + 7) / 8

  abbrev buffer : List ℕ
  buffer = write_front (g.to_bytes (from_digits digits)) (replicate ((bits + 7) / 8) 0)

  module _ (small : from_digits digits < 2 ^ bits) where
    written : length (g.to_bytes (from_digits digits)) ≤ size
    written = is_gmp.fits (from_digits digits) size (bytes_hold (from_digits digits) bits small)

    length-buffer : length buffer ≡ size
    length-buffer = omega (
      arith,
      written,
      length-append (g.to_bytes (from_digits digits))
          (drop (length (g.to_bytes (from_digits digits))) blank),
      length-drop (length (g.to_bytes (from_digits digits))) blank,
      length-replicate {A = ℕ} size 0,
    )
      where
        blank : List ℕ
        blank = replicate size 0

    buffer-AllBytes : AllBytes buffer
    buffer-AllBytes = rw (drop-replicate (length (g.to_bytes (from_digits digits))) size 0) (
        AllBytes-append (g.to_bytes (from_digits digits)) _ (is_gmp.writes (from_digits digits)).0
          (AllBytes-zeros _))

    load-buffer : load buffer ≡ from_digits digits
    load-buffer = rw (drop-replicate (length (g.to_bytes (from_digits digits))) size 0) (
        load-append_zeros (g.to_bytes (from_digits digits)) _
        ∙ (is_gmp.writes (from_digits digits)).1)

    -- The bits past the last are clear.
    back-buffer : 0 < bits % 8 → get_or buffer (size - 1) 0 < 2 ^ (bits % 8)
    back-buffer h =
        let split : 8 * (size - 1) + bits % 8 ≡ bits = omega arith in
        back-lt buffer (size - 1) (2 ^ (bits % 8)) (omega (arith, length-buffer))
          (rw (load-buffer, byte_pow (size - 1) (bits % 8), split) small)

    spare_clear :
        0 < bits % 8 → bit_and (get_or buffer (size - 1) 0) (255 - (2 ^ (bits % 8) - 1)) ≡ 0
    spare_clear h =
        let r = bits % 8 in
        let mask : 255 - (2 ^ r - 1) ≡ (2 ^ (8 - r) - 1) * 2 ^ r = spare_mask r (omega arith) in
        rw mask (bit_and-disjoint r _ (2 ^ (8 - r) - 1) (back-buffer h))

  masked : List ℕ
  masked = if not (bits % 8 == 0) then mask_back (2 ^ (bits % 8) - 1) buffer else buffer

  masked-buffer : (small : from_digits digits < 2 ^ bits) → masked ≡ buffer
  unfolding masked
  masked-buffer small = elim (Bool-cases (bits % 8 == 0)) [
    | inl whole ↦ rw whole refl
    | inr part ↦ rw part (
        mask_back-id buffer (size - 1) (bits % 8) (ground (arith, length-buffer small))
          (back-buffer small (ground arith)))
  ]

  decode_vec-buffer :
      (small : from_digits digits < 2 ^ bits)
      → AllResidues digits
      → decode_vec g buffer bits (length digits) ≡ some digits
  unfolding decode_vec
  decode_vec-buffer small residues =
      let same : (length buffer == (bits + 7) / 8) ≡ true = ground (arith, length-buffer small) in
      let whole : g.of_bytes buffer ≡ from_digits digits =
        is_gmp.reads buffer (buffer-AllBytes small) ∙ load-buffer small in
      let pass : (not (bits % 8 == 0)
            && not
                (bit_and (get_or buffer (length buffer - 1) 0) (255 - (2 ^ (bits % 8) - 1)) == 0))
          ≡ false =
        rw (length-buffer small) (ground (arith, spare_clear small)) in
      rw (same, pass, whole, to_digits-from_digits digits residues) refl

  -- For an arithmetic library that writes and reads numbers as its documentation says, a vector
  -- of residues below q that is encoded in a number of bits decodes to itself from the bytes.
  pub decode_vec-encode_vec :
      (out : List ℕ)
      → AllResidues digits
      → encode_vec g digits bits ≡ some out
      → decode_vec g out bits (length digits) ≡ some digits
  unfolding encode_vec masked
  decode_vec-encode_vec out residues h =
      elim (Bool-cases (ltb bits (bit_len g (from_digits digits)))) [
        | inl long ↦ cc (rw long at h)
        | inr short ↦
            let small : from_digits digits < 2 ^ bits =
              below (pow-le-pow_right (omega arith) (ground arith))
                (bit_len-lt g (from_digits digits) is_gmp) in
            let made : masked ≡ out = cc (rw short at h) in
            rw (← made, masked-buffer small) (decode_vec-buffer small residues)
      ]
    where
      below : {a b c : ℕ} → b ≤ c → a < b → a < c
      below p l = omega arith

  -- The bytes of an encoded vector, with the bits past the last clear.
  pub record IsVecBytes (out : List ℕ) : Type 0 where
    pub size : length out ≡ (bits + 7) / 8
    pub all_bytes : AllBytes out
    pub clear : 0 < bits % 8 → get_or out ((bits + 7) / 8 - 1) 0 < 2 ^ (bits % 8)

  pub encode_vec-IsVecBytes : (out : List ℕ) → encode_vec g digits bits ≡ some out → IsVecBytes out
  unfolding encode_vec masked
  encode_vec-IsVecBytes out h = elim (Bool-cases (ltb bits (bit_len g (from_digits digits)))) [
    | inl long ↦ cc (rw long at h)
    | inr short ↦
        let small : from_digits digits < 2 ^ bits =
          below (pow-le-pow_right (omega arith) (ground arith))
            (bit_len-lt g (from_digits digits) is_gmp) in
        let made : masked ≡ out = cc (rw short at h) in
        rw (← made, masked-buffer small)
          (record {
            size = length-buffer small;
            all_bytes = buffer-AllBytes small;
            clear = back-buffer small;
          })
  ]
    where
      below : {a b c : ℕ} → b ≤ c → a < b → a < c
      below p l = omega arith
