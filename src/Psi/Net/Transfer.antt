-- ===== src/Psi/Net/Transfer.antt =====
-- The parts of a transfer tile the buffer, and the other side puts them back together.
use native.Mathlib.Nat.{zero-mul, add-mul, mul-le-mul_right}
use pq_psi.Base.{
  ℕ, zero, suc, ◌+◌, ◌-◌, ◌*◌, ◌/◌, ◌%◌, ◌≤◌, ◌<◌, ◌≡◌, refl, sym, ap, ◌∙◌, min, Bool, true, false,
  ◌||◌, ◌&&◌, ltb, leb, ◌==◌, Bool-cases, inl, inr, List, [], ◌∷◌, length, get_or, slice, write,
  get_or-slice, length-slice, length-write, get_or-write, eq_of_get_or, get_or_past, arith,
}
use pq_psi.Okvs.Parallel.Cover.{ceil_div}
use pq_psi.Psi.Net.{chunk_loop, chunks, should_split, parts_of, send_parts, recv_parts, send, recv}

-- The parts follow each other from `from` to `to` without a gap, and none is empty.
abbrev pub Tiles : ℕ → ℕ → List (ℕ × ℕ) → Type 0
Tiles from to [] = from ≡ to
Tiles from to (p ∷ ps) = (p.0 ≡ from) × (0 < p.1) × (from + p.1 ≤ to) × Tiles (from + p.1) to ps

scale : (a b unit : ℕ) → a ≤ b → a * unit + (b - a) * unit ≡ b * unit
scale a b unit h =
    let e : a + (b - a) ≡ b = omega arith in sym (add-mul a (b - a) unit) ∙ ap (λ x. x * unit) e

chunk_loop-Tiles :
    (rounds i per total unit : ℕ)
    → 0 < unit
    → total ≤ (i + rounds) * per
    → Tiles (min total (i * per) * unit) (total * unit) (chunk_loop rounds i per total unit)
unfolding chunk_loop
chunk_loop-Tiles zero i per total unit pos h =
    let z : i + 0 ≡ i = omega arith in
    let enough : total ≤ i * per = rw z at h in
    let all : min total (i * per) ≡ total = omega arith in ap (λ x. x * unit) all
chunk_loop-Tiles (suc rounds) i per total unit pos h =
    let shift : i + suc rounds ≡ i + 1 + rounds = omega arith in
    let rest = chunk_loop-Tiles rounds (i + 1) per total unit pos (rw shift at h) in
    let next : (i + 1) * per ≡ i * per + per = omega arith in
    let end = min total (i * per + per) in
    elim (Bool-cases (ltb (i * per) end)) [
      | inl some_bytes ↦
          let first : min total (i * per) ≡ i * per = ground arith in
          let sum = scale (i * per) end unit (ground arith) in
          let least : 1 * unit ≤ (end - i * per) * unit = mul-le-mul_right unit (ground arith) in
          let most : end * unit ≤ total * unit = mul-le-mul_right unit (omega arith) in
          rw (some_bytes, first)
            (refl, omega (arith, least), omega (arith, sum, most), rw sum (rw next at rest))
      | inr nothing ↦
          let same : min total (i * per) ≡ end = ground arith in
          rw (nothing, same) (rw next at rest)
    ]

agree :
    (from to : ℕ) (ps : List (ℕ × ℕ)) (data_bytes buffer : List ℕ)
    → length data_bytes ≡ to
    → length buffer ≡ to
    → Tiles from to ps
    → ((k : ℕ) → k < from → get_or buffer k 0 ≡ get_or data_bytes k 0)
    → recv_parts ps (send_parts data_bytes ps) buffer ≡ data_bytes
unfolding recv_parts send_parts
agree from to [] data_bytes buffer e f tiles same =
    eq_of_get_or buffer data_bytes (omega arith) (λ k. elim (Bool-cases (ltb k from)) [
      | inl inside ↦ same k (ground arith)
      | inr past ↦
          get_or_past buffer k (ground arith) ∙ sym (get_or_past data_bytes k (ground arith))
    ])
agree from to (p ∷ ps) data_bytes buffer e f (at, pos, fits, tiles) same =
    let part = slice (p.1) data_bytes (p.0) in
    let size : length part ≡ p.1 = length-slice (p.1) data_bytes (p.0) (omega arith) in
    let inside : p.0 + length part ≤ length buffer = omega arith in
    agree (from + p.1) to ps data_bytes (write buffer (p.0) part) e
      (length-write buffer (p.0) part inside ∙ f) tiles
      (λ k h. elim (Bool-cases (ltb k from)) [
        | inl before ↦
            let here : ltb k (p.0) ≡ true = ground arith in
            get_or-write buffer (p.0) part k inside ∙ rw here (same k (ground arith))
        | inr now ↦
            let past : ltb k (p.0) ≡ false = ground arith in
            let own : ltb k (p.0 + length part) ≡ true = ground arith in
            let in_part : ltb (k - p.0) (p.1) ≡ true = ground arith in
            let back : p.0 + (k - p.0) ≡ k = ground arith in
            get_or-write buffer (p.0) part k inside
            ∙ rw (past, own, get_or-slice (p.1) data_bytes (p.0) (k - p.0), in_part, back) refl
      ])

nothing_sent :
    (data_bytes buffer : List ℕ)
    → length data_bytes ≡ 0
    → length buffer ≡ length data_bytes
    → recv_parts ((0, 0) ∷ []) (send_parts data_bytes ((0, 0) ∷ [])) buffer ≡ data_bytes
unfolding recv_parts send_parts
nothing_sent data_bytes buffer e f =
    let part = slice 0 data_bytes 0 in
    let size : length part ≡ 0 = length-slice 0 data_bytes 0 (omega arith) in
    let same : length (write buffer 0 part) ≡ length buffer =
      length-write buffer 0 part (omega arith) in
    eq_of_get_or _ _ (same ∙ f) (λ k.
      get_or_past (write buffer 0 part) k (omega arith)
      ∙ sym (get_or_past data_bytes k (omega arith)))

starts : (total per unit : ℕ) → min total (0 * per) * unit ≡ 0
starts total per unit =
    let z : min total (0 * per) ≡ 0 = omega arith in ap (λ x. x * unit) z ∙ zero-mul unit

tiled :
    (total count unit : ℕ)
    → 0 < unit
    → 0 < count
    → Tiles 0 (total * unit) (chunk_loop count 0 ((total + count - 1) / count) total unit)
tiled total count unit pos some_part =
    let per = (total + count - 1) / count in
    let z : 0 + count ≡ count = omega arith in
    let enough : total ≤ (0 + count) * per = rw z (ceil_div total count some_part) in
    rw (starts total per unit) at (chunk_loop-Tiles count 0 per total unit pos enough)

-- For at least one channel, the parts of any number of bytes follow each other from the first byte
-- to the last without a gap, and none is empty.
pub chunks-Tiles : (bytes n : ℕ) → 0 < n → Tiles 0 bytes (chunks bytes n)
unfolding chunks
chunks-Tiles bytes n some_channel = elim (Bool-cases (bytes == 0)) [
  | inl empty ↦ let none_left : bytes ≡ 0 = ground arith in rw none_left refl
  | inr full ↦
      let here : (bytes == 0 || n == 0) ≡ false = ground arith in
      let some_bytes : 0 < bytes = ground arith in
      elim (Bool-cases (bytes % 16 == 0)) [
        | inl whole ↦
            let exact : bytes / 16 * 16 ≡ bytes = ground arith in
            rw (here, whole)
              (rw exact at
                (tiled (bytes / 16) (min n (bytes / 16)) 16 (omega arith) (ground arith)))
        | inr partly ↦
            let one : bytes * 1 ≡ bytes = omega arith in
            rw (here, partly) (rw one at (tiled bytes (min n bytes) 1 (omega arith) (omega arith)))
      ]
]

-- Between two sides with the same setting and number of channels, what the
-- receiver's buffer of the same size holds after the transfer is what the sender sent.
pub recv-send :
    (multi_thread : Bool) (channels : ℕ) (data_bytes buffer : List ℕ)
    → length buffer ≡ length data_bytes
    → recv multi_thread channels (send multi_thread channels data_bytes) buffer ≡ data_bytes
unfolding recv send parts_of should_split
recv-send multi_thread channels data_bytes buffer size =
    let n = length data_bytes in
    let before : (k : ℕ) → k < 0 → get_or buffer k 0 ≡ get_or data_bytes k 0 =
      λ k h. absurd (omega arith) in
    elim (Bool-cases (multi_thread && (ltb 1 channels && leb (16 * 1024) n))) [
      | inl split ↦
          rw (size, split)
            (agree 0 n (chunks n channels) data_bytes buffer refl size
              (chunks-Tiles n channels (ground arith)) before)
      | inr alone ↦
          rw (size, alone)
            (elim (Bool-cases (n == 0)) [
              | inl empty ↦
                  let none_left : n ≡ 0 = ground arith in
                  rw none_left (nothing_sent data_bytes buffer none_left size)
              | inr full ↦
                  agree 0 n ((0, n) ∷ []) data_bytes buffer refl size
                    (refl, ground arith, omega arith, omega arith) before
            ])
    ]
