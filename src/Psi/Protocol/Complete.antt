-- ===== src/Psi/Protocol/Complete.antt =====
-- The receiver finds every element of its set that is in the sender's set.
use pq_psi.Base.{
  ℕ, zero, suc, ◌+◌, ◌*◌, ◌≤◌, ◌<◌, ◌≡◌, sym, ◌∙◌, arith, ◌⊎◌, inl, inr, Bool, true, false, ◌||◌,
  ◌==◌, if◌then◌else◌, Bool-cases, List, [], ◌∷◌, length, get_or, slice, ok, some, ok-injective,
}
use pq_psi.Okvs.Double.{Double}
use pq_psi.Okvs.Fit.Bounds.{Truncates}
use pq_psi.Okvs.Flat.{rb_encode_flat}
use pq_psi.Okvs.Flat.Correct.{rb_decode_flat-rb_encode_flat}
use pq_psi.Psi.Count.{count_loop}
use pq_psi.Psi.Count.Partial.{passes, count_loop-passes}
use pq_psi.Psi.Rows.{fill_mask, xor_mask}
use pq_psi.Psi.Rows.Undo.{IsPerm}
use pq_psi.Psi.Protocol.{
  Perm, Kem, Setup, kept_buffer, recv_rows, recv_table, send_rows, send_table, psi,
}
use pq_psi.Psi.Protocol.Stages.{IsKem, IsRecv, recv_rows-IsRecv}
use pq_psi.Psi.Protocol.Reply.{sealed_by, IsSend, send_rows-IsSend, recv_hits-count}

-- Whether an element is in a set, and how many elements of a set are in another.
abbrev pub member : ℕ → List ℕ → Bool
member x [] = false
member x (y ∷ ys) = x == y || member x ys

abbrev pub shared : List ℕ → List ℕ → ℕ
shared [] ys = 0
shared (x ∷ xs) ys = (if member x ys then 1 else 0) + shared xs ys

member-at :
    (x : ℕ) (ys : List ℕ) → member x ys ≡ true → (j : ℕ) × (j < length ys) × (get_or ys j 0 ≡ x)
member-at x [] h = absurd (cc h)
member-at x (y ∷ ys) h = elim (Bool-cases (x == y)) [
  | inl here ↦ (0, omega arith, ground arith)
  | inr later ↦ let (j, l, e) = member-at x ys (rw later at h) in (suc j, omega arith, e)
]

-- A test that passes at the members passes at least as often as there are members.
shared-passes :
    (test : ℕ → Bool) (xs ys : List ℕ) (k : ℕ)
    → ((i : ℕ) → i < length xs → member (get_or xs i 0) ys ≡ true → test (k + i) ≡ true)
    → shared xs ys ≤ passes test (length xs) k
shared-passes test [] ys k h = omega arith
shared-passes test (x ∷ xs) ys k h =
    let z : k + 0 ≡ k = omega arith in
    let rest = shared-passes test xs ys (k + 1) (λ i l m.
      let shift : k + suc i ≡ k + 1 + i = omega arith in rw shift at (h (suc i) (omega arith) m)) in
    elim (Bool-cases (member x ys)) [
      | inl found ↦
          let hit = rw z at (h 0 (omega arith) found) in rw (found, hit) (omega (arith, rest))
      | inr other ↦ rw other (omega (arith, rest))
    ]

passes-le : (test : ℕ → Bool) (n k : ℕ) → passes test n k ≤ n
passes-le test zero k = omega arith
passes-le test (suc n) k = ground (arith, passes-le test n (k + 1))

module _ (d : Double) (aes : ℕ → ℕ → ℕ) (hw : ℕ) (kem : Kem) (ctx : Setup d.Num)
    (is_kem : IsKem kem ctx.row_size) (recv_pi send_pi : Perm) (keys peer_keys : List ℕ)
    (cast : Truncates d) (some_width : 0 < ctx.row_size)
    (recv_perm : IsPerm recv_pi.encrypt recv_pi.decrypt (ctx.row_size * 16))
    (send_perm : IsPerm send_pi.encrypt send_pi.decrypt (ctx.row_size * 16))
    (same_size : length peer_keys ≡ length keys)
    (cols : (ctx.rb.columns ≡ 0) ⊎ (length keys ≤ ctx.rb.columns)) where
  abbrev w : ℕ
  w = ctx.row_size

  -- The row of a shared element survives both passes.
  found :
      (secrets : List kem.Secret) (masks pk rows1 decoded1 opened ct rows2 decoded2 rows3 : List ℕ)
      → IsRecv d aes hw kem ctx is_kem keys recv_pi secrets masks pk rows1
      → (decoded1_size : length decoded1 ≡ length peer_keys * w)
      → IsSend d aes hw kem ctx is_kem peer_keys send_pi recv_pi send_perm decoded1 decoded1_size
          opened ct rows2
      → (i j : ℕ) → i < length keys
      → j < length peer_keys
      → get_or peer_keys j 0 ≡ get_or keys i 0
      → slice w decoded1 (j * w) ≡ slice w rows1 (i * w)
      → slice w decoded2 (i * w) ≡ slice w rows2 (j * w)
      → sealed_by ctx.bob_pi send_pi.decrypt
          (xor_mask (fill_mask aes (get_or keys i 0) w) (slice w decoded2 (i * w)))
        ≡ ok (slice w rows3 (i * w))
      → is_kem.hit (get_or secrets i is_kem.no_secret) (slice w rows3 (i * w)) ≡ true
  found secrets masks pk rows1 decoded1 opened ct rows2 decoded2 rows3 received size1 sent i j hi hj
        same there back unsealed =
      let got : slice w opened (j * w) ≡ slice w pk (i * w) =
        ok-injective (sym (sent.opens j hj) ∙ rw (same, there) (received.opens i hi)) in
      let arrived : slice w ct (j * w) ≡ slice w rows3 (i * w) =
        ok-injective (sym (sent.unseals j hj) ∙ rw (same, ← back) unsealed) in
      rw arrived at (
        is_kem.opened (length keys) (length peer_keys) secrets pk opened ct i j received.generated
          sent.size sent.encapsulated hi hj got)

  -- For a truncating conversion of doubles, a KEM whose rows are hits of the key that they were
  -- encapsulated to, permutations that undo themselves, rows of a positive width, sets of one
  -- size, and a number of columns asked for of zero or at least that size: when both encodings
  -- return a table, the run returns a number of hits that is at least the number of the
  -- receiver's elements in the sender's set and at most the size of its set.
  pub psi_complete :
      (secrets : List kem.Secret) (masks rows1 okvs1 rows2 okvs2 : List ℕ)
      → recv_rows d aes hw kem ctx recv_pi keys ≡ ok (secrets, masks, rows1)
      → rb_encode_flat d aes hw keys rows1 w ctx.rb ≡ ok (some okvs1)
      → send_rows d aes hw kem ctx send_pi recv_pi peer_keys okvs1 ≡ ok rows2
      → rb_encode_flat d aes hw peer_keys rows2 w ctx.rb ≡ ok (some okvs2)
      → (hits : ℕ) × (psi d aes hw kem ctx recv_pi send_pi keys peer_keys ≡ ok hits)
        × (shared keys peer_keys ≤ hits)
        × (hits ≤ length keys)
  unfolding psi recv_table send_table kept_buffer
  psi_complete secrets masks rows1 okvs1 rows2 okvs2 run1 enc1 run2 enc2 =
      let n = length keys in
      let (pk, received) =
        recv_rows-IsRecv d aes hw kem ctx is_kem keys recv_pi recv_perm secrets masks rows1 run1 in
      let (decoded1, dec1, size1, right1) =
        rb_decode_flat-rb_encode_flat d aes hw keys rows1 w ctx.rb okvs1 peer_keys cast some_width
          received.size enc1 same_size cols in
      let (opened, ct, sent) =
        send_rows-IsSend d aes hw kem ctx is_kem peer_keys send_pi recv_pi send_perm decoded1 size1
          okvs1 rows2 dec1 run2 in
      let (decoded2, dec2, size2, right2) =
        rb_decode_flat-rb_encode_flat d aes hw peer_keys rows2 w ctx.rb okvs2 keys cast some_width
          sent.rows_size enc2 (sym same_size) (rw same_size cols) in
      let (count, pk_size, blocks) = is_kem.generated n secrets pk received.generated in
      let (rows3, hits_run, opens) =
        recv_hits-count d aes hw kem ctx is_kem keys send_pi secrets masks okvs2 decoded2 send_perm
          received.is_masks count dec2 size2 in
      let test : ℕ → Bool =
        λ i. is_kem.hit (get_or secrets i is_kem.no_secret) (slice w rows3 (i * w)) in
      let all = count_loop-passes test n 0 0 in
      let least = shared-passes test keys peer_keys 0 (λ i l m.
        let (j, hj, same) = member-at (get_or keys i 0) peer_keys m in
        let z : 0 + i ≡ i = omega arith in
        rw z (
          found secrets masks pk rows1 decoded1 opened ct rows2 decoded2 rows3 received size1 sent i
            j l hj same (right1 i j l hj same) (right2 j i hj l (sym same)) (opens i l))) in
      (
        count_loop test n 0 0,
        rw (run1, enc1, run2, enc2) hits_run,
        omega (arith, all, least),
        omega (arith, all, passes-le test n 0),
      )
