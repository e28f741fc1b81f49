-- ===== src/Psi/KemRows/Run.antt =====
-- A run of the two parties with ML-KEM.
use pq_psi.Base.{ℕ, ◌*◌, ◌≤◌, ◌≡◌, sym, arith, ◌⊎◌, Bool, List, length, ok, some, subst}
use pq_psi.Perm.Bytes.{kem_key_block_size}
use pq_psi.Kem.Kemeleon.{Gmp, Info}
use pq_psi.Kem.Kemeleon.Vec.{IsGmp}
use pq_psi.Kem.Kemeleon.Key.{IsInfo}
use pq_psi.Okvs.Double.{Double}
use pq_psi.Okvs.Fit.Bounds.{Truncates}
use pq_psi.Okvs.Flat.{rb_encode_flat}
use pq_psi.Psi.Rows.Undo.{IsPerm}
use pq_psi.Psi.KemRows.{MlKem, fill_ml_kem_key_seed}
use pq_psi.Psi.KemRows.Opened.{IsMlKem, Agrees}
use pq_psi.Psi.KemRows.Interface.{ml_kem_rows, ml_kem_rows-IsKem}
use pq_psi.Psi.Protocol.{Perm, Kem, Setup, recv_rows, send_rows, psi}
use pq_psi.Psi.Protocol.Stages.{IsKem}
use pq_psi.Psi.Protocol.Complete.{shared, psi_complete}

module _ (d : Double) (aes : ℕ → ℕ → ℕ) (hw : ℕ) (g : Gmp) (hash_byte : List ℕ → ℕ) (info : Info)
    (kem : MlKem) (random : ℕ → ℕ → List ℕ) (deterministic : Bool) (seed : ℕ → List ℕ)
    (ctx : Setup d.Num) (recv_pi send_pi : Perm) (keys peer_keys : List ℕ) where
  abbrev rows_kem : Kem
  rows_kem =
      ml_kem_rows g hash_byte info kem random deterministic seed hw ctx.multi_thread
        ctx.worker_threads

  -- For a truncating conversion of doubles, an arithmetic library and an ML-KEM whose bytes are as
  -- documented and whose decapsulation does not fail on the seeds drawn, permutations that undo themselves, rows of
  -- the size of a key, sets of one size, and a number of columns asked for of zero or at least that
  -- size: when both encodings return a table, the run returns a number of hits that is at least
  -- the number of the receiver's elements in the sender's set and at most the size of its set.
  pub psi-complete_ml_kem :
      (secrets : List (List ℕ)) (masks rows1 okvs1 rows2 okvs2 : List ℕ)
      → IsGmp g
      → IsInfo info
      → IsMlKem kem info
      → ((i j t : ℕ) → Agrees kem (fill_ml_kem_key_seed random i t deterministic) (seed j))
      → ctx.row_size ≡ kem_key_block_size
      → Truncates d
      → IsPerm recv_pi.encrypt recv_pi.decrypt (ctx.row_size * 16)
      → IsPerm send_pi.encrypt send_pi.decrypt (ctx.row_size * 16)
      → length peer_keys ≡ length keys
      → (ctx.rb.columns ≡ 0) ⊎ (length keys ≤ ctx.rb.columns)
      → recv_rows d aes hw rows_kem ctx recv_pi keys ≡ ok (secrets, masks, rows1)
      → rb_encode_flat d aes hw keys rows1 ctx.row_size ctx.rb ≡ ok (some okvs1)
      → send_rows d aes hw rows_kem ctx send_pi recv_pi peer_keys okvs1 ≡ ok rows2
      → rb_encode_flat d aes hw peer_keys rows2 ctx.row_size ctx.rb ≡ ok (some okvs2)
      → (hits : ℕ) × (psi d aes hw rows_kem ctx recv_pi send_pi keys peer_keys ≡ ok hits)
        × (shared keys peer_keys ≤ hits)
        × (hits ≤ length keys)
  psi-complete_ml_kem secrets masks rows1 okvs1 rows2 okvs2 is_gmp is_info is_kem agrees width cast
        recv_perm send_perm same_size cols run1 enc1 run2 enc2 =
      let rows_IsKem =
        subst (λ w. IsKem rows_kem w) (sym width)
          (ml_kem_rows-IsKem g hash_byte info kem random deterministic seed hw ctx.multi_thread
            ctx.worker_threads is_gmp is_info is_kem agrees) in
      psi_complete d aes hw rows_kem ctx rows_IsKem recv_pi send_pi keys peer_keys cast
        (omega (arith, width)) recv_perm send_perm same_size cols secrets masks rows1 okvs1 rows2
        okvs2 run1 enc1 run2 enc2
