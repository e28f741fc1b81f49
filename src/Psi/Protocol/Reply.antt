-- ===== src/Psi/Protocol/Reply.antt =====
-- What `Send` answers with, and what `Recv` makes of the answer.
use pq_psi.Base.{
  ℕ, ◌*◌, ◌<◌, ◌≡◌, refl, sym, ap, ◌∙◌, arith, Bool, true, false, if◌then◌else◌, List, length,
  get_or, slice, Result, ok, ◌>>=◌, >>=-eq-ok, ok-injective,
}
use pq_psi.Okvs.Double.{Double}
use pq_psi.Okvs.Flat.{rb_decode_flat}
use pq_psi.Psi.Count.{count_loop}
use pq_psi.Psi.Workers.{run_rows}
use pq_psi.Psi.Rows.{permute, xor_mask, precompute_masks}
use pq_psi.Psi.Rows.Memory.{AllBlocks}
use pq_psi.Psi.Rows.Undo.{
  IsPerm, permute-undone, permute-returns, length-permute, length-fill_mask, length-xor_mask,
  xor_mask_undone,
}
use pq_psi.Psi.Protocol.{Perm, Kem, Setup, recv_hits, send_rows}
use pq_psi.Psi.Protocol.Update.{run_rows-IsUpdated, run_rows-returns}
use pq_psi.Psi.Protocol.Stages.{IsKem, IsMasks, mask_of, slice_width, precompute_masks-IsMasks}

-- The second permutation is taken only under the flag.
abbrev pub sealed_by : Bool → (List ℕ → Result (List ℕ)) → List ℕ → Result (List ℕ)
sealed_by bob_pi crypt_bytes x = if bob_pi then permute crypt_bytes x else ok x

sealed_by-undone :
    (bob_pi : Bool) (pi : Perm) (w : ℕ) (row : List ℕ)
    → IsPerm pi.encrypt pi.decrypt (w * 16)
    → length row ≡ w
    → AllBlocks row
    → (out : List ℕ) × (sealed_by bob_pi pi.encrypt row ≡ ok out)
      × (length out ≡ w)
      × (sealed_by bob_pi pi.decrypt out ≡ ok row)
sealed_by-undone true pi w row perm size all =
    let (out, e, width, blocks, back) = permute-undone pi.encrypt pi.decrypt w row perm size all in
    (out, e, width, back)
sealed_by-undone false pi w row perm size all = (row, refl, size, refl)

sealed_by-returns :
    (bob_pi : Bool) (pi : Perm) (w : ℕ) (row : List ℕ)
    → IsPerm pi.encrypt pi.decrypt (w * 16)
    → length row ≡ w
    → (out : List ℕ) × (sealed_by bob_pi pi.decrypt row ≡ ok out) × (length out ≡ w)
sealed_by-returns true pi w row perm size = permute-returns pi.encrypt pi.decrypt w row perm size
sealed_by-returns false pi w row perm size = (row, refl, size)

module _ (d : Double) (aes : ℕ → ℕ → ℕ) (hw : ℕ) (kem : Kem) (ctx : Setup d.Num)
    (is_kem : IsKem kem ctx.row_size) (keys : List ℕ) where
  abbrev w : ℕ
  w = ctx.row_size

  abbrev n : ℕ
  n = length keys

  abbrev mask : ℕ → List ℕ
  mask = mask_of d aes hw kem ctx is_kem keys

  abbrev width_at : (t : List ℕ) (i : ℕ) → length t ≡ n * w → i < n → length (slice w t (i * w)) ≡ w
  width_at = slice_width d aes hw kem ctx is_kem keys

  module _ (own_pi peer_pi : Perm) (perm : IsPerm own_pi.encrypt own_pi.decrypt (w * 16))
      (decoded : List ℕ) (decoded_size : length decoded ≡ n * w) where
    -- The rows that `Send` encodes open to the rows of the KEM.
    pub record IsSend (opened ct rows : List ℕ) : Type 0 where
      pub size : length opened ≡ n * w
      pub opens :
          (j : ℕ)
          → j < n
          → permute peer_pi.decrypt (xor_mask (mask j) (slice w decoded (j * w)))
            ≡ ok (slice w opened (j * w))
      pub encapsulated : kem.encap_rows opened w ≡ ok ct
      pub rows_size : length rows ≡ n * w
      pub unseals :
          (j : ℕ)
          → j < n
          → sealed_by ctx.bob_pi own_pi.decrypt (xor_mask (mask j) (slice w rows (j * w)))
            ≡ ok (slice w ct (j * w))

    module _ (masks : List ℕ) (is_masks : IsMasks d aes hw kem ctx is_kem keys masks) where
      open_row : ℕ → List ℕ → Result (List ℕ)
      open_row i row = permute peer_pi.decrypt (xor_mask (slice w masks (i * w)) row)

      seal_row : List ℕ → ℕ → List ℕ → Result (List ℕ)
      seal_row ct i row = do
        out ←
            if ctx.bob_pi
            then permute own_pi.encrypt (slice w ct (i * w))
            else ok (slice w ct (i * w))
        ok (xor_mask (slice w masks (i * w)) out)

      seal_row-sealed :
          (ct : List ℕ) (i : ℕ) (x y : List ℕ)
          → i < n
          → length ct ≡ n * w
          → AllBlocks (slice w ct (i * w))
          → seal_row ct i x ≡ ok y
          → (out : List ℕ) × (y ≡ xor_mask (slice w masks (i * w)) out)
            × (length out ≡ w)
            × (sealed_by ctx.bob_pi own_pi.decrypt out ≡ ok (slice w ct (i * w)))
      unfolding seal_row
      seal_row-sealed ct i x y h size all run =
          let (out, e, width, back) =
            sealed_by-undone ctx.bob_pi own_pi w (slice w ct (i * w)) perm (width_at ct i size h)
              all in
          let run' = rw e at run in (out, sym (ok-injective run'), width, back)

      answer :
          (opened ct rows : List ℕ)
          → run_rows w hw n 16 ctx.multi_thread ctx.worker_threads open_row decoded ≡ ok opened
          → kem.encap_rows opened w ≡ ok ct
          → run_rows w hw n 16 ctx.multi_thread ctx.worker_threads (seal_row ct) opened ≡ ok rows
          → IsSend opened ct rows
      unfolding open_row
      answer opened ct rows run encap run' =
          let updated =
            run_rows-IsUpdated w open_row hw n 16 ctx.multi_thread ctx.worker_threads decoded opened
              decoded_size
              (λ i x y p q e g.
                length-permute peer_pi.decrypt _ g ∙ length-xor_mask (slice w masks (i * w)) x ∙ e)
              run in
          let size = updated.size ∙ decoded_size in
          let (ct_size, blocks) = is_kem.sealed n opened ct size encap in
          let updated' =
            run_rows-IsUpdated w (seal_row ct) hw n 16 ctx.multi_thread ctx.worker_threads opened
              rows size
              (λ i x y p q e g.
                let (out, made, width, back) =
                  seal_row-sealed ct i x y (omega arith) ct_size (blocks i (omega arith)) g in
                ap length made ∙ length-xor_mask (slice w masks (i * w)) out ∙ width)
              run' in
          record {
            size = size;
            opens = λ j h. rw (← is_masks j h) (updated.inside j (omega arith) (omega arith));
            encapsulated = encap;
            rows_size = updated'.size ∙ size;
            unseals = λ j h.
                let (out, made, width, back) =
                  seal_row-sealed ct j _ _ h ct_size (blocks j h)
                    (updated'.inside j (omega arith) (omega arith)) in
                rw
                  (
                    made,
                    is_masks j h,
                    xor_mask_undone (mask j) out
                        (width ∙ sym (length-fill_mask aes (get_or keys j 0) w)),
                  )
                  back;
          }

    pub send_rows-IsSend :
        (buffer rows : List ℕ)
        → rb_decode_flat d aes hw buffer w keys ctx.rb ≡ ok decoded
        → send_rows d aes hw kem ctx own_pi peer_pi keys buffer ≡ ok rows
        → (opened : List ℕ) × (ct : List ℕ) × IsSend opened ct rows
    unfolding send_rows open_row seal_row
    send_rows-IsSend buffer rows dec h =
        let (masks, cached, rest) =
          >>=-eq-ok (precompute_masks aes hw keys w ctx.multi_thread ctx.worker_threads) _ h in
        let is_masks = precompute_masks-IsMasks d aes hw kem ctx is_kem keys masks cached in
        let rest2 = rw dec at rest in
        let (opened, run, rest3) =
          >>=-eq-ok
            (run_rows w hw n 16 ctx.multi_thread ctx.worker_threads (open_row masks is_masks)
              decoded)
            _ rest2 in
        let (ct, encap, run') = >>=-eq-ok (kem.encap_rows opened w) _ rest3 in
        (opened, ct, answer masks is_masks opened ct rows run encap run')

  -- On a decoded answer, `Recv` opens every row and returns the number of rows that are hits.
  pub recv_hits-count :
      (peer_pi : Perm) (secrets : List kem.Secret) (masks buffer decoded : List ℕ)
      → IsPerm peer_pi.encrypt peer_pi.decrypt (w * 16)
      → IsMasks d aes hw kem ctx is_kem keys masks
      → length secrets ≡ n
      → rb_decode_flat d aes hw buffer w keys ctx.rb ≡ ok decoded
      → length decoded ≡ n * w
      → (rows : List ℕ) × (recv_hits d aes hw kem ctx peer_pi keys secrets masks buffer
          ≡ ok (
              count_loop
                (λ i. is_kem.hit (get_or secrets i is_kem.no_secret) (slice w rows (i * w)))
                n
                0
                0))
        × ((i : ℕ)
            → i < n
            → sealed_by ctx.bob_pi peer_pi.decrypt (xor_mask (mask i) (slice w decoded (i * w)))
              ≡ ok (slice w rows (i * w)))
  unfolding recv_hits
  recv_hits-count peer_pi secrets masks buffer decoded perm is_masks count dec size =
      let f : ℕ → List ℕ → Result (List ℕ) =
        λ i row. sealed_by ctx.bob_pi peer_pi.decrypt (xor_mask (slice w masks (i * w)) row) in
      let (rows, run, updated) =
        run_rows-returns w f hw n 16 ctx.multi_thread ctx.worker_threads decoded size (λ i x p q e.
          sealed_by-returns ctx.bob_pi peer_pi w (xor_mask (slice w masks (i * w)) x) perm
            (length-xor_mask (slice w masks (i * w)) x ∙ e)) in
      let rows_size : length rows ≡ length secrets * w =
        updated.size ∙ size ∙ ap (λ k. k * w) (sym count) in
      let counted = is_kem.counted ctx.multi_thread ctx.worker_threads secrets rows rows_size in
      (
        rows,
        rw (dec, run, counted, count) refl,
        λ i h. rw (← is_masks i h) (updated.inside i (omega arith) (omega arith)),
      )
