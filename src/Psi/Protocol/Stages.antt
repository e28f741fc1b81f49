-- ===== src/Psi/Protocol/Stages.antt =====
-- What the stages of the two parties do with the row of an element.
use pq_psi.Base.{
  ℕ, zero, ◌*◌, ◌<◌, ◌≡◌, refl, sym, ap, ◌∙◌, arith, Bool, true, List, length, get_or, slice,
  replicate, length-replicate, length-slice, Result, ok, ◌>>=◌, >>=-eq-ok, ok-injective, subst,
}
use pq_psi.Okvs.Double.{Double}
use pq_psi.Okvs.Flat.Fill.{slot_fits}
use pq_psi.Psi.Count.{count_loop}
use pq_psi.Psi.Workers.{run_rows}
use pq_psi.Psi.Rows.{permute, fill_mask, xor_mask, precompute_masks}
use pq_psi.Psi.Rows.Memory.{AllBlocks}
use pq_psi.Psi.Rows.Undo.{
  IsPerm, permute-undone, length-fill_mask, length-xor_mask, xor_mask_undone,
}
use pq_psi.Psi.Protocol.{Perm, Kem, Setup, recv_rows}
use pq_psi.Psi.Protocol.Update.{run_rows-IsUpdated, run_rows-returns}

-- What the protocol relies on of a KEM on rows of `w` blocks. `hit` is the test of one row.
pub record IsKem (kem : Kem) (w : ℕ) : Type 0 where
  pub hit : kem.Secret → List ℕ → Bool
  pub no_secret : kem.Secret
  pub generated :
      (n : ℕ) (secrets : List kem.Secret) (pk : List ℕ)
      → kem.gen_rows n w ≡ ok (secrets, pk)
      → (length secrets ≡ n)
        × (length pk ≡ n * w)
        × ((i : ℕ) → i < n → AllBlocks (slice w pk (i * w)))
  pub sealed :
      (m : ℕ) (rows ct : List ℕ)
      → length rows ≡ m * w
      → kem.encap_rows rows w ≡ ok ct
      → (length ct ≡ m * w) × ((j : ℕ) → j < m → AllBlocks (slice w ct (j * w)))
  -- A row encapsulated to a public key is a hit of its secret key.
  pub opened :
      (n m : ℕ) (secrets : List kem.Secret) (pk rows ct : List ℕ) (i j : ℕ)
      → kem.gen_rows n w ≡ ok (secrets, pk)
      → length rows ≡ m * w
      → kem.encap_rows rows w ≡ ok ct
      → i < n
      → j < m
      → slice w rows (j * w) ≡ slice w pk (i * w)
      → hit (get_or secrets i no_secret) (slice w ct (j * w)) ≡ true
  pub counted :
      (multi_thread : Bool) (worker_threads : ℕ) (secrets : List kem.Secret) (rows : List ℕ)
      → length rows ≡ length secrets * w
      → kem.count_hits multi_thread worker_threads secrets rows w
        ≡ ok (
            count_loop
              (λ i. hit (get_or secrets i no_secret) (slice w rows (i * w)))
              (length secrets)
              0
              0)

module _ (d : Double) (aes : ℕ → ℕ → ℕ) (hw : ℕ) (kem : Kem) (ctx : Setup d.Num)
    (is_kem : IsKem kem ctx.row_size) (keys : List ℕ) where
  abbrev w : ℕ
  w = ctx.row_size

  abbrev n : ℕ
  n = length keys

  abbrev pub mask_of : ℕ → List ℕ
  mask_of i = fill_mask aes (get_or keys i 0) w

  abbrev pub IsMasks : List ℕ → Type 0
  IsMasks masks = (i : ℕ) → i < n → slice w masks (i * w) ≡ mask_of i

  pub slice_width : (t : List ℕ) (i : ℕ) → length t ≡ n * w → i < n → length (slice w t (i * w)) ≡ w
  slice_width t i size h = length-slice w t (i * w) (omega (arith, slot_fits w i n h))

  pub precompute_masks-IsMasks :
      (masks : List ℕ)
      → precompute_masks aes hw keys w ctx.multi_thread ctx.worker_threads ≡ ok masks
      → IsMasks masks
  unfolding precompute_masks
  precompute_masks-IsMasks masks h i l =
      let f : ℕ → List ℕ → Result (List ℕ) = λ i row. ok (mask_of i) in
      let zeros : List ℕ = replicate (n * w) 0 in
      let updated =
        run_rows-IsUpdated w f hw n 16 ctx.multi_thread ctx.worker_threads zeros masks
          (length-replicate (n * w) zero)
          (λ i x y p q e g.
            sym (ap length (ok-injective g)) ∙ length-fill_mask aes (get_or keys i 0) w)
          h in
      sym (ok-injective (updated.inside i (omega arith) (omega arith)))

  pub precompute_masks-returns :
      (masks : List ℕ) × (precompute_masks aes hw keys w ctx.multi_thread ctx.worker_threads
        ≡ ok masks)
  unfolding precompute_masks
  precompute_masks-returns =
      let f : ℕ → List ℕ → Result (List ℕ) = λ i row. ok (mask_of i) in
      let zeros : List ℕ = replicate (n * w) 0 in
      let (masks, run, updated) =
        run_rows-returns w f hw n 16 ctx.multi_thread ctx.worker_threads zeros
          (length-replicate (n * w) zero)
          (λ i x p q e. (mask_of i, refl, length-fill_mask aes (get_or keys i 0) w)) in
      (masks, run)

  -- The rows that `Recv` encodes open to the public keys.
  pub record IsRecv (pi : Perm) (secrets : List kem.Secret) (masks pk rows : List ℕ) : Type 0 where
    pub generated : kem.gen_rows n w ≡ ok (secrets, pk)
    pub is_masks : IsMasks masks
    pub size : length rows ≡ n * w
    pub opens :
        (i : ℕ)
        → i < n
        → permute pi.decrypt (xor_mask (mask_of i) (slice w rows (i * w))) ≡ ok (slice w pk (i * w))

  module _ (pi : Perm) (perm : IsPerm pi.encrypt pi.decrypt (w * 16)) where
    module _ (secrets : List kem.Secret) (masks pk : List ℕ) where
      recv_row : ℕ → List ℕ → Result (List ℕ)
      recv_row i row = do
        out ← permute pi.encrypt (slice w pk (i * w))
        ok (xor_mask (slice w masks (i * w)) out)

      -- The row of an index is its permuted public key under the mask.
      recv_row-permuted :
          (i : ℕ) (x y : List ℕ)
          → i < n
          → kem.gen_rows n w ≡ ok (secrets, pk)
          → recv_row i x ≡ ok y
          → (out : List ℕ) × (y ≡ xor_mask (slice w masks (i * w)) out)
            × (length out ≡ w)
            × (permute pi.decrypt out ≡ ok (slice w pk (i * w)))
      unfolding recv_row
      recv_row-permuted i x y h gen run =
          let (count, size, blocks) = is_kem.generated n secrets pk gen in
          let (out, e, width, all, back) =
            permute-undone pi.encrypt pi.decrypt w (slice w pk (i * w)) perm
              (slice_width pk i size h) (blocks i h) in
          let run' = rw e at run in (out, sym (ok-injective run'), width, back)

      IsRecv-of :
          (rows : List ℕ)
          → kem.gen_rows n w ≡ ok (secrets, pk)
          → IsMasks masks
          → run_rows w hw n 16 ctx.multi_thread ctx.worker_threads recv_row (replicate (n * w) 0)
            ≡ ok rows
          → IsRecv pi secrets masks pk rows
      IsRecv-of rows gen is_masks run =
          let zeros : List ℕ = replicate (n * w) 0 in
          let updated =
            run_rows-IsUpdated w recv_row hw n 16 ctx.multi_thread ctx.worker_threads zeros rows
              (length-replicate (n * w) zero)
              (λ i x y p q e g.
                let (out, made, width, back) = recv_row-permuted i x y (omega arith) gen g in
                ap length made ∙ length-xor_mask (slice w masks (i * w)) out ∙ width)
              run in
          record {
            generated = gen;
            is_masks = is_masks;
            size = updated.size ∙ length-replicate (n * w) zero;
            opens = λ i h.
                let (out, made, width, back) =
                  recv_row-permuted i _ _ h gen (updated.inside i (omega arith) (omega arith)) in
                rw
                  (
                    made,
                    is_masks i h,
                    xor_mask_undone (mask_of i) out
                        (width ∙ sym (length-fill_mask aes (get_or keys i 0) w)),
                  )
                  back;
          }

    pub recv_rows-IsRecv :
        (secrets : List kem.Secret) (masks rows : List ℕ)
        → recv_rows d aes hw kem ctx pi keys ≡ ok (secrets, masks, rows)
        → (pk : List ℕ) × IsRecv pi secrets masks pk rows
    unfolding recv_rows recv_row
    recv_rows-IsRecv secrets masks rows h =
        let (pairs, gen, rest) = >>=-eq-ok (kem.gen_rows n w) _ h in
        let (masks', cached, rest2) =
          >>=-eq-ok (precompute_masks aes hw keys w ctx.multi_thread ctx.worker_threads) _ rest in
        let (rows', run, made) =
          >>=-eq-ok
            (run_rows w hw n 16 ctx.multi_thread ctx.worker_threads
              (recv_row (pairs.0) masks' (pairs.1)) (replicate (n * w) 0))
            _ rest2 in
        (
          pairs.1,
          subst (λ x. IsRecv pi (x.0) (x.1) (pairs.1) (x.2)) (ok-injective made)
              (IsRecv-of (pairs.0) masks' (pairs.1) rows' gen
                (precompute_masks-IsMasks masks' cached) run),
        )
