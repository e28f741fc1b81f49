-- ===== src/Psi/Protocol.antt =====
-- frontend/pqpsi/protocols: `Recv` of recv.cpp and `Send` of send.cpp. Each is taken apart at its
-- messages; a message is handed over as it was sent, which Psi.Net is about.
pub mod Update
pub mod Stages
pub mod Reply
pub mod Complete
use pq_psi.Base.{
  ℕ, ◌+◌, ◌*◌, Bool, true, false, List, [], ◌∷◌, length, replicate, slice, Option, none, some,
  Result, ok, ◌>>=◌, if◌then◌else◌,
}
use pq_psi.Okvs.Double.{Double}
use pq_psi.Okvs.Params.{RbParams}
use pq_psi.Okvs.Flat.{rb_encode_flat, rb_decode_flat}
use pq_psi.Psi.Workers.{run_rows}
use pq_psi.Psi.Rows.{permute, xor_mask, precompute_masks}

-- A permutation of pqperm::Perm.
pub record Perm : Type 0 where
  pub encrypt : List ℕ → Result (List ℕ)
  pub decrypt : List ℕ → Result (List ℕ)

-- The three calls of a KEM on rows of blocks: genRows of a number of rows of a size, encapRows, and
-- countHits with the settings of its threads.
pub record Kem : Type 1 where
  pub Secret : Type 0
  pub gen_rows : ℕ → ℕ → Result (List Secret × List ℕ)
  pub encap_rows : List ℕ → ℕ → Result (List ℕ)
  pub count_hits : Bool → ℕ → List Secret → List ℕ → ℕ → Result ℕ

-- The part of Ctx that the parties agree on.
pub record Setup (Num : Type 0) : Type 0 where
  pub table_size : ℕ
  pub row_size : ℕ
  pub multi_thread : Bool
  pub worker_threads : ℕ
  pub rb : RbParams Num
  pub bob_pi : Bool

-- The buffer of RBEncode, which its callers use whatever it returns.
unfoldable pub kept_buffer : Option (List ℕ) → List ℕ → List ℕ
kept_buffer none buffer = buffer
kept_buffer (some table) buffer = table

module _ (d : Double) (aes : ℕ → ℕ → ℕ) (hw : ℕ) (kem : Kem) (ctx : Setup d.Num) where
  -- parallelFor over the rows of a set, in place
  abbrev pub each_row : ℕ → (ℕ → List ℕ → Result (List ℕ)) → List ℕ → Result (List ℕ)
  each_row n f rows = run_rows ctx.row_size hw n 16 ctx.multi_thread ctx.worker_threads f rows

  -- Row `i` of a flat array.
  abbrev pub row_at : List ℕ → ℕ → List ℕ
  row_at rows i = slice ctx.row_size rows (i * ctx.row_size)

  -- `Recv`, steps 1 to 3: the secret keys, the masks, and the rows to encode.
  unfoldable pub recv_rows : Perm → List ℕ → Result (List kem.Secret × List ℕ × List ℕ)
  recv_rows own_pi keys = do
    pairs ← kem.gen_rows (length keys) ctx.row_size
    masks ← precompute_masks aes hw keys ctx.row_size ctx.multi_thread ctx.worker_threads
    rows ←
        each_row (length keys)
          (λ i row. do
            out ← permute own_pi.encrypt (row_at (pairs.1) i)
            ok (xor_mask (row_at masks i) out))
          (replicate (length keys * ctx.row_size) 0)
    ok (pairs.0, masks, rows)

  -- Steps 4 and 5: OKVS1.
  unfoldable pub recv_table : List ℕ → List ℕ → Result (List ℕ)
  recv_table keys rows = do
    table ← rb_encode_flat d aes hw keys rows ctx.row_size ctx.rb
    ok (kept_buffer table (replicate (ctx.table_size * ctx.row_size) 0))

  -- Steps 7 to 10, on OKVS2: the number of hits.
  unfoldable pub recv_hits : Perm → List ℕ → List kem.Secret → List ℕ → List ℕ → Result ℕ
  recv_hits peer_pi keys secrets masks buffer = do
    decoded ← rb_decode_flat d aes hw buffer ctx.row_size keys ctx.rb
    rows ←
        each_row (length keys)
          (λ i row.
            let x = xor_mask (row_at masks i) row in
            if ctx.bob_pi then permute peer_pi.decrypt x else ok x)
          decoded
    kem.count_hits ctx.multi_thread ctx.worker_threads secrets rows ctx.row_size

  -- `Send`, steps 2 to 7, on OKVS1: the rows to encode.
  unfoldable pub send_rows : Perm → Perm → List ℕ → List ℕ → Result (List ℕ)
  send_rows own_pi peer_pi keys buffer = do
    masks ← precompute_masks aes hw keys ctx.row_size ctx.multi_thread ctx.worker_threads
    decoded ← rb_decode_flat d aes hw buffer ctx.row_size keys ctx.rb
    opened ←
        each_row (length keys) (λ i row. permute peer_pi.decrypt (xor_mask (row_at masks i) row))
          decoded
    cipher ← kem.encap_rows opened ctx.row_size
    each_row (length keys)
        (λ i row. do
          out ←
              if ctx.bob_pi then permute own_pi.encrypt (row_at cipher i) else ok (row_at cipher i)
          ok (xor_mask (row_at masks i) out))
        opened

  -- Steps 8 and 9: OKVS2, in the buffer that OKVS1 was received in.
  unfoldable pub send_table : List ℕ → List ℕ → List ℕ → Result (List ℕ)
  send_table keys rows buffer = do
    table ← rb_encode_flat d aes hw keys rows ctx.row_size ctx.rb
    ok (kept_buffer table buffer)

  -- The messages of a run between `Recv` on `keys` and `Send` on `peer_keys`, and the hits.
  unfoldable pub psi : Perm → Perm → List ℕ → List ℕ → Result ℕ
  psi recv_pi send_pi keys peer_keys = do
    state ← recv_rows recv_pi keys
    okvs1 ← recv_table keys (state.2)
    rows ← send_rows send_pi recv_pi peer_keys okvs1
    okvs2 ← send_table peer_keys rows okvs1
    recv_hits send_pi keys (state.0) (state.1) okvs2
