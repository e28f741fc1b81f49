-- ===== src/Psi/Net.antt =====
-- frontend/pqpsi/protocols/net.h: a buffer is sent over several channels, a part on each. A channel
-- of cryptoTools delivers what was sent on it, so a transfer is the list of the parts' bytes.
pub mod Transfer
use pq_psi.Base.{
  ℕ, zero, suc, ◌+◌, ◌-◌, ◌*◌, ◌/◌, ◌%◌, min, Bool, not, ◌&&◌, ◌||◌, if◌then◌else◌, ltb, leb, ◌==◌,
  List, [], ◌∷◌, length, slice, write,
}

-- The loop over `i` of `chunks`, on `total` units of `unit` bytes.
unfoldable pub chunk_loop : ℕ → ℕ → ℕ → ℕ → ℕ → List (ℕ × ℕ)
chunk_loop zero i per total unit = []
chunk_loop (suc rounds) i per total unit =
    let begin = i * per in
    let end = min total (begin + per) in
    let rest = chunk_loop rounds (i + 1) per total unit in
    if ltb begin end then (begin * unit, (end - begin) * unit) ∷ rest else rest

-- Offsets and sizes of the parts, on the borders of blocks where the bytes are whole blocks.
unfoldable pub chunks : ℕ → ℕ → List (ℕ × ℕ)
chunks bytes n =
    let blocks = bytes / 16 in
    let use_blocks = min n blocks in
    let use_bytes = min n bytes in
    if bytes == 0 || n == 0
    then []
    else if bytes % 16 == 0
    then chunk_loop use_blocks 0 ((blocks + use_blocks - 1) / use_blocks) blocks 16
    else chunk_loop use_bytes 0 ((bytes + use_bytes - 1) / use_bytes) bytes 1

-- `channels` is the number of channels to a peer that is there.
unfoldable pub should_split : Bool → ℕ → ℕ → Bool
should_split multi_thread channels bytes = multi_thread && (ltb 1 channels && leb (16 * 1024) bytes)

-- The parts of a transfer, in the order of their channels.
unfoldable pub parts_of : Bool → ℕ → ℕ → List (ℕ × ℕ)
parts_of multi_thread channels bytes =
    if should_split multi_thread channels bytes then chunks bytes channels else (0, bytes) ∷ []

pub send_parts : List ℕ → List (ℕ × ℕ) → List (List ℕ)
send_parts data_bytes [] = []
send_parts data_bytes (p ∷ ps) = slice (p.1) data_bytes (p.0) ∷ send_parts data_bytes ps

pub recv_parts : List (ℕ × ℕ) → List (List ℕ) → List ℕ → List ℕ
recv_parts [] messages buffer = buffer
recv_parts (p ∷ ps) [] buffer = buffer
recv_parts (p ∷ ps) (m ∷ messages) buffer = recv_parts ps messages (write buffer (p.0) m)

-- What each channel carries, and the buffer that the other side's `recv` leaves.
unfoldable pub send : Bool → ℕ → List ℕ → List (List ℕ)
send multi_thread channels data_bytes =
    send_parts data_bytes (parts_of multi_thread channels (length data_bytes))

unfoldable pub recv : Bool → ℕ → List (List ℕ) → List ℕ → List ℕ
recv multi_thread channels messages buffer =
    recv_parts (parts_of multi_thread channels (length buffer)) messages buffer
