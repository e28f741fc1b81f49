-- ===== src/Psi/KemRows/Interface.antt =====
-- ML-KEM as the KEM of the protocol: genRows, encapRows and countHits on ObfMlKem.
use pq_psi.Base.{
  ℕ, ◌*◌, ◌/◌, ◌%◌, ◌<◌, ◌≡◌, ap, ◌∙◌, arith, Bool, false, not, ◌||◌, ◌==◌, List, [], map, length,
  get_or, replicate, slice, length-replicate, length-map, subst, Result, ok, >>=-eq-ok,
  throw_if-eq-ok, ok-injective,
}
use pq_psi.Perm.Bytes.{kem_key_block_size}
use pq_psi.Kem.Kemeleon.{Gmp, Info}
use pq_psi.Kem.Kemeleon.Vec.{IsGmp}
use pq_psi.Kem.Kemeleon.Key.{IsInfo, encode_key-IsCode}
use pq_psi.Psi.Workers.{run_for_caught}
use pq_psi.Psi.Count.Partial.{count_tests-count_loop}
use pq_psi.Psi.Rows.Memory.{AllBlocks}
use pq_psi.Psi.KemRows.{
  MlKem, fill_ml_kem_key_seed, join_rows, gen_row, gen_ml_kem_keys, encap_row, encap_ml_kem,
  decap_bytes, count_decap_hits,
}
use pq_psi.Psi.KemRows.Opened.{IsMlKem, Agrees, gen_row-IsKeyRow, gen_row-decap_bytes}
use pq_psi.Psi.KemRows.Filled.{
  AllRows, run_for_caught-IsFilled, get_or-map, length-join_rows, slice-join_rows, padded_row-IsRow,
  encap_row-IsRow,
}
use pq_psi.Psi.Protocol.{Kem}
use pq_psi.Psi.Protocol.Stages.{IsKem}
use pq_psi.Psi.Protocol.Update.{run_rows_caught-IsUpdated}

module _ (g : Gmp) (hash_byte : List ℕ → ℕ) (info : Info) (kem : MlKem) (random : ℕ → ℕ → List ℕ)
    (deterministic : Bool) (seed : ℕ → List ℕ) (hw : ℕ) (multi_thread : Bool)
    (worker_threads : ℕ) where
  abbrev pub ml_kem_rows : Kem
  ml_kem_rows = record {
    Secret = List ℕ;
    gen_rows = λ n row_size.
        gen_ml_kem_keys g hash_byte info kem random deterministic hw (n * row_size) row_size
          multi_thread worker_threads;
    encap_rows = λ rows row_size.
        encap_ml_kem g hash_byte info kem random deterministic seed hw rows row_size multi_thread
          worker_threads;
    count_hits = λ multi_thread worker_threads secrets rows row_size.
        count_decap_hits kem hw secrets rows row_size multi_thread worker_threads;
  }

  -- What a run of genMlKemKeys leaves at index `i`.
  record IsGenerated (n : ℕ) (secrets : List (List ℕ)) (pk : List ℕ) : Type 0 where
    count : length secrets ≡ n
    rows_size : length pk ≡ n * kem_key_block_size
    each :
        (i : ℕ)
        → i < n
        → gen_row g hash_byte info kem random deterministic kem_key_block_size i
          ≡ ok (get_or secrets i [], slice kem_key_block_size pk (i * kem_key_block_size))

  module _ (is_gmp : IsGmp g) (is_info : IsInfo info) (is_kem : IsMlKem kem info) where
    gen_row-IsRow :
        (i : ℕ) (secret row : List ℕ)
        → gen_row g hash_byte info kem random deterministic kem_key_block_size i ≡ ok (secret, row)
        → (length row ≡ kem_key_block_size) × AllBlocks row
    gen_row-IsRow i secret row h =
        let held =
          gen_row-IsKeyRow g hash_byte info kem random deterministic kem_key_block_size i secret row
            h in
        let key_seed = fill_ml_kem_key_seed random i held.attempt deterministic in
        let code =
          encode_key-IsCode g hash_byte kem.public_key_bytes info is_info (kem.key_gen key_seed).0
            held.code is_gmp is_kem.key_size (is_kem.key_bytes key_seed) held.encoded in
        rw (held.held) (padded_row-IsRow kem_key_block_size held.code code.code_bytes held.fits)

    pairs-IsGenerated :
        (n : ℕ) (pairs : List (List ℕ × List ℕ))
        → length pairs ≡ n
        → ((i : ℕ)
            → i < n
            → gen_row g hash_byte info kem random deterministic kem_key_block_size i
              ≡ ok (get_or pairs i ([], [])))
        → IsGenerated n (map (λ p. p.0) pairs) (join_rows (map (λ p. p.1) pairs))
    pairs-IsGenerated n pairs size each =
        let count : length (map {A = List ℕ × List ℕ} (λ p. p.1) pairs) ≡ n =
          length-map pairs (λ p. p.1) ∙ size in
        let first = get_or-map {A = List ℕ × List ℕ} (λ p. p.0) pairs in
        let second = get_or-map {A = List ℕ × List ℕ} (λ p. p.1) pairs in
        let widths : AllRows kem_key_block_size (map (λ p. p.1) pairs) =
          λ i l. rw (second i ([], [])) (gen_row-IsRow i _ _ (each i (omega (arith, count)))).0 in
        record {
          count = length-map pairs (λ p. p.0) ∙ size;
          rows_size =
              length-join_rows kem_key_block_size _ widths ∙ ap (λ m. m * kem_key_block_size) count;
          each = λ i l.
              let row =
                slice-join_rows kem_key_block_size _ i widths (omega (arith, count))
                ∙ second i ([], []) in
              rw (row, first i ([], [])) (each i l);
        }

    gen_ml_kem_keys-IsGenerated :
        (n : ℕ) (secrets : List (List ℕ)) (pk : List ℕ)
        → gen_ml_kem_keys g hash_byte info kem random deterministic hw
            (n * kem_key_block_size)
            kem_key_block_size
            multi_thread
            worker_threads
          ≡ ok (secrets, pk)
        → IsGenerated n secrets pk
    unfolding gen_ml_kem_keys
    gen_ml_kem_keys-IsGenerated n secrets pk h =
        let (whole, rest) =
          throw_if-eq-ok
            (not (kem_key_block_size == kem_key_block_size)
              || not (n * kem_key_block_size % kem_key_block_size == 0))
            _ _ h in
        let rows : n * kem_key_block_size / kem_key_block_size ≡ n = omega arith in
        let blank : List (List ℕ × List ℕ) = replicate n ([], []) in
        let (pairs, run, made) =
          >>=-eq-ok
            (run_for_caught hw n 8 multi_thread worker_threads
              (gen_row g hash_byte info kem random deterministic kem_key_block_size) blank)
            _ (rw rows at rest) in
        let filled =
          run_for_caught-IsFilled
            (gen_row g hash_byte info kem random deterministic kem_key_block_size) ([], []) hw n 8
            multi_thread worker_threads blank pairs (omega (arith, blank_size)) run in
        let same : ◌≡◌ {A = List (List ℕ) × List ℕ}
            (map (λ p. p.0) pairs, join_rows (map (λ p. p.1) pairs)) (secrets, pk) =
          ok-injective made in
        subst (λ out. IsGenerated n out.0 out.1) same
          (pairs-IsGenerated n pairs (filled.size ∙ blank_size)
            (λ i l. filled.inside i (omega arith) (omega arith)))
      where
        blank_size : length (replicate {A = List ℕ × List ℕ} n ([], [])) ≡ n
        blank_size = length-replicate n ([], [])

    encapsulated :
        (m : ℕ) (rows ct : List ℕ)
        → length rows ≡ m * kem_key_block_size
        → encap_ml_kem g hash_byte info kem random deterministic seed hw rows kem_key_block_size
            multi_thread worker_threads
          ≡ ok ct
        → (length ct ≡ m * kem_key_block_size)
          × ((j : ℕ)
              → j < m
              → encap_row g hash_byte info kem random deterministic seed kem_key_block_size j
                  (slice kem_key_block_size rows (j * kem_key_block_size))
                ≡ ok (slice kem_key_block_size ct (j * kem_key_block_size)))
    unfolding encap_ml_kem
    encapsulated m rows ct size h =
        let (whole, rest) =
          throw_if-eq-ok
            (not (kem_key_block_size == kem_key_block_size)
              || not (length rows % kem_key_block_size == 0))
            _ _ h in
        let count : length rows / kem_key_block_size ≡ m = omega (arith, size) in
        let blank : List ℕ = replicate (length rows) 0 in
        let body : ℕ → List ℕ → Result (List ℕ) = λ i row.
          encap_row g hash_byte info kem random deterministic seed kem_key_block_size i
            (slice kem_key_block_size rows (i * kem_key_block_size)) in
        let blank_size : length blank ≡ m * kem_key_block_size =
          length-replicate (length rows) 0 ∙ size in
        let updated =
          run_rows_caught-IsUpdated kem_key_block_size body hw m 8 multi_thread worker_threads blank
            ct blank_size
            (λ i x y p q l e.
              (encap_row-IsRow g hash_byte info kem random deterministic is_kem kem_key_block_size i
                seed _ y e).0)
            (rw count at rest) in
        (updated.size ∙ blank_size, λ j l. updated.inside j (omega arith) (omega arith))

    pub ml_kem_rows-IsKem :
        ((i j t : ℕ) → Agrees kem (fill_ml_kem_key_seed random i t deterministic) (seed j))
        → IsKem ml_kem_rows kem_key_block_size
    unfolding count_decap_hits
    ml_kem_rows-IsKem agrees = record {
      hit = λ secret row. decap_bytes kem secret row kem_key_block_size;
      no_secret = [];
      generated = λ n secrets pk h.
          let made = gen_ml_kem_keys-IsGenerated n secrets pk h in
          (made.count, made.rows_size, λ i l. (gen_row-IsRow i _ _ (made.each i l)).1);
      sealed = λ m rows ct size h.
          let (width, each) = encapsulated m rows ct size h in
          (
            width,
            λ j l.
                (encap_row-IsRow g hash_byte info kem random deterministic is_kem kem_key_block_size
                  j seed _ _ (each j l)).1,
          );
      opened = λ n m secrets pk rows ct i j gen size h hi hj same.
          let made = gen_ml_kem_keys-IsGenerated n secrets pk gen in
          let (width, each) = encapsulated m rows ct size h in
          gen_row-decap_bytes g hash_byte info kem random deterministic is_gmp is_info is_kem i j
            seed (get_or secrets i []) (slice kem_key_block_size pk (i * kem_key_block_size))
            (slice kem_key_block_size ct (j * kem_key_block_size)) (λ t tried. agrees i j t)
            (made.each i hi) (rw same at (each j hj));
      counted = λ multi_thread worker_threads secrets rows size.
          let whole : (not (kem_key_block_size == kem_key_block_size)
                || not (length rows == length secrets * kem_key_block_size))
              ≡ false =
            ground (arith, size) in
          rw whole (
            count_tests-count_loop
              (λ i.
                decap_bytes kem (get_or secrets i [])
                  (slice kem_key_block_size rows (i * kem_key_block_size)) kem_key_block_size)
              hw (length secrets) multi_thread worker_threads);
    }
