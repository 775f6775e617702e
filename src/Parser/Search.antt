-- ===== src/Parser/Search.antt =====
-- `find_next_chunk` ends, and skips nothing but chunks of zeros.
use evtx.Prelude.{
  leb, ◌==◌, if◌then◌else◌, leb→le, leb→lt, ==_iff, Bool-cases, length, length-take, length-drop, ℕ,
  zero, suc, ◌+◌, ◌-◌, ◌*◌, ◌^◌, ◌≤◌, ◌<◌, min, ◌≡◌, refl, sym, ◌∙◌, subst, ◌≢◌, ◌⊎◌, inl, inr,
  Bool, true, false, not, Option, none, some, arith,
}
use evtx.Foreign.{Foreign}
use evtx.Err.{Outcome, ok, err, panic, out_of_fuel, EvtxError}
use evtx.Chunk.{EvtxChunkData}
use evtx.Parser.{
  evtx_chunk_size, evtx_file_header_size, EvtxParser, all_zero, chunk_bytes, map_some, Found,
  allocate_chunk, settle, find_loop, find_next_chunk,
}
use evtx.Err.Returns.{Returns, returned, failed, Returns-ne, Returns-bind, Returns-map_err}
use evtx.Chunk.Checksum.{new_chunk_data-Returns}

module _ {X : Foreign} (p : EvtxParser X) where
  abbrev pub allocated : ℕ → Outcome (EvtxError X) (Option EvtxChunkData)
  allocated n = allocate_chunk p.file n p.config.validate_checksums

  -- What the search from a chunk number has to find.
  pub data FirstChunk : ℕ → Found X → Type 0 where
    at_end :
        (n : ℕ) {e : EvtxError X}
        → allocated n ≡ err e
        → p.calculated_chunk_count ≤ n
        → FirstChunk n none
    bad_chunk :
        (n : ℕ) {e : EvtxError X}
        → allocated n ≡ err e
        → n < p.calculated_chunk_count
        → FirstChunk n (some (err e, n))
    good_chunk :
        (n : ℕ) {c : EvtxChunkData} → allocated n ≡ ok (some c) → FirstChunk n (some (ok c, n))
    crash : (n : ℕ) → allocated n ≡ panic → FirstChunk n (some (panic, n))
    empty_chunk :
        (n : ℕ) {found : Found X}
        → allocated n ≡ ok none
        → FirstChunk (n + 1) found
        → FirstChunk n found

  -- The chunk's place is computed on 64 bits.
  abbrev pub Fits : ℕ → Type 0
  Fits n = evtx_file_header_size + n * evtx_chunk_size < 2 ^ 64

  length-chunk_bytes :
      (n : ℕ)
      → Fits n
      → length (chunk_bytes p.file n)
        ≡ min evtx_chunk_size (length p.file - (evtx_file_header_size + n * evtx_chunk_size))
  unfolding chunk_bytes
  length-chunk_bytes n h = omega (arith, length-take {0}, length-drop {0})

  -- The tests of `allocate_chunk` before a chunk is parsed.
  empty_tests :
      {A : Type 0} (whole zeros : Bool) (e : EvtxError X) (r : Outcome (EvtxError X) A)
      → (if not whole then err e else if zeros then ok none else map_some r) ≡ ok none
      → (whole ≡ true) × (zeros ≡ true)
  empty_tests true true e r h = (refl, refl)
  empty_tests true false e (ok a) h = cc
  empty_tests true false e (err x) h = cc
  empty_tests true false e panic h = cc
  empty_tests true false e out_of_fuel h = cc
  empty_tests false zeros e r h = cc

  -- An empty chunk is a whole chunk of zeros.
  pub allocated-empty :
      (n : ℕ)
      → allocated n ≡ ok none
      → (length (chunk_bytes p.file n) ≡ evtx_chunk_size) × (all_zero (chunk_bytes p.file n) ≡ true)
  unfolding allocate_chunk
  allocated-empty n h =
      let (whole, zeros) = empty_tests (length (chunk_bytes p.file n) == evtx_chunk_size) _ _ _ h in
      ((==_iff _ _).0 whole, zeros)

  -- The place behind an empty chunk lies in the file.
  empty-Fits :
      (n : ℕ)
      → Fits n
      → allocated n ≡ ok none
      → (n + 2) * evtx_chunk_size ≤ length p.file + evtx_chunk_size
  empty-Fits n fits h = omega (arith, (allocated-empty n h).0, length-chunk_bytes n fits)

  settle_lem :
      (n : ℕ) (r : Outcome (EvtxError X) (Option EvtxChunkData))
      → allocated n ≡ r
      → r ≢ out_of_fuel
      → (r ≡ ok none)
        ⊎ ((found : Found X) × (settle p.calculated_chunk_count n r ≡ some found)
            × FirstChunk n found)
  unfolding settle
  settle_lem n (ok none) e h = inl refl
  settle_lem n (ok (some c)) e h = inr (some (ok c, n), refl, good_chunk n e)
  settle_lem n (err x) e h = elim (Bool-cases (leb p.calculated_chunk_count n)) [
    | inl c ↦ inr (none, rw c, at_end n e (leb→le _ _ c))
    | inr c ↦ inr (some (err x, n), rw c, bad_chunk n e (leb→lt _ _ c))
  ]
  settle_lem n panic e h = inr (some (panic, n), refl, crash n e)
  settle_lem n out_of_fuel e h = absurd (h refl)

  gate-Returns :
      {A : Type 0} (whole zeros : Bool) (e : EvtxError X) {r : Outcome (EvtxError X) A}
      → Returns r
      → Returns (if not whole then err e else if zeros then ok none else map_some r)
  gate-Returns true true e h = returned
  gate-Returns true false e h = Returns-bind _ _ h λ a. returned
  gate-Returns false zeros e h = failed

  pub allocated-Returns : (n : ℕ) → Returns (allocated n)
  unfolding allocate_chunk
  allocated-Returns n =
      gate-Returns (length (chunk_bytes p.file n) == evtx_chunk_size)
        (all_zero (chunk_bytes p.file n)) _ (Returns-map_err _ (new_chunk_data-Returns X _ _))

  not_last : (n : ℕ) → Fits n → (n == 2 ^ 64 - 1) ≡ false
  not_last n fits = ground arith

  settle-empty : (n : ℕ) → settle {X = X} p.calculated_chunk_count n (ok none) ≡ none
  unfolding settle
  settle-empty n = refl

  loop-empty :
      (f n : ℕ) → Fits n → allocated n ≡ ok none → find_loop (suc f) p n ≡ find_loop f p (n + 1)
  unfolding find_loop
  loop-empty f n fits h = rw (h, settle-empty n, not_last n fits, find_loop) refl

  loop-found :
      (f n : ℕ) {found : Found X}
      → settle p.calculated_chunk_count n (allocated n) ≡ some found
      → find_loop (suc f) p n ≡ some found
  unfolding find_loop
  loop-found f n h = rw (h, find_loop) refl

  loop_returns :
      (f n : ℕ)
      → length p.file < 2 ^ 63
      → Fits n
      → length p.file - n < f
      → (found : Found X) × (find_loop f p n ≡ some found) × FirstChunk n found
  loop_returns zero n small fits fuel = absurd (omega arith)
  loop_returns (suc f) n small fits fuel =
      elim (settle_lem n (allocated n) refl (Returns-ne (allocated-Returns n))) [
        | inl empty ↦
            let room = empty-Fits n fits empty in
            let (found, more, first) = loop_returns f (n + 1) small (omega arith) (omega arith) in
            (found, loop-empty f n fits empty ∙ more, empty_chunk n empty first)
        | inr (found, e, first) ↦ (found, loop-found f n e, first)
      ]

  -- From a chunk number whose place is within 64 bits, on a file of less than 2^63 bytes, the
  -- search ends. It finds the first chunk at that number or behind it that is not a whole chunk of
  -- zeros: the chunk if it can be parsed, its error or panic if it cannot, and nothing where that
  -- is an error at or beyond the number of chunks that was calculated when the file was opened.
  pub find_next_chunk_lem :
      (n : ℕ)
      → length p.file < 2 ^ 63
      → Fits n
      → (found : Found X) × (find_next_chunk p n ≡ some found) × FirstChunk n found
  unfolding find_next_chunk
  find_next_chunk_lem n small fits = loop_returns (suc (length p.file)) n small fits (omega arith)

  -- Between two numbers lie whole chunks of zeros.
  abbrev pub Zeros : ℕ → ℕ → Type 0
  Zeros n m =
      (n ≤ m)
      × ((k : ℕ)
          → n ≤ k
          → k < m
          → (length (chunk_bytes p.file k) ≡ evtx_chunk_size)
            × (all_zero (chunk_bytes p.file k) ≡ true))

  -- What lies between the number that the search began at and the one where it ended: the one it
  -- found, or one that has no chunk and is not below the number of chunks that was calculated.
  abbrev pub Skipped : ℕ → Found X → Type 0
  Skipped n none =
      (m : ℕ) × Zeros n m
      × (p.calculated_chunk_count ≤ m)
      × ((e : EvtxError X) × (allocated m ≡ err e))
  Skipped n (some (r, m)) = Zeros n m

  some-injective : {a b : Found X} → some a ≡ some b → a ≡ b
  some-injective h = cc

  Zeros-here : (n : ℕ) → Zeros n n
  Zeros-here n = (omega arith, λ k a b. absurd (omega arith))

  Zeros-back : (n m : ℕ) → allocated n ≡ ok none → Zeros (n + 1) m → Zeros n m
  Zeros-back n m e (le, zeros) = (
    omega arith,
    λ k a b. elim (Bool-cases (k == n)) [
      | inl c ↦ rw ((==_iff _ _).0 c) (allocated-empty n e)
      | inr c ↦ zeros k (ground arith) b
    ],
  )

  first-Skipped : (n : ℕ) (found : Found X) → FirstChunk n found → Skipped n found
  first-Skipped n none (at_end _ {e = e} refused enough) = (n, Zeros-here n, enough, (e, refused))
  first-Skipped n none (empty_chunk _ e first) =
      let (m, zeros, enough, refused) = first-Skipped (n + 1) none first in
      (m, Zeros-back n m e zeros, enough, refused)
  first-Skipped n (some (r, m)) (bad_chunk _ e h) = Zeros-here n
  first-Skipped n (some (r, m)) (good_chunk _ e) = Zeros-here n
  first-Skipped n (some (r, m)) (crash _ e) = Zeros-here n
  first-Skipped n (some (r, m)) (empty_chunk _ e first) =
      Zeros-back n m e (first-Skipped (n + 1) (some (r, m)) first)

  -- The search goes forward only, and between the number that it began at and the one that it
  -- answers with lie only whole chunks of zeros. Where it finds nothing, it has come over such
  -- chunks to a number at which the allocation is an error and which is not below the number of
  -- chunks that was calculated. The conditions are those under which the search ends.
  pub find_next_chunk-Skipped :
      (n : ℕ) {found : Found X}
      → length p.file < 2 ^ 63
      → Fits n
      → find_next_chunk p n ≡ some found
      → Skipped n found
  find_next_chunk-Skipped n {found = found} small fits h =
      let (found', e, first) = find_next_chunk_lem n small fits in
      subst (Skipped n) (some-injective (sym e ∙ h)) (first-Skipped n found' first)
