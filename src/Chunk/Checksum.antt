-- ===== src/Chunk/Checksum.antt =====
-- What `validate_checksum` and `EvtxChunkData::new` decide.
use evtx.Prelude.{
  if◌then◌else◌, le→leb, length, slice, ℕ, suc, ◌≤◌, ◌≡◌, refl, sym, ap, ◌∙◌, subst, Bool, true,
  false, not, List, arith,
}
use evtx.Foreign.{Foreign}
use evtx.Err.{
  Outcome, ok, err, ChunkError, failed_to_parse_chunk_header, invalid_chunk_checksum, map_err,
}
use evtx.Header.{no_crc32, chunk_header}
use evtx.Chunk.{
  chunk_header_size, EvtxChunkData, checked_slice, validate_data_checksum, validate_header_checksum,
  validate_checksum, checked_chunk, new_chunk_data,
}
use evtx.Err.Returns.{
  Returns, returned, failed, crashed, ne-Returns, Returns-if, Returns-bind, Returns-map_err,
}
use evtx.Cursor.Progress.{Safe-ne-out_of_fuel}
use evtx.Header.Progress.{Stays-chunk_header}
use evtx.Err.Bind.{bind-ok}

module _ {E : Type 0} where
  pub checked_slice_lem :
      (xs : List ℕ) (from to : ℕ)
      → from ≤ to
      → to ≤ length xs
      → checked_slice {E = E} xs from to ≡ ok (slice xs from to)
  unfolding checked_slice
  checked_slice_lem xs from to h k = rw (le→leb _ _ h, le→leb _ _ k)

module _ (X : Foreign) {E : Type 0} (c : EvtxChunkData) where
  -- Where the header's flags switch the checksums off and the data are a header long at least,
  -- the chunk is valid whatever its bytes and checksums are.
  pub validate_checksum-no_crc32 :
      X.contains c.header.flags no_crc32 ≡ true
      → chunk_header_size ≤ length c.bytes
      → validate_checksum X {E = E} c ≡ ok true
  unfolding validate_checksum validate_header_checksum validate_data_checksum
  validate_checksum-no_crc32 off h =
      rw
        (
          off,
          checked_slice_lem c.bytes 0 120 (omega arith) (omega arith),
          checked_slice_lem c.bytes 128 512 (omega arith) (omega arith),
        )
        refl

  slice-Returns : (from to : ℕ) → Returns (checked_slice {E = E} c.bytes from to)
  unfolding checked_slice
  slice-Returns from to = Returns-if _ returned crashed

  header-Returns : Returns (validate_header_checksum X {E = E} c)
  unfolding validate_header_checksum
  header-Returns =
      Returns-bind _ _ (slice-Returns 0 120)
        λ a. Returns-bind _ _ (slice-Returns 128 512) λ b. returned

  data-Returns : Returns (validate_data_checksum X {E = E} c)
  unfolding validate_data_checksum
  data-Returns =
      Returns-bind {A = ℕ} _ _
        (Returns-if (not (X.contains c.header.flags no_crc32))
          (Returns-bind _ _ (slice-Returns _ _) λ events. returned) returned)
        λ computed. returned

  pub validate_checksum-Returns : Returns (validate_checksum X {E = E} c)
  unfolding validate_checksum
  validate_checksum-Returns =
      Returns-bind _ _ header-Returns λ header_ok. Returns-if header_ok data-Returns returned

module _ (X : Foreign) where
  checked-Returns :
      (validate : Bool) (chunk : EvtxChunkData) → Returns (checked_chunk X validate chunk)
  unfolding checked_chunk
  checked-Returns false chunk = returned
  checked-Returns true chunk =
      Returns-bind _ _ (validate_checksum-Returns X chunk)
        λ valid. Returns-if (not valid) failed returned

  pub new_chunk_data-Returns :
      (bytes : List ℕ) (validate : Bool) → Returns (new_chunk_data X bytes validate)
  unfolding new_chunk_data
  new_chunk_data-Returns bytes validate =
      Returns-bind _ _
        (Returns-map_err _ (
          ne-Returns _ (
            Safe-ne-out_of_fuel (
              (Stays-chunk_header {X = X} {f = suc (length bytes)} {low = 0}).run bytes 0
                (omega arith) (omega arith)))))
        λ (header, at). checked-Returns validate _

  abbrev accepted : EvtxChunkData → Outcome (ChunkError X) EvtxChunkData
  accepted c = ok c

  reject_lem :
      (valid : Bool) {chunk c : EvtxChunkData}
      → (if not valid then err (invalid_chunk_checksum 0 0) else ok chunk) ≡ accepted c
      → (valid ≡ true) × (c ≡ chunk)
  reject_lem true h = (refl, cc)
  reject_lem false h = cc

  checked_chunk-ok :
      (chunk : EvtxChunkData) {c : EvtxChunkData}
      → checked_chunk X true chunk ≡ ok c
      → (validate_checksum X {E = ChunkError X} chunk ≡ ok true) × (c ≡ chunk)
  unfolding checked_chunk
  checked_chunk-ok chunk h =
      let (valid, e, h') = bind-ok (validate_checksum X {E = ChunkError X} chunk) _ h in
      let (v, same) = reject_lem valid h' in (e ∙ ap (λ b. ok b) v, same)

  -- With validation on, a chunk that `EvtxChunkData::new` gives has valid checksums, and its bytes
  -- are the bytes given.
  pub new_chunk_data-valid :
      (bytes : List ℕ) {c : EvtxChunkData}
      → new_chunk_data X bytes true ≡ ok c
      → (validate_checksum X {E = ChunkError X} c ≡ ok true) × (c.bytes ≡ bytes)
  unfolding new_chunk_data
  new_chunk_data-valid bytes h =
      let (parsed, e, h') =
        bind-ok (map_err (λ x. failed_to_parse_chunk_header x) (chunk_header {X = X} bytes 0))
          (λ parsed. checked_chunk X true (record { header = parsed.0; bytes = bytes })) h in
      let (v, same) = checked_chunk-ok (record { header = parsed.0; bytes = bytes }) h' in
      (
        subst (λ x. validate_checksum X {E = ChunkError X} x ≡ ok true) (sym same) v,
        ap (λ x. x.bytes) same,
      )
