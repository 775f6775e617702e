-- ===== src/Chunk.antt =====
-- `EvtxChunkData` of src/evtx_chunk.rs: a chunk's header, its bytes and its two checksums.
pub mod Checksum
use evtx.Prelude.{
  leb, ◌==◌, if◌then◌else◌, length, slice, ℕ, Bool, true, false, not, ◌&&◌, List, ◌++◌,
}
use evtx.Foreign.{Foreign}
use evtx.Err.{
  Outcome, ok, err, panic, ChunkError, failed_to_parse_chunk_header, invalid_chunk_checksum, bind,
  map_err,
}
use evtx.Header.{no_crc32, EvtxChunkHeader, chunk_header}

abbrev pub chunk_header_size : ℕ
chunk_header_size = 512

pub record EvtxChunkData : Type 0 where
  pub header : EvtxChunkHeader
  pub bytes : List ℕ

-- `&data[from..to]`, which panics where the bounds are out of order or out of range.
unfoldable pub checked_slice : {E : Type 0} → List ℕ → ℕ → ℕ → Outcome E (List ℕ)
checked_slice xs from to =
    if leb from to && leb to (length xs) then ok (slice xs from to) else panic

module _ (X : Foreign) where
  unfoldable pub validate_data_checksum : {E : Type 0} → EvtxChunkData → Outcome E Bool
  unfolding checked_slice
  validate_data_checksum c =
      let checksum_disabled = X.contains c.header.flags no_crc32 in
      let expected_checksum = if not checksum_disabled then c.header.events_checksum else 0 in
      let computed_checksum =
        bind (checked_slice c.bytes chunk_header_size c.header.free_space_offset)
          λ events. ok (X.crc32 events) in
      bind (if not checksum_disabled then computed_checksum else ok 0)
        λ computed. ok (computed == expected_checksum)

  unfoldable pub validate_header_checksum : {E : Type 0} → EvtxChunkData → Outcome E Bool
  unfolding checked_slice
  validate_header_checksum c =
      let checksum_disabled = X.contains c.header.flags no_crc32 in
      let expected_checksum = if not checksum_disabled then c.header.header_chunk_checksum else 0 in
      bind (checked_slice c.bytes 0 120) λ header_bytes_1.
        bind (checked_slice c.bytes 128 512) λ header_bytes_2.
          let computed_checksum =
            if not checksum_disabled then X.crc32 (header_bytes_1 ++ header_bytes_2) else 0 in
          ok (computed_checksum == expected_checksum)

  unfoldable pub validate_checksum : {E : Type 0} → EvtxChunkData → Outcome E Bool
  unfolding validate_data_checksum validate_header_checksum
  validate_checksum c =
      bind (validate_header_checksum c)
        λ header_ok. if header_ok then validate_data_checksum c else ok false

  -- The end of `EvtxChunkData::new`; the mismatch is reported with two zeros.
  unfoldable pub checked_chunk : Bool → EvtxChunkData → Outcome (ChunkError X) EvtxChunkData
  unfolding validate_checksum
  checked_chunk false chunk = ok chunk
  checked_chunk true chunk =
      bind (validate_checksum chunk)
        λ valid. if not valid then err (invalid_chunk_checksum 0 0) else ok chunk

  -- `EvtxChunkData::new`
  unfoldable pub new_chunk_data : List ℕ → Bool → Outcome (ChunkError X) EvtxChunkData
  unfolding chunk_header checked_chunk
  new_chunk_data bytes validate =
      bind (map_err failed_to_parse_chunk_header (chunk_header {X = X} bytes 0))
        λ (header, at). checked_chunk validate (record { header = header; bytes = bytes })
