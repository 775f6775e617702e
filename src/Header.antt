-- ===== src/Header.antt =====
-- The three fixed layouts: src/evtx_file_header.rs, the chunk header of src/evtx_chunk.rs and the
-- record header of src/evtx_record.rs.
pub mod Progress
pub mod RoundTrip
use evtx.Prelude.{
  if◌then◌else◌, codes, text_eq, ℕ, zero, suc, ◌+◌, ◌-◌, ◌%◌, ◌^◌, List, [], ◌∷◌, ◌++◌,
}
use evtx.Foreign.{Foreign}
use evtx.Err.{
  DeserializationError, unexpected_io_error, remove_me, invalid_evtx_record_header_magic,
  invalid_evtx_chunk_magic, invalid_evtx_file_header_magic,
}
use evtx.Cursor.{Read, pure, raise, ◌>>=◌, ◌>>◌, position, seek, read_exact, read_uint}
use evtx.Macros.{unknown, try_read_u16, try_read_u32, try_read_u64, try_read_filetime}

abbrev pub no_crc32 : ℕ
no_crc32 = 0x4

-- DIRTY, FULL and NO_CRC32 of `HeaderFlags`
abbrev pub header_flags : ℕ
header_flags = 0x7

-- DIRTY and NO_CRC32 of `ChunkFlags`
abbrev pub chunk_flags : ℕ
chunk_flags = 0x5

pub record EvtxFileHeader : Type 0 where
  pub first_chunk_number : ℕ
  pub last_chunk_number : ℕ
  pub next_record_id : ℕ
  pub header_size : ℕ
  pub minor_version : ℕ
  pub major_version : ℕ
  pub header_block_size : ℕ
  pub chunk_count : ℕ
  pub flags : ℕ
  pub checksum : ℕ

pub record EvtxChunkHeader : Type 0 where
  pub first_event_record_number : ℕ
  pub last_event_record_number : ℕ
  pub first_event_record_id : ℕ
  pub last_event_record_id : ℕ
  pub header_size : ℕ
  pub last_event_record_data_offset : ℕ
  pub free_space_offset : ℕ
  pub events_checksum : ℕ
  pub header_chunk_checksum : ℕ
  pub flags : ℕ
  pub strings_offsets : List ℕ
  pub template_offsets : List ℕ

pub record EvtxRecordHeader (X : Foreign) : Type 0 where
  pub data_size : ℕ
  pub event_record_id : ℕ
  pub timestamp : X.DateTime

abbrev pub file_magic : List ℕ
file_magic = codes "ElfFile" ++ (0 ∷ [])

abbrev pub chunk_magic : List ℕ
chunk_magic = codes "ElfChnk" ++ (0 ∷ [])

abbrev pub record_magic : List ℕ
record_magic = 0x2a ∷ 0x2a ∷ 0 ∷ 0 ∷ []

module _ {X : Foreign} where
  -- `seek(SeekFrom::Current(n))` with a positive `n`.
  unfoldable pub skip : ℕ → Read X Unit
  skip n = do at ← position; seek (at + n)

  -- `read_u32_into` for `n` numbers.
  unfoldable pub read_u32_into : ℕ → Read X (List ℕ)
  read_u32_into zero = pure []
  read_u32_into (suc n) = do v ← read_uint remove_me 4; vs ← read_u32_into n; pure (v ∷ vs)

  -- The magic test: its error has the bytes found.
  unfoldable pub expect_magic : (List ℕ → DeserializationError X) → List ℕ → List ℕ → Read X Unit
  expect_magic invalid expected magic =
      if text_eq magic expected then pure tt else raise (invalid magic)

  unfoldable pub from_stream : Read X EvtxFileHeader
  unfolding skip expect_magic try_read_u16 try_read_u32 try_read_u64
  from_stream = do
    magic ← read_exact (unexpected_io_error "failed to read file_header magic") 8
    expect_magic invalid_evtx_file_header_magic file_magic magic
    oldest_chunk ← try_read_u64 "file_header_oldest_chunk"
    current_chunk_num ← try_read_u64 "file_header_current_chunk_num"
    next_record_num ← try_read_u64 "file_header_next_record_num"
    header_size ← try_read_u32 "file_header_header_size"
    minor_version ← try_read_u16 "file_header_minor_version"
    major_version ← try_read_u16 "file_header_major_version"
    header_block_size ← try_read_u16 "file_header_header_block_size"
    chunk_count ← try_read_u16 "file_header_chunk_count"
    skip 76
    raw_flags ← try_read_u32 "file_header_flags"
    checksum ← try_read_u32 "file_header_checksum"
    skip (4096 - 128)
    pure record {
      first_chunk_number = oldest_chunk;
      last_chunk_number = current_chunk_num;
      next_record_id = next_record_num;
      header_size = header_size;
      minor_version = minor_version;
      major_version = major_version;
      header_block_size = header_block_size;
      chunk_count = chunk_count;
      flags = X.from_bits_truncate header_flags raw_flags;
      checksum = checksum;
    }

  unfoldable pub chunk_header : Read X EvtxChunkHeader
  unfolding skip read_u32_into expect_magic try_read_u32 try_read_u64
  chunk_header = do
    magic ← read_exact remove_me 8
    expect_magic invalid_evtx_chunk_magic chunk_magic magic
    first_event_record_number ← try_read_u64 unknown
    last_event_record_number ← try_read_u64 unknown
    first_event_record_id ← try_read_u64 unknown
    last_event_record_id ← try_read_u64 unknown
    header_size ← try_read_u32 unknown
    last_event_record_data_offset ← try_read_u32 unknown
    free_space_offset ← try_read_u32 unknown
    events_checksum ← try_read_u32 unknown
    skip 64
    raw_flags ← try_read_u32 unknown
    header_chunk_checksum ← try_read_u32 unknown
    strings_offsets ← read_u32_into 64
    template_offsets ← read_u32_into 32
    pure record {
      first_event_record_number = first_event_record_number;
      last_event_record_number = last_event_record_number;
      first_event_record_id = first_event_record_id;
      last_event_record_id = last_event_record_id;
      header_size = header_size;
      last_event_record_data_offset = last_event_record_data_offset;
      free_space_offset = free_space_offset;
      events_checksum = events_checksum;
      header_chunk_checksum = header_chunk_checksum;
      flags = X.from_bits_truncate chunk_flags raw_flags;
      strings_offsets = strings_offsets;
      template_offsets = template_offsets;
    }

  unfoldable pub record_header : Read X (EvtxRecordHeader X)
  unfolding expect_magic try_read_u32 try_read_u64 try_read_filetime
  record_header = do
    magic ← read_exact remove_me 4
    expect_magic invalid_evtx_record_header_magic record_magic magic
    size ← try_read_u32 unknown
    record_id ← try_read_u64 unknown
    timestamp ← try_read_filetime
    pure record { data_size = size; event_record_id = record_id; timestamp = timestamp }

  -- `self.data_size - 24 - 4` on `u32`: below 28 it wraps round (a debug build panics).
  unfoldable pub record_data_size : EvtxRecordHeader X → ℕ
  record_data_size h = (h.data_size + 2 ^ 32 - 28) % 2 ^ 32
