-- ===== src/Header/RoundTrip.antt =====
-- The three headers, written out as the format lays them out and read back.
use evtx.Prelude.{
  length, All, text_eq_iff, ℕ, ◌-◌, ◌<◌, String, ◌≡◌, refl, subst, List, [], ◌∷◌, ◌++◌,
}
use evtx.Header.{
  header_flags, chunk_flags, EvtxFileHeader, EvtxChunkHeader, EvtxRecordHeader, file_magic,
  chunk_magic, record_magic, skip, read_u32_into, expect_magic, from_stream, chunk_header,
  record_header,
}
use evtx.Cursor.Reads.{
  Reads, to_le, span, Reads-pure, Reads-bind, Reads-read_exact, Reads-read_uint, Reads-map,
}
use evtx.Err.{
  DeserializationError, invalid_evtx_record_header_magic, invalid_evtx_chunk_magic,
  invalid_evtx_file_header_magic,
}
use evtx.Foreign.{Foreign}
use evtx.Macros.{try_read_u16, try_read_u32, try_read_u64, try_read_filetime}
use evtx.Cursor.{◌>>=◌, position, seek}

abbrev pub numbers : List ℕ → List ℕ
numbers [] = []
numbers (n ∷ ns) = to_le 4 n ++ numbers ns

-- The field of 64 bytes that the reader passes over is `unused`.
abbrev pub chunk_header_bytes : EvtxChunkHeader → List ℕ → List ℕ
chunk_header_bytes h unused =
    chunk_magic
    ++ (to_le 8 h.first_event_record_number
        ++ (to_le 8 h.last_event_record_number
            ++ (to_le 8 h.first_event_record_id
                ++ (to_le 8 h.last_event_record_id
                    ++ (to_le 4 h.header_size
                        ++ (to_le 4 h.last_event_record_data_offset
                            ++ (to_le 4 h.free_space_offset
                                ++ (to_le 4 h.events_checksum
                                    ++ (unused
                                        ++ (to_le 4 h.flags
                                            ++ (to_le 4 h.header_chunk_checksum
                                                ++ (numbers h.strings_offsets
                                                    ++ numbers h.template_offsets))))))))))))

-- The numbers fit in their fields, and the tables are full.
abbrev pub ChunkFits : EvtxChunkHeader → Type 0
ChunkFits h =
    (h.first_event_record_number < span 8)
    × (h.last_event_record_number < span 8)
    × (h.first_event_record_id < span 8)
    × (h.last_event_record_id < span 8)
    × (h.header_size < span 4)
    × (h.last_event_record_data_offset < span 4)
    × (h.free_space_offset < span 4)
    × (h.events_checksum < span 4)
    × (h.flags < span 4)
    × (h.header_chunk_checksum < span 4)
    × (length h.strings_offsets ≡ 64)
    × All (λ n. n < span 4) h.strings_offsets
    × (length h.template_offsets ≡ 32)
    × All (λ n. n < span 4) h.template_offsets

-- The fields of 76 bytes and of the rest of the block that the reader passes over.
abbrev pub file_header_bytes : EvtxFileHeader → List ℕ → List ℕ → List ℕ
file_header_bytes h unused padding =
    file_magic
    ++ (to_le 8 h.first_chunk_number
        ++ (to_le 8 h.last_chunk_number
            ++ (to_le 8 h.next_record_id
                ++ (to_le 4 h.header_size
                    ++ (to_le 2 h.minor_version
                        ++ (to_le 2 h.major_version
                            ++ (to_le 2 h.header_block_size
                                ++ (to_le 2 h.chunk_count
                                    ++ (unused
                                        ++ (to_le 4 h.flags
                                            ++ (to_le 4 h.checksum ++ padding)))))))))))

abbrev pub FileFits : EvtxFileHeader → Type 0
FileFits h =
    (h.first_chunk_number < span 8)
    × (h.last_chunk_number < span 8)
    × (h.next_record_id < span 8)
    × (h.header_size < span 4)
    × (h.minor_version < span 2)
    × (h.major_version < span 2)
    × (h.header_block_size < span 2)
    × (h.chunk_count < span 2)
    × (h.flags < span 4)
    × (h.checksum < span 4)

module _ {X : Foreign} where
  -- The bytes that a jump passes over.
  Reads-skip : (bytes : List ℕ) → Reads (skip {X = X} (length bytes)) bytes tt
  unfolding skip position seek ◌>>=◌
  Reads-skip bytes = record { run = λ before behind. refl }

  Reads-gap : (n : ℕ) (bytes : List ℕ) → length bytes ≡ n → Reads (skip {X = X} n) bytes tt
  Reads-gap n bytes h = subst (λ k. Reads (skip {X = X} k) bytes tt) h (Reads-skip bytes)

  Reads-magic :
      (invalid : List ℕ → DeserializationError X) (expected : List ℕ)
      → Reads (expect_magic invalid expected expected) [] tt
  unfolding expect_magic
  Reads-magic invalid expected = rw ((text_eq_iff expected expected).1 refl) (Reads-pure tt)

  Reads-u16 : (name : String) (n : ℕ) → n < span 2 → Reads (try_read_u16 {X = X} name) (to_le 2 n) n
  unfolding try_read_u16
  Reads-u16 name n h = Reads-read_uint _ 2 n h

  Reads-u32 : (name : String) (n : ℕ) → n < span 4 → Reads (try_read_u32 {X = X} name) (to_le 4 n) n
  unfolding try_read_u32
  Reads-u32 name n h = Reads-read_uint _ 4 n h

  Reads-u64 : (name : String) (n : ℕ) → n < span 8 → Reads (try_read_u64 {X = X} name) (to_le 8 n) n
  unfolding try_read_u64
  Reads-u64 name n h = Reads-read_uint _ 8 n h

  Reads-u32s :
      (ns : List ℕ)
      → All (λ n. n < span 4) ns
      → Reads (read_u32_into {X = X} (length ns)) (numbers ns) ns
  unfolding read_u32_into
  Reads-u32s [] h = Reads-pure []
  Reads-u32s (n ∷ ns) (hn, h) =
      Reads-bind _ _ (Reads-read_uint _ 4 n hn) (Reads-map _ (λ vs. n ∷ vs) (Reads-u32s ns h))

  Reads-table :
      (k : ℕ) (ns : List ℕ)
      → length ns ≡ k
      → All (λ n. n < span 4) ns
      → Reads (read_u32_into {X = X} k) (numbers ns) ns
  Reads-table k ns h small =
      subst (λ j. Reads (read_u32_into {X = X} j) (numbers ns) ns) h (Reads-u32s ns small)

  abbrev pub record_header_bytes : EvtxRecordHeader X → List ℕ → List ℕ
  record_header_bytes h timestamp_bytes =
      record_magic ++ (to_le 4 h.data_size ++ (to_le 8 h.event_record_id ++ timestamp_bytes))

  -- A record header is read back from its bytes, wherever they stand: the magic, the size and the
  -- number of the record, which fit in 32 and 64 bits, and bytes from which the timestamp is
  -- read.
  pub record_header-bytes :
      (h : EvtxRecordHeader X) (timestamp_bytes : List ℕ)
      → h.data_size < span 4
      → h.event_record_id < span 8
      → Reads (try_read_filetime {X = X}) timestamp_bytes h.timestamp
      → Reads (record_header {X = X}) (record_header_bytes h timestamp_bytes) h
  unfolding record_header
  record_header-bytes h timestamp_bytes size id timestamp =
      Reads-bind _ _ (Reads-read_exact _ record_magic) (
        Reads-bind _ _ (Reads-magic invalid_evtx_record_header_magic record_magic) (
          Reads-bind _ _ (Reads-u32 _ _ size) (
            Reads-bind _ _ (Reads-u64 _ _ id) (
              Reads-map _
                (λ t. record {
                  data_size = h.data_size;
                  event_record_id = h.event_record_id;
                  timestamp = t;
                })
                timestamp))))

  -- A chunk header whose numbers fit in their fields and whose tables have 64 and 32 offsets is
  -- read back from its bytes, wherever they stand and whatever the 64 bytes that are passed over
  -- hold, but for the bits of the flags that no flag stands for.
  pub chunk_header-bytes :
      (h : EvtxChunkHeader) (unused : List ℕ)
      → ChunkFits h
      → length unused ≡ 64
      → Reads
          (chunk_header {X = X})
          (chunk_header_bytes h unused)
          (record h { flags = X.from_bits_truncate chunk_flags h.flags })
  unfolding chunk_header
  chunk_header-bytes h unused (a, b, c, d, e, f, g, i, j, k, len, l, len', m) gap =
      Reads-bind _ _ (Reads-read_exact _ chunk_magic) (
        Reads-bind _ _ (Reads-magic invalid_evtx_chunk_magic chunk_magic) (
          Reads-bind _ _ (Reads-u64 _ _ a) (
            Reads-bind _ _ (Reads-u64 _ _ b) (
              Reads-bind _ _ (Reads-u64 _ _ c) (
                Reads-bind _ _ (Reads-u64 _ _ d) (
                  Reads-bind _ _ (Reads-u32 _ _ e) (
                    Reads-bind _ _ (Reads-u32 _ _ f) (
                      Reads-bind _ _ (Reads-u32 _ _ g) (
                        Reads-bind _ _ (Reads-u32 _ _ i) (
                          Reads-bind _ _ (Reads-gap 64 unused gap) (
                            Reads-bind _ _ (Reads-u32 _ _ j) (
                              Reads-bind _ _ (Reads-u32 _ _ k) (
                                Reads-bind _ _ (Reads-table 64 _ len l) (
                                  Reads-map _
                                    (λ ts. record h {
                                      flags = X.from_bits_truncate chunk_flags h.flags;
                                      template_offsets = ts;
                                    })
                                    (Reads-table 32 _ len' m)))))))))))))))

  -- A file header whose numbers fit in their fields is read back from its bytes, wherever they
  -- stand and whatever the 76 and 3968 bytes that are passed over hold, but for the bits of the
  -- flags that no flag stands for.
  pub from_stream-bytes :
      (h : EvtxFileHeader) (unused padding : List ℕ)
      → FileFits h
      → length unused ≡ 76
      → length padding ≡ 4096 - 128
      → Reads
          (from_stream {X = X})
          (file_header_bytes h unused padding)
          (record h { flags = X.from_bits_truncate header_flags h.flags })
  unfolding from_stream
  from_stream-bytes h unused padding (a, b, c, d, e, f, g, i, j, k) gap rest =
      Reads-bind _ _ (Reads-read_exact _ file_magic) (
        Reads-bind _ _ (Reads-magic invalid_evtx_file_header_magic file_magic) (
          Reads-bind _ _ (Reads-u64 _ _ a) (
            Reads-bind _ _ (Reads-u64 _ _ b) (
              Reads-bind _ _ (Reads-u64 _ _ c) (
                Reads-bind _ _ (Reads-u32 _ _ d) (
                  Reads-bind _ _ (Reads-u16 _ _ e) (
                    Reads-bind _ _ (Reads-u16 _ _ f) (
                      Reads-bind _ _ (Reads-u16 _ _ g) (
                        Reads-bind _ _ (Reads-u16 _ _ i) (
                          Reads-bind _ _ (Reads-gap 76 unused gap) (
                            Reads-bind _ _ (Reads-u32 _ _ j) (
                              Reads-bind _ _ (Reads-u32 _ _ k) (
                                Reads-map _
                                  (λ u. record h {
                                    flags = X.from_bits_truncate header_flags h.flags;
                                  })
                                  (Reads-gap (4096 - 128) padding rest))))))))))))))
