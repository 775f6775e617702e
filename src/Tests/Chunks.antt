-- ===== src/Tests/Chunks.antt =====
-- The theorems on the chunks of a file, their checksums, caches and records at concrete inputs.
use evtx.Prelude.{
  length, replicate, codes, text_eq, ℕ, zero, suc, ◌+◌, ◌-◌, ◌^◌, ◌≤◌, ◌<◌, ◌≡◌, refl, sym, ◌∙◌,
  subst, ◌≢◌, true, none, some, List, [], ◌∷◌, ◌++◌, map, arith,
}
use evtx.Chunk.{EvtxChunkData, validate_checksum, new_chunk_data}
use evtx.Records.{EvtxChunk, new_chunk, read_tokens, next_record}
use evtx.Header.{
  EvtxChunkHeader, EvtxRecordHeader, skip, read_u32_into, expect_magic, chunk_header, record_header,
}
use evtx.Parser.Search.{FirstChunk, find_next_chunk_lem, Skipped, find_next_chunk-Skipped}
use evtx.Name.{read_name_link, read_name}
use evtx.Parser.{
  EvtxParser, chunk_bytes, Found, allocate_chunk, settle, find_loop, find_next_chunk, next_chunk,
}
use evtx.Header.RoundTrip.{chunk_header_bytes}
use evtx.Assemble.{expand_string_ref}
use evtx.Cache.{follow_strings}
use evtx.Parser.Batches.{ChunkResult, batches, Chunks, concat, batches-Chunks}
use evtx.Records.Run.{Item, header_at, run_records, SizesPositive, ReadsEnd, left, run_records_ends}
use evtx.Macros.{try_read_u16, try_read_u32, try_read_u64, try_read_filetime}
use evtx.Assemble.Uncached.{expand_string_ref-uncached}
use evtx.Cursor.{
  pure, ◌>>=◌, position, buffer_len, seek, read_exact, ok_or, read_foreign, from_le, read_uint,
}
use evtx.Tests.World.{
  world, world-ForeignAdvances, settings, file_header, empty_file, summed_chunk, chunk_of,
  record_bytes, at_start, plain_header, stuck_header, length-replicate,
}
use evtx.Err.{ok, err, out_of_fuel, ChunkError, incomplete_chunk, failed_to_parse_chunk}
use evtx.Strings.{read_len_prefixed_utf16_string}
use evtx.Cache.Cycle.{follow_strings-cycle}
use evtx.Chunk.Checksum.{validate_checksum-no_crc32, new_chunk_data-valid}
use evtx.Records.Stuck.{next_record-stuck}
use evtx.Model.{Token, Tokens, nil, cons}
use evtx.Err.Bind.{ok-injective}
use evtx.Raw.{raw_token_from_u8}

small_file : length empty_file.file < 2 ^ 63
small_file = omega (arith, length-replicate (4096 + 65536) 0)

find_next_chunk_lem_example :
    (found : Found world) × (find_next_chunk empty_file 0 ≡ some found)
    × FirstChunk empty_file 0 found
find_next_chunk_lem_example = find_next_chunk_lem empty_file 0 small_file (omega arith)

-- A file with a chunk of zeros, which is said to have two chunks: the second one is cut.
abbrev counted_file : EvtxParser world
counted_file = record empty_file { calculated_chunk_count = 2 }

counted_search :
    (found : Found world) × (find_next_chunk counted_file 0 ≡ some found)
    × FirstChunk counted_file 0 found
counted_search = find_next_chunk_lem counted_file 0 small_file (omega arith)

find_next_chunk-Skipped_example : Skipped counted_file 0 counted_search.0
find_next_chunk-Skipped_example =
    find_next_chunk-Skipped counted_file 0 small_file (omega arith) counted_search.1

-- A record with a fragment header and the end of the stream.
abbrev one_record : EvtxChunk world
one_record = chunk_of (record_bytes 33 ++ (0x0f ∷ 1 ∷ 1 ∷ 0 ∷ 0 ∷ [])) 1

abbrev one_header : EvtxRecordHeader world
one_header = record { data_size = 33; event_record_id = 2; timestamp = 5 }

one_record_header : header_at one_record 0 ≡ ok (one_header, 24)
unfolding record_header expect_magic try_read_u32 try_read_u64 try_read_filetime ◌>>=◌ read_uint
    read_exact read_foreign from_le pure text_eq
one_record_header = refl

abbrev one_record_tokens : Tokens world
one_record_tokens =
    cons (Token.fragment_header (record { major_version = 1; minor_version = 1; flags = 0 }))
      (cons Token.end_of_stream nil)

reads_one_record : read_tokens one_record one_header 24 ≡ ok (one_record_tokens, 29)
unfolding read_tokens ◌>>=◌ read_uint read_exact from_le pure buffer_len position ok_or
    raw_token_from_u8
reads_one_record = refl

only_header :
    {r : EvtxRecordHeader world × ℕ} → header_at one_record 0 ≡ ok r → (one_header, 24) ≡ r
only_header e = ok-injective (sym one_record_header ∙ e)

one_record-sizes : SizesPositive one_record
one_record-sizes zero h at inside e = subst (λ x. 0 < x.0.data_size) (only_header e) (omega arith)
one_record-sizes (suc n) h at inside e = absurd (omega arith)

one_record-ReadsEnd : ReadsEnd one_record
one_record-ReadsEnd zero h at inside e =
    subst (λ x. read_tokens one_record x.0 (0 + x.1) ≢ out_of_fuel) (only_header e)
      (λ k. absurd (cc (reads_one_record, k)))
one_record-ReadsEnd (suc n) h at inside e = absurd (omega arith)

run_records_ends_example :
    (rs : List (Item world)) × (run_records one_record (suc (left one_record at_start)) at_start
      ≡ some rs)
    × (length rs ≤ 1 - 0)
run_records_ends_example =
    run_records_ends one_record at_start world-ForeignAdvances one_record-sizes one_record-ReadsEnd

abbrev stuck_chunk : EvtxChunk world
stuck_chunk = chunk_of (record_bytes 0) 24

reads_stuck : header_at stuck_chunk 0 ≡ ok (stuck_header, 24)
unfolding record_header expect_magic try_read_u32 try_read_u64 try_read_filetime ◌>>=◌ read_uint
    read_exact read_foreign from_le pure text_eq
reads_stuck = refl

next_record-stuck_example :
    (item : Item world) × (next_record stuck_chunk at_start ≡ some (item, at_start))
next_record-stuck_example =
    next_record-stuck stuck_chunk at_start stuck_header 24 refl (omega arith) (omega arith)
      reads_stuck refl (ground arith)

validate_checksum-no_crc32_example :
    validate_checksum world {E = ChunkError world} (summed_chunk 4) ≡ ok true
validate_checksum-no_crc32_example =
    validate_checksum-no_crc32 world (summed_chunk 4) refl (omega arith)

-- A name at offset 0 that links to itself: 256 is a position beyond the cycle.
abbrev cyclic : List ℕ
cyclic = replicate 8 0 ++ (8 ∷ 0 ∷ 0 ∷ 0 ∷ 7 ∷ 7 ∷ 1 ∷ 0 ∷ 97 ∷ 0 ∷ 0 ∷ 0 ∷ [])

cyclic_link :
    read_name_link {X = world} cyclic 8 ≡ ok (record { next_string = some 8; hash = 0x707 }, 14)
unfolding read_name_link try_read_u32 try_read_u16 ◌>>=◌ read_uint read_exact from_le pure
cyclic_link = refl

cyclic_name : read_name {X = world} cyclic 14 ≡ ok (codes "a", 20)
unfolding read_name ◌>>=◌ read_len_prefixed_utf16_string read_uint read_exact from_le pure ok_or
cyclic_name = refl

follow_strings-cycle_example : follow_strings {X = world} 9 [] cyclic 8 ≡ out_of_fuel
follow_strings-cycle_example =
    follow_strings-cycle {X = world} cyclic 8 (record { next_string = some 8; hash = 0x707 })
      (codes "a") cyclic_link cyclic_name refl 9 []

-- A chunk with the name `a` at 8.
abbrev named_data : EvtxChunkData
named_data = record {
  header = record plain_header { strings_offsets = 8 ∷ []; template_offsets = [] };
  bytes = replicate 8 0 ++ (0 ∷ 0 ∷ 0 ∷ 0 ∷ 7 ∷ 7 ∷ 1 ∷ 0 ∷ 97 ∷ 0 ∷ 0 ∷ 0 ∷ []);
}

abbrev named_chunk : EvtxChunk world
named_chunk = record {
  bytes = named_data.bytes;
  header = named_data.header;
  string_cache = (8, codes "a") ∷ [];
  template_table = [];
  settings = settings;
}

named_chunk_new : new_chunk named_data settings ≡ ok named_chunk
unfolding new_chunk ◌>>=◌ pure read_uint read_exact from_le ok_or seek position
    read_len_prefixed_utf16_string
named_chunk_new = refl

expand_string_ref-uncached_example :
    expand_string_ref named_chunk (record { offset = 8 })
    ≡ expand_string_ref (record named_chunk { string_cache = [] }) (record { offset = 8 })
expand_string_ref-uncached_example =
    expand_string_ref-uncached named_data settings 8 (omega arith) named_chunk_new (omega arith)

-- A chunk header whose checksum is right, 803 being the sum of its other bytes.
abbrev summed_header : EvtxChunkHeader
summed_header = record plain_header { events_checksum = 0; header_chunk_checksum = 803 }

abbrev summed_bytes : List ℕ
summed_bytes = chunk_header_bytes summed_header (replicate 64 0)

summed_new :
    new_chunk_data world summed_bytes true
    ≡ ok (record { header = summed_header; bytes = summed_bytes })
unfolding new_chunk_data record_header expect_magic chunk_header try_read_u32 try_read_u64 ◌>>=◌
    read_uint read_exact from_le pure text_eq position seek skip read_u32_into validate_checksum
summed_new = refl

new_chunk_data-valid_example :
    (validate_checksum world {E = ChunkError world}
        (record { header = summed_header; bytes = summed_bytes })
      ≡ ok true)
    × (summed_bytes ≡ summed_bytes)
new_chunk_data-valid_example = new_chunk_data-valid world summed_bytes summed_new

-- A file that ends before its two chunks, read with five threads.
abbrev pub cut_file : EvtxParser world
cut_file = record {
  file = [];
  header = file_header;
  config = record settings { num_threads = 5 };
  calculated_chunk_count = 2;
}

abbrev pub cut_chunk : ℕ → ChunkResult world
cut_chunk n = err (failed_to_parse_chunk n incomplete_chunk)

pub cut_next : next_chunk cut_file 0 ≡ some (some (cut_chunk 0), 1)
unfolding next_chunk find_next_chunk find_loop settle allocate_chunk chunk_bytes
cut_next = refl

pub cut_next_1 : next_chunk cut_file 1 ≡ some (some (cut_chunk 1), 2)
unfolding next_chunk find_next_chunk find_loop settle allocate_chunk chunk_bytes
cut_next_1 = refl

pub cut_end : next_chunk cut_file 2 ≡ some (none, 2)
unfolding next_chunk find_next_chunk find_loop settle allocate_chunk chunk_bytes
cut_end = refl

batches-Chunks_example :
    (bs : List (List (ChunkResult world))) × (batches cut_file 3 0 ≡ some (map ok bs))
    × (concat cut_file bs ≡ cut_chunk 0 ∷ cut_chunk 1 ∷ [])
batches-Chunks_example =
    batches-Chunks cut_file 3 0 (cut_chunk 0 ∷ cut_chunk 1 ∷ [])
      (Chunks.more cut_next tt (Chunks.more cut_next_1 tt (Chunks.no_more cut_end))) (omega arith)
