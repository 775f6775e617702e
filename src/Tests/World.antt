-- ===== src/Tests/World.antt =====
-- Concrete packages, files and chunks that the examples run on.
use evtx.Prelude.{
  leb, ◌==◌, if◌then◌else◌, Bool-cases, length, replicate, codes, ℕ, zero, suc, ◌+◌, ◌-◌, ◌<◌,
  bit_and, ◌≡◌, refl, ap, inl, inr, true, false, Option, none, some, List, [], ◌∷◌, ◌++◌, arith,
}
use evtx.Foreign.{Foreign}
use evtx.Parser.{EvtxParser}
use evtx.Macros.Progress.{ForeignAdvances}
use evtx.Records.{EvtxChunk, IterChunkRecords}
use evtx.Header.{EvtxFileHeader, EvtxChunkHeader, EvtxRecordHeader, record_magic}
use evtx.Chunk.{EvtxChunkData}
use evtx.Settings.{ParserSettings}
use evtx.Cursor.Reads.{to_le}

-- The timestamps are numbers of 8 bytes; the other values of foreign types have no bytes that are
-- read. The checksum is the sum of the bytes.
abbrev sum : List ℕ → ℕ
sum [] = 0
sum (n ∷ ns) = n + sum ns

abbrev pub nth : List ℕ → ℕ → ℕ
nth [] i = 0
nth (x ∷ xs) zero = x
nth (x ∷ xs) (suc i) = nth xs i

abbrev read_time : List ℕ → ℕ → Option (ℕ × ℕ)
read_time buf p = if leb 8 (length buf - p) then some (nth buf p, p + 8) else none

abbrev pub world : Foreign
world = record {
  Guid = Unit;
  Sid = Unit;
  DateTime = ℕ;
  NaiveDate = Unit;
  Codec = Unit;
  guid_from_reader = λ buf p. none;
  sid_from_reader = λ buf p. none;
  filetime_from_reader = read_time;
  from_ymd_opt = λ y m d. none;
  and_hms_nano_opt = λ date h m s n. none;
  decode = λ codec bytes. some bytes;
  crc32 = sum;
  from_bits_truncate = λ known bits. bit_and bits known;
  contains = λ bits flag. bit_and bits flag == flag;
}

time_advances : (buf : List ℕ) (p : ℕ) {t p' : ℕ} → read_time buf p ≡ some (t, p') → p < p'
time_advances buf p e = elim (Bool-cases (leb 8 (length buf - p))) [
  | inl c ↦ ground arith
  | inr c ↦ absurd (cc (rw c at e))
]

pub world-ForeignAdvances : ForeignAdvances world
world-ForeignAdvances = record {
  guid = λ buf p e. absurd cc;
  sid = λ buf p e. absurd cc;
  filetime = λ buf p e. time_advances buf p e;
}

abbrev pub settings : ParserSettings world
settings = record {
  num_threads = 1;
  validate_checksums = true;
  separate_json_attributes = false;
  indent = true;
  ansi_codec = tt;
}

abbrev pub file_header : EvtxFileHeader
file_header = record {
  first_chunk_number = 0;
  last_chunk_number = 0;
  next_record_id = 1;
  header_size = 128;
  minor_version = 1;
  major_version = 3;
  header_block_size = 4096;
  chunk_count = 1;
  flags = 1;
  checksum = 77;
}

-- The file header's block and one chunk that is empty.
abbrev pub empty_file : EvtxParser world
empty_file = record {
  file = replicate (4096 + 65536) 0;
  header = file_header;
  config = settings;
  calculated_chunk_count = 1;
}

abbrev pub chunk_header_with : ℕ → ℕ → ℕ → EvtxChunkHeader
chunk_header_with last_record free flags = record {
  first_event_record_number = 1;
  last_event_record_number = 1;
  first_event_record_id = 1;
  last_event_record_id = last_record;
  header_size = 128;
  last_event_record_data_offset = 512;
  free_space_offset = free;
  events_checksum = 12;
  header_chunk_checksum = 0;
  flags = flags;
  strings_offsets = replicate 64 0;
  template_offsets = replicate 32 0;
}

-- A chunk whose header is all zeros, with three bytes of records.
abbrev pub summed_chunk : ℕ → EvtxChunkData
summed_chunk flags = record {
  header = chunk_header_with 1 515 flags;
  bytes = replicate 512 0 ++ (3 ∷ 4 ∷ 5 ∷ []);
}

-- A chunk that has the bytes, up to the free space, and names `a` at 7 and `b` at 9.
abbrev pub chunk_of : List ℕ → ℕ → EvtxChunk world
chunk_of bytes free = record {
  bytes = bytes;
  header = chunk_header_with 9 free 0;
  string_cache = (7, codes "a") ∷ (9, codes "b") ∷ [];
  template_table = [];
  settings = settings;
}

-- A record header: its size, number and time.
abbrev pub record_bytes : ℕ → List ℕ
record_bytes size = record_magic ++ (to_le 4 size ++ (to_le 8 2 ++ to_le 8 5))

abbrev pub at_start : IterChunkRecords
at_start = record { offset_from_chunk_start = 0; exhausted = false }

-- A chunk header with nothing set.
abbrev pub plain_header : EvtxChunkHeader
plain_header = chunk_header_with 1 512 0

abbrev pub stuck_header : EvtxRecordHeader world
stuck_header = record { data_size = 0; event_record_id = 2; timestamp = 5 }

pub length-replicate : (n : ℕ) (v : ℕ) → length (replicate n v) ≡ n
length-replicate zero v = refl
length-replicate (suc n) v = ap suc (length-replicate n v)
