-- ===== src/Tests/Headers.antt =====
-- The theorems on headers, names and type codes at concrete inputs.
use evtx.Prelude.{
  leb, le→leb, length, replicate, All, length-append, Text, ℕ, zero, suc, ◌-◌, ◌<◌, ◌≡◌, refl, ◌↔◌,
  inl, inr, true, some, List, [], ◌∷◌, ◌++◌, arith,
}
use evtx.Raw.{BinXmlValueType, value_type_from_u8}
use evtx.Header.{from_stream, chunk_header, record_header}
use evtx.Header.RoundTrip.{
  chunk_header_bytes, ChunkFits, file_header_bytes, record_header_bytes, record_header-bytes,
  chunk_header-bytes, from_stream-bytes,
}
use evtx.Tests.World.{nth, world, file_header, plain_header, stuck_header, length-replicate}
use evtx.Cursor.Reads.{Reads, to_le, span}
use evtx.Macros.{try_read_filetime}
use evtx.Name.{read_name}
use evtx.Cursor.{read_foreign}
use evtx.Raw.Codes.{type_code, value_type_from_u8_lem}
use evtx.Strings.RoundTrip.{text_bytes, read_name-bytes}

small_table : (n : ℕ) → All (λ v. v < span 4) (replicate n 0)
small_table zero = tt
small_table (suc n) = (omega arith, small_table n)

plain_header-ChunkFits : ChunkFits plain_header
plain_header-ChunkFits = (
  omega arith,
  omega arith,
  omega arith,
  omega arith,
  omega arith,
  omega arith,
  omega arith,
  omega arith,
  omega arith,
  omega arith,
  refl,
  small_table 64,
  refl,
  small_table 32,
)

chunk_header-bytes_example :
    Reads (chunk_header {X = world}) (chunk_header_bytes plain_header (replicate 64 7)) plain_header
chunk_header-bytes_example =
    chunk_header-bytes {X = world} plain_header (replicate 64 7) plain_header-ChunkFits refl

nth-append : (xs ys : List ℕ) → nth (xs ++ ys) (length xs) ≡ nth ys 0
nth-append [] ys = refl
nth-append (x ∷ xs) ys = nth-append xs ys

time_bytes : Reads (try_read_filetime {X = world}) (to_le 8 5) 5
unfolding try_read_filetime read_foreign
time_bytes = record {
  run = λ before behind.
      let enough : leb 8 (length (before ++ (to_le 8 5 ++ behind)) - length before) ≡ true =
        le→leb _ _ (omega (arith, length-append before (to_le 8 5 ++ behind))) in
      rw (enough, nth-append before (to_le 8 5 ++ behind), try_read_filetime, read_foreign) refl;
}

record_header-bytes_example :
    Reads
      (record_header {X = world})
      (record_header_bytes {X = world} stuck_header (to_le 8 5))
      stuck_header
record_header-bytes_example =
    record_header-bytes {X = world} stuck_header (to_le 8 5) (omega arith) (omega arith) time_bytes

from_stream-bytes_example :
    Reads
      (from_stream {X = world})
      (file_header_bytes file_header (replicate 76 0) (replicate (4096 - 128) 0))
      file_header
from_stream-bytes_example =
    from_stream-bytes {X = world} file_header (replicate 76 0) (replicate (4096 - 128) 0)
      (
        omega arith,
        omega arith,
        omega arith,
        omega arith,
        omega arith,
        omega arith,
        omega arith,
        omega arith,
        omega arith,
        omega arith,
      )
      refl (length-replicate (4096 - 128) 0)

value_type_from_u8_lem_example :
    (value_type_from_u8 0x81 ≡ some BinXmlValueType.string_array_type)
    ↔ (type_code BinXmlValueType.string_array_type ≡ some 0x81)
value_type_from_u8_lem_example = value_type_from_u8_lem 0x81 BinXmlValueType.string_array_type

-- `a` and a character beyond 16 bits.
abbrev wide_name : Text
wide_name = 0x61 ∷ 0x1f600 ∷ []

read_name-bytes_example : Reads (read_name {X = world}) (text_bytes wide_name) wide_name
read_name-bytes_example =
    read_name-bytes {X = world} wide_name
      ((omega arith, inl (omega arith)), ((omega arith, inr (omega arith, omega arith)), tt))
      (omega arith)
