-- ===== src/Parser.antt =====
-- `EvtxParser`, `IterChunks` and `serialized_records` of src/evtx_parser.rs, over a file in memory:
-- the input is a byte list, on which a seek succeeds and a read stops at the end.
pub mod Open
pub mod Serialized
pub mod Search
pub mod Batches
use evtx.Prelude.{
  ltb, leb, ◌==◌, if◌then◌else◌, length, take, drop, ℕ, zero, suc, ◌+◌, ◌-◌, ◌*◌, ◌/◌, ◌%◌, ◌^◌,
  Bool, true, not, ◌&&◌, Option, none, some, List, [], ◌∷◌,
}
use evtx.Foreign.{Foreign}
use evtx.Err.{
  Outcome, ok, err, panic, out_of_fuel, incomplete_chunk, EvtxError, deserialization_error,
  failed_to_parse_chunk, calculation_error, bind, map_err,
}
use evtx.Settings.{ParserSettings}
use evtx.Header.{EvtxFileHeader, from_stream}
use evtx.Chunk.{EvtxChunkData, validate_checksum, new_chunk_data}

abbrev pub evtx_chunk_size : ℕ
evtx_chunk_size = 65536

abbrev pub evtx_file_header_size : ℕ
evtx_file_header_size = 4096

pub record EvtxParser (X : Foreign) : Type 0 where
  pub file : List ℕ
  pub header : EvtxFileHeader
  pub config : ParserSettings X
  pub calculated_chunk_count : ℕ

unfoldable pub all_zero : List ℕ → Bool
all_zero [] = true
all_zero (b ∷ bs) = (b == 0) && all_zero bs

-- The bytes that a read of one chunk's size gets at the chunk's place; `usize` has 64 bits.
unfoldable pub chunk_bytes : List ℕ → ℕ → List ℕ
chunk_bytes file chunk_number =
    take evtx_chunk_size
      (drop ((evtx_file_header_size + chunk_number * evtx_chunk_size) % 2 ^ 64) file)

abbrev pub map_some : {E A : Type 0} → Outcome E A → Outcome E (Option A)
map_some r = bind r λ a. ok (some a)

-- What `find_next_chunk` returns: nothing, or a chunk or its error with the chunk's number.
abbrev pub Found : Foreign → Type 0
Found X = Option (Outcome (EvtxError X) EvtxChunkData × ℕ)

module _ {X : Foreign} where
  abbrev pub incomplete : ℕ → EvtxError X
  incomplete chunk_id = failed_to_parse_chunk chunk_id incomplete_chunk

  unfoldable pub allocate_chunk : List ℕ → ℕ → Bool → Outcome (EvtxError X) (Option EvtxChunkData)
  unfolding chunk_bytes all_zero new_chunk_data
  allocate_chunk file chunk_number validate_checksum =
      let chunk_data = chunk_bytes file chunk_number in
      if not (length chunk_data == evtx_chunk_size)
      then err (incomplete chunk_number)
      else if all_zero chunk_data
      then ok none
      else map_some (
          map_err (failed_to_parse_chunk chunk_number)
            (new_chunk_data X chunk_data validate_checksum))

  -- `from_read_seek`, `from_buffer`
  unfoldable pub from_buffer : ParserSettings X → List ℕ → Outcome (EvtxError X) (EvtxParser X)
  unfolding from_stream
  from_buffer default_settings file =
      bind (map_err deserialization_error (from_stream file 0)) λ (evtx_header, at).
        if ltb (length file) evtx_header.header_block_size
        then err calculation_error
        else ok record {
          file = file;
          header = evtx_header;
          config = default_settings;
          calculated_chunk_count = (length file - evtx_header.header_block_size) / evtx_chunk_size;
        }

  unfoldable pub with_configuration : EvtxParser X → ParserSettings X → EvtxParser X
  with_configuration p configuration = record p { config = configuration }

  -- One round of its loop: the answer, or `none` to go on.
  unfoldable pub settle : ℕ → ℕ → Outcome (EvtxError X) (Option EvtxChunkData) → Option (Found X)
  settle chunk_count chunk_number (err e) =
      some (if leb chunk_count chunk_number then none else some (err e, chunk_number))
  settle chunk_count chunk_number (ok none) = none
  settle chunk_count chunk_number (ok (some c)) = some (some (ok c, chunk_number))
  settle chunk_count chunk_number panic = some (some (panic, chunk_number))
  settle chunk_count chunk_number out_of_fuel = some (some (out_of_fuel, chunk_number))

  -- The loop; `none` outside means that the fuel ran out.
  unfoldable pub find_loop : ℕ → EvtxParser X → ℕ → Option (Found X)
  find_loop zero p chunk_number = none
  find_loop (suc f) p chunk_number =
      let answer =
        settle p.calculated_chunk_count chunk_number
          (allocate_chunk p.file chunk_number p.config.validate_checksums) in
      let more =
        (if chunk_number == 2 ^ 64 - 1 then some none else find_loop f p (chunk_number + 1)) in
      elim answer [ none ↦ more | some found ↦ some found ]

  -- There are fewer chunks in the file than bytes.
  unfoldable pub find_next_chunk : EvtxParser X → ℕ → Option (Found X)
  unfolding find_loop
  find_next_chunk p chunk_number = find_loop (suc (length p.file)) p chunk_number

  -- `IterChunks::next` and `IntoIterChunks::next`: the item and the next chunk number.
  unfoldable pub next_chunk :
      EvtxParser X → ℕ → Option (Option (Outcome (EvtxError X) EvtxChunkData) × ℕ)
  unfolding find_next_chunk
  next_chunk p current_chunk_number = elim (find_next_chunk p current_chunk_number) [
    | none ↦ none
    | some none ↦ some (none, current_chunk_number)
    | some (some (chunk, chunk_number)) ↦
        if chunk_number == 2 ^ 64 - 1
        then some (none, current_chunk_number)
        else some (some chunk, chunk_number + 1)
  ]
