-- ===== src/Records.antt =====
-- `EvtxChunk` and `IterChunkRecords` of src/evtx_chunk.rs: the records of a chunk, one after
-- another.
pub mod Run
pub mod Stuck
use evtx.Prelude.{
  ltb, leb, ◌==◌, if◌then◌else◌, length, drop, ℕ, suc, ◌+◌, Bool, true, false, ◌||◌, Option, none,
  some, List, [],
}
use evtx.Foreign.{Foreign}
use evtx.Err.{
  Outcome, ok, err, panic, out_of_fuel, DeserializationError, ChunkError,
  failed_to_parse_chunk_header, failed_to_build_string_cache, EvtxError, deserialization_error,
  failed_to_parse_record, bind, map_err,
}
use evtx.Settings.{ParserSettings}
use evtx.Header.{EvtxChunkHeader, EvtxRecordHeader, record_header, record_data_size}
use evtx.Model.{Tokens}
use evtx.Chunk.{chunk_header_size, EvtxChunkData}
use evtx.Cache.{StringCache, TemplateCache, populate_strings, populate_templates}
use evtx.Deserializer.{read_fragment}

pub record EvtxChunk (X : Foreign) : Type 0 where
  pub bytes : List ℕ
  pub header : EvtxChunkHeader
  pub string_cache : StringCache
  pub template_table : TemplateCache X
  pub settings : ParserSettings X

pub record EvtxRecord (X : Foreign) : Type 0 where
  pub event_record_id : ℕ
  pub timestamp : X.DateTime
  pub tokens : Tokens X

pub record IterChunkRecords : Type 0 where
  pub offset_from_chunk_start : ℕ
  pub exhausted : Bool

-- `EvtxChunk::iter`
abbrev pub start_records : IterChunkRecords
start_records = record { offset_from_chunk_start = chunk_header_size; exhausted = false }

module _ {X : Foreign} where
  -- `EvtxChunk::new`. The fuel allows a link for each byte of the chunk.
  unfoldable pub new_chunk : EvtxChunkData → ParserSettings X → Outcome (ChunkError X) (EvtxChunk X)
  unfolding populate_strings populate_templates
  new_chunk c settings =
      let fuel = suc (length c.bytes) in
      bind
        (map_err failed_to_build_string_cache
          (populate_strings fuel c.header.strings_offsets [] c.bytes 0))
        λ (string_cache, at).
          bind
            (map_err failed_to_parse_chunk_header
              (populate_templates settings.ansi_codec fuel c.header.template_offsets [] c.bytes 0))
            λ (template_table, at'). ok record {
              bytes = c.bytes;
              header = c.header;
              string_cache = string_cache;
              template_table = template_table;
              settings = settings;
            }

  abbrev pub past_record : IterChunkRecords → EvtxRecordHeader X → IterChunkRecords
  past_record it h = record it {
    offset_from_chunk_start = it.offset_from_chunk_start + h.data_size;
  }

  -- The tokens of a record whose binary XML starts at `start`.
  unfoldable pub read_tokens :
      EvtxChunk X → EvtxRecordHeader X → ℕ → Outcome (EvtxError X) (Tokens X × ℕ)
  unfolding read_fragment record_data_size
  read_tokens chunk h start =
      map_err (λ e. failed_to_parse_record h.event_record_id (deserialization_error e))
        (read_fragment chunk.settings.ansi_codec (some (length chunk.bytes))
          (some (record_data_size h)) false chunk.bytes start)

  -- What a record's tokens, or their error, make of the iterator.
  unfoldable pub yield_record :
      EvtxChunk X
      → IterChunkRecords
      → EvtxRecordHeader X
      → Outcome (EvtxError X) (Tokens X × ℕ)
      → Outcome (EvtxError X) (EvtxRecord X) × IterChunkRecords
  yield_record chunk it h (ok (tokens, at)) = (
    ok record { event_record_id = h.event_record_id; timestamp = h.timestamp; tokens = tokens },
    record (past_record it h) {
      exhausted =
          if chunk.header.last_event_record_id == h.event_record_id then true else it.exhausted;
    },
  )
  yield_record chunk it h (err e) = (err e, past_record it h)
  yield_record chunk it h panic = (panic, it)
  yield_record chunk it h out_of_fuel = (out_of_fuel, it)

  unfoldable pub yield_header :
      EvtxChunk X
      → IterChunkRecords
      → Outcome (DeserializationError X) (EvtxRecordHeader X × ℕ)
      → Outcome (EvtxError X) (EvtxRecord X) × IterChunkRecords
  unfolding yield_record read_tokens
  yield_header chunk it (ok (h, at)) =
      yield_record chunk it h (read_tokens chunk h (it.offset_from_chunk_start + at))
  yield_header chunk it (err e) = (err (deserialization_error e), record it { exhausted = true })
  yield_header chunk it panic = (panic, it)
  yield_header chunk it out_of_fuel = (out_of_fuel, it)

  -- `IterChunkRecords::next`. The slice from the offset on panics beyond the end of the data.
  unfoldable pub next_record :
      EvtxChunk X
      → IterChunkRecords
      → Option (Outcome (EvtxError X) (EvtxRecord X) × IterChunkRecords)
  unfolding yield_header record_header
  next_record chunk it =
      if it.exhausted || leb chunk.header.free_space_offset it.offset_from_chunk_start
      then none
      else if ltb (length chunk.bytes) it.offset_from_chunk_start
      then some (panic, it)
      else some
          (yield_header chunk it (record_header (drop it.offset_from_chunk_start chunk.bytes) 0))
