-- ===== src/Parser/Serialized.antt =====
-- `serialized_records`, `records`, `records_json` and `records_json_value` of src/evtx_parser.rs:
-- the records of each batch of chunks. Parsing a batch in parallel gives its chunks' records in the
-- order of the chunks.
pub mod Threads
pub mod Panics
use evtx.Prelude.{Text, ℕ, suc, Option, none, some, List, [], ◌∷◌, ◌++◌, map}
use evtx.Foreign.{Foreign}
use evtx.Parser.{EvtxParser}
use evtx.SerdeJson.{SerdeJson}
use evtx.Xml.{QuickXml}
use evtx.Records.{EvtxChunk, start_records, new_chunk}
use evtx.Display.{Display}
use evtx.Serialize.{SerializedEvtxRecord, into_json_value, into_json, into_xml}
use evtx.Records.Run.{Item, run_records}
use evtx.Err.{
  Outcome, ok, err, panic, out_of_fuel, ChunkError, EvtxError, failed_to_parse_chunk, bind,
  collected,
}
use evtx.Parser.Batches.{ChunkResult, batches}

module _ {X : Foreign} {A : Type 0} (p : EvtxParser X)
    (f : EvtxChunk X → Item X → Outcome (EvtxError X) A) (fuel : ℕ) where
  -- `map(f)`, which is not called where the iterator does not yield.
  abbrev pub map_item : EvtxChunk X → Item X → Outcome (EvtxError X) A
  map_item chunk (ok r) = f chunk (ok r)
  map_item chunk (err e) = f chunk (err e)
  map_item chunk panic = panic
  map_item chunk out_of_fuel = out_of_fuel

  abbrev pub mapped_items :
      EvtxChunk X → Option (List (Item X)) → Outcome ⊥ (List (Outcome (EvtxError X) A))
  mapped_items chunk none = out_of_fuel
  mapped_items chunk (some items) = collected (map (map_item chunk) items)

  -- The match on `chunk.parse(...)`. A chunk's error has the chunk's index in its batch.
  unfoldable pub parsed_items :
      ℕ → Outcome (ChunkError X) (EvtxChunk X) → Outcome ⊥ (List (Outcome (EvtxError X) A))
  unfolding run_records collected
  parsed_items i (ok chunk) = mapped_items chunk (run_records chunk fuel start_records)
  parsed_items i (err e) = ok (err (failed_to_parse_chunk i e) ∷ [])
  parsed_items i panic = panic
  parsed_items i out_of_fuel = out_of_fuel

  unfoldable pub chunk_items : ℕ → ChunkResult X → Outcome ⊥ (List (Outcome (EvtxError X) A))
  unfolding parsed_items new_chunk
  chunk_items i (ok chunk) = parsed_items i (new_chunk chunk p.config)
  chunk_items i (err e) = ok (err e ∷ [])
  chunk_items i panic = panic
  chunk_items i out_of_fuel = out_of_fuel

  -- `enumerate().map(...).collect()` of a batch, from an index on: a panic in one of its chunks is
  -- one of the batch, whose other records are lost.
  unfoldable pub batch_items : ℕ → List (ChunkResult X) → Outcome ⊥ (List (Outcome (EvtxError X) A))
  unfolding chunk_items
  batch_items i [] = ok []
  batch_items i (c ∷ cs) =
      bind (chunk_items i c) λ items. bind (batch_items (suc i) cs) λ rest. ok (items ++ rest)

  abbrev append_items :
      List (Outcome (EvtxError X) A)
      → Option (List (Outcome (EvtxError X) A))
      → Option (List (Outcome (EvtxError X) A))
  append_items items none = none
  append_items items (some rest) = some (items ++ rest)

  -- What the items of a batch make of the rest: a panic is the last item.
  abbrev pub then_items :
      Outcome ⊥ (List (Outcome (EvtxError X) A))
      → Option (List (Outcome (EvtxError X) A))
      → Option (List (Outcome (EvtxError X) A))
  then_items (ok items) rest = append_items items rest
  then_items (err e) rest = elim e [ ]
  then_items panic rest = some (panic ∷ [])
  then_items out_of_fuel rest = none

  abbrev pub all_items :
      List (Outcome ⊥ (List (ChunkResult X))) → Option (List (Outcome (EvtxError X) A))
  all_items [] = some []
  all_items (b ∷ bs) = then_items (bind b λ cs. batch_items 0 cs) (all_items bs)

  abbrev pub flatten_batches :
      Option (List (Outcome ⊥ (List (ChunkResult X)))) → Option (List (Outcome (EvtxError X) A))
  flatten_batches none = none
  flatten_batches (some bs) = all_items bs

  -- `serialized_records`: the items up to the end, or up to a panic, which is the last item. The
  -- first fuel counts the batches, `fuel` a chunk's records; `none` where a fuel does not suffice.
  unfoldable pub serialized_records : ℕ → Option (List (Outcome (EvtxError X) A))
  unfolding batch_items batches
  serialized_records k = flatten_batches (batches p k 0)

module _ {X : Foreign} (Q : QuickXml) (D : Display X) (from_utf8 : List ℕ → Option Text) where
  -- The last fuel is that of the templates' expansion.
  unfoldable pub records :
      EvtxParser X → ℕ → ℕ → ℕ → Option (List (Outcome (EvtxError X) (SerializedEvtxRecord X Text)))
  unfolding serialized_records into_xml
  records p k fuel depth =
      serialized_records p (λ chunk item. bind item λ r. into_xml Q D from_utf8 chunk depth r) fuel
        k

module _ {X : Foreign} (J : SerdeJson X) (D : Display X) (unescape : Text → Option Text) where
  unfoldable pub records_json :
      EvtxParser X → ℕ → ℕ → ℕ → Option (List (Outcome (EvtxError X) (SerializedEvtxRecord X Text)))
  unfolding serialized_records into_json
  records_json p k fuel depth =
      serialized_records p (λ chunk item. bind item λ r. into_json J D unescape chunk depth r) fuel
        k

  unfoldable pub records_json_value :
      EvtxParser X
      → ℕ
      → ℕ
      → ℕ
      → Option (List (Outcome (EvtxError X) (SerializedEvtxRecord X J.Value)))
  unfolding serialized_records into_json_value
  records_json_value p k fuel depth =
      serialized_records p (λ chunk item. bind item λ r. into_json_value J D unescape chunk depth r)
        fuel k
