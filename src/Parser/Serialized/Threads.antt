-- ===== src/Parser/Serialized/Threads.antt =====
-- What `serialized_records` of src/evtx_parser.rs yields where nothing panics does not depend on the
-- number of threads.
use evtx.Prelude.{ℕ, ◌≡◌, List, [], ◌∷◌, ◌++◌, map}
use evtx.Foreign.{Foreign}
use evtx.Err.{Outcome, ok, err, EvtxError, failed_to_parse_chunk, bind}
use evtx.Parser.{EvtxParser}
use evtx.Records.{EvtxChunk}
use evtx.Records.Run.{Item}
use evtx.Parser.Serialized.{chunk_items}
use evtx.Parser.Batches.{ChunkResult}

module _ {X : Foreign} {A : Type 0} where
  -- An error of a chunk without the chunk's number.
  abbrev pub blur : Outcome (EvtxError X) A → Outcome (EvtxError X) A
  blur (err (failed_to_parse_chunk i e)) = err (failed_to_parse_chunk 0 e)
  blur r = r

  abbrev pub blurred : List (Outcome (EvtxError X) A) → List (Outcome (EvtxError X) A)
  blurred = map blur

module _ {X : Foreign} {A : Type 0} (p : EvtxParser X)
    (f : EvtxChunk X → Item X → Outcome (EvtxError X) A) (fuel : ℕ) where
  -- The records of each chunk by itself, one chunk after another.
  abbrev pub each_chunk : List (ChunkResult X) → Outcome ⊥ (List (Outcome (EvtxError X) A))
  each_chunk [] = ok []
  each_chunk (c ∷ cs) =
      bind (chunk_items p f fuel 0 c) λ items. bind (each_chunk cs) λ rest. ok (items ++ rest)

  -- The same items up to the chunk numbers in errors.
  abbrev Gives :
      Outcome ⊥ (List (Outcome (EvtxError X) A)) → List (Outcome (EvtxError X) A) → Type 0
  Gives r items =
      (items' : List (Outcome (EvtxError X) A)) × (r ≡ ok items') × (blurred items' ≡ blurred items)
