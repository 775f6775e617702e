-- ===== src/Err.antt =====
-- src/err.rs: errors as values. `Outcome` adds what a Rust call can do besides: panic, and (in the
-- model) run out of fuel. Messages and hexdumps that only describe an error for a reader are left out.
pub mod Returns
pub mod Bind
pub mod Success
use evtx.Prelude.{Text, ℕ, String, Option, List, [], ◌∷◌}
use evtx.Foreign.{Foreign}

pub data Outcome (E A : Type 0) : Type 0 where
  ok : A → Outcome E A
  err : E → Outcome E A
  panic : Outcome E A
  out_of_fuel : Outcome E A

pub data DeserializationError (X : Foreign) : Type 0 where
  failed_to_read_token : String → String → DeserializationError X
  unexpected_io_error : String → DeserializationError X
  remove_me : DeserializationError X
  failed_to_deserialize_template : X.Guid → DeserializationError X → DeserializationError X
  invalid_token : ℕ → ℕ → DeserializationError X
  invalid_value_variant : ℕ → ℕ → DeserializationError X
  invalid_date_time_error : DeserializationError X
  invalid_evtx_record_header_magic : List ℕ → DeserializationError X
  invalid_evtx_chunk_magic : List ℕ → DeserializationError X
  invalid_evtx_file_header_magic : List ℕ → DeserializationError X
  unimplemented_token : String → ℕ → DeserializationError X
  unimplemented_value_variant : String → Option ℕ → ℕ → DeserializationError X

pub data ChunkError (X : Foreign) : Type 0 where
  incomplete_chunk : ChunkError X
  failed_to_parse_chunk_header : DeserializationError X → ChunkError X
  invalid_chunk_checksum : ℕ → ℕ → ChunkError X
  failed_to_build_string_cache : DeserializationError X → ChunkError X

-- Without the errors of quick_xml, serde_json and `String::from_utf8` that three of them wrap.
pub data SerializationError : Type 0 where
  xml_output_error : SerializationError
  json_structure_error : String → SerializationError
  json_error : SerializationError
  record_contains_invalid_utf8 : SerializationError
  unimplemented : String → SerializationError

-- A path is a text; the system's error is left out.
pub data InputError : Type 0 where
  failed_to_open_file : Text → InputError

pub data EvtxError (X : Foreign) : Type 0 where
  input_error : InputError → EvtxError X
  serialization_error : SerializationError → EvtxError X
  deserialization_error : DeserializationError X → EvtxError X
  failed_to_parse_chunk : ℕ → ChunkError X → EvtxError X
  failed_to_parse_record : ℕ → EvtxError X → EvtxError X
  calculation_error : EvtxError X
  failed_to_create_record_model : String → EvtxError X

module _ {E A B : Type 0} where
  abbrev pub bind : Outcome E A → (A → Outcome E B) → Outcome E B
  bind (ok a) f = f a
  bind (err e) f = err e
  bind panic f = panic
  bind out_of_fuel f = out_of_fuel

module _ {E A : Type 0} where
  -- What `collect` makes of one more result: a panic unwinds through it, and what does not end keeps
  -- it from ending. There is no other error of the whole.
  abbrev pub collect_one :
      Outcome E A → Outcome ⊥ (List (Outcome E A)) → Outcome ⊥ (List (Outcome E A))
  collect_one (ok a) rest = bind rest λ rs. ok (ok a ∷ rs)
  collect_one (err e) rest = bind rest λ rs. ok (err e ∷ rs)
  collect_one panic rest = panic
  collect_one out_of_fuel rest = out_of_fuel

  unfoldable pub collected : List (Outcome E A) → Outcome ⊥ (List (Outcome E A))
  collected [] = ok []
  collected (r ∷ rs) = collect_one r (collected rs)

  -- A value or an error, with which a caller can go on.
  abbrev pub Settled : Outcome E A → Type 0
  Settled (ok a) = Unit
  Settled (err e) = Unit
  Settled panic = ⊥
  Settled out_of_fuel = ⊥

module _ {E F A : Type 0} where
  abbrev pub map_err : (E → F) → Outcome E A → Outcome F A
  map_err f (ok a) = ok a
  map_err f (err e) = err (f e)
  map_err f panic = panic
  map_err f out_of_fuel = out_of_fuel
