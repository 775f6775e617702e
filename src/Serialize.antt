-- ===== src/Serialize.antt =====
-- `into_output`, `into_json_value`, `into_json` and `into_xml` of src/evtx_record.rs. The settings
-- that a record shares with its chunk are the chunk's. `fuel` is that of the templates' expansion.
pub mod Closed
use evtx.Prelude.{if◌then◌else◌, Text, ℕ, Option, none, some, List}
use evtx.Foreign.{Foreign}
use evtx.Xml.{QuickXml, with_writer, xml_output}
use evtx.Visit.{BinXmlOutput, parse_tokens}
use evtx.Records.{EvtxChunk, EvtxRecord}
use evtx.SerdeJson.{SerdeJson}
use evtx.Err.{
  Outcome, ok, err, SerializationError, json_error, record_contains_invalid_utf8, EvtxError,
  failed_to_parse_record, bind, map_err,
}
use evtx.Display.{Display}
use evtx.Json.{new_output, into_value}
use evtx.Json.Visitor.{json_output}

pub record SerializedEvtxRecord (X : Foreign) (A : Type 0) : Type 0 where
  pub event_record_id : ℕ
  pub timestamp : X.DateTime
  pub data' : A

module _ {X : Foreign} where
  abbrev pub serialized : {A : Type 0} → EvtxRecord X → A → SerializedEvtxRecord X A
  serialized r a = record {
    event_record_id = r.event_record_id;
    timestamp = r.timestamp;
    data' = a;
  }

  -- The record with its text, or the error of what makes the text.
  abbrev pub serialize_as :
      EvtxRecord X
      → SerializationError
      → Option Text
      → Outcome (EvtxError X) (SerializedEvtxRecord X Text)
  serialize_as r e none = err (EvtxError.serialization_error e)
  serialize_as r e (some t) = ok (serialized r t)

module _ {X : Foreign} (visitor : BinXmlOutput X) where
  unfoldable pub into_output :
      EvtxChunk X → ℕ → EvtxRecord X → visitor.State → Outcome (EvtxError X) visitor.State
  unfolding parse_tokens
  into_output chunk fuel r output_builder =
      map_err (failed_to_parse_record r.event_record_id)
        (parse_tokens visitor chunk fuel r.tokens output_builder)

module _ {X : Foreign} (J : SerdeJson X) (D : Display X) (unescape : Text → Option Text) where
  unfoldable pub into_json_value :
      EvtxChunk X → ℕ → EvtxRecord X → Outcome (EvtxError X) (SerializedEvtxRecord X J.Value)
  unfolding into_output into_value new_output
  into_json_value chunk fuel r =
      bind (into_output (json_output J D unescape) chunk fuel r (new_output J chunk.settings))
        λ output_builder. bind (into_value J output_builder) λ v. ok (serialized r v)

  unfoldable pub into_json :
      EvtxChunk X → ℕ → EvtxRecord X → Outcome (EvtxError X) (SerializedEvtxRecord X Text)
  unfolding into_json_value
  into_json chunk fuel r = bind (into_json_value chunk fuel r) λ record_with_json_value.
      serialize_as r json_error (
        if chunk.settings.indent
        then J.to_string_pretty record_with_json_value.data'
        else J.to_string record_with_json_value.data')

-- `from_utf8` is `String::from_utf8`.
module _ {X : Foreign} (Q : QuickXml) (D : Display X) (from_utf8 : List ℕ → Option Text) where
  unfoldable pub into_xml :
      EvtxChunk X → ℕ → EvtxRecord X → Outcome (EvtxError X) (SerializedEvtxRecord X Text)
  unfolding into_output with_writer
  into_xml chunk fuel r =
      bind (into_output (xml_output Q D) chunk fuel r (with_writer Q chunk.settings))
        λ output_builder.
          serialize_as r record_contains_invalid_utf8 (from_utf8 (Q.into_inner output_builder))
