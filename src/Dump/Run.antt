-- ===== src/Dump/Run.antt =====
-- `run` of src/bin/evtx_dump.rs, without the initialization of logging: the parser that `from_path`
-- gives is configured, and its records are written in the output format.
use evtx.Prelude.{Text, ℕ, Option, none, some, List}
use evtx.Foreign.{Foreign}
use evtx.SerdeJson.{SerdeJson}
use evtx.Xml.{QuickXml}
use evtx.Display.{Display}
use evtx.Dump.{EvtxOutputFormat, EvtxDump, Dumped, failed, dump_records}
use evtx.Parser.Serialized.{records, records_json}
use evtx.Parser.{EvtxParser, with_configuration}
use evtx.Err.{Outcome, ok, err, panic, out_of_fuel, EvtxError}
use evtx.Settings.{ParserSettings}
use evtx.Serialize.{SerializedEvtxRecord}

module _ {X : Foreign} {W : Type 0} (write_line : Text → W → Option W) (J : SerdeJson X)
    (Q : QuickXml) (D : Display X) (unescape : Text → Option Text)
    (from_utf8 : List ℕ → Option Text) where
  -- The records in the output format. The fuels are those of `serialized_records`.
  unfoldable pub records_of :
      EvtxOutputFormat
      → EvtxParser X
      → ℕ
      → ℕ
      → ℕ
      → Option (List (Outcome (EvtxError X) (SerializedEvtxRecord X Text)))
  unfolding records records_json
  records_of EvtxOutputFormat.xml p k fuel depth = records Q D from_utf8 p k fuel depth
  records_of EvtxOutputFormat.json p k fuel depth = records_json J D unescape p k fuel depth

  -- `none` where a fuel does not suffice.
  unfoldable pub run :
      EvtxDump
      → ParserSettings X
      → Outcome (EvtxError X) (EvtxParser X)
      → ℕ
      → ℕ
      → ℕ
      → W
      → Option (Dumped W)
  unfolding records_of dump_records with_configuration
  run d settings (ok parser) k fuel depth w =
      elim (records_of d.output_format (with_configuration parser settings) k fuel depth) [
        | none ↦ none
        | some rs ↦ some (dump_records write_line d rs w)
      ]
  run d settings (err e) k fuel depth w = some failed
  run d settings panic k fuel depth w = some failed
  run d settings out_of_fuel k fuel depth w = none
