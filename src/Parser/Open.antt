-- ===== src/Parser/Open.antt =====
-- `from_path` of src/evtx_parser.rs. The file system is a parameter: `canonicalize` of a path, and
-- the bytes of the file that is opened.
use evtx.Prelude.{Text, ℕ, Option, none, some, List}
use evtx.Foreign.{Foreign}
use evtx.Parser.{EvtxParser, from_buffer}
use evtx.Err.{Outcome, ok, err, failed_to_open_file, EvtxError, input_error, bind}
use evtx.Settings.{ParserSettings, default_settings}

module _ {X : Foreign} (canonicalize : Text → Option Text)
    (open_file : Text → Option (List ℕ)) where
  -- An error has the path that was asked for first, and then the canonical one.
  abbrev or_failed_to_open : {A : Type 0} → Text → Option A → Outcome (EvtxError X) A
  or_failed_to_open path none = err (input_error (failed_to_open_file path))
  or_failed_to_open path (some a) = ok a

  unfoldable pub from_path : ParserSettings X → Text → Outcome (EvtxError X) (EvtxParser X)
  unfolding from_buffer
  from_path default_settings path = bind (or_failed_to_open path (canonicalize path)) λ canonical.
      bind (or_failed_to_open canonical (open_file canonical))
        λ file. from_buffer default_settings file
