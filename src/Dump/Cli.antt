-- ===== src/Dump/Cli.antt =====
-- `from_cli_matches` and `create_output_file` of src/bin/evtx_dump.rs. What clap found on the
-- command line is a record of values, and the file system is a parameter.
pub mod Options
use evtx.Prelude.{
  if◌then◌else◌, Text, codes, text_eq, ℕ, String, Bool, true, false, not, ◌||◌, Option, none, some,
  List,
}
use evtx.Foreign.{Foreign}
use evtx.Dump.{EvtxOutputFormat, EvtxDump}
use evtx.Err.{Outcome, ok, err, panic, bind}
use evtx.Settings.{
  ParserSettings, default_settings, with_num_threads, with_ansi_codec, with_validate_checksums,
  with_separate_json_attributes, with_indent,
}

-- The arguments, of which the required ones and those with a default are there.
pub record ArgMatches : Type 0 where
  pub input : Text
  pub output_format : Text
  pub no_indent : Bool
  pub separate_json_attributes : Bool
  pub no_show_record_number : Bool
  pub num_threads : ℕ
  pub validate_checksums : Bool
  pub stop_after_one_error : Bool
  pub event_ranges : Option Text
  pub ansi_codec : Text
  pub output_target : Option Text
  pub no_confirm_overwrite : Bool

-- The questions to the file system and the user, and what creates a file or directories. A path
-- is a text.
pub record FileSystem (F : Type 0) : Type 0 where
  pub is_dir : Text → Bool
  pub exists : Text → Bool
  pub parent : Text → Option Text
  -- the answer to the prompt, unless it cannot be displayed
  pub interact : Option Bool
  pub create_dir_all : Text → Bool
  pub create : Text → Option F

unfoldable pub output_format_of : Text → EvtxOutputFormat
output_format_of fmt =
    if text_eq fmt (codes "xml")
    then EvtxOutputFormat.xml
    else if text_eq fmt (codes "json") || text_eq fmt (codes "jsonl")
    then EvtxOutputFormat.json
    else EvtxOutputFormat.xml

-- A flag that the format `jsonl` sets.
unfoldable pub or_jsonl : Bool → Text → Bool
or_jsonl true fmt = true
or_jsonl false fmt = text_eq fmt (codes "jsonl")

module _ {F : Type 0} (fs : FileSystem F) where
  -- A file that exists, after the user's answer.
  unfoldable pub create_confirmed : Text → Option Bool → Option F
  create_confirmed p (some true) = fs.create p
  create_confirmed p (some false) = none
  create_confirmed p none = none

  -- A file in a directory, which is created where it is missing.
  unfoldable pub create_in : Text → Option Text → Option F
  create_in p none = none
  create_in p (some dir) =
      if fs.exists dir then fs.create p else if fs.create_dir_all dir then fs.create p else none

  -- `create_output_file`; any error is `none`.
  unfoldable pub create_output_file : Text → Bool → Option F
  unfolding create_confirmed create_in
  create_output_file p prompt =
      if fs.is_dir p
      then none
      else if fs.exists p
      then (if prompt then create_confirmed p fs.interact else fs.create p)
      else create_in p (fs.parent p)

-- The output: the standard output, or a file.
pub data Output (F : Type 0) : Type 0 where
  stdout : Output F
  file : F → Output F

abbrev pub file_or_error : {F : Type 0} → Option F → Outcome String (Output F)
file_or_error none = err "An error occurred while creating output file"
file_or_error (some f) = ok (file f)

-- The option `--events`. Its value_parser gives a value of type `()`, and `get_one::<&String>` panics
-- on a value of another type than the one it asks for: no ranges are ever parsed.
unfoldable pub event_ranges_of : {E : Type 0} → Option Text → Outcome E (Option (List (ℕ × ℕ)))
event_ranges_of none = ok none
event_ranges_of (some s) = panic

abbrev pub codec_or_panic : {E A : Type 0} → Option A → Outcome E A
codec_or_panic none = panic
codec_or_panic (some codec) = ok codec

module _ {F : Type 0} (fs : FileSystem F) where
  abbrev pub output_of : ArgMatches → Option Text → Outcome String (Output F)
  output_of matches none = ok stdout
  output_of matches (some path) =
      file_or_error (create_output_file fs path (not matches.no_confirm_overwrite))

abbrev pub dump_of : ArgMatches → Option (List (ℕ × ℕ)) → EvtxDump
dump_of matches event_ranges = record {
  show_record_number = not (or_jsonl matches.no_show_record_number matches.output_format);
  output_format = output_format_of matches.output_format;
  stop_after_error = matches.stop_after_one_error;
  ranges = event_ranges;
}

module _ {X : Foreign} {F : Type 0} (fs : FileSystem F) where
  -- With the codecs by their names, the number of threads of rayon and the codec for
  -- Windows-1252.
  unfoldable pub from_cli_matches :
      (Text → Option X.Codec)
      → ℕ
      → X.Codec
      → ArgMatches
      → Outcome String (EvtxDump × ParserSettings X × Output F)
  unfolding output_format_of or_jsonl event_ranges_of create_output_file default_settings
      with_num_threads with_ansi_codec with_validate_checksums with_separate_json_attributes
      with_indent
  from_cli_matches encodings current_num_threads windows_1252 matches =
      bind (event_ranges_of matches.event_ranges) λ event_ranges.
        bind (codec_or_panic (encodings matches.ansi_codec)) λ codec.
          bind (output_of fs matches matches.output_target) λ output. ok (
            dump_of matches event_ranges,
            with_ansi_codec
                (with_indent
                  (with_separate_json_attributes
                    (with_validate_checksums
                      (with_num_threads current_num_threads (default_settings windows_1252)
                        matches.num_threads)
                      matches.validate_checksums)
                    matches.separate_json_attributes)
                  (not (or_jsonl matches.no_indent matches.output_format)))
                codec,
            output,
          )
