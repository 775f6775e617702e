-- ===== src/Settings.antt =====
-- `ParserSettings` of src/evtx_parser.rs, with its default and its builder methods.
use evtx.Prelude.{◌==◌, if◌then◌else◌, ℕ, Bool, true, false}
use evtx.Foreign.{Foreign}

pub record ParserSettings (X : Foreign) : Type 0 where
  pub num_threads : ℕ
  pub validate_checksums : Bool
  pub separate_json_attributes : Bool
  pub indent : Bool
  pub ansi_codec : X.Codec

module _ {X : Foreign} where
  -- `default`, with the codec for Windows-1252
  unfoldable pub default_settings : X.Codec → ParserSettings X
  default_settings windows_1252 = record {
    num_threads = 0;
    validate_checksums = false;
    separate_json_attributes = false;
    indent = true;
    ansi_codec = windows_1252;
  }

  -- `current_num_threads` is that of rayon.
  unfoldable pub with_num_threads : ℕ → ParserSettings X → ℕ → ParserSettings X
  with_num_threads current_num_threads s n = record s {
    num_threads = if n == 0 then current_num_threads else n;
  }

  unfoldable pub with_ansi_codec : ParserSettings X → X.Codec → ParserSettings X
  with_ansi_codec s codec = record s { ansi_codec = codec }

  unfoldable pub with_validate_checksums : ParserSettings X → Bool → ParserSettings X
  with_validate_checksums s b = record s { validate_checksums = b }

  unfoldable pub with_separate_json_attributes : ParserSettings X → Bool → ParserSettings X
  with_separate_json_attributes s b = record s { separate_json_attributes = b }

  unfoldable pub with_indent : ParserSettings X → Bool → ParserSettings X
  with_indent s b = record s { indent = b }
