-- ===== src/Tests/Programs.antt =====
-- The theorems on the iteration of all records, on evtx_dump and on hexdumps at concrete inputs.
use evtx.Prelude.{
  ltb, if◌then◌else◌, length, replicate, Text, codes, text_eq, ℕ, ◌≡◌, refl, ◌⊎◌, true, false, ◌||◌,
  Option, none, some, List, [], ◌∷◌, ◌++◌, arith,
}
use evtx.Display.{nat_to_string, join}
use evtx.Serialize.{SerializedEvtxRecord}
use evtx.Err.{
  Outcome, ok, err, panic, out_of_fuel, incomplete_chunk, EvtxError, failed_to_parse_chunk,
  failed_to_create_record_model,
}
use evtx.Dump.{
  EvtxOutputFormat, EvtxDump, exited, ranges_contains, ranges_from_str, matches_ranges,
  dump_records,
}
use evtx.Records.{EvtxChunk}
use evtx.Err.Success.{IsOk}
use evtx.Hexdump.{hexdump}
use evtx.Tests.World.{world}
use evtx.Records.Run.{Item}
use evtx.Hexdump.Bounds.{hexdump-IsOk}
use evtx.Dump.Ranges.{one, interval, ranges_from_str-join}
use evtx.Dump.Writes.{Dumpable, dump_records-stop}
use evtx.Parser.Batches.{Chunks}
use evtx.Dump.Cli.{ArgMatches, FileSystem, create_output_file, file, from_cli_matches}
use evtx.Dump.Cli.Options.{create_output_file-some, from_cli_matches-jsonl}
use evtx.Settings.{ParserSettings}

-- A text for each record.
abbrev label : EvtxChunk world → Item world → Outcome (EvtxError world) Text
label chunk (ok r) = ok (codes "record")
label chunk (err e) = err e
label chunk panic = panic
label chunk out_of_fuel = out_of_fuel

abbrev cut_record : Outcome (EvtxError world) Text
cut_record = err (failed_to_parse_chunk 0 incomplete_chunk)

ranges_from_str-join_example :
    ranges_from_str (codes "3-5,8,12-40") ≡ some ((3, 5) ∷ (8, 8) ∷ (12, 40) ∷ [])
unfolding join nat_to_string
ranges_from_str-join_example =
    ranges_from_str-join (interval 3 5) (one 8 ∷ interval 12 40 ∷ []) (omega arith, omega arith)
      (omega arith, ((omega arith, omega arith), tt))

abbrev dump_3_to_5 : EvtxDump
dump_3_to_5 = record {
  show_record_number = true;
  output_format = EvtxOutputFormat.json;
  stop_after_error = true;
  ranges = some ((3, 5) ∷ []);
}

abbrev patient_dump : EvtxDump
patient_dump = record dump_3_to_5 { stop_after_error = false }

abbrev numbered : ℕ → SerializedEvtxRecord world Text
numbered n = record { event_record_id = n; timestamp = 0; data' = codes "{}" }

-- An output with room for three lines.
abbrev append_line : Text → List Text → Option (List Text)
append_line t ts = if ltb (length ts) 3 then some (ts ++ (t ∷ [])) else none

abbrev no_model : EvtxError world
no_model = failed_to_create_record_model "no model"

dump_records-stop_example :
    dump_records append_line dump_3_to_5 (ok (numbered 4) ∷ err no_model ∷ ok (numbered 3) ∷ []) []
    ≡ exited (codes "Record 4" ∷ codes "{}" ∷ [])
unfolding nat_to_string ranges_contains
dump_records-stop_example =
    dump_records-stop append_line dump_3_to_5 (ok (numbered 4) ∷ []) (ok (numbered 3) ∷ []) no_model
      [] (Dumpable.record_next Dumpable.end_of_records) refl

hexdump-IsOk_example : IsOk (hexdump {E = EvtxError world} (replicate 17 65) 0 120)
hexdump-IsOk_example = hexdump-IsOk (EvtxError world) (replicate 17 65) 0 120

-- `test_ranges` of src/bin/evtx_dump.rs
ranges_are_checked :
    (matches_ranges (codes "1-2,3,4-5,6-7,8-9") ≡ true)
    × (matches_ranges (codes "1") ≡ true)
    × (matches_ranges (codes "1-") ≡ false)
    × (matches_ranges (codes "-2") ≡ false)
unfolding matches_ranges
ranges_are_checked = (refl, refl, refl, refl)

-- The dump of one byte.
one_byte :
    hexdump {E = EvtxError world} (65 ∷ []) 0 67
    ≡ ok (codes "\n00000000: 41                                               A")
unfolding hexdump
one_byte = refl

-- A disk with one file, which the user agrees to overwrite.
abbrev disk : FileSystem Text
disk = record {
  is_dir = λ p. text_eq p (codes "dir");
  exists = λ p. text_eq p (codes "out") || text_eq p (codes "dir");
  parent = λ p. some (codes "dir");
  interact = some true;
  create_dir_all = λ p. true;
  create = λ p. some p;
}

create_output_file-some_example :
    (some (codes "out") ≡ some (codes "out"))
    × (text_eq (codes "out") (codes "dir") ≡ false)
    × ((disk.exists (codes "out") ≡ false) ⊎ ((true ≡ false) ⊎ (disk.interact ≡ some true)))
unfolding create_output_file text_eq
create_output_file-some_example = create_output_file-some disk (codes "out") true refl

abbrev jsonl_matches : ArgMatches
jsonl_matches = record {
  input = codes "log.evtx";
  output_format = codes "jsonl";
  no_indent = false;
  separate_json_attributes = false;
  no_show_record_number = false;
  num_threads = 0;
  validate_checksums = true;
  stop_after_one_error = false;
  event_ranges = none;
  ansi_codec = codes "windows-1252";
  output_target = some (codes "out");
  no_confirm_overwrite = false;
}

abbrev jsonl_dump : EvtxDump
jsonl_dump = record {
  show_record_number = false;
  output_format = EvtxOutputFormat.json;
  stop_after_error = false;
  ranges = none;
}

abbrev jsonl_settings : ParserSettings world
jsonl_settings = record {
  num_threads = 4;
  validate_checksums = true;
  separate_json_attributes = false;
  indent = false;
  ansi_codec = tt;
}

jsonl_starts :
    from_cli_matches {X = world} disk (λ name. some tt) 4 tt jsonl_matches
    ≡ ok (jsonl_dump, jsonl_settings, file (codes "out"))
unfolding from_cli_matches text_eq
jsonl_starts = refl

from_cli_matches-jsonl_example :
    (jsonl_dump.output_format ≡ EvtxOutputFormat.json)
    × (jsonl_dump.show_record_number ≡ false)
    × (jsonl_settings.indent ≡ false)
    × (jsonl_dump.ranges ≡ none)
from_cli_matches-jsonl_example =
    from_cli_matches-jsonl {X = world} disk (λ name. some tt) 4 tt jsonl_matches refl jsonl_starts

abbrev cut_items : List (Outcome (EvtxError world) Text)
cut_items =
    err (failed_to_parse_chunk 0 incomplete_chunk)
    ∷ err (failed_to_parse_chunk 1 incomplete_chunk)
    ∷ []
