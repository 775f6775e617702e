-- ===== src/Dump.antt =====
-- The program of src/bin/evtx_dump.rs: event ranges, and the writing of the records. The output is a
-- parameter: a state to which a line is written, or the writing fails. Messages for the user and
-- the command line are left out.
pub mod Run
pub mod Ranges
pub mod Cli
pub mod Writes
use evtx.Prelude.{
  ltb, leb, ◌==◌, if◌then◌else◌, Text, codes, ℕ, ◌+◌, ◌-◌, ◌*◌, ◌^◌, Bool, true, false, ◌&&◌, ◌||◌,
  Option, none, some, List, [], ◌∷◌, ◌++◌,
}
use evtx.Foreign.{Foreign}
use evtx.Err.{Outcome, ok, err, panic, out_of_fuel, EvtxError}
use evtx.Serialize.{SerializedEvtxRecord}
use evtx.Display.{nat_to_string}

pub data EvtxOutputFormat : Type 0 where
  json : EvtxOutputFormat
  xml : EvtxOutputFormat

-- The fields that decide what is written.
pub record EvtxDump : Type 0 where
  pub show_record_number : Bool
  pub output_format : EvtxOutputFormat
  pub stop_after_error : Bool
  pub ranges : Option (List (ℕ × ℕ))

-- The output so far, an error, or the end of the process with status 1. `process::exit` runs no
-- destructors: the output is left in the state that it had, and what its buffer holds is not flushed.
pub data Dumped (W : Type 0) : Type 0 where
  dumped : W → Dumped W
  failed : Dumped W
  exited : W → Dumped W

-- `range.contains(number)` of an inclusive range
abbrev pub range_contains : ℕ × ℕ → ℕ → Bool
range_contains (start, stop) number = leb start number && leb number stop

-- `Ranges::contains`
unfoldable pub ranges_contains : List (ℕ × ℕ) → ℕ → Bool
ranges_contains [] number = false
ranges_contains (r ∷ rs) number = range_contains r number || ranges_contains rs number

-- `str::split(separator)`: one piece more than there are separators
abbrev add_to_first : ℕ → List Text → List Text
add_to_first c [] = (c ∷ []) ∷ []
add_to_first c (t ∷ ts) = (c ∷ t) ∷ ts

unfoldable pub split : ℕ → Text → List Text
split separator [] = [] ∷ []
split separator (c ∷ cs) =
    let rest = split separator cs in if c == separator then [] ∷ rest else add_to_first c rest

abbrev pub is_digit : ℕ → Bool
is_digit c = leb 48 c && ltb c 58

-- The digits of `parse::<usize>()` after the number `acc`; a number beyond 64 bits is an error.
unfoldable pub parse_digits : ℕ → Text → Option ℕ
parse_digits acc [] = some acc
parse_digits acc (c ∷ cs) =
    let acc' = acc * 10 + (c - 48) in
    let rest = parse_digits acc' cs in if is_digit c && ltb acc' (2 ^ 64) then rest else none

-- `parse::<usize>()`, which takes a plus sign
unfoldable pub parse_usize : Text → Option ℕ
unfolding parse_digits
parse_usize [] = none
parse_usize (c ∷ []) = parse_digits 0 (c ∷ [])
parse_usize (c ∷ d ∷ ds) =
    let whole = parse_digits 0 (c ∷ d ∷ ds) in
    let signed = parse_digits 0 (d ∷ ds) in if c == 43 then signed else whole

abbrev both : Option ℕ → Option ℕ → Option (ℕ × ℕ)
both (some start) (some stop) = some (start, stop)
both _ _ = none

-- The range of the pieces between dashes.
unfoldable pub range_of_numbers : List Text → Option (ℕ × ℕ)
unfolding parse_usize
range_of_numbers (rstart ∷ rstop ∷ []) = both (parse_usize rstart) (parse_usize rstop)
range_of_numbers _ = none

abbrev single : Option ℕ → Option (ℕ × ℕ)
single none = none
single (some r) = some (r, r)

abbrev pub contains_char : ℕ → Text → Bool
contains_char c [] = false
contains_char c (d ∷ ds) = (d == c) || contains_char c ds

unfoldable pub range_from_str : Text → Option (ℕ × ℕ)
unfolding range_of_numbers split parse_usize
range_from_str range =
    if contains_char 45 range then range_of_numbers (split 45 range) else single (parse_usize range)

abbrev add_range : Option (ℕ × ℕ) → Option (List (ℕ × ℕ)) → Option (List (ℕ × ℕ))
add_range (some r) (some rs) = some (r ∷ rs)
add_range _ _ = none

unfoldable pub ranges_of : List Text → Option (List (ℕ × ℕ))
unfolding range_from_str
ranges_of [] = some []
ranges_of (t ∷ ts) = add_range (range_from_str t) (ranges_of ts)

-- `Ranges::from_str`; an error is `none`.
unfoldable pub ranges_from_str : Text → Option (List (ℕ × ℕ))
unfolding ranges_of split
ranges_from_str s = ranges_of (split 44 s)

-- `matches_ranges`
unfoldable pub matches_ranges : Text → Bool
unfolding ranges_from_str
matches_ranges value = elim (ranges_from_str value) [ none ↦ false | some _ ↦ true ]

abbrev pub range_filter : Option (List (ℕ × ℕ)) → ℕ → Bool
range_filter none id = true
range_filter (some ranges) id = ranges_contains ranges id

module _ {W : Type 0} where
  abbrev pub and_dump : Dumped W → (W → Dumped W) → Dumped W
  and_dump (dumped w) k = k w
  and_dump failed k = failed
  and_dump (exited w) k = exited w

  abbrev written : Option W → Dumped W
  written none = failed
  written (some w) = dumped w

-- `writeln!(...)?`
abbrev pub then_write : {W : Type 0} → (Text → W → Option W) → Dumped W → Text → Dumped W
then_write write_line r t = and_dump r λ w. written (write_line t w)

module _ {X : Foreign} {W : Type 0} (write_line : Text → W → Option W) where
  -- `dump_record`. A record that panics ends the program.
  unfoldable pub dump_record :
      EvtxDump → Outcome (EvtxError X) (SerializedEvtxRecord X Text) → W → Dumped W
  unfolding ranges_contains
  dump_record d (ok r) w =
      if range_filter d.ranges r.event_record_id
      then then_write write_line
          (if d.show_record_number
            then then_write write_line (dumped w)
                (codes "Record " ++ nat_to_string r.event_record_id)
            else dumped w)
          r.data'
      else dumped w
  dump_record d (err e) w = if d.stop_after_error then exited w else dumped w
  dump_record d panic w = failed
  dump_record d out_of_fuel w = failed

  -- The loop of `run` over the records.
  unfoldable pub dump_records :
      EvtxDump → List (Outcome (EvtxError X) (SerializedEvtxRecord X Text)) → W → Dumped W
  unfolding dump_record
  dump_records d [] w = dumped w
  dump_records d (r ∷ rs) w = and_dump (dump_record d r w) λ w'. dump_records d rs w'
