-- ===== src/Dump/Cli/Options.antt =====
-- What the options of src/bin/evtx_dump.rs decide.
use evtx.Prelude.{
  Bool-cases, Text, codes, text_eq, ℕ, ◌≡◌, refl, sym, ap, ◌∙◌, ◌⊎◌, inl, inr, Bool, true, false,
  not, Option, none, some, List,
}
use evtx.Dump.Cli.{
  ArgMatches, FileSystem, output_format_of, or_jsonl, create_confirmed, create_in,
  create_output_file, Output, event_ranges_of, codec_or_panic, output_of, from_cli_matches,
}
use evtx.Foreign.{Foreign}
use evtx.Settings.{ParserSettings, with_ansi_codec, with_indent}
use evtx.Dump.{EvtxOutputFormat, EvtxDump}
use evtx.Err.{ok}
use evtx.Err.Bind.{bind-ok, ok-injective}

create_confirmed-some :
    {F : Type 0} (fs : FileSystem F) (p : Text) (answer : Option Bool) {f : F}
    → create_confirmed fs p answer ≡ some f
    → (fs.create p ≡ some f) × (answer ≡ some true)
unfolding create_confirmed
create_confirmed-some fs p none h = absurd cc
create_confirmed-some fs p (some true) h = (h, refl)
create_confirmed-some fs p (some false) h = absurd cc

create_in-some :
    {F : Type 0} (fs : FileSystem F) (p : Text) (dir : Option Text) {f : F}
    → create_in fs p dir ≡ some f
    → fs.create p ≡ some f
unfolding create_in
create_in-some fs p none h = absurd cc
create_in-some fs p (some dir) h = elim (Bool-cases (fs.exists dir)) [
  | inl c ↦ rw c at h
  | inr c ↦ elim (Bool-cases (fs.create_dir_all dir)) [
    | inl d ↦ rw (c, d) at h
    | inr d ↦ absurd (cc (rw (c, d) at h))
  ]
]

-- An output file is only created where no directory is, and, where a file is, only after the user
-- has agreed or without a prompt.
pub create_output_file-some :
    {F : Type 0} (fs : FileSystem F) (p : Text) (prompt : Bool) {f : F}
    → create_output_file fs p prompt ≡ some f
    → (fs.create p ≡ some f)
      × (fs.is_dir p ≡ false)
      × ((fs.exists p ≡ false) ⊎ ((prompt ≡ false) ⊎ (fs.interact ≡ some true)))
unfolding create_output_file
create_output_file-some fs p prompt h = elim (Bool-cases (fs.is_dir p)) [
  | inl d ↦ absurd (cc (rw d at h))
  | inr d ↦ elim (Bool-cases (fs.exists p)) [
    | inr e ↦ (create_in-some fs p (fs.parent p) (rw (d, e) at h), d, inl e)
    | inl e ↦ elim (Bool-cases prompt) [
      | inr q ↦ (rw (d, e, q) at h, d, inr (inl q))
      | inl q ↦
          let (created, agreed) = create_confirmed-some fs p fs.interact (rw (d, e, q) at h) in
          (created, d, inr (inr agreed))
    ]
  ]
]

event_ranges_of-none :
    {E : Type 0} (s : Option Text) {ranges : Option (List (ℕ × ℕ))}
    → event_ranges_of {E = E} s ≡ ok ranges
    → ranges ≡ none
unfolding event_ranges_of
event_ranges_of-none none h = sym (ok-injective h)
event_ranges_of-none (some s) h = absurd cc

or_jsonl-jsonl : {fmt : Text} → fmt ≡ codes "jsonl" → (flag : Bool) → or_jsonl flag fmt ≡ true
unfolding or_jsonl text_eq
or_jsonl-jsonl h true = refl
or_jsonl-jsonl h false = ap (λ t. text_eq t (codes "jsonl")) h

module _ {X : Foreign} {F : Type 0} (fs : FileSystem F) where
  -- With the format `jsonl`, whatever the flags are: if the program starts, it writes JSON without
  -- indentation and without record numbers, and the records are not filtered.
  pub from_cli_matches-jsonl :
      (encodings : Text → Option X.Codec) (current_num_threads : ℕ) (windows_1252 : X.Codec)
      (matches : ArgMatches) {d : EvtxDump} {s : ParserSettings X} {o : Output F}
      → matches.output_format ≡ codes "jsonl"
      → from_cli_matches fs encodings current_num_threads windows_1252 matches ≡ ok (d, s, o)
      → (d.output_format ≡ EvtxOutputFormat.json)
        × (d.show_record_number ≡ false)
        × (s.indent ≡ false)
        × (d.ranges ≡ none)
  unfolding from_cli_matches output_format_of with_ansi_codec with_indent text_eq
  from_cli_matches-jsonl encodings current_num_threads windows_1252 matches h e =
      let (ranges, e0, e1) = bind-ok (event_ranges_of matches.event_ranges) _ e in
      let (codec, _, e2) = bind-ok (codec_or_panic (encodings matches.ansi_codec)) _ e1 in
      let (output, _, e3) = bind-ok (output_of fs matches matches.output_target) _ e2 in
      let same = ok-injective e3 in
      let set = or_jsonl-jsonl h in
      (
        ap (λ t. t.0.output_format) (sym same) ∙ ap output_format_of h,
        ap (λ t. t.0.show_record_number) (sym same) ∙ ap not (set matches.no_show_record_number),
        ap (λ t. t.1.indent) (sym same) ∙ ap not (set matches.no_indent),
        ap (λ t. t.0.ranges) (sym same) ∙ event_ranges_of-none matches.event_ranges e0,
      )
