-- ===== src/Dump/Writes.antt =====
-- What src/bin/evtx_dump.rs writes.
use evtx.Prelude.{
  if◌then◌else◌, Bool-cases, Option-cases, Text, codes, ◌≡◌, refl, sym, ap, ◌∙◌, inl, inr, true,
  false, Option, List, [], ◌∷◌, ◌++◌,
}
use evtx.Foreign.{Foreign}
use evtx.Dump.{
  EvtxDump, Dumped, dumped, failed, exited, range_filter, and_dump, then_write, dump_record,
  dump_records,
}
use evtx.Serialize.{SerializedEvtxRecord}
use evtx.Err.{Outcome, ok, err, panic, out_of_fuel, EvtxError}
use evtx.Err.Bind.{okay}
use evtx.Display.{nat_to_string}

module _ {X : Foreign} where
  -- The lines of a record that the ranges take.
  abbrev pub record_lines : EvtxDump → SerializedEvtxRecord X Text → List Text
  record_lines d r =
      if range_filter d.ranges r.event_record_id
      then (if d.show_record_number
          then (codes "Record " ++ nat_to_string r.event_record_id) ∷ r.data' ∷ []
          else r.data' ∷ [])
      else []

  -- The lines of all records that are there.
  abbrev pub lines_of :
      EvtxDump → List (Outcome (EvtxError X) (SerializedEvtxRecord X Text)) → List Text
  lines_of d [] = []
  lines_of d (ok r ∷ rs) = record_lines d r ++ lines_of d rs
  lines_of d (_ ∷ rs) = lines_of d rs

  -- Records and errors, where the errors do not stop the program.
  pub data Dumpable (d : EvtxDump)
      : List (Outcome (EvtxError X) (SerializedEvtxRecord X Text)) → Type 0 where
    end_of_records : Dumpable d []
    record_next :
        {r : SerializedEvtxRecord X Text}
        {rs : List (Outcome (EvtxError X) (SerializedEvtxRecord X Text))}
        → Dumpable d rs
        → Dumpable d (ok r ∷ rs)
    error_next :
        {e : EvtxError X} {rs : List (Outcome (EvtxError X) (SerializedEvtxRecord X Text))}
        → d.stop_after_error ≡ false
        → Dumpable d rs
        → Dumpable d (err e ∷ rs)

module _ {W : Type 0} (write_line : Text → W → Option W) where
  -- The lines, one after another.
  abbrev pub write_lines : List Text → W → Dumped W
  write_lines [] w = dumped w
  write_lines (t ∷ ts) w = and_dump (then_write write_line (dumped w) t) λ w'. write_lines ts w'

  write_lines-append :
      (ts us : List Text) (w : W)
      → write_lines (ts ++ us) w ≡ and_dump (write_lines ts w) λ w'. write_lines us w'
  write_lines-append [] us w = refl
  write_lines-append (t ∷ ts) us w = elim (Option-cases (write_line t w)) [
    | inl e ↦ rw e refl
    | inr (w', e) ↦ rw e (write_lines-append ts us w')
  ]

  write_line-end :
      (t : Text) (r : Dumped W) → then_write write_line r t ≡ and_dump r λ w. write_lines (t ∷ []) w
  write_line-end t (dumped w) = elim (Option-cases (write_line t w)) [
    | inl e ↦ rw e refl
    | inr (w', e) ↦ rw e refl
  ]
  write_line-end t failed = refl
  write_line-end t (exited w) = refl

and_dump-cong :
    {W : Type 0} (r : Dumped W) {k k' : W → Dumped W}
    → ((w : W) → k w ≡ k' w)
    → and_dump r k ≡ and_dump r k'
and_dump-cong (dumped w) h = h w
and_dump-cong failed h = refl
and_dump-cong (exited w) h = refl

and_dump_assoc :
    {W : Type 0} (r : Dumped W) (k l : W → Dumped W)
    → and_dump (and_dump r k) l ≡ and_dump r λ w. and_dump (k w) l
and_dump_assoc (dumped w) k l = refl
and_dump_assoc failed k l = refl
and_dump_assoc (exited w) k l = refl

module _ {X : Foreign} {W : Type 0} (write_line : Text → W → Option W) where
  dump_record_stop :
      (d : EvtxDump) (e : EvtxError X) (w : W)
      → d.stop_after_error ≡ true
      → dump_record write_line d (err e) w ≡ exited w
  unfolding dump_record
  dump_record_stop d e w stop = rw stop refl

  dump_record_lem :
      (d : EvtxDump) (r : SerializedEvtxRecord X Text) (w : W)
      → dump_record write_line d (okay {E = EvtxError X} r) w
        ≡ write_lines write_line (record_lines d r) w
  unfolding dump_record
  dump_record_lem d r w = elim (Bool-cases (range_filter d.ranges r.event_record_id)) [
    | inl c ↦ elim (Bool-cases d.show_record_number) [
      | inl s ↦ rw (c, s) (write_line-end write_line r.data' _)
      | inr s ↦ rw (c, s) (write_line-end write_line r.data' (dumped w))
    ]
    | inr c ↦ rw c refl
  ]

  -- With `stop_after_error`, where no record before the first error panics, the lines of the records
  -- before it are written, in their order. If none of that fails, the process ends right there, with
  -- the output in the state that these lines have left; nothing behind the error is looked at.
  pub dump_records-stop :
      (d : EvtxDump) (rs rest : List (Outcome (EvtxError X) (SerializedEvtxRecord X Text)))
      (e : EvtxError X) (w : W)
      → Dumpable d rs
      → d.stop_after_error ≡ true
      → dump_records write_line d (rs ++ (err e ∷ rest)) w
        ≡ and_dump (write_lines write_line (lines_of d rs) w) exited
  unfolding dump_records
  dump_records-stop d [] rest e w h stop = rw (dump_record_stop d e w stop) refl
  dump_records-stop d (ok r ∷ rs) rest e w (record_next h) stop =
      ap (λ q. and_dump q λ w'. dump_records write_line d (rs ++ (err e ∷ rest)) w')
        (dump_record_lem d r w)
      ∙ and_dump-cong (write_lines write_line (record_lines d r) w)
          (λ w'. dump_records-stop d rs rest e w' h stop)
      ∙ sym (and_dump_assoc (write_lines write_line (record_lines d r) w) _ _)
      ∙ ap (λ q. and_dump q exited)
          (sym (write_lines-append write_line (record_lines d r) (lines_of d rs) w))
  dump_records-stop d (err e' ∷ rs) rest e w (error_next go h) stop = absurd (cc (go, stop))
  dump_records-stop d (panic ∷ rs) rest e w h stop = elim h [ ]
  dump_records-stop d (out_of_fuel ∷ rs) rest e w h stop = elim h [ ]
