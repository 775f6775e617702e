-- ===== src/Records/Run.antt =====
-- How `IterChunkRecords::next` moves on, and the loop of its callers.
use evtx.Prelude.{
  ltb, leb, leb→lt, Bool-cases, length, drop, ℕ, zero, suc, ◌+◌, ◌-◌, ◌≤◌, ◌<◌, ◌≡◌, refl, ap, ◌∙◌,
  ◌≢◌, ◌⊎◌, inl, inr, Bool, true, false, ◌||◌, Option, none, some, List, [], ◌∷◌, arith,
}
use evtx.Records.{
  EvtxChunk, EvtxRecord, IterChunkRecords, read_tokens, yield_record, yield_header, next_record,
}
use evtx.Foreign.{Foreign}
use evtx.Header.{EvtxRecordHeader, record_header}
use evtx.Err.{Outcome, ok, err, panic, out_of_fuel, DeserializationError, EvtxError}
use evtx.Model.{Tokens}
use evtx.Macros.Progress.{ForeignAdvances}
use evtx.Cursor.Progress.{Safe-ne-out_of_fuel}
use evtx.Header.Progress.{Stays-record_header}

-- A record, or an error that is yielded in its place: the loop goes on with the next.
abbrev pub Item : Foreign → Type 0
Item X = Outcome (EvtxError X) (EvtxRecord X)

module _ {X : Foreign} (chunk : EvtxChunk X) where
  abbrev pub header_at : ℕ → Outcome (DeserializationError X) (EvtxRecordHeader X × ℕ)
  header_at offset = record_header (drop offset chunk.bytes) 0

  abbrev add_item : Item X → Option (List (Item X)) → Option (List (Item X))
  add_item r none = none
  add_item r (some rs) = some (r ∷ rs)

  -- What the loop does with an answer of `next`: a panic ends it, and a record whose tokens have no end
  -- leaves it without one.
  unfoldable pub go_on :
      (IterChunkRecords → Option (List (Item X)))
      → Option (Item X × IterChunkRecords)
      → Option (List (Item X))
  go_on rest none = some []
  go_on rest (some (ok r, it')) = add_item (ok r) (rest it')
  go_on rest (some (err e, it')) = add_item (err e) (rest it')
  go_on rest (some (panic, it')) = some (panic ∷ [])
  go_on rest (some (out_of_fuel, it')) = none

  -- The items from `it` on, as `for record in chunk.iter()` gets them: the first argument bounds
  -- their number. `none` says that it does not suffice, or that a record is read for ever.
  unfoldable pub run_records : ℕ → IterChunkRecords → Option (List (Item X))
  run_records zero it = none
  run_records (suc f) it = go_on (λ it'. run_records f it') (next_record chunk it)

  -- The iterator is worn out, or it has moved on, or the iteration is over.
  pub data Later (it : IterChunkRecords) : Item X → IterChunkRecords → Type 0 where
    stopped :
        {r : Item X} {it' : IterChunkRecords}
        → r ≢ out_of_fuel
        → it'.exhausted ≡ true
        → Later it r it'
    moved :
        {r : Item X} {it' : IterChunkRecords}
        → r ≢ out_of_fuel
        → it.offset_from_chunk_start < it'.offset_from_chunk_start
        → Later it r it'
    crashed : {it' : IterChunkRecords} → Later it panic it'

  Later-ne :
      {it : IterChunkRecords} {r : Item X} {it' : IterChunkRecords}
      → Later it r it'
      → r ≢ out_of_fuel
  Later-ne (stopped ne h) = ne
  Later-ne (moved ne h) = ne
  Later-ne crashed = cc

  -- No record header before the free space claims a size of nothing.
  abbrev pub SizesPositive : Type 0
  SizesPositive =
      (offset : ℕ) (h : EvtxRecordHeader X) (at : ℕ)
      → offset < chunk.header.free_space_offset
      → header_at offset ≡ ok (h, at)
      → 0 < h.data_size

  -- The binary XML of each record before the free space is read to an end, or to an error.
  abbrev pub ReadsEnd : Type 0
  ReadsEnd =
      (offset : ℕ) (h : EvtxRecordHeader X) (at : ℕ)
      → offset < chunk.header.free_space_offset
      → header_at offset ≡ ok (h, at)
      → read_tokens chunk h (offset + at) ≢ out_of_fuel

  -- A record header is read without a loop.
  header_at-ne : ForeignAdvances X → (offset : ℕ) → header_at offset ≢ out_of_fuel
  header_at-ne forward offset =
      let buf = drop offset chunk.bytes in
      Safe-ne-out_of_fuel (
        (Stays-record_header {X = X} {f = suc (length buf)} {low = 0} forward).run buf 0
          (omega arith) (omega arith))

  record-Later :
      (it : IterChunkRecords) (h : EvtxRecordHeader X)
      (tokens : Outcome (EvtxError X) (Tokens X × ℕ))
      → 0 < h.data_size
      → tokens ≢ out_of_fuel
      → let (r, it') = yield_record chunk it h tokens in Later it r it'
  unfolding yield_record
  record-Later it h (ok (tokens, at)) pos_size ne = moved (λ h. cc) (omega arith)
  record-Later it h (err e) pos_size ne = moved (λ h. cc) (omega arith)
  record-Later it h panic pos_size ne = crashed
  record-Later it h out_of_fuel pos_size ne = absurd (ne refl)

  header-Later :
      (it : IterChunkRecords) (r : Outcome (DeserializationError X) (EvtxRecordHeader X × ℕ))
      → r ≢ out_of_fuel
      → ((h : EvtxRecordHeader X) (at : ℕ) → r ≡ ok (h, at) → 0 < h.data_size)
      → ((h : EvtxRecordHeader X) (at : ℕ)
          → r ≡ ok (h, at)
          → read_tokens chunk h (it.offset_from_chunk_start + at) ≢ out_of_fuel)
      → let (item, it') = yield_header chunk it r in Later it item it'
  unfolding yield_header
  header-Later it (ok (h, at)) ne sizes reads =
      record-Later it h _ (sizes h at refl) (reads h at refl)
  header-Later it (err e) ne sizes reads = stopped (λ h. cc) refl
  header-Later it panic ne sizes reads = crashed
  header-Later it out_of_fuel ne sizes reads = absurd (ne refl)

  or_false : {a b : ℕ} (exhausted : Bool) → exhausted || leb a b ≡ false → b < a
  or_false true h = cc
  or_false false h = leb→lt _ _ h

  next-Later :
      ForeignAdvances X
      → SizesPositive
      → ReadsEnd
      → (it : IterChunkRecords)
      → (next_record chunk it ≡ none)
        ⊎ ((item : Item X) × (it' : IterChunkRecords) × (next_record chunk it ≡ some (item, it'))
            × (it.offset_from_chunk_start < chunk.header.free_space_offset)
            × Later it item it')
  unfolding next_record
  next-Later forward sizes reads it =
      elim (Bool-cases
        (it.exhausted || leb chunk.header.free_space_offset it.offset_from_chunk_start)) [
          | inl done ↦ inl (rw done refl)
          | inr open' ↦ elim (Bool-cases (ltb (length chunk.bytes) it.offset_from_chunk_start)) [
            | inl far ↦ inr (panic, it, rw (open', far) refl, or_false it.exhausted open', crashed)
            | inr near ↦
                let inside = or_false it.exhausted open' in
                let answer = yield_header chunk it (header_at it.offset_from_chunk_start) in
                inr (
                  answer.0,
                  answer.1,
                  rw (open', near) refl,
                  inside,
                  header-Later it _ (header_at-ne forward it.offset_from_chunk_start)
                      (λ h at. sizes it.offset_from_chunk_start h at inside)
                      (λ h at. reads it.offset_from_chunk_start h at inside),
                )
          ]
        ]

  next-exhausted : (it : IterChunkRecords) → it.exhausted ≡ true → next_record chunk it ≡ none
  unfolding next_record
  next-exhausted it h = rw h refl

  run-next :
      (f : ℕ) (it : IterChunkRecords)
      → run_records (suc f) it ≡ go_on (λ it'. run_records f it') (next_record chunk it)
  unfolding run_records
  run-next f it = refl

  abbrev Ends : ℕ → Option (List (Item X)) → Type 0
  Ends n r = (rs : List (Item X)) × (r ≡ some rs) × (length rs ≤ n)

  add-Ends :
      {n : ℕ} (item : Item X) {r : Option (List (Item X))}
      → Ends n r
      → Ends (suc n) (add_item item r)
  add-Ends item (rs, e, h) = (item ∷ rs, rw e refl, omega arith)

  suc_of : (n : ℕ) → 0 < n → (m : ℕ) × (n ≡ suc m)
  suc_of zero h = absurd (omega arith)
  suc_of (suc m) h = (m, refl)

  exhausted-Ends :
      (f n : ℕ) (it : IterChunkRecords) → it.exhausted ≡ true → Ends n (run_records (suc f) it)
  unfolding run_records go_on
  exhausted-Ends f n it h = ([], rw (next-exhausted it h) refl, omega arith)

  -- The bytes that are left, and what the loop makes of them.
  abbrev pub left : IterChunkRecords → ℕ
  left it = chunk.header.free_space_offset - it.offset_from_chunk_start

  abbrev LoopEnds : ℕ → Type 0
  LoopEnds f = (it : IterChunkRecords) → left it < f → Ends (left it) (run_records f it)

  rest-Ends :
      (f : ℕ) (it : IterChunkRecords) {item : Item X} {it' : IterChunkRecords} {n : ℕ}
      → LoopEnds (suc f)
      → left it ≡ suc n
      → left it < suc (suc f)
      → item ≢ panic
      → Later it item it'
      → Ends n (run_records (suc f) it')
  rest-Ends f it loop some_left fuel np (stopped ne h) = exhausted-Ends f _ _ h
  rest-Ends f it {it' = it'} loop some_left fuel np (moved ne h) =
      let (rs, e, short) = loop it' (omega arith) in (rs, e, omega arith)
  rest-Ends f it loop some_left fuel np crashed = absurd (np refl)

  step-Ends :
      (f : ℕ) (it : IterChunkRecords) (item : Item X) {it' : IterChunkRecords} {n : ℕ}
      → LoopEnds (suc f)
      → left it ≡ suc n
      → left it < suc (suc f)
      → Later it item it'
      → Ends (suc n) (go_on (λ it''. run_records (suc f) it'') (some (item, it')))
  unfolding go_on
  step-Ends f it (ok r) loop some_left fuel later =
      add-Ends (ok r) (rest-Ends f it loop some_left fuel (λ h. cc) later)
  step-Ends f it (err e) loop some_left fuel later =
      add-Ends (err e) (rest-Ends f it loop some_left fuel (λ h. cc) later)
  step-Ends f it panic loop some_left fuel later = (panic ∷ [], refl, omega arith)
  step-Ends f it out_of_fuel loop some_left fuel later = absurd (Later-ne later refl)

  none-Ends :
      (f n : ℕ) (it : IterChunkRecords)
      → next_record chunk it ≡ none
      → Ends n (run_records (suc f) it)
  unfolding run_records go_on
  none-Ends f n it h = ([], rw h refl, omega arith)

  loop_ends : (f : ℕ) → ForeignAdvances X → SizesPositive → ReadsEnd → LoopEnds f
  loop_ends zero forward sizes reads it h = absurd (omega arith)
  loop_ends (suc zero) forward sizes reads it h = elim (next-Later forward sizes reads it) [
    | inl e ↦ none-Ends 0 _ it e
    | inr (item, it', e, inside, later) ↦ absurd (omega arith)
  ]
  loop_ends (suc (suc f)) forward sizes reads it h = elim (next-Later forward sizes reads it) [
    | inl e ↦ none-Ends (suc f) _ it e
    | inr (item, it', e, inside, later) ↦
        let (n, some_left) = suc_of (left it) (omega arith) in
        let (rs, e', short) =
          step-Ends f it item (loop_ends (suc f) forward sizes reads) some_left h later in
        (rs, run-next (suc f) it ∙ ap (go_on λ it''. run_records (suc f) it'') e ∙ e', omega arith)
  ]

  -- Where the readers of other packages move forward, no record header before the free space claims
  -- a size of nothing and the tokens of each record there are read within the model's fuel, iterating
  -- over the records of a chunk ends: one more round than there are bytes from the iterator's offset to the
  -- free space is enough, and there are at most as many items, errors included, as such bytes.
  pub run_records_ends :
      (it : IterChunkRecords)
      → ForeignAdvances X
      → SizesPositive
      → ReadsEnd
      → (rs : List (Item X)) × (run_records (suc (left it)) it ≡ some rs)
        × (length rs ≤ chunk.header.free_space_offset - it.offset_from_chunk_start)
  run_records_ends it forward sizes reads =
      loop_ends (suc (left it)) forward sizes reads it (omega arith)
