-- ===== src/Records/Stuck.antt =====
-- A record header of size nothing keeps `IterChunkRecords` where it is.
use evtx.Prelude.{
  ltb, leb, ◌==◌, if◌then◌else◌, length, ℕ, ◌+◌, ◌≤◌, ◌<◌, ◌≡◌, refl, ap, ◌∙◌, ◌≢◌, Bool, true,
  false, none, some, arith,
}
use evtx.Records.{EvtxChunk, IterChunkRecords, read_tokens, yield_record, yield_header, next_record}
use evtx.Records.Run.{Item, header_at}
use evtx.Foreign.{Foreign}
use evtx.Header.{EvtxRecordHeader}
use evtx.Err.{Outcome, ok, err, panic, out_of_fuel, EvtxError}
use evtx.Model.{Tokens}

module _ {X : Foreign} (chunk : EvtxChunk X) where
  gates :
      {A : Type 0} (a b : Bool) (x y : A)
      → a ≡ false
      → b ≡ false
      → (if a then none else if b then some x else some y) ≡ some y
  gates false false x y h k = refl
  gates false true x y h k = cc
  gates true b x y h k = cc

  no_move : (it : IterChunkRecords) → it.offset_from_chunk_start + 0 ≡ it.offset_from_chunk_start
  no_move it = omega arith

  -- The iterator after a record of size nothing.
  stuck_record :
      (it : IterChunkRecords) (h : EvtxRecordHeader X)
      (tokens : Outcome (EvtxError X) (Tokens X × ℕ))
      → h.data_size ≡ 0
      → (chunk.header.last_event_record_id == h.event_record_id) ≡ false
      → (yield_record chunk it h tokens).1 ≡ it
  unfolding yield_record
  stuck_record it h (ok (tokens, at)) size last = rw (size, last, no_move it) refl
  stuck_record it h (err e) size last = rw (size, no_move it) refl
  stuck_record it h panic size last = refl
  stuck_record it h out_of_fuel size last = refl

  -- Where an iterator that is not exhausted stands in the data before the free space, at a record
  -- header of size nothing whose record is not the chunk's last, it yields an item and is
  -- unchanged: the next round starts from the same state.
  pub next_record-stuck :
      (it : IterChunkRecords) (h : EvtxRecordHeader X) (at : ℕ)
      → it.exhausted ≡ false
      → it.offset_from_chunk_start < chunk.header.free_space_offset
      → it.offset_from_chunk_start ≤ length chunk.bytes
      → header_at chunk it.offset_from_chunk_start ≡ ok (h, at)
      → h.data_size ≡ 0
      → chunk.header.last_event_record_id ≢ h.event_record_id
      → (item : Item X) × (next_record chunk it ≡ some (item, it))
  unfolding next_record yield_header
  next_record-stuck it h at open' inside near e size last =
      let answer =
        yield_record chunk it h (read_tokens chunk h (it.offset_from_chunk_start + at)) in
      let beyond : leb chunk.header.free_space_offset it.offset_from_chunk_start ≡ false =
        ground arith in
      let reaches : ltb (length chunk.bytes) it.offset_from_chunk_start ≡ false = ground arith in
      let other : (chunk.header.last_event_record_id == h.event_record_id) ≡ false = ground arith in
      (
        answer.0,
        gates _ _ _ _ (rw open' beyond) reaches
            ∙ ap (λ r. some (yield_header chunk it r)) e
            ∙ ap (λ it'. some (answer.0, it')) (stuck_record it h _ size other),
      )
