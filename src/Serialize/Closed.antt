-- ===== src/Serialize/Closed.antt =====
-- What src/evtx_record.rs says of a record that it has serialized as JSON.
use evtx.Prelude.{Text, ℕ, ◌≡◌, refl, sym, ap, subst, Option, none, some, List, [], ◌∷◌}
use evtx.Foreign.{Foreign}
use evtx.SerdeJson.{SerdeJson}
use evtx.Visit.{parse_tokens}
use evtx.Display.{Display}
use evtx.Serialize.{SerializedEvtxRecord, serialize_as, into_output, into_json_value, into_json}
use evtx.Records.{EvtxChunk, EvtxRecord}
use evtx.Err.{ok, SerializationError, json_error, failed_to_parse_record}
use evtx.Json.{new_output, into_value}
use evtx.Visit.Nesting.{Call, trace, Nested}
use evtx.Err.Bind.{bind-ok, ok-injective, map_err-ok}
use evtx.Json.Visitor.{json_output}
use evtx.Json.Depth.{into_value-map, parse_tokens-depth}

module _ {X : Foreign} where
  serialize_as-event_record_id :
      (r : EvtxRecord X) (e : SerializationError) (o : Option Text)
      {j : SerializedEvtxRecord X Text}
      → serialize_as r e o ≡ ok j
      → j.event_record_id ≡ r.event_record_id
  serialize_as-event_record_id r e none h = absurd cc
  serialize_as-event_record_id r e (some t) h = ap (λ q. q.event_record_id) (sym (ok-injective h))

module _ {X : Foreign} (J : SerdeJson X) (D : Display X) (unescape : Text → Option Text) where
  -- Where the visitor that only writes down its calls gets through a record's tokens, and the
  -- record becomes JSON: it keeps its number, and every element that was opened in it was closed.
  pub into_json-closed :
      (chunk : EvtxChunk X) (fuel : ℕ) (r : EvtxRecord X) {calls : List (Call X)}
      {j : SerializedEvtxRecord X Text}
      → parse_tokens (trace X) chunk fuel r.tokens [] ≡ ok calls
      → into_json J D unescape chunk fuel r ≡ ok j
      → (body : List (Call X)) × (calls ≡ Call.end_of_stream ∷ body)
        × Nested body []
        × (j.event_record_id ≡ r.event_record_id)
  unfolding into_json into_json_value into_output new_output
  into_json-closed chunk fuel r t h =
      let s0 = new_output J chunk.settings in
      let (jv, h1, h2) = bind-ok (into_json_value J D unescape chunk fuel r) _ h in
      let (s1, h3, h4) = bind-ok (into_output (json_output J D unescape) chunk fuel r s0) _ h1 in
      let (v, h5, h6) = bind-ok (into_value J s1) _ h4 in
      let parsed = map_err-ok (failed_to_parse_record r.event_record_id) _ h3 in
      let (body, open', same, nested, depth, closed) =
        parse_tokens-depth J D unescape chunk fuel r.tokens s0 s1 refl t parsed in
      let all = closed.0 (into_value-map J D s1 h5) in
      (body, same, subst (Nested body) all nested, serialize_as-event_record_id r json_error _ h2)
