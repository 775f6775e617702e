-- ===== src/Visit/Replay.antt =====
-- A visitor is driven by the calls that `trace` writes down.
use evtx.Prelude.{ℕ, ◌≡◌, ap, ◌∙◌, List, [], ◌∷◌}
use evtx.Err.{Outcome, ok, EvtxError, bind}
use evtx.RecordModel.{XmlElement, XmlModel, create_record_model}
use evtx.Visit.{BinXmlOutput, walk, parse_tokens}
use evtx.Visit.Nesting.{Call, trace}
use evtx.Foreign.{Foreign}
use evtx.Records.{EvtxChunk}
use evtx.Model.{Tokens}
use evtx.Assemble.{expand_templates}
use evtx.Err.Bind.{bind_assoc, bind_ok, bind-ok}

module _ {X : Foreign} (visitor : BinXmlOutput X) where
  open visitor use {
    State, visit_end_of_stream, visit_open_start_element, visit_close_element, visit_characters,
    visit_entity_reference, visit_processing_instruction, visit_start_of_stream,
  }

  abbrev pub act : Call X → State → Outcome (EvtxError X) State
  act Call.end_of_stream s = visit_end_of_stream s
  act (Call.open_start_element e) s = visit_open_start_element e s
  act (Call.close_element e) s = visit_close_element e s
  act (Call.characters v) s = visit_characters v s
  act (Call.entity_reference n) s = visit_entity_reference n s
  act (Call.processing_instruction p) s = visit_processing_instruction p s
  act Call.start_of_stream s = visit_start_of_stream s

  -- The calls, of which the last is the list's head, in their order.
  abbrev pub replay : List (Call X) → State → Outcome (EvtxError X) State
  replay [] s = ok s
  replay (c ∷ cs) s = bind (replay cs s) λ s'. act c s'

  walk-replay :
      (ms : List (XmlModel X)) (stack : List (XmlElement X)) (calls : List (Call X))
      {calls' : List (Call X)} (s : State)
      → walk (trace X) ms stack calls ≡ ok calls'
      → bind (replay calls s) (λ s'. walk visitor ms stack s') ≡ replay calls' s
  unfolding walk
  walk-replay [] stack calls {calls' = calls'} s h =
      let same : calls ≡ calls' = cc in bind_ok _ ∙ ap (λ c. replay c s) same
  walk-replay (XmlModel.open_element element ∷ ms) stack calls s h =
      bind_assoc (replay calls s) _ _
      ∙ walk-replay ms _ (Call.open_start_element element ∷ calls) s h
  walk-replay (XmlModel.close_element ∷ ms) [] calls s h = absurd cc
  walk-replay (XmlModel.close_element ∷ ms) (element ∷ stack) calls s h =
      bind_assoc (replay calls s) _ _ ∙ walk-replay ms _ (Call.close_element element ∷ calls) s h
  walk-replay (XmlModel.value v ∷ ms) stack calls s h =
      bind_assoc (replay calls s) _ _ ∙ walk-replay ms _ (Call.characters v ∷ calls) s h
  walk-replay (XmlModel.end_of_stream ∷ ms) stack calls s h = walk-replay ms _ calls s h
  walk-replay (XmlModel.start_of_stream ∷ ms) stack calls s h = walk-replay ms _ calls s h
  walk-replay (XmlModel.pi p ∷ ms) stack calls s h =
      bind_assoc (replay calls s) _ _ ∙ walk-replay ms _ (Call.processing_instruction p ∷ calls) s h
  walk-replay (XmlModel.entity_ref entity ∷ ms) stack calls s h =
      bind_assoc (replay calls s) _ _ ∙ walk-replay ms _ (Call.entity_reference entity ∷ calls) s h

  -- Where the visitor that only writes down its calls gets through, `parse_tokens` does with any
  -- visitor what those calls do one after another, up to the visitor's first error.
  pub parse_tokens-replay :
      (chunk : EvtxChunk X) (fuel : ℕ) (tokens : Tokens X) {calls : List (Call X)} (s : State)
      → parse_tokens (trace X) chunk fuel tokens [] ≡ ok calls
      → parse_tokens visitor chunk fuel tokens s ≡ replay calls s
  unfolding parse_tokens
  parse_tokens-replay chunk fuel tokens {calls = calls} s h =
      let (expanded, e1, h1) = bind-ok (expand_templates chunk fuel tokens) _ h in
      let (model, e2, h2) = bind-ok (create_record_model chunk expanded) _ h1 in
      let (body, e3, h3) = bind-ok (walk (trace X) model [] (Call.start_of_stream ∷ [])) _ h2 in
      let same : Call.end_of_stream ∷ body ≡ calls = cc h3 in
      rw (e1, e2)
        (bind_assoc (visit_start_of_stream s) _ _
          ∙ ap (λ r. bind r visit_end_of_stream) (walk-replay model [] _ s e3)
          ∙ ap (λ c. replay c s) same)
