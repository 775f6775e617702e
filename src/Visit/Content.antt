-- ===== src/Visit/Content.antt =====
-- `parse_tokens` of src/binxml/assemble.rs hands the record model to the visitor, in its order and
-- without a loss.
use evtx.Prelude.{ℕ, ◌≡◌, sym, ap, ◌∙◌, List, [], ◌∷◌, ◌++◌, append_assoc, append-nil}
use evtx.Foreign.{Foreign}
use evtx.Err.{ok}
use evtx.RecordModel.{XmlElement, XmlModel, create_record_model}
use evtx.Visit.{walk, parse_tokens}
use evtx.Visit.Nesting.{Call, trace}
use evtx.Model.{Token, Tokens}
use evtx.Records.{EvtxChunk}
use evtx.Assemble.{expand_templates}
use evtx.Err.Bind.{bind-ok, ok-injective}

module _ {X : Foreign} where
  -- What a call tells of the record model: an element that is closed is not named there.
  abbrev pub told : Call X → List (XmlModel X)
  told Call.end_of_stream = []
  told (Call.open_start_element e) = XmlModel.open_element e ∷ []
  told (Call.close_element e) = XmlModel.close_element ∷ []
  told (Call.characters v) = XmlModel.value v ∷ []
  told (Call.entity_reference n) = XmlModel.entity_ref n ∷ []
  told (Call.processing_instruction p) = XmlModel.pi p ∷ []
  told Call.start_of_stream = []

  -- What calls tell, of which the last is the list's head, in their order.
  abbrev pub all_told : List (Call X) → List (XmlModel X)
  all_told [] = []
  all_told (c ∷ cs) = all_told cs ++ told c

  -- A record model without the marks of the stream's ends.
  abbrev pub content : List (XmlModel X) → List (XmlModel X)
  content [] = []
  content (XmlModel.end_of_stream ∷ ms) = content ms
  content (XmlModel.start_of_stream ∷ ms) = content ms
  content (m ∷ ms) = m ∷ content ms

  walk-content :
      (ms : List (XmlModel X)) (stack : List (XmlElement X)) (s : List (Call X))
      {s' : List (Call X)}
      → walk (trace X) ms stack s ≡ ok s'
      → all_told s' ≡ all_told s ++ content ms
  unfolding walk
  walk-content [] stack s h = ap all_told (sym (ok-injective h)) ∙ sym (append-nil (all_told s))
  walk-content (XmlModel.open_element e ∷ ms) stack s h =
      walk-content ms _ (Call.open_start_element e ∷ s) h
      ∙ append_assoc (all_told s) (XmlModel.open_element e ∷ []) (content ms)
  walk-content (XmlModel.close_element ∷ ms) [] s h = absurd cc
  walk-content (XmlModel.close_element ∷ ms) (e ∷ stack) s h =
      walk-content ms _ (Call.close_element e ∷ s) h
      ∙ append_assoc (all_told s) (XmlModel.close_element ∷ []) (content ms)
  walk-content (XmlModel.value v ∷ ms) stack s h =
      walk-content ms _ (Call.characters v ∷ s) h
      ∙ append_assoc (all_told s) (XmlModel.value v ∷ []) (content ms)
  walk-content (XmlModel.end_of_stream ∷ ms) stack s h = walk-content ms _ s h
  walk-content (XmlModel.start_of_stream ∷ ms) stack s h = walk-content ms _ s h
  walk-content (XmlModel.pi p ∷ ms) stack s h =
      walk-content ms _ (Call.processing_instruction p ∷ s) h
      ∙ append_assoc (all_told s) (XmlModel.pi p ∷ []) (content ms)
  walk-content (XmlModel.entity_ref n ∷ ms) stack s h =
      walk-content ms _ (Call.entity_reference n ∷ s) h
      ∙ append_assoc (all_told s) (XmlModel.entity_ref n ∷ []) (content ms)

  -- When `parse_tokens` succeeds, the expanded tokens have a record model, and the calls that the
  -- visitor gets are its elements, values, references and instructions, each once and in their
  -- order, with nothing left out.
  pub parse_tokens-content :
      (chunk : EvtxChunk X) (fuel : ℕ) (tokens : Tokens X) {calls : List (Call X)}
      → parse_tokens (trace X) chunk fuel tokens [] ≡ ok calls
      → (expanded : List (Token X)) × (model : List (XmlModel X)) × (expand_templates chunk fuel
            tokens
          ≡ ok expanded)
        × (create_record_model chunk expanded ≡ ok model)
        × (all_told calls ≡ content model)
  unfolding parse_tokens
  parse_tokens-content chunk fuel tokens h =
      let (expanded, e1, h1) = bind-ok (expand_templates chunk fuel tokens) _ h in
      let (model, e2, h2) = bind-ok (create_record_model chunk expanded) _ h1 in
      let (body, e3, h3) = bind-ok (walk (trace X) model [] (Call.start_of_stream ∷ [])) _ h2 in
      let told_last = append-nil (all_told body) in
      (
        expanded,
        model,
        e1,
        e2,
        ap all_told (sym (ok-injective h3))
            ∙ told_last
            ∙ walk-content model [] (Call.start_of_stream ∷ []) e3,
      )
