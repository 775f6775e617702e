-- ===== src/Visit/Nesting.antt =====
-- The calls that `parse_tokens` makes on its visitor.
use evtx.Prelude.{ℕ, ◌≡◌, subst, List, [], ◌∷◌}
use evtx.Foreign.{Foreign}
use evtx.Err.{ok}
use evtx.RecordModel.{XmlElement, BinXmlPi, XmlModel, create_record_model}
use evtx.Visit.{BinXmlOutput, walk, parse_tokens}
use evtx.Model.{Tokens, BinXmlValue}
use evtx.Name.{BinXmlName}
use evtx.Records.{EvtxChunk}
use evtx.Assemble.{expand_templates}
use evtx.Err.Bind.{bind-ok}

pub data Call (X : Foreign) : Type 0 where
  end_of_stream : Call X
  open_start_element : XmlElement X → Call X
  close_element : XmlElement X → Call X
  characters : BinXmlValue X → Call X
  entity_reference : BinXmlName → Call X
  processing_instruction : BinXmlPi → Call X
  start_of_stream : Call X

-- The visitor that writes its calls down, the last first.
abbrev pub trace : (X : Foreign) → BinXmlOutput X
trace X = record {
  State = List (Call X);
  visit_end_of_stream = λ s. ok (Call.end_of_stream ∷ s);
  visit_open_start_element = λ e s. ok (Call.open_start_element e ∷ s);
  visit_close_element = λ e s. ok (Call.close_element e ∷ s);
  visit_characters = λ v s. ok (Call.characters v ∷ s);
  visit_entity_reference = λ n s. ok (Call.entity_reference n ∷ s);
  visit_processing_instruction = λ p s. ok (Call.processing_instruction p ∷ s);
  visit_start_of_stream = λ s. ok (Call.start_of_stream ∷ s);
}

module _ {X : Foreign} where
  -- Calls, the last first, that open and close elements one inside the other; the stack has the
  -- elements that are open after them.
  pub data Nested : List (Call X) → List (XmlElement X) → Type 0 where
    before : Nested [] []
    started :
        {s : List (Call X)} {stack : List (XmlElement X)}
        → Nested s stack
        → Nested (Call.start_of_stream ∷ s) stack
    opened :
        {s : List (Call X)} {stack : List (XmlElement X)} {e : XmlElement X}
        → Nested s stack
        → Nested (Call.open_start_element e ∷ s) (e ∷ stack)
    closed :
        {s : List (Call X)} {stack : List (XmlElement X)} {e : XmlElement X}
        → Nested s (e ∷ stack)
        → Nested (Call.close_element e ∷ s) stack
    characters :
        {s : List (Call X)} {stack : List (XmlElement X)} {v : BinXmlValue X}
        → Nested s stack
        → Nested (Call.characters v ∷ s) stack
    entity_reference :
        {s : List (Call X)} {stack : List (XmlElement X)} {n : BinXmlName}
        → Nested s stack
        → Nested (Call.entity_reference n ∷ s) stack
    processing_instruction :
        {s : List (Call X)} {stack : List (XmlElement X)} {p : BinXmlPi}
        → Nested s stack
        → Nested (Call.processing_instruction p ∷ s) stack

  walk-Nested :
      (ms : List (XmlModel X)) (stack : List (XmlElement X)) (s : List (Call X))
      {s' : List (Call X)}
      → Nested s stack
      → walk (trace X) ms stack s ≡ ok s'
      → (stack' : List (XmlElement X)) × Nested s' stack'
  unfolding walk
  walk-Nested [] stack s n h = (stack, subst (λ t. Nested t stack) (cc) n)
  walk-Nested (XmlModel.open_element element ∷ ms) stack s n h =
      walk-Nested ms _ _ (Nested.opened n) h
  walk-Nested (XmlModel.close_element ∷ ms) [] s n h = absurd cc
  walk-Nested (XmlModel.close_element ∷ ms) (element ∷ stack) s n h =
      walk-Nested ms _ _ (Nested.closed n) h
  walk-Nested (XmlModel.value v ∷ ms) stack s n h = walk-Nested ms _ _ (Nested.characters n) h
  walk-Nested (XmlModel.end_of_stream ∷ ms) stack s n h = walk-Nested ms _ _ n h
  walk-Nested (XmlModel.start_of_stream ∷ ms) stack s n h = walk-Nested ms _ _ n h
  walk-Nested (XmlModel.pi p ∷ ms) stack s n h =
      walk-Nested ms _ _ (Nested.processing_instruction n) h
  walk-Nested (XmlModel.entity_ref entity ∷ ms) stack s n h =
      walk-Nested ms _ _ (Nested.entity_reference n) h

  -- When `parse_tokens` succeeds, the last call that the visitor gets is `visit_end_of_stream`, and
  -- in the calls before it each `visit_close_element` has the element that was opened last of those
  -- still open.
  pub parse_tokens-Nested :
      (chunk : EvtxChunk X) (fuel : ℕ) (tokens : Tokens X) {calls : List (Call X)}
      → parse_tokens (trace X) chunk fuel tokens [] ≡ ok calls
      → (body : List (Call X)) × (open' : List (XmlElement X)) × (calls ≡ Call.end_of_stream ∷ body)
        × Nested body open'
  unfolding parse_tokens
  parse_tokens-Nested chunk fuel tokens h =
      let (expanded, _, h1) = bind-ok (expand_templates chunk fuel tokens) _ h in
      let (model, _, h2) = bind-ok (create_record_model chunk expanded) _ h1 in
      let (body, e, h3) = bind-ok (walk (trace X) model [] (Call.start_of_stream ∷ [])) _ h2 in
      let (open', nested) = walk-Nested model [] _ (Nested.started Nested.before) e in
      (body, open', cc (h3), nested)
