-- ===== src/Visit.antt =====
-- `BinXmlOutput` of src/xml_output.rs and the walk of `parse_tokens` in src/binxml/assemble.rs. The
-- visitor is a parameter: a state with one action for each call that `parse_tokens` makes.
pub mod Nesting
pub mod Replay
pub mod Content
use evtx.Prelude.{ℕ, List, [], ◌∷◌}
use evtx.Foreign.{Foreign}
use evtx.Err.{Outcome, ok, EvtxError, bind}
use evtx.Model.{Tokens, BinXmlValue}
use evtx.Name.{BinXmlName}
use evtx.Records.{EvtxChunk}
use evtx.Assemble.{expand_templates}
use evtx.RecordModel.{XmlElement, BinXmlPi, XmlModel, create_error, create_record_model}

pub record BinXmlOutput (X : Foreign) : Type 1 where
  pub State : Type 0
  pub visit_end_of_stream : State → Outcome (EvtxError X) State
  pub visit_open_start_element : XmlElement X → State → Outcome (EvtxError X) State
  pub visit_close_element : XmlElement X → State → Outcome (EvtxError X) State
  pub visit_characters : BinXmlValue X → State → Outcome (EvtxError X) State
  pub visit_entity_reference : BinXmlName → State → Outcome (EvtxError X) State
  pub visit_processing_instruction : BinXmlPi → State → Outcome (EvtxError X) State
  pub visit_start_of_stream : State → Outcome (EvtxError X) State

module _ {X : Foreign} (visitor : BinXmlOutput X) where
  open visitor use {
    State, visit_end_of_stream, visit_open_start_element, visit_close_element, visit_characters,
    visit_entity_reference, visit_processing_instruction, visit_start_of_stream,
  }

  -- The loop of `parse_tokens` over the record model. The stack's top is its head.
  unfoldable pub walk :
      List (XmlModel X) → List (XmlElement X) → State → Outcome (EvtxError X) State
  walk [] stack s = ok s
  walk (XmlModel.open_element element ∷ ms) stack s =
      bind (visit_open_start_element element s) λ s'. walk ms (element ∷ stack) s'
  walk (XmlModel.close_element ∷ ms) [] s =
      create_error "Invalid parser state - expected stack to be non-empty"
  walk (XmlModel.close_element ∷ ms) (element ∷ stack) s =
      bind (visit_close_element element s) λ s'. walk ms stack s'
  walk (XmlModel.value v ∷ ms) stack s = bind (visit_characters v s) λ s'. walk ms stack s'
  walk (XmlModel.end_of_stream ∷ ms) stack s = walk ms stack s
  walk (XmlModel.start_of_stream ∷ ms) stack s = walk ms stack s
  walk (XmlModel.pi p ∷ ms) stack s = bind (visit_processing_instruction p s) λ s'. walk ms stack s'
  walk (XmlModel.entity_ref entity ∷ ms) stack s =
      bind (visit_entity_reference entity s) λ s'. walk ms stack s'

  unfoldable pub parse_tokens : EvtxChunk X → ℕ → Tokens X → State → Outcome (EvtxError X) State
  unfolding walk expand_templates create_record_model
  parse_tokens chunk fuel tokens s = bind (expand_templates chunk fuel tokens) λ expanded_tokens.
      bind (create_record_model chunk expanded_tokens) λ record_model.
        bind (visit_start_of_stream s)
          λ started. bind (walk record_model [] started) λ walked. visit_end_of_stream walked
