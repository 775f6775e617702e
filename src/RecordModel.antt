-- ===== src/RecordModel.antt =====
-- src/model/xml.rs, `create_record_model` and `parse_tokens` of src/binxml/assemble.rs.
pub mod Attributes
use evtx.Prelude.{Text, String, Option, none, some, List, [], ◌∷◌, ◌++◌}
use evtx.Foreign.{Foreign}
use evtx.Err.{Outcome, ok, err, EvtxError, failed_to_create_record_model, bind}
use evtx.Model.{BinXmlNameRef, Token, BinXmlValue}
use evtx.Name.{BinXmlName}
use evtx.Records.{EvtxChunk}
use evtx.Assemble.{expand_string_ref}

pub record XmlAttribute (X : Foreign) : Type 0 where
  pub name : BinXmlName
  pub value : BinXmlValue X

pub record XmlElement (X : Foreign) : Type 0 where
  pub name : BinXmlName
  pub attributes : List (XmlAttribute X)

pub record BinXmlPi : Type 0 where
  pub name : BinXmlName
  pub text : Text

pub data XmlModel (X : Foreign) : Type 0 where
  open_element : XmlElement X → XmlModel X
  close_element : XmlModel X
  pi : BinXmlPi → XmlModel X
  entity_ref : BinXmlName → XmlModel X
  value : BinXmlValue X → XmlModel X
  end_of_stream : XmlModel X
  start_of_stream : XmlModel X

pub record XmlElementBuilder (X : Foreign) : Type 0 where
  pub name : Option BinXmlName
  pub attributes : List (XmlAttribute X)
  pub current_attribute_name : Option BinXmlName
  pub current_attribute_value : Option (BinXmlValue X)

abbrev pub create_error : {X : Foreign} {A : Type 0} → String → Outcome (EvtxError X) A
create_error message = err (failed_to_create_record_model message)

module _ {X : Foreign} where
  -- `new`, then `name`
  abbrev pub new_builder : BinXmlName → XmlElementBuilder X
  new_builder name = record {
    name = some name;
    attributes = [];
    current_attribute_name = none;
    current_attribute_value = none;
  }

  -- A name that is still waiting for its value is overridden.
  unfoldable pub attribute_name : XmlElementBuilder X → BinXmlName → XmlElementBuilder X
  attribute_name b name = record b { current_attribute_name = some name }

  unfoldable pub push_attribute :
      XmlElementBuilder X
      → Option BinXmlName
      → Option (BinXmlValue X)
      → BinXmlValue X
      → Outcome (EvtxError X) (XmlElementBuilder X)
  push_attribute b none _ v = ok b
  push_attribute b (some name) (some old) v =
      create_error "invalid state, there should not be a value"
  push_attribute b (some name) none v = ok record b {
    attributes = b.attributes ++ (record { name = name; value = v } ∷ []);
    current_attribute_name = none;
    current_attribute_value = none;
  }

  unfoldable pub attribute_value :
      XmlElementBuilder X → BinXmlValue X → Outcome (EvtxError X) (XmlElementBuilder X)
  unfolding push_attribute
  attribute_value b v = push_attribute b b.current_attribute_name b.current_attribute_value v

  unfoldable pub finish : XmlElementBuilder X → Outcome (EvtxError X) (XmlElement X)
  finish b = elim b.name [
    | none ↦ create_error "Element name should be set"
    | some name ↦ ok record { name = name; attributes = b.attributes }
  ]

-- The variables of `create_record_model`'s loop. A `current_pi` is the target's name.
pub record ModelState (X : Foreign) : Type 0 where
  pub current_element : Option (XmlElementBuilder X)
  pub current_pi : Option BinXmlName
  pub model : List (XmlModel X)

abbrev pub start_model : {X : Foreign} → ModelState X
start_model = record { current_element = none; current_pi = none; model = [] }

module _ {X : Foreign} where
  abbrev pub push : ModelState X → XmlModel X → ModelState X
  push s m = record s { model = s.model ++ (m ∷ []) }

  -- A value outside a start tag.
  unfoldable pub push_value : ModelState X → BinXmlValue X → Outcome (EvtxError X) (ModelState X)
  push_value s BinXmlValue.evt_xml =
      create_error "Call `expand_templates` before calling this function"
  push_value s v = ok (push s (XmlModel.value v))

  -- `current_element.take()` at the end of a start tag.
  unfoldable pub finish_element :
      ModelState X → String → Option (XmlElementBuilder X) → Outcome (EvtxError X) (ModelState X)
  unfolding finish
  finish_element s message none = create_error message
  finish_element s message (some b) =
      bind (finish b)
        λ element. ok (push (record s { current_element = none }) (XmlModel.open_element element))

  unfoldable pub finish_pi :
      ModelState X → Option BinXmlName → Text → Outcome (EvtxError X) (ModelState X)
  finish_pi s none text = create_error "PI Data without PI target - Bad parser state"
  finish_pi s (some name) text =
      ok (push (record s { current_pi = none }) (XmlModel.pi (record { name = name; text = text })))

  unfoldable pub name_attribute :
      EvtxChunk X
      → ModelState X
      → BinXmlNameRef
      → Option (XmlElementBuilder X)
      → Outcome (EvtxError X) (ModelState X)
  unfolding attribute_name expand_string_ref
  name_attribute chunk s name none = create_error "attribute - Bad parser state"
  name_attribute chunk s name (some b) =
      bind (expand_string_ref chunk name)
        λ text. ok record s { current_element = some (attribute_name b text) }

  unfoldable pub add_value :
      ModelState X
      → BinXmlValue X
      → Option (XmlElementBuilder X)
      → Outcome (EvtxError X) (ModelState X)
  unfolding attribute_value push_value
  add_value s v none = push_value s v
  add_value s v (some b) =
      bind (attribute_value b v) λ b'. ok record s { current_element = some b' }

  -- One round of `create_record_model`.
  unfoldable pub model_step :
      EvtxChunk X → ModelState X → Token X → Outcome (EvtxError X) (ModelState X)
  unfolding finish_element finish_pi name_attribute add_value expand_string_ref
  model_step chunk s (Token.fragment_header _) = ok s
  model_step chunk s (Token.template_instance _ _) =
      create_error "Call `expand_templates` before calling this function"
  model_step chunk s Token.attribute_list = ok s
  model_step chunk s Token.close_element = ok (push s XmlModel.close_element)
  model_step chunk s Token.close_start_element =
      finish_element s "close start - Bad parser state" s.current_element
  model_step chunk s Token.cdata_section = create_error "Unimplemented - CDATA"
  model_step chunk s Token.char_ref = create_error "Unimplemented - CharacterReference"
  model_step chunk s (Token.entity_ref name) =
      bind (expand_string_ref chunk name) λ text. ok (push s (XmlModel.entity_ref text))
  model_step chunk s (Token.pi_target name) =
      bind (expand_string_ref chunk name) λ text. ok record s { current_pi = some text }
  model_step chunk s (Token.pi_data text) = finish_pi s s.current_pi text
  model_step chunk s (Token.substitution _) =
      create_error "Call `expand_templates` before calling this function"
  model_step chunk s Token.end_of_stream = ok (push s XmlModel.end_of_stream)
  model_step chunk s Token.start_of_stream = ok (push s XmlModel.start_of_stream)
  model_step chunk s Token.close_empty_element =
      bind (finish_element s "close empty - Bad parser state" s.current_element)
        λ s'. ok (push s' XmlModel.close_element)
  model_step chunk s (Token.attribute name) = name_attribute chunk s name s.current_element
  model_step chunk s (Token.open_start_element elem) =
      bind (expand_string_ref chunk elem.name)
        λ text. ok record s { current_element = some (new_builder text) }
  model_step chunk s (Token.value v) = add_value s v s.current_element

  unfoldable pub model_loop :
      EvtxChunk X → ModelState X → List (Token X) → Outcome (EvtxError X) (ModelState X)
  unfolding model_step
  model_loop chunk s [] = ok s
  model_loop chunk s (t ∷ ts) = bind (model_step chunk s t) λ s'. model_loop chunk s' ts

  unfoldable pub create_record_model :
      EvtxChunk X → List (Token X) → Outcome (EvtxError X) (List (XmlModel X))
  unfolding model_loop
  create_record_model chunk tokens = bind (model_loop chunk start_model tokens) λ s. ok s.model
