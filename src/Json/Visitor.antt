-- ===== src/Json/Visitor.antt =====
-- `impl BinXmlOutput for JsonOutput` of src/json_output.rs. `unescape` is `BytesText::unescape` of
-- quick_xml on an escaped text. The CDATA and character reference visitors, which only give an
-- error, are never called.
use evtx.Prelude.{
  if◌then◌else◌, length, take, Text, codes, text_eq, ◌-◌, Bool, true, false, Option, none, some,
  List, [], ◌∷◌, ◌++◌,
}
use evtx.Foreign.{Foreign}
use evtx.SerdeJson.{Json, SerdeJson}
use evtx.Display.{Display}
use evtx.Json.{JsonOutput, structure_error, of_map, at_current_path}
use evtx.Json.Insert.{insert_node_without_attributes, insert_node_with_attributes, insert_data_node}
use evtx.Name.{BinXmlName}
use evtx.Value.ToJson.{of_string, value_from}
use evtx.Visit.{BinXmlOutput}
use evtx.Err.{Outcome, ok, err, SerializationError, EvtxError, bind}
use evtx.Value.CowStr.{as_cow_str}
use evtx.Model.{BinXmlValue}
use evtx.RecordModel.{XmlAttribute, XmlElement}

abbrev pub text_key : Text
text_key = codes "#text"

module _ {X : Foreign} (J : SerdeJson X) (D : Display X) where
  abbrev pub view_at : Option J.Value → Option (Json J.Value J.Map J.Number)
  view_at none = none
  view_at (some v) = some (J.view v)

  -- A value under `#text`: a second one makes an array of both.
  unfoldable pub add_text :
      J.Map → Option (Json J.Value J.Map J.Number) → BinXmlValue X → Outcome (EvtxError X) J.Map
  unfolding value_from
  add_text m none v = bind (value_from J D v) λ j. ok (J.insert m text_key j)
  add_text m (some Json.null) v = bind (value_from J D v) λ j. ok (J.insert m text_key j)
  add_text m (some (Json.string prev_value)) v = bind (value_from J D v) λ j. ok (
      J.insert (J.remove m text_key) text_key
        (J.value (Json.array (of_string J prev_value ∷ j ∷ []))))
  add_text m (some (Json.array arr)) v =
      bind (value_from J D v) λ j. ok (J.insert m text_key (J.value (Json.array (arr ++ (j ∷ [])))))
  add_text m (some _) v = structure_error "expected current value to be a String or an Array"

  -- The match of `visit_characters` on the current value.
  unfoldable pub add_characters :
      Bool → BinXmlValue X → J.Value → Json J.Value J.Map J.Number → Outcome (EvtxError X) J.Value
  unfolding value_from as_cow_str add_text
  add_characters separate v current Json.null = value_from J D v
  add_characters true v current (Json.object m) =
      if J.is_empty m then value_from J D v else ok current
  add_characters false v current (Json.object m) =
      bind (add_text m (view_at (J.get m text_key)) v) λ m'. ok (of_map J m')
  add_characters separate v current (Json.string s) =
      bind (as_cow_str D v) λ t. ok (of_string J (s ++ t))
  add_characters separate v current (Json.array arr) =
      bind (value_from J D v) λ j. ok (J.value (Json.array (arr ++ (j ∷ []))))
  add_characters separate v current _ =
      structure_error "expected current value to be a String or an Array"

  unfoldable pub visit_characters :
      BinXmlValue X → JsonOutput J → Outcome (EvtxError X) (JsonOutput J)
  unfolding at_current_path add_characters
  visit_characters v s =
      bind
        (at_current_path J s.stack
          (λ current. add_characters s.separate_json_attributes v current (J.view current)) s.map)
        λ map'. ok record s { map = map' }

  unfoldable pub insert_element :
      XmlElement X → List (XmlAttribute X) → JsonOutput J → Outcome (EvtxError X) (JsonOutput J)
  unfolding insert_node_without_attributes insert_node_with_attributes
  insert_element element [] s = insert_node_without_attributes J s element.name
  insert_element element (_ ∷ _) s = insert_node_with_attributes J D s element element.name

  unfoldable pub visit_open_start_element :
      XmlElement X → JsonOutput J → Outcome (EvtxError X) (JsonOutput J)
  unfolding insert_data_node insert_element
  visit_open_start_element element s =
      if text_eq element.name (codes "Data")
      then insert_data_node J D s element
      else insert_element element element.attributes s

  -- `pop`, which leaves an empty stack as it is.
  abbrev pub visit_close_element : JsonOutput J → JsonOutput J
  visit_close_element s = record s { stack = take (length s.stack - 1) s.stack }

  unfoldable pub visit_unescaped : Option Text → JsonOutput J → Outcome (EvtxError X) (JsonOutput J)
  unfolding visit_characters
  visit_unescaped (some escaped) s = visit_characters (BinXmlValue.string_type escaped) s
  visit_unescaped none s = structure_error "Unterminated XML Entity"

  module _ (unescape : Text → Option Text) where
    unfoldable pub visit_entity_reference :
        BinXmlName → JsonOutput J → Outcome (EvtxError X) (JsonOutput J)
    unfolding visit_unescaped
    visit_entity_reference entity s =
        visit_unescaped (unescape (codes "&" ++ (entity ++ codes ";"))) s

    abbrev pub json_output : BinXmlOutput X
    json_output = record {
      State = JsonOutput J;
      visit_end_of_stream = λ s. ok s;
      visit_open_start_element = visit_open_start_element;
      visit_close_element = λ element s. ok (visit_close_element s);
      visit_characters = visit_characters;
      visit_entity_reference = visit_entity_reference;
      visit_processing_instruction = λ p s. err (
          EvtxError.serialization_error
            (SerializationError.unimplemented "visit_processing_instruction_data"));
      visit_start_of_stream = λ s. ok s;
    }
