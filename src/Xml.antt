-- ===== src/Xml.antt =====
-- `XmlOutput` of src/xml_output.rs. The writer of quick_xml is a parameter, whose state is what it
-- has written and which may fail.
pub mod WellNested
use evtx.Prelude.{
  ltb, if◌then◌else◌, length, Text, codes, ℕ, Option, none, some, List, [], ◌∷◌, ◌++◌,
}
use evtx.Foreign.{Foreign}
use evtx.Err.{Outcome, ok, err, xml_output_error, EvtxError, bind}
use evtx.Display.{Display}
use evtx.Settings.{ParserSettings}
use evtx.Visit.{BinXmlOutput}
use evtx.RecordModel.{XmlAttribute, XmlElement}
use evtx.Value.CowStr.{as_cow_str}
use evtx.Model.{BinXmlValue}

-- The events that are written. A text is escaped by the writer, an escaped text is not.
pub data Event : Type 0 where
  decl : Text → Text → Event
  start : Text → List (Text × Text) → Event
  end' : Text → Event
  text : Text → Event
  escaped_text : Text → Event
  pi : Text → Event
  eof : Event

pub record QuickXml : Type 1 where
  pub Writer : Type 0
  -- `Writer::new(Vec::new())`, and `new_with_indent` with a character and a count
  pub new : Writer
  pub new_with_indent : ℕ → ℕ → Writer
  pub write_event : Event → Writer → Option Writer
  -- the bytes written
  pub into_inner : Writer → List ℕ

module _ {X : Foreign} (Q : QuickXml) where
  -- `with_writer`
  unfoldable pub with_writer : ParserSettings X → Q.Writer
  with_writer settings = if settings.indent then Q.new_with_indent 32 2 else Q.new

  abbrev written : Option Q.Writer → Outcome (EvtxError X) Q.Writer
  written none = err (EvtxError.serialization_error xml_output_error)
  written (some w) = ok w

  -- `write_event(...)?`
  unfoldable pub write : Event → Q.Writer → Outcome (EvtxError X) Q.Writer
  write e w = written (Q.write_event e w)

module _ {X : Foreign} (D : Display X) where
  -- The attributes whose value is not the empty text.
  unfoldable pub start_attributes :
      List (XmlAttribute X) → Outcome (EvtxError X) (List (Text × Text))
  unfolding as_cow_str
  start_attributes [] = ok []
  start_attributes (a ∷ rest) = bind (as_cow_str D a.value) λ value_cow.
      bind (start_attributes rest)
        λ more. ok (if ltb 0 (length value_cow) then (a.name, value_cow) ∷ more else more)

module _ {X : Foreign} (Q : QuickXml) (D : Display X) where
  unfoldable pub open_element : XmlElement X → Q.Writer → Outcome (EvtxError X) Q.Writer
  unfolding start_attributes write
  open_element element w =
      bind (start_attributes D element.attributes)
        λ attributes. write Q (Event.start element.name attributes) w

  unfoldable pub write_characters : BinXmlValue X → Q.Writer → Outcome (EvtxError X) Q.Writer
  unfolding as_cow_str write
  write_characters v w = bind (as_cow_str D v) λ cow. write Q (Event.text cow) w

  -- A processing instruction is its name and its text, with nothing between.
  abbrev pub xml_output : BinXmlOutput X
  xml_output = record {
    State = Q.Writer;
    visit_end_of_stream = write Q Event.eof;
    visit_open_start_element = open_element;
    visit_close_element = λ element w. write Q (Event.end' element.name) w;
    visit_characters = write_characters;
    visit_entity_reference =
        λ entity w. write Q (Event.escaped_text (codes "&" ++ (entity ++ codes ";"))) w;
    visit_processing_instruction = λ p w. write Q (Event.pi (p.name ++ p.text)) w;
    visit_start_of_stream = write Q (Event.decl (codes "1.0") (codes "utf-8"));
  }
