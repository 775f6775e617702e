-- ===== src/Tests/Outputs.antt =====
-- The theorems on the JSON and XML outputs at concrete inputs.
use evtx.Model.{Tokens, BinXmlValue}
use evtx.Prelude.Int.{ℤ}
use evtx.Prelude.{
  length, Text, codes, text_eq, text_eq_ne, ℕ, ◌≡◌, refl, ◌↔◌, Bool, true, false, Option, none,
  some, List, [], ◌∷◌,
}
use evtx.Visit.{BinXmlOutput, parse_tokens}
use evtx.Json.Opened.{Pushes, visit_open_start_element-Pushes}
use evtx.Json.{JsonOutput, into_value}
use evtx.Json.Insert.{slot, move_old, insert_plain, insert_nested}
use evtx.Tests.Trees.{Tree, Members, none_left, entry, lookup, assign}
use evtx.Tests.Serde.{display, serde, serde-IsLawful, event_list, unescape}
use evtx.Assemble.{expand_string_ref}
use evtx.Tests.World.{world}
use evtx.Json.Visitor.{visit_characters, visit_open_start_element, json_output}
use evtx.Err.{ok, panic, EvtxError}
use evtx.Cache.{get}
use evtx.Json.Keeps.{move_old_lem, insert_plain-keeps, insert_plain-moves, insert_nested-keeps}
use evtx.Tests.Templates.{tree, chunk_7, xml, calls, tree-calls}
use evtx.Serialize.{into_json}
use evtx.Visit.Nesting.{Call, Nested}
use evtx.Xml.{Event, open_element, write_characters, xml_output}
use evtx.Records.{EvtxRecord}
use evtx.Value.ToJson.{value_from}
use evtx.Display.{nat_to_string, hex_bytes}
use evtx.Xml.WellNested.{WellNested, write_all, parse_tokens-WellNested}
use evtx.RecordModel.{XmlElement}
use evtx.Serialize.Closed.{into_json-closed}
use evtx.Value.Agree.{value_from_text}
use evtx.Json.Depth.{parse_tokens-depth}
use evtx.Value.CowStr.{as_cow_str}
use evtx.Cursor.{Read, pure, ◌>>=◌, read_exact, from_le, read_uint}
use evtx.Value.Typed.{HasType, IsPrintable, deserialize_value_type-HasType}
use evtx.Value.{read_size_t, deserialize_value_type}
use evtx.Raw.{BinXmlValueType}
use evtx.Macros.{hex_text, try_read_hex32}

-- An object in which the name `a` and its first slot are taken.
abbrev object_a : Members
object_a =
    entry (codes "a") (Tree.string (codes "old"))
      (entry (codes "a_1") (Tree.string (codes "older")) (entry (codes "b") Tree.null none_left))

abbrev inside : JsonOutput serde
inside = record {
  map = Tree.object (entry (codes "r") (Tree.object object_a) none_left);
  stack = codes "r" ∷ [];
  separate_json_attributes = true;
}

visit_open_start_element-Pushes_example :
    Pushes serde-IsLawful display inside (visit_open_start_element serde display xml inside)
unfolding value_from
visit_open_start_element-Pushes_example =
    visit_open_start_element-Pushes serde-IsLawful display inside xml ((_, refl), tt)

move_old_lem_example :
    (n : ℕ) × (move_old serde object_a (codes "a") Tree.null
      ≡ ok (assign object_a (slot (codes "a") n) Tree.null))
    × (lookup object_a (slot (codes "a") n) ≡ none)
move_old_lem_example = move_old_lem serde-IsLawful object_a (codes "a") Tree.null

insert_plain-keeps_example :
    (m' : Members) × (insert_plain serde (codes "a") object_a ≡ ok m')
    × (lookup m' (codes "a_1") ≡ some (Tree.string (codes "older")))
unfolding text_eq
insert_plain-keeps_example =
    insert_plain-keeps serde-IsLawful (codes "a") object_a (codes "a_1") (text_eq_ne _ _ refl) refl

insert_plain-moves_example :
    (m' : Members) × (n : ℕ) × (insert_plain serde (codes "a") object_a ≡ ok m')
    × (lookup object_a (slot (codes "a") n) ≡ none)
    × (lookup m' (slot (codes "a") n) ≡ some (Tree.string (codes "old")))
    × (lookup m' (codes "a") ≡ some Tree.null)
unfolding text_eq
insert_plain-moves_example = insert_plain-moves serde-IsLawful (codes "a") object_a refl refl

insert_nested-keeps_example :
    (m' : Members) × (insert_nested serde (codes "b") none_left object_a ≡ ok m')
    × (lookup m' (codes "a") ≡ some (Tree.string (codes "old")))
    × (lookup m' (codes "b")
        ≡ some (Tree.object (entry (codes "#attributes") (Tree.object none_left) none_left)))
unfolding text_eq
insert_nested-keeps_example =
    insert_nested-keeps serde-IsLawful (codes "b") none_left object_a (codes "a")
      (text_eq_ne _ _ refl) refl

abbrev json : BinXmlOutput world
json = json_output serde display unescape

abbrev empty_output : JsonOutput serde
empty_output = record { map = Tree.object none_left; stack = []; separate_json_attributes = false }

-- What the tree's document is.
abbrev document : JsonOutput serde
document = record {
  map = Tree.object (
      entry (codes "a")
        (Tree.object (
          entry (codes "#text") (Tree.number (ℤ.pos 2)) (
            entry (codes "#attributes")
              (Tree.object (entry (codes "b") (Tree.number (ℤ.pos 1)) none_left)) none_left)))
        none_left);
  stack = [];
  separate_json_attributes = false;
}

tree-json : parse_tokens json chunk_7 3 tree empty_output ≡ ok document
unfolding parse_tokens expand_string_ref get visit_open_start_element visit_characters text_eq
tree-json = refl

parse_tokens-depth_example :
    (body : List (Call world)) × (open' : List (XmlElement world)) × (calls
      ≡ Call.end_of_stream ∷ body)
    × Nested body open'
    × (0 ≡ length open')
    × ((into_value serde document ≡ ok document.map) ↔ (open' ≡ []))
parse_tokens-depth_example =
    parse_tokens-depth serde display unescape chunk_7 3 tree empty_output document refl tree-calls
      tree-json

abbrev events : List Event
events =
    Event.eof
    ∷ Event.end' (codes "a")
    ∷ Event.text (codes "2")
    ∷ Event.start (codes "a") ((codes "b", codes "1") ∷ [])
    ∷ Event.decl (codes "1.0") (codes "utf-8")
    ∷ []

tree-xml : parse_tokens (xml_output event_list display) chunk_7 3 tree [] ≡ ok events
unfolding parse_tokens expand_string_ref get open_element write_characters nat_to_string
tree-xml = refl

parse_tokens-WellNested_example :
    (es : List Event) × (still_open : List Text) × WellNested es still_open
    × (write_all {X = world} event_list display (Event.eof ∷ es) [] ≡ ok events)
parse_tokens-WellNested_example =
    parse_tokens-WellNested event_list display chunk_7 3 tree [] events tree-calls tree-xml

abbrev record_7 : EvtxRecord world
record_7 = record { event_record_id = 12; timestamp = 5; tokens = tree }

record_7-json :
    into_json serde display unescape chunk_7 3 record_7
    ≡ ok record { event_record_id = 12; timestamp = 5; data' = codes "pretty json" }
unfolding into_json parse_tokens expand_string_ref get visit_open_start_element visit_characters
    text_eq
record_7-json = refl

into_json-closed_example :
    (body : List (Call world)) × (calls ≡ Call.end_of_stream ∷ body)
    × Nested body []
    × (record_7.event_record_id ≡ 12)
into_json-closed_example =
    into_json-closed serde display unescape chunk_7 3 record_7 tree-calls record_7-json

-- A record that closes a start tag before it opens one.
value_from_text_example :
    as_cow_str {E = EvtxError world} display (BinXmlValue.binary_type (0x1f ∷ [])) ≡ ok (codes "1F")
unfolding value_from hex_bytes
value_from_text_example =
    value_from_text (EvtxError world) serde-IsLawful display (BinXmlValue.binary_type (0x1f ∷ []))
      refl refl

-- No fragment is nested in the value.
abbrev no_fragment : Option ℕ → Bool → Read world (Tokens world)
no_fragment size ansi buf at = panic

reads_a_size :
    deserialize_value_type {X = world} tt no_fragment BinXmlValueType.size_t_type
      (some 4)
      (0x1a ∷ 0 ∷ 0 ∷ 0 ∷ [])
      0
    ≡ ok (BinXmlValue.hex_int32_type (hex_text 0x1a), 4)
unfolding deserialize_value_type read_size_t ◌>>=◌ try_read_hex32 read_uint read_exact from_le pure
reads_a_size = refl

deserialize_value_type-HasType_example :
    HasType {X = world} BinXmlValueType.size_t_type (BinXmlValue.hex_int32_type (hex_text 0x1a))
    × IsPrintable serde display (BinXmlValue.hex_int32_type (hex_text 0x1a))
deserialize_value_type-HasType_example =
    deserialize_value_type-HasType serde display tt no_fragment BinXmlValueType.size_t_type (some 4)
      (0x1a ∷ 0 ∷ 0 ∷ 0 ∷ []) 0 reads_a_size
