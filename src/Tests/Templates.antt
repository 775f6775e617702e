-- ===== src/Tests/Templates.antt =====
-- The theorems on fragments, templates, the record model and visitors at concrete inputs.
use evtx.Prelude.{All, codes, ℕ, ◌≤◌, ◌≡◌, refl, ◌≢◌, false, none, List, [], ◌∷◌}
use evtx.Raw.{BinXmlValueType}
use evtx.RecordModel.{XmlElement, XmlModel, start_model, push, model_loop, create_record_model}
use evtx.Assemble.{expand_list, expand_with, expand_templates, expand_string_ref}
use evtx.Visit.{parse_tokens}
use evtx.Assemble.Expanded.{IsExpanded, expand_templates-IsExpanded}
use evtx.Model.{BinXmlNameRef, BinXmlOpenStartElement, Token, Tokens, nil, cons, BinXmlValue}
use evtx.Records.{EvtxChunk}
use evtx.RecordModel.Attributes.{Attribute, model_loop-start_tag}
use evtx.Visit.Nesting.{Call, trace, Nested, parse_tokens-Nested}
use evtx.Deserializer.{read_fragment}
use evtx.Cache.{get}
use evtx.Err.{Outcome, ok, out_of_fuel, EvtxError}
use evtx.Tests.World.{world, world-ForeignAdvances, chunk_of}
use evtx.Assemble.Substitution.{expand_with-filled}
use evtx.Deserializer.Progress.{read_fragment_returns}
use evtx.Visit.Content.{parse_tokens-content, content, all_told}

-- A fragment header and the end of the stream.
abbrev fragment : List ℕ
fragment = 0x0f ∷ 1 ∷ 1 ∷ 0 ∷ 0 ∷ []

read_fragment_returns_example :
    (read_fragment {X = world} tt none none false fragment 0 ≢ out_of_fuel)
    × ((tokens : Tokens world) (p' : ℕ)
        → read_fragment tt none none false fragment 0 ≡ ok (tokens, p')
        → 0 ≤ p')
read_fragment_returns_example = read_fragment_returns world-ForeignAdvances tt none false fragment 0

abbrev array : Tokens world
array =
    cons (Token.value (BinXmlValue.uint8_type 3))
      (cons (Token.value (BinXmlValue.uint8_type 4)) nil)

-- A token that is not expanded any further.
abbrev keep_token : Token world → Outcome (EvtxError world) (List (Token world))
keep_token t = ok (t ∷ [])

abbrev substitution_of : ℕ → Token world
substitution_of i =
    Token.substitution
      (record { substitution_index = i; value_type = BinXmlValueType.uint8_type; ignore = false })

-- A template that uses its second value twice, and its first one in between.
abbrev twice : Tokens world
twice =
    cons (substitution_of 1)
      (cons (substitution_of 0) (cons (substitution_of 1) (cons Token.end_of_stream nil)))

expand_with-filled_example :
    expand_with keep_token twice array
    ≡ ok (
        Token.value (BinXmlValue.uint8_type 4)
        ∷ Token.value (BinXmlValue.uint8_type 3)
        ∷ Token.value BinXmlValue.null_type
        ∷ Token.end_of_stream
        ∷ [])
unfolding expand_list
expand_with-filled_example = expand_with-filled keep_token twice array

-- An element `a` with an attribute `b` and a text, inside nested binary XML.
abbrev name_7 : BinXmlNameRef
name_7 = record { offset = 7 }

abbrev name_9 : BinXmlNameRef
name_9 = record { offset = 9 }

abbrev open_7 : BinXmlOpenStartElement
open_7 = record { data_size = 0; name = name_7 }

abbrev pub tree : Tokens world
tree =
    cons
      (Token.value (
        BinXmlValue.bin_xml_type (
          cons (Token.open_start_element open_7) (
            cons (Token.attribute name_9) (
              cons (Token.value (BinXmlValue.uint8_type 1)) (
                cons Token.close_start_element (
                  cons (Token.value (BinXmlValue.uint8_type 2))
                    (cons Token.close_element nil))))))))
      (cons Token.end_of_stream nil)

abbrev pub chunk_7 : EvtxChunk world
chunk_7 = chunk_of [] 0

abbrev flat : List (Token world)
flat =
    Token.open_start_element open_7
    ∷ Token.attribute name_9
    ∷ Token.value (BinXmlValue.uint8_type 1)
    ∷ Token.close_start_element
    ∷ Token.value (BinXmlValue.uint8_type 2)
    ∷ Token.close_element
    ∷ Token.end_of_stream
    ∷ []

tree-flat : expand_templates chunk_7 3 tree ≡ ok flat
unfolding expand_templates
tree-flat = refl

expand_templates-IsExpanded_example : All IsExpanded flat
expand_templates-IsExpanded_example = expand_templates-IsExpanded chunk_7 3 tree tree-flat

abbrev pub xml : XmlElement world
xml = record {
  name = codes "a";
  attributes = record { name = codes "b"; value = BinXmlValue.uint8_type 1 } ∷ [];
}

finds_7 : expand_string_ref chunk_7 name_7 ≡ ok (codes "a")
unfolding expand_string_ref get
finds_7 = refl

finds_9 : expand_string_ref chunk_7 name_9 ≡ ok (codes "b")
unfolding expand_string_ref get
finds_9 = refl

abbrev attribute_9 : Attribute world
attribute_9 = record { name_ref = name_9; text = codes "b"; value = BinXmlValue.uint8_type 1 }

model_loop-start_tag_example :
    model_loop chunk_7 start_model (
      Token.open_start_element open_7
      ∷ Token.attribute name_9
      ∷ Token.value (BinXmlValue.uint8_type 1)
      ∷ Token.close_start_element
      ∷ Token.close_element
      ∷ [])
    ≡ model_loop chunk_7 (push start_model (XmlModel.open_element xml)) (Token.close_element ∷ [])
model_loop-start_tag_example =
    model_loop-start_tag chunk_7 start_model open_7 (codes "a") (attribute_9 ∷ [])
      (Token.close_element ∷ []) finds_7 (finds_9, tt)

abbrev pub calls : List (Call world)
calls =
    Call.end_of_stream
    ∷ Call.close_element xml
    ∷ Call.characters (BinXmlValue.uint8_type 2)
    ∷ Call.open_start_element xml
    ∷ Call.start_of_stream
    ∷ []

pub tree-calls : parse_tokens (trace world) chunk_7 3 tree [] ≡ ok calls
unfolding parse_tokens expand_string_ref get
tree-calls = refl

parse_tokens-Nested_example :
    (body : List (Call world)) × (open' : List (XmlElement world)) × (calls
      ≡ Call.end_of_stream ∷ body)
    × Nested body open'
parse_tokens-Nested_example = parse_tokens-Nested chunk_7 3 tree tree-calls

parse_tokens-content_example :
    (expanded : List (Token world)) × (model : List (XmlModel world)) × (expand_templates chunk_7 3
        tree
      ≡ ok expanded)
    × (create_record_model chunk_7 expanded ≡ ok model)
    × (all_told calls ≡ content model)
parse_tokens-content_example = parse_tokens-content chunk_7 3 tree tree-calls
