-- ===== src/RecordModel/Attributes.antt =====
-- The model of a start tag: its name and its attributes.
use evtx.Prelude.{
  All, ◌≡◌, refl, sym, ap, ◌∙◌, none, some, List, [], ◌∷◌, ◌++◌, map, append_assoc, append-nil,
}
use evtx.Err.{ok}
use evtx.RecordModel.{
  XmlAttribute, XmlModel, new_builder, attribute_name, push_attribute, attribute_value, finish,
  ModelState, push, finish_element, name_attribute, add_value, model_step, model_loop,
}
use evtx.Foreign.{Foreign}
use evtx.Records.{EvtxChunk}
use evtx.Model.{BinXmlNameRef, BinXmlOpenStartElement, Token, BinXmlValue}
use evtx.Name.{BinXmlName}
use evtx.Assemble.{expand_string_ref}

-- An attribute in the token stream, with the text of its name.
pub record Attribute (X : Foreign) : Type 0 where
  pub name_ref : BinXmlNameRef
  pub text : BinXmlName
  pub value : BinXmlValue X

module _ {X : Foreign} (chunk : EvtxChunk X) where
  abbrev pub Resolves : Attribute X → Type 0
  Resolves a = expand_string_ref chunk a.name_ref ≡ ok a.text

  abbrev pub attribute_tokens : List (Attribute X) → List (Token X) → List (Token X)
  attribute_tokens [] rest = rest
  attribute_tokens (a ∷ as') rest =
      Token.attribute a.name_ref ∷ Token.value a.value ∷ attribute_tokens as' rest

  abbrev pub xml_attributes : List (Attribute X) → List (XmlAttribute X)
  xml_attributes as' = map (λ a. record { name = a.text; value = a.value }) as'

  -- A start tag is open, with these attributes so far.
  abbrev pending : ModelState X → BinXmlName → List (XmlAttribute X) → ModelState X
  pending s name xs = record s {
    current_element = some (record (new_builder name) { attributes = xs });
  }

  attribute_step :
      (s : ModelState X) (name : BinXmlName) (a : Attribute X) (xs : List (XmlAttribute X))
      (ts : List (Token X))
      → Resolves a
      → model_loop chunk (pending s name xs) (Token.attribute a.name_ref ∷ Token.value a.value ∷ ts)
        ≡ model_loop chunk
            (pending s name (xs ++ (record { name = a.text; value = a.value } ∷ [])))
            ts
  unfolding model_loop model_step name_attribute add_value attribute_value push_attribute
      attribute_name
  attribute_step s name a xs ts h = rw h refl

  attributes_loop :
      (s : ModelState X) (name : BinXmlName) (as' : List (Attribute X)) (xs : List (XmlAttribute X))
      (ts : List (Token X))
      → All Resolves as'
      → model_loop chunk (pending s name xs) (attribute_tokens as' ts)
        ≡ model_loop chunk (pending s name (xs ++ xml_attributes as')) ts
  attributes_loop s name [] xs ts h =
      ap (λ ys. model_loop chunk (pending s name ys) ts) (sym (append-nil xs))
  attributes_loop s name (a ∷ as') xs ts (ha, h) =
      attribute_step s name a xs _ ha
      ∙ attributes_loop s name as' _ ts h
      ∙ ap (λ ys. model_loop chunk (pending s name ys) ts) (append_assoc xs _ _)

  -- The tokens of a start tag, an opening, its attributes and its end, whose names can be expanded,
  -- become one open element, whatever stood before them: it has the expanded names with their
  -- values, in the order of the tokens, and no start tag is pending behind it.
  pub model_loop-start_tag :
      (s : ModelState X) (elem : BinXmlOpenStartElement) (name : BinXmlName)
      (as' : List (Attribute X)) (rest : List (Token X))
      → expand_string_ref chunk elem.name ≡ ok name
      → All Resolves as'
      → model_loop chunk s
          (Token.open_start_element elem ∷ attribute_tokens as' (Token.close_start_element ∷ rest))
        ≡ model_loop chunk
            (push
              (record s { current_element = none })
              (XmlModel.open_element (record { name = name; attributes = xml_attributes as' })))
            rest
  unfolding model_loop model_step finish_element finish
  model_loop-start_tag s elem name as' rest e h =
      rw e (attributes_loop s name as' [] (Token.close_start_element ∷ rest) h)
