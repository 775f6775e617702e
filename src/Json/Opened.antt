-- ===== src/Json/Opened.antt =====
-- `visit_open_start_element` of src/json_output.rs gets through on any document so far.
use evtx.Prelude.{
  if◌then◌else◌, Bool-cases, length, All, length-append, Text, codes, text_eq, suc, String, ◌≡◌,
  refl, subst, inl, inr, Bool, true, false, Option, none, some, List, [], ◌∷◌, ◌++◌, arith,
}
use evtx.Foreign.{Foreign}
use evtx.SerdeJson.{SerdeJson, IsLawful}
use evtx.Display.{Display}
use evtx.Json.Insert.{
  no_parent, no_value, insert_nested, insert_separate, push_name, change_parent,
  insert_node_without_attributes, find_name, collect_attributes, insert_attributes,
  insert_node_with_attributes, insert_named, insert_data_node,
}
use evtx.Model.{BinXmlValue}
use evtx.Err.{Outcome, ok, EvtxError}
use evtx.Json.{JsonOutput, null_value}
use evtx.Json.Visitor.{insert_element, visit_open_start_element}
use evtx.Err.Success.{IsOk, IsOk-bind}
use evtx.Json.Keeps.{insert_plain-IsOk, insert_nested-IsOk}
use evtx.Json.Separate.{insert_separate-IsOk}
use evtx.RecordModel.{XmlAttribute, XmlElement}
use evtx.Json.Path.{Has, change_parent-IsOk}
use evtx.Value.ToJson.{value_from}
use evtx.Value.Agree.{value_from-as_cow_str}

module _ {X : Foreign} {J : SerdeJson X} (L : IsLawful J) (D : Display X) where
  -- The value has a JSON form.
  abbrev pub Converts : BinXmlValue X → Type 0
  Converts v = IsOk (value_from {E = EvtxError X} J D v)

  -- The code gives a state whose stack has one more name.
  abbrev pub Pushes : JsonOutput J → Outcome (EvtxError X) (JsonOutput J) → Type 0
  Pushes s r = (s' : JsonOutput J) × (r ≡ ok s') × (length s'.stack ≡ suc (length s.stack))

  Pushes-if :
      (s : JsonOutput J) (b : Bool) {r r' : Outcome (EvtxError X) (JsonOutput J)}
      → Pushes s r
      → Pushes s r'
      → Pushes s (if b then r else r')
  Pushes-if s true h h' = h
  Pushes-if s false h h' = h'

  length-push : (keys : List Text) (name : Text) → length (keys ++ (name ∷ [])) ≡ suc (length keys)
  length-push keys name = omega (arith, length-append keys (name ∷ []))

  collect_attributes-IsOk :
      (as' : List (XmlAttribute X)) (m : J.Map)
      → All (λ a. Converts a.value) as'
      → IsOk (collect_attributes J D as' m)
  unfolding collect_attributes
  collect_attributes-IsOk [] m h = (m, refl)
  collect_attributes-IsOk (a ∷ rest) m (h, hs) =
      IsOk-bind _ h (λ v. collect_attributes-IsOk rest _ hs)

  change_parent-Pushes :
      (message : String) (f : J.Map → Outcome (EvtxError X) J.Map) (s : JsonOutput J) (name : Text)
      → ((m : J.Map) → Has L m name → IsOk (f m))
      → Pushes s (change_parent J message f (push_name J s name))
  change_parent-Pushes message f s name h =
      let (map', e) = change_parent-IsOk L message f s name h in (_, e, length-push s.stack name)

  insert_node_without_attributes-Pushes :
      (s : JsonOutput J) (name : Text) → Pushes s (insert_node_without_attributes J s name)
  unfolding insert_node_without_attributes
  insert_node_without_attributes-Pushes s name =
      change_parent-Pushes _ _ s name (λ m h. insert_plain-IsOk L name m)

  insert_attributes-Pushes :
      (s : JsonOutput J) (name : Text) (attributes : J.Map)
      → Pushes s (insert_attributes J D (push_name J s name) name attributes)
  unfolding insert_attributes
  insert_attributes-Pushes s name attributes =
      Pushes-if s (J.is_empty attributes)
        (change_parent-Pushes no_value (λ m. ok (J.insert m name (null_value J))) s name
          (λ m h. (_, refl)))
        (Pushes-if s s.separate_json_attributes
          (change_parent-Pushes no_value (λ m. insert_separate J name attributes m) s name
            (λ m h. insert_separate-IsOk L name attributes m h))
          (change_parent-Pushes no_parent (λ m. insert_nested J name attributes m) s name
            (λ m h. insert_nested-IsOk L name attributes m)))

  insert_node_with_attributes-Pushes :
      (s : JsonOutput J) (element : XmlElement X) (name : Text)
      → All (λ a. Converts a.value) element.attributes
      → Pushes s (insert_node_with_attributes J D s element name)
  unfolding insert_node_with_attributes
  insert_node_with_attributes-Pushes s element name h =
      let (attributes, e) = collect_attributes-IsOk element.attributes J.new h in
      rw e (insert_attributes-Pushes s name attributes)

  find_name-Converts :
      (as' : List (XmlAttribute X)) {v : BinXmlValue X}
      → All (λ a. Converts a.value) as'
      → find_name as' ≡ some v
      → Converts v
  unfolding find_name
  find_name-Converts [] h e = absurd cc
  find_name-Converts (a ∷ rest) (h, hs) e = elim (Bool-cases (text_eq a.name (codes "Name"))) [
    | inl c ↦ subst Converts (cc (rw c at e)) h
    | inr c ↦ find_name-Converts rest hs (rw c at e)
  ]

  insert_named-Pushes :
      (s : JsonOutput J) (o : Option (BinXmlValue X))
      → ((v : BinXmlValue X) → o ≡ some v → Converts v)
      → Pushes s (insert_named J D s o)
  unfolding insert_named
  insert_named-Pushes s none h = (_, refl, length-push s.stack (codes "Data"))
  insert_named-Pushes s (some v) h =
      let (j, converts) = h v refl in
      let (key, text) = value_from-as_cow_str (EvtxError X) J D v converts in
      rw text (insert_node_without_attributes-Pushes s key)

  insert_element-Pushes :
      (element : XmlElement X) (as' : List (XmlAttribute X)) (s : JsonOutput J)
      → All (λ a. Converts a.value) element.attributes
      → Pushes s (insert_element J D element as' s)
  unfolding insert_element
  insert_element-Pushes element [] s h = insert_node_without_attributes-Pushes s element.name
  insert_element-Pushes element (_ ∷ _) s h =
      insert_node_with_attributes-Pushes s element element.name h

  -- With a serde_json that meets its laws: when each attribute's value has a JSON form, opening an
  -- element never fails, whatever the document is so far. The path of the open elements is made,
  -- its `expect`s and the indexing do not panic, the parent is an object, the probes end, and the
  -- stack gets one name.
  pub visit_open_start_element-Pushes :
      (s : JsonOutput J) (element : XmlElement X)
      → All (λ a. Converts a.value) element.attributes
      → Pushes s (visit_open_start_element J D element s)
  unfolding visit_open_start_element insert_data_node
  visit_open_start_element-Pushes s element h =
      Pushes-if s (text_eq element.name (codes "Data"))
        (insert_named-Pushes s (find_name element.attributes)
          (λ v e. find_name-Converts element.attributes h e))
        (insert_element-Pushes element element.attributes s h)
