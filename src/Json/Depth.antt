-- ===== src/Json/Depth.antt =====
-- The stack of src/json_output.rs has a name for each element that is open.
use evtx.Prelude.{
  if◌then◌else◌, length, take, length-append, length-take, Text, codes, text_eq, ℕ, suc, ◌-◌,
  String, ◌≡◌, refl, sym, ap, ◌∙◌, ◌↔◌, Bool, true, false, Option, none, some, List, [], ◌∷◌, ◌++◌,
  arith,
}
use evtx.Foreign.{Foreign}
use evtx.SerdeJson.{SerdeJson}
use evtx.Display.{Display}
use evtx.Json.Insert.{
  no_parent, no_value, insert_plain, insert_nested, insert_separate, push_name, change_parent,
  insert_node_without_attributes, find_name, collect_attributes, insert_attributes,
  insert_node_with_attributes, insert_named, insert_data_node,
}
use evtx.Json.Visitor.{
  add_characters, visit_characters, insert_element, visit_open_start_element, visit_unescaped,
  visit_entity_reference, json_output,
}
use evtx.Err.{Outcome, ok, err, panic, out_of_fuel, EvtxError, bind}
use evtx.Json.{
  JsonOutput, null_value, at_current_path, at_current_parent, in_object, end_of, into_value,
}
use evtx.Err.Bind.{bind-ok, okay, ok-injective}
use evtx.RecordModel.{XmlAttribute, XmlElement}
use evtx.Model.{Tokens, BinXmlValue}
use evtx.Records.{EvtxChunk}
use evtx.Name.{BinXmlName}
use evtx.Visit.Nesting.{Call, trace, Nested, parse_tokens-Nested}
use evtx.Visit.Replay.{replay, parse_tokens-replay}
use evtx.Visit.{parse_tokens}
use evtx.Value.CowStr.{as_cow_str}

module _ {X : Foreign} (J : SerdeJson X) (D : Display X) where
  -- The code, when it gets through, leaves a stack of this size.
  abbrev Leaves : ℕ → Outcome (EvtxError X) (JsonOutput J) → Type 0
  Leaves n r = (s' : JsonOutput J) → r ≡ ok s' → length s'.stack ≡ n

  Leaves-if :
      (n : ℕ) (b : Bool) {r r' : Outcome (EvtxError X) (JsonOutput J)}
      → Leaves n r
      → Leaves n r'
      → Leaves n (if b then r else r')
  Leaves-if n true h h' = h
  Leaves-if n false h h' = h'

  same_size :
      {s s' : JsonOutput J} → okay {E = EvtxError X} s ≡ okay s' → length s'.stack ≡ length s.stack
  same_size h = ap (λ s. length s.stack) (sym (ok-injective h))

  length-push_name :
      (s : JsonOutput J) (name : Text) → length (s.stack ++ (name ∷ [])) ≡ suc (length s.stack)
  length-push_name s name = omega (arith, length-append s.stack (name ∷ []))

  stored-Leaves :
      (s : JsonOutput J) (r : Outcome (EvtxError X) J.Value)
      → Leaves (length s.stack) (bind r λ map'. ok record s { map = map' })
  stored-Leaves s (ok map') s' h = same_size {s = record s { map = map' }} h
  stored-Leaves s (err e) s' h = absurd cc
  stored-Leaves s panic s' h = absurd cc
  stored-Leaves s out_of_fuel s' h = absurd cc

  change_parent-Leaves :
      (message : String) (f : J.Map → Outcome (EvtxError X) J.Map) (s : JsonOutput J) (name : Text)
      → Leaves (suc (length s.stack)) (change_parent J message f (push_name J s name))
  unfolding change_parent
  change_parent-Leaves message f s name s' h =
      stored-Leaves (push_name J s name)
        (at_current_parent J (s.stack ++ (name ∷ [])) (λ v. in_object J message f v) s.map) s' h
      ∙ length-push_name s name

  insert_node_without_attributes-Leaves :
      (s : JsonOutput J) (name : Text)
      → Leaves (suc (length s.stack)) (insert_node_without_attributes J s name)
  unfolding insert_node_without_attributes
  insert_node_without_attributes-Leaves s name =
      change_parent-Leaves no_parent (λ m. insert_plain J name m) s name

  insert_node_with_attributes-Leaves :
      (s : JsonOutput J) (element : XmlElement X) (name : Text)
      → Leaves (suc (length s.stack)) (insert_node_with_attributes J D s element name)
  unfolding insert_node_with_attributes insert_attributes
  insert_node_with_attributes-Leaves s element name s' h =
      let (attributes, _, e) = bind-ok (collect_attributes J D element.attributes J.new) _ h in
      Leaves-if (suc (length s.stack)) (J.is_empty attributes)
        (change_parent-Leaves no_value (λ m. ok (J.insert m name (null_value J))) s name)
        (Leaves-if (suc (length s.stack)) s.separate_json_attributes
          (change_parent-Leaves no_value (λ m. insert_separate J name attributes m) s name)
          (change_parent-Leaves no_parent (λ m. insert_nested J name attributes m) s name))
        s' e

  insert_named-Leaves :
      (s : JsonOutput J) (o : Option (BinXmlValue X))
      → Leaves (suc (length s.stack)) (insert_named J D s o)
  unfolding insert_named
  insert_named-Leaves s none s' h =
      same_size {s = push_name J s (codes "Data")} h ∙ length-push_name s (codes "Data")
  insert_named-Leaves s (some v) s' h =
      let (key, _, e) = bind-ok (as_cow_str D v) _ h in
      insert_node_without_attributes-Leaves s key s' e

  insert_element-Leaves :
      (element : XmlElement X) (as' : List (XmlAttribute X)) (s : JsonOutput J)
      → Leaves (suc (length s.stack)) (insert_element J D element as' s)
  unfolding insert_element
  insert_element-Leaves element [] s = insert_node_without_attributes-Leaves s element.name
  insert_element-Leaves element (_ ∷ _) s =
      insert_node_with_attributes-Leaves s element element.name

  visit_open_start_element-Leaves :
      (element : XmlElement X) (s : JsonOutput J)
      → Leaves (suc (length s.stack)) (visit_open_start_element J D element s)
  unfolding visit_open_start_element insert_data_node
  visit_open_start_element-Leaves element s =
      Leaves-if (suc (length s.stack)) (text_eq element.name (codes "Data"))
        (insert_named-Leaves s (find_name element.attributes))
        (insert_element-Leaves element element.attributes s)

  visit_characters-Leaves :
      (v : BinXmlValue X) (s : JsonOutput J) → Leaves (length s.stack) (visit_characters J D v s)
  unfolding visit_characters
  visit_characters-Leaves v s = stored-Leaves s (
      at_current_path J s.stack
        (λ current. add_characters J D s.separate_json_attributes v current (J.view current)) s.map)

  visit_unescaped-Leaves :
      (o : Option Text) (s : JsonOutput J) → Leaves (length s.stack) (visit_unescaped J D o s)
  unfolding visit_unescaped
  visit_unescaped-Leaves none s s' h = absurd cc
  visit_unescaped-Leaves (some t) s s' h =
      visit_characters-Leaves (BinXmlValue.string_type t) s s' h

  end_of-map :
      (s : JsonOutput J) (stack : List Text) {v : J.Value}
      → end_of J s stack ≡ ok v
      → end_of J s stack ≡ ok s.map
  unfolding end_of
  end_of-map s [] h = refl
  end_of-map s (_ ∷ _) h = absurd cc

  pub into_value-map :
      (s : JsonOutput J) {v : J.Value} → into_value J s ≡ ok v → into_value J s ≡ ok s.map
  unfolding into_value
  into_value-map s h = end_of-map s s.stack h

  module _ (unescape : Text → Option Text) where
    visit_entity_reference-Leaves :
        (entity : BinXmlName) (s : JsonOutput J)
        → Leaves (length s.stack) (visit_entity_reference J D unescape entity s)
    unfolding visit_entity_reference
    visit_entity_reference-Leaves entity s = visit_unescaped-Leaves _ s

    length-take_less : (keys : List Text) → length (take (length keys - 1) keys) ≡ length keys - 1
    length-take_less keys = omega (arith, length-take (length keys - 1) keys)

    replay-depth :
        (calls : List (Call X)) (open' : List (XmlElement X)) (s s' : JsonOutput J)
        → Nested calls open'
        → s.stack ≡ []
        → replay (json_output J D unescape) calls s ≡ ok s'
        → length s'.stack ≡ length open'
    replay-depth calls open' s s' Nested.before e h = same_size h ∙ ap (λ k. length k) e
    replay-depth (_ ∷ cs) open' s s' (Nested.started n) e h =
        let (s1, e1, h1) = bind-ok (replay (json_output J D unescape) cs s) _ h in
        same_size h1 ∙ replay-depth _ _ s s1 n e e1
    replay-depth (_ ∷ cs) _ s s' (Nested.opened {e = el} n) e h =
        let (s1, e1, h1) = bind-ok (replay (json_output J D unescape) cs s) _ h in
        visit_open_start_element-Leaves el s1 s' h1 ∙ ap suc (replay-depth _ _ s s1 n e e1)
    replay-depth (_ ∷ cs) _ s s' (Nested.closed n) e h =
        let (s1, e1, h1) = bind-ok (replay (json_output J D unescape) cs s) _ h in
        let before = replay-depth _ _ s s1 n e e1 in
        let after = same_size h1 ∙ length-take_less s1.stack in omega (arith, before, after)
    replay-depth (_ ∷ cs) _ s s' (Nested.characters {v = v} n) e h =
        let (s1, e1, h1) = bind-ok (replay (json_output J D unescape) cs s) _ h in
        visit_characters-Leaves v s1 s' h1 ∙ replay-depth _ _ s s1 n e e1
    replay-depth (_ ∷ cs) _ s s' (Nested.entity_reference {n = name} n) e h =
        let (s1, e1, h1) = bind-ok (replay (json_output J D unescape) cs s) _ h in
        visit_entity_reference-Leaves name s1 s' h1 ∙ replay-depth _ _ s s1 n e e1
    replay-depth (_ ∷ cs) _ s s' (Nested.processing_instruction n) e h =
        let (s1, e1, h1) = bind-ok (replay (json_output J D unescape) cs s) _ h in absurd cc

    into_value-cases :
        (s : JsonOutput J) (stack : List Text) (open' : List (XmlElement X))
        → length stack ≡ length open'
        → (end_of J s stack ≡ ok s.map) ↔ (open' ≡ [])
    unfolding end_of
    into_value-cases s [] [] h = (λ e. refl, λ e. refl)
    into_value-cases s [] (_ ∷ _) h = absurd (omega (arith, h))
    into_value-cases s (_ ∷ _) [] h = absurd (omega (arith, h))
    into_value-cases s (_ ∷ _) (_ ∷ _) h = (λ e. absurd cc, λ e. absurd cc)

    -- Where the visitor that only writes down its calls gets through a record's tokens, and the
    -- JSON visitor does too from an empty stack: its stack has a name for each element that the
    -- calls left open, so that `into_value` gives the document just when each is closed.
    pub parse_tokens-depth :
        (chunk : EvtxChunk X) (fuel : ℕ) (tokens : Tokens X) (s s' : JsonOutput J)
        {calls : List (Call X)}
        → s.stack ≡ []
        → parse_tokens (trace X) chunk fuel tokens [] ≡ ok calls
        → parse_tokens (json_output J D unescape) chunk fuel tokens s ≡ ok s'
        → (body : List (Call X)) × (open' : List (XmlElement X)) × (calls
            ≡ Call.end_of_stream ∷ body)
          × Nested body open'
          × (length s'.stack ≡ length open')
          × ((into_value J s' ≡ ok s'.map) ↔ (open' ≡ []))
    unfolding into_value
    parse_tokens-depth chunk fuel tokens s s' {calls = calls} e t h =
        let visitor = json_output J D unescape in
        let (body, open', same, nested) = parse_tokens-Nested chunk fuel tokens t in
        let replayed = sym (parse_tokens-replay visitor chunk fuel tokens s t) ∙ h in
        let all : replay visitor (Call.end_of_stream ∷ body) s ≡ ok s' =
          ap (λ c. replay visitor c s) (sym same) ∙ replayed in
        let (s1, e1, h1) = bind-ok (replay visitor body s) _ all in
        let depth = same_size h1 ∙ replay-depth body open' s s1 nested e e1 in
        (body, open', same, nested, depth, into_value-cases s' s'.stack open' depth)
