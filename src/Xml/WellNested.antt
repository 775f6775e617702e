-- ===== src/Xml/WellNested.antt =====
-- The events that src/xml_output.rs writes for a record are well nested.
use evtx.Prelude.{
  ltb, if◌then◌else◌, ltb→lt, length, All, Text, codes, ℕ, ◌<◌, ◌≡◌, refl, sym, ap, ◌∙◌, subst,
  Bool, true, false, List, [], ◌∷◌, ◌++◌,
}
use evtx.Foreign.{Foreign}
use evtx.Xml.{Event, QuickXml, write, start_attributes, open_element, write_characters, xml_output}
use evtx.Display.{Display}
use evtx.Records.{EvtxChunk}
use evtx.RecordModel.{XmlAttribute, XmlElement}
use evtx.Visit.Nesting.{Call, trace, Nested, parse_tokens-Nested}
use evtx.Err.{Outcome, ok, EvtxError, bind}
use evtx.Model.{Tokens}
use evtx.Visit.{parse_tokens}
use evtx.Visit.Replay.{replay, parse_tokens-replay}
use evtx.Err.Bind.{bind-ok, ok-injective}
use evtx.Value.CowStr.{as_cow_str}

-- Events, the last first, that open and close tags one inside the other; the names are of the tags
-- that are open after them.
pub data WellNested : List Event → List Text → Type 0 where
  before : WellNested [] []
  declared :
      {es : List Event} {names : List Text}
      → WellNested es names
      → WellNested (Event.decl (codes "1.0") (codes "utf-8") ∷ es) names
  opened :
      {es : List Event} {names : List Text} {name : Text} {attributes : List (Text × Text)}
      → All (λ a. 0 < length a.1) attributes
      → WellNested es names
      → WellNested (Event.start name attributes ∷ es) (name ∷ names)
  closed :
      {es : List Event} {names : List Text} {name : Text}
      → WellNested es (name ∷ names)
      → WellNested (Event.end' name ∷ es) names
  text :
      {es : List Event} {names : List Text} {t : Text}
      → WellNested es names
      → WellNested (Event.text t ∷ es) names
  reference :
      {es : List Event} {names : List Text} {t : Text}
      → WellNested es names
      → WellNested (Event.escaped_text t ∷ es) names
  instruction :
      {es : List Event} {names : List Text} {t : Text}
      → WellNested es names
      → WellNested (Event.pi t ∷ es) names

module _ {X : Foreign} (Q : QuickXml) (D : Display X) where
  -- The writer after the events, of which the last is the list's head.
  abbrev pub write_all : List Event → Q.Writer → Outcome (EvtxError X) Q.Writer
  write_all [] w = ok w
  write_all (e ∷ es) w = bind (write_all es w) λ w'. write Q e w'

  abbrev HaveText : List (Text × Text) → Type 0
  HaveText = All (λ a. 0 < length a.1)

  HaveText-if :
      (b : Bool) (name t : Text) (more : List (Text × Text))
      → ltb 0 (length t) ≡ b
      → HaveText more
      → HaveText (if b then (name, t) ∷ more else more)
  HaveText-if true name t more e h = (ltb→lt 0 (length t) e, h)
  HaveText-if false name t more e h = h

  start_attributes-HaveText :
      (as' : List (XmlAttribute X)) {attributes : List (Text × Text)}
      → start_attributes D as' ≡ ok attributes
      → HaveText attributes
  unfolding start_attributes
  start_attributes-HaveText [] h = subst HaveText (ok-injective h) _
  start_attributes-HaveText (a ∷ rest) h =
      let (cow, e, h1) = bind-ok (as_cow_str D a.value) _ h in
      let (more, e2, h2) = bind-ok (start_attributes D rest) _ h1 in
      subst HaveText (ok-injective h2)
        (HaveText-if (ltb 0 (length cow)) a.name cow more refl (start_attributes-HaveText rest e2))

  abbrev names : List (XmlElement X) → List Text
  names [] = []
  names (e ∷ es) = e.name ∷ names es

  replay-WellNested :
      (calls : List (Call X)) (open' : List (XmlElement X)) (w w' : Q.Writer)
      → Nested calls open'
      → replay (xml_output Q D) calls w ≡ ok w'
      → (es : List Event) × (write_all es w ≡ ok w') × WellNested es (names open')
  unfolding open_element write_characters
  replay-WellNested calls open' w w' Nested.before h = ([], h, WellNested.before)
  replay-WellNested (_ ∷ cs) open' w w' (Nested.started n) h =
      let (w1, e1, h1) = bind-ok (replay (xml_output Q D) cs w) _ h in
      let (es, all, nested) = replay-WellNested cs open' w w1 n e1 in
      (_ ∷ es, rw all h1, WellNested.declared nested)
  replay-WellNested (_ ∷ cs) _ w w' (Nested.opened {e = el} n) h =
      let (w1, e1, h1) = bind-ok (replay (xml_output Q D) cs w) _ h in
      let (es, all, nested) = replay-WellNested cs _ w w1 n e1 in
      let (attributes, found, h2) = bind-ok (start_attributes D el.attributes) _ h1 in
      (_ ∷ es, rw all h2, WellNested.opened (start_attributes-HaveText el.attributes found) nested)
  replay-WellNested (_ ∷ cs) _ w w' (Nested.closed n) h =
      let (w1, e1, h1) = bind-ok (replay (xml_output Q D) cs w) _ h in
      let (es, all, nested) = replay-WellNested cs _ w w1 n e1 in
      (_ ∷ es, rw all h1, WellNested.closed nested)
  replay-WellNested (_ ∷ cs) _ w w' (Nested.characters {v = v} n) h =
      let (w1, e1, h1) = bind-ok (replay (xml_output Q D) cs w) _ h in
      let (es, all, nested) = replay-WellNested cs _ w w1 n e1 in
      let (cow, _, h2) = bind-ok (as_cow_str D v) _ h1 in
      (Event.text cow ∷ es, rw all h2, WellNested.text nested)
  replay-WellNested (_ ∷ cs) _ w w' (Nested.entity_reference {n = name} n) h =
      let (w1, e1, h1) = bind-ok (replay (xml_output Q D) cs w) _ h in
      let (es, all, nested) = replay-WellNested cs _ w w1 n e1 in
      (
        Event.escaped_text (codes "&" ++ (name ++ codes ";")) ∷ es,
        rw all h1,
        WellNested.reference nested,
      )
  replay-WellNested (_ ∷ cs) _ w w' (Nested.processing_instruction {p = p} n) h =
      let (w1, e1, h1) = bind-ok (replay (xml_output Q D) cs w) _ h in
      let (es, all, nested) = replay-WellNested cs _ w w1 n e1 in
      (Event.pi (p.name ++ p.text) ∷ es, rw all h1, WellNested.instruction nested)

  -- Where the visitor that only writes down its calls gets through a record's tokens, and the XML
  -- visitor does too: what it has written is a list of events that ends with the end of the file,
  -- and in the events before it each end tag has the name of the tag that was opened last of those
  -- still open, and no start tag has an attribute without text.
  pub parse_tokens-WellNested :
      (chunk : EvtxChunk X) (fuel : ℕ) (tokens : Tokens X) (w w' : Q.Writer) {calls : List (Call X)}
      → parse_tokens (trace X) chunk fuel tokens [] ≡ ok calls
      → parse_tokens (xml_output Q D) chunk fuel tokens w ≡ ok w'
      → (es : List Event) × (still_open : List Text) × WellNested es still_open
        × (write_all (Event.eof ∷ es) w ≡ ok w')
  parse_tokens-WellNested chunk fuel tokens w w' t h =
      let visitor = xml_output Q D in
      let (body, open', same, nested) = parse_tokens-Nested chunk fuel tokens t in
      let replayed = sym (parse_tokens-replay visitor chunk fuel tokens w t) ∙ h in
      let all : replay visitor (Call.end_of_stream ∷ body) w ≡ ok w' =
        ap (λ c. replay visitor c w) (sym same) ∙ replayed in
      let (w1, e1, h1) = bind-ok (replay visitor body w) _ all in
      let (es, done, well) = replay-WellNested body open' w w1 nested e1 in
      (es, names open', well, rw done h1)
