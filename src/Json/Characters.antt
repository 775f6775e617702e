-- ===== src/Json/Characters.antt =====
-- `visit_characters` of src/json_output.rs: the texts of an element without attributes.
use evtx.Prelude.{Text, ◌≡◌, Option, none, some, List, [], ◌∷◌, ◌++◌}
use evtx.Foreign.{Foreign}
use evtx.SerdeJson.{Json, SerdeJson, IsLawful}
use evtx.Model.{BinXmlValue}
use evtx.Json.{JsonOutput, get_key}
use evtx.Err.{Outcome, ok, EvtxError, bind}
use evtx.Display.{Display}
use evtx.Json.Visitor.{visit_characters}

abbrev pub and_then : {A : Type 0} → Option A → (A → Option A) → Option A
and_then none f = none
and_then (some a) f = f a

module _ {X : Foreign} (J : SerdeJson X) where
  -- The value at a path.
  abbrev pub get_path : List Text → J.Value → Option J.Value
  get_path [] v = some v
  get_path (key ∷ keys) v = and_then (get_key J v key) λ child. get_path keys child

module _ {X : Foreign} {J : SerdeJson X} (L : IsLawful J) (D : Display X) where
  -- Text after text of the innermost element.
  abbrev pub visit_texts : List Text → JsonOutput J → Outcome (EvtxError X) (JsonOutput J)
  visit_texts [] s = ok s
  visit_texts (t ∷ ts) s =
      bind (visit_characters J D (BinXmlValue.string_type t) s) λ s'. visit_texts ts s'

  abbrev pub concat_texts : List Text → Text
  concat_texts [] = []
  concat_texts (t ∷ ts) = t ++ concat_texts ts

  -- The code gives a state whose innermost element has this value.
  abbrev pub Holds : List Text → J.Value → Outcome (EvtxError X) (JsonOutput J) → Type 0
  Holds stack w r =
      (s' : JsonOutput J) × (r ≡ ok s') × (s'.stack ≡ stack) × (get_path J stack s'.map ≡ some w)
