-- ===== src/Json/Path.antt =====
-- The path of the open elements: after `get_or_create_current_path` it is there, so that none of
-- the `expect`s on it fires and each parent on it is an object.
use evtx.Prelude.{
  if◌then◌else◌, Option-cases, length, take, length-append, take-length, Text, text_eq_iff, ◌-◌,
  String, ◌≡◌, refl, sym, ap, ◌∙◌, inl, inr, some, List, [], ◌∷◌, ◌++◌, arith,
}
use evtx.Foreign.{Foreign}
use evtx.SerdeJson.{Json, SerdeJson, IsLawful}
use evtx.Json.{
  JsonOutput, of_map, get_in, get_key, put_in, fill, create_key_if, create_key, enter,
  at_current_path, at_path, at_current_parent, in_view, in_object,
}
use evtx.Json.Insert.{push_name, change_parent}
use evtx.Err.{Outcome, ok, EvtxError}
use evtx.Err.Success.{IsOk, IsOk-bind}

-- `stack[..stack.len() - 1]` after a push.
pub take-push :
    (keys : List Text) (name : Text)
    → take (length (keys ++ (name ∷ [])) - 1) (keys ++ (name ∷ [])) ≡ keys
take-push keys name =
    let shorter : length (keys ++ (name ∷ [])) - 1 ≡ length keys =
      omega (arith, length-append keys (name ∷ [])) in
    rw shorter (take-length keys (name ∷ []))

module _ {X : Foreign} {J : SerdeJson X} (L : IsLawful J) where
  -- The keys lead down from the value.
  abbrev pub Created : List Text → J.Value → Type 0
  Created [] v = Unit
  Created (key ∷ keys) v = (child : J.Value) × (get_key J v key ≡ some child) × Created keys child

  abbrev pub Has : J.Map → Text → Type 0
  Has m name = (v : J.Value) × (J.get m name ≡ some v)

  pub get-insert_same : (m : J.Map) (k : Text) (v : J.Value) → J.get (J.insert m k v) k ≡ some v
  get-insert_same m k v =
      L.get-insert m k v k ∙ ap (λ b. if b then some v else J.get m k) ((text_eq_iff k k).1 refl)

  pub get_key-of_map : (m : J.Map) (k : Text) → get_key J (of_map J m) k ≡ J.get m k
  get_key-of_map m k = ap (λ j. get_in J j k) (L.view-value (Json.object m))

  fill-get_key :
      (j : Json J.Value J.Map J.Number) (v : J.Value) (key : Text)
      → (child : J.Value) × (get_key J (fill J j v key) key ≡ some child)
  unfolding fill
  fill-get_key Json.null v key = (_, get_key-of_map _ key ∙ get-insert_same _ key _)
  fill-get_key (Json.bool b) v key = (_, get_key-of_map _ key ∙ get-insert_same _ key _)
  fill-get_key (Json.number n) v key = (_, get_key-of_map _ key ∙ get-insert_same _ key _)
  fill-get_key (Json.string s) v key = (_, get_key-of_map _ key ∙ get-insert_same _ key _)
  fill-get_key (Json.array vs) v key = (_, get_key-of_map _ key ∙ get-insert_same _ key _)
  fill-get_key (Json.object m) v key = (_, get_key-of_map _ key ∙ get-insert_same _ key _)

  create_key-get_key :
      (v : J.Value) (key : Text)
      → (child : J.Value) × (get_key J (create_key J v key) key ≡ some child)
  unfolding create_key create_key_if
  create_key-get_key v key = elim (Option-cases (get_key J v key)) [
    | inl e ↦ rw e (fill-get_key (J.view v) v key)
    | inr (child, e) ↦ rw e (child, e)
  ]

  pub put_in-get_key :
      (j : Json J.Value J.Map J.Number) (v : J.Value) (key : Text) (child : J.Value) {old : J.Value}
      → get_in J j key ≡ some old
      → get_key J (put_in J j v key child) key ≡ some child
  put_in-get_key Json.null v key child h = absurd cc
  put_in-get_key (Json.bool b) v key child h = absurd cc
  put_in-get_key (Json.number n) v key child h = absurd cc
  put_in-get_key (Json.string s) v key child h = absurd cc
  put_in-get_key (Json.array vs) v key child h = absurd cc
  put_in-get_key (Json.object m) v key child h = get_key-of_map _ key ∙ get-insert_same m key child

  -- Where `f` gets through at the end of the path, `get_or_create_current_path` and `f` do.
  pub at_current_path-IsOk :
      (keys : List Text) (f : J.Value → Outcome (EvtxError X) J.Value) (v : J.Value)
      → ((u : J.Value) → IsOk (f u))
      → IsOk (at_current_path J keys f v)
  unfolding at_current_path enter
  at_current_path-IsOk [] f v h = h v
  at_current_path-IsOk (key ∷ keys) f v h =
      let (child, e) = create_key-get_key v key in
      rw e (IsOk-bind _ (at_current_path-IsOk keys f child h) (λ c. (_, refl)))

  -- `get_or_create_current_path` always gives a value, and then the whole path is there.
  pub at_current_path-Created :
      (keys : List Text) (v : J.Value)
      → (v' : J.Value) × (at_current_path J keys (λ u. ok u) v ≡ ok v') × Created keys v'
  unfolding at_current_path enter
  at_current_path-Created [] v = (v, refl, _)
  at_current_path-Created (key ∷ keys) v =
      let (child, e) = create_key-get_key v key in
      let (child', e', c) = at_current_path-Created keys child in
      let there = put_in-get_key (J.view (create_key J v key)) (create_key J v key) key child' e in
      (_, rw (e, e') refl, (child', there, c))

  -- Only an object has keys.
  pub get_in-object :
      (j : Json J.Value J.Map J.Number) (name : Text) {child : J.Value}
      → get_in J j name ≡ some child
      → (m : J.Map) × (j ≡ Json.object m)
  get_in-object Json.null name e = absurd cc
  get_in-object (Json.bool b) name e = absurd cc
  get_in-object (Json.number n) name e = absurd cc
  get_in-object (Json.string s) name e = absurd cc
  get_in-object (Json.array vs) name e = absurd cc
  get_in-object (Json.object m) name e = (m, refl)

  pub in_view_lem :
      (message : String) (f : J.Map → Outcome (EvtxError X) J.Map) (m : J.Map) {m' : J.Map}
      → f m ≡ ok m'
      → in_view J message f (Json.object m) ≡ ok (of_map J m')
  unfolding in_view
  in_view_lem message f m e = rw e refl

  in_view-IsOk :
      (message : String) (f : J.Map → Outcome (EvtxError X) J.Map) (name : Text)
      (j : Json J.Value J.Map J.Number) {child : J.Value}
      → get_in J j name ≡ some child
      → ((m : J.Map) → Has m name → IsOk (f m))
      → IsOk (in_view J message f j)
  in_view-IsOk message f name j e h =
      let (m, is_object) = get_in-object j name e in
      let (m', got) = h m (_, ap (λ k. get_in J k name) (sym is_object) ∙ e) in
      (_, ap (λ k. in_view J message f k) is_object ∙ in_view_lem message f m got)

  at_path-IsOk :
      (message : String) (f : J.Map → Outcome (EvtxError X) J.Map) (keys : List Text) (name : Text)
      (v : J.Value)
      → Created (keys ++ (name ∷ [])) v
      → ((m : J.Map) → Has m name → IsOk (f m))
      → IsOk (at_path J keys (λ u. in_object J message f u) v)
  unfolding at_path enter in_object
  at_path-IsOk message f [] name v (child, e, _) h = in_view-IsOk message f name (J.view v) e h
  at_path-IsOk message f (key ∷ keys) name v (child, e, c) h =
      rw e (IsOk-bind _ (at_path-IsOk message f keys name child c h) (λ c. (_, refl)))

  -- A change of the parent's object gets through when it does on an object that has the new name.
  pub change_parent-IsOk :
      (message : String) (f : J.Map → Outcome (EvtxError X) J.Map) (s : JsonOutput J) (name : Text)
      → ((m : J.Map) → Has m name → IsOk (f m))
      → (map' : J.Value) × (change_parent J message f (push_name J s name)
          ≡ ok record s { map = map'; stack = s.stack ++ (name ∷ []) })
  unfolding change_parent at_current_parent
  change_parent-IsOk message f s name h =
      let (v', e, c) = at_current_path-Created (s.stack ++ (name ∷ [])) s.map in
      let (map', e') = at_path-IsOk message f s.stack name v' c h in
      (map', rw (e, take-push s.stack name, e') refl)
