-- ===== src/Json.antt =====
-- `JsonOutput` of src/json_output.rs: its state, and the value at the path of the open elements. A
-- `&mut Value` that a method gives is modelled by what the caller does with it: a function on the
-- value there, whose result is put back. serde_json and the formatting of values are parameters.
pub mod Insert
pub mod Visitor
pub mod Path
pub mod Characters
pub mod Depth
pub mod Opened
pub mod Keeps
pub mod Separate
pub mod Slots
pub mod Probe
use evtx.Prelude.{length, take, Text, ◌-◌, String, Bool, Option, none, some, List, [], ◌∷◌, map}
use evtx.Foreign.{Foreign}
use evtx.SerdeJson.{Json, SerdeJson}
use evtx.Err.{Outcome, ok, err, panic, json_structure_error, EvtxError, bind}
use evtx.Settings.{ParserSettings}

pub record JsonOutput {X : Foreign} (J : SerdeJson X) : Type 0 where
  pub map : J.Value
  -- from the root down
  pub stack : List Text
  pub separate_json_attributes : Bool

abbrev pub structure_error : {X : Foreign} {A : Type 0} → String → Outcome (EvtxError X) A
structure_error message = err (EvtxError.serialization_error (json_structure_error message))

module _ {X : Foreign} (J : SerdeJson X) where
  abbrev pub null_value : J.Value
  null_value = J.value Json.null

  abbrev pub of_map : J.Map → J.Value
  of_map m = J.value (Json.object m)

  -- `JsonOutput::new`
  unfoldable pub new_output : ParserSettings X → JsonOutput J
  new_output settings = record {
    map = of_map J.new;
    stack = [];
    separate_json_attributes = settings.separate_json_attributes;
  }

  abbrev pub get_in : Json J.Value J.Map J.Number → Text → Option J.Value
  get_in (Json.object m) key = J.get m key
  get_in _ key = none

  -- `v.get(key)`
  abbrev pub get_key : J.Value → Text → Option J.Value
  get_key v key = get_in (J.view v) key

  abbrev pub put_in : Json J.Value J.Map J.Number → J.Value → Text → J.Value → J.Value
  put_in (Json.object m) v key child = of_map (J.insert m key child)
  put_in _ v key child = v

  -- A change of what `v.get_mut(key)` refers to.
  abbrev pub put_key : J.Value → Text → J.Value → J.Value
  put_key v key child = put_in (J.view v) v key child

  -- A value in which the key is missing gets it: a null becomes an object, and another value that
  -- is no object is shifted in.
  unfoldable pub fill : Json J.Value J.Map J.Number → J.Value → Text → J.Value
  fill Json.null v key = of_map (J.insert J.new key (of_map J.new))
  fill (Json.object m) v key = of_map (J.insert m key (of_map J.new))
  fill _ v key = of_map (J.insert J.new key v)

  unfoldable pub create_key_if : Option J.Value → J.Value → Text → J.Value
  unfolding fill
  create_key_if (some _) v key = v
  create_key_if none v key = fill (J.view v) v key

  -- One round of the loop of `get_or_create_current_path`, before it goes down.
  unfoldable pub create_key : J.Value → Text → J.Value
  unfolding create_key_if
  create_key v key = create_key_if (get_key v key) v key

  -- `get_mut(key).expect(...)`, and what is done there.
  unfoldable pub enter :
      Option J.Value
      → (J.Value → Outcome (EvtxError X) J.Value)
      → J.Value
      → Text
      → Outcome (EvtxError X) J.Value
  enter none f v key = panic
  enter (some child) f v key = bind (f child) λ child'. ok (put_key v key child')

  -- What `f` does with the value of `get_or_create_current_path`.
  unfoldable pub at_current_path :
      List Text
      → (J.Value → Outcome (EvtxError X) J.Value)
      → J.Value
      → Outcome (EvtxError X) J.Value
  unfolding create_key enter
  at_current_path [] f v = f v
  at_current_path (key ∷ keys) f v =
      enter (get_key (create_key v key) key) (λ child. at_current_path keys f child)
        (create_key v key) key

  -- The loop of `get_current_parent`, which creates nothing.
  unfoldable pub at_path :
      List Text
      → (J.Value → Outcome (EvtxError X) J.Value)
      → J.Value
      → Outcome (EvtxError X) J.Value
  unfolding enter
  at_path [] f v = f v
  at_path (key ∷ keys) f v = enter (get_key v key) (λ child. at_path keys f child) v key

  -- What `f` does with the value of `get_current_parent`. It is called on a stack that just grew.
  unfoldable pub at_current_parent :
      List Text
      → (J.Value → Outcome (EvtxError X) J.Value)
      → J.Value
      → Outcome (EvtxError X) J.Value
  unfolding at_current_path at_path
  at_current_parent stack f v =
      bind (at_current_path stack (λ u. ok u) v) λ v'. at_path (take (length stack - 1) stack) f v'

  unfoldable pub in_view :
      String
      → (J.Map → Outcome (EvtxError X) J.Map)
      → Json J.Value J.Map J.Number
      → Outcome (EvtxError X) J.Value
  in_view message f (Json.object m) = bind (f m) λ m'. ok (of_map m')
  in_view message f _ = structure_error message

  -- `as_object_mut().ok_or_else(...)`
  unfoldable pub in_object :
      String → (J.Map → Outcome (EvtxError X) J.Map) → J.Value → Outcome (EvtxError X) J.Value
  unfolding in_view
  in_object message f v = in_view message f (J.view v)

  unfoldable pub end_of : JsonOutput J → List Text → Outcome (EvtxError X) J.Value
  end_of s [] = ok s.map
  end_of s (_ ∷ _) = structure_error "Invalid stream, EOF reached before closing all attributes"

  unfoldable pub into_value : JsonOutput J → Outcome (EvtxError X) J.Value
  unfolding end_of
  into_value s = end_of s s.stack
