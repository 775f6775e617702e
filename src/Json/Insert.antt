-- ===== src/Json/Insert.antt =====
-- `insert_data_node`, `insert_node_without_attributes` and `insert_node_with_attributes` of
-- src/json_output.rs: what an opened element does to its parent's object. An element whose name
-- is taken moves the old value to the first free numbered slot.
use evtx.Prelude.{
  if◌then◌else◌, Text, codes, text_eq, ℕ, zero, suc, String, Bool, true, false, not, ◌||◌, Option,
  none, some, List, [], ◌∷◌, ◌++◌,
}
use evtx.Err.{Outcome, ok, panic, out_of_fuel, EvtxError, bind}
use evtx.Foreign.{Foreign}
use evtx.Display.{Display, nat_to_string}
use evtx.SerdeJson.{Json, SerdeJson}
use evtx.Json.{JsonOutput, null_value, of_map, at_current_parent, in_object}
use evtx.RecordModel.{XmlAttribute, XmlElement}
use evtx.Value.CowStr.{as_cow_str}
use evtx.Value.ToJson.{value_from}
use evtx.Model.{BinXmlValue}

abbrev pub no_parent : String
no_parent = "This is a bug - expected parent container to exist, and to be an object type."

abbrev pub no_value : String
no_value = "This is a bug - expected current value to exist, and to be an object type."

abbrev pub is_some : {A : Type 0} → Option A → Bool
is_some none = false
is_some (some _) = true

-- `format!("{}_{}", name, free_slot)`
abbrev pub slot : Text → ℕ → Text
slot name n = name ++ (95 ∷ nat_to_string n)

-- `format!("{}_attributes", name)`
abbrev pub attributes_key : Text → Text
attributes_key name = name ++ codes "_attributes"

-- The linear probe, from `n` on.
unfoldable pub probe : {E : Type 0} → ℕ → (ℕ → Bool) → ℕ → Outcome E ℕ
probe zero taken n = out_of_fuel
probe (suc f) taken n = let rest = probe f taken (suc n) in if taken n then rest else ok n

module _ {X : Foreign} (J : SerdeJson X) where
  abbrev pub null_view : Json J.Value J.Map J.Number → Bool
  null_view Json.null = true
  null_view _ = false

  abbrev pub is_null : J.Value → Bool
  is_null v = null_view (J.view v)

  abbrev pub empty_view : Json J.Value J.Map J.Number → Bool
  empty_view (Json.object m) = J.is_empty m
  empty_view _ = false

  -- `v == Value::Object(Map::new())`
  abbrev pub is_empty_object : J.Value → Bool
  is_empty_object v = empty_view (J.view v)

  abbrev pub filled_view : Json J.Value J.Map J.Number → Bool
  filled_view (Json.object m) = not (J.is_empty m)
  filled_view _ = false

  -- An object that is not empty.
  abbrev pub is_filled_object : J.Value → Bool
  is_filled_object v = filled_view (J.view v)

  abbrev pub slot_taken : J.Map → Text → ℕ → Bool
  slot_taken m name n = is_some (J.get m (slot name n))

  abbrev pub pair_taken : J.Map → Text → ℕ → Bool
  pair_taken m name n =
      is_some (J.get m (slot name n)) || is_some (J.get m (attributes_key (slot name n)))

  -- Moves `old` to the first free slot. A map with `len` entries has a free one of `len + 1` slots.
  unfoldable pub move_old : J.Map → Text → J.Value → Outcome (EvtxError X) J.Map
  unfolding probe
  move_old m name old =
      bind (probe (suc (J.len m)) (slot_taken m name) 1) λ n. ok (J.insert m (slot name n) old)

  -- What `insert_node_without_attributes` does with the old value: a placeholder is dropped.
  unfoldable pub keep_concrete : J.Map → Text → Option J.Value → Outcome (EvtxError X) J.Map
  unfolding move_old
  keep_concrete m name none = ok m
  keep_concrete m name (some old) =
      if is_null old || is_empty_object old then ok m else move_old m name old

  unfoldable pub insert_plain : Text → J.Map → Outcome (EvtxError X) J.Map
  unfolding keep_concrete
  insert_plain name m = keep_concrete (J.insert m name (null_value J)) name (J.get m name)

  -- What `insert_node_with_attributes` does with the old value: only an object with content stays.
  unfoldable pub keep_object : J.Map → Text → Option J.Value → Outcome (EvtxError X) J.Map
  unfolding move_old
  keep_object m name none = ok m
  keep_object m name (some old) = if is_filled_object old then move_old m name old else ok m

  unfoldable pub insert_nested : Text → J.Map → J.Map → Outcome (EvtxError X) J.Map
  unfolding keep_object
  insert_nested name attributes m =
      bind (keep_object (J.insert m name (null_value J)) name (J.get m name)) λ m'.
        ok
          (J.insert m' name (of_map J (J.insert J.new (codes "#attributes") (of_map J attributes))))

  abbrev pub insert_filled : J.Map → Text → J.Value → J.Map
  insert_filled m key v = if is_filled_object v then J.insert m key v else m

  unfoldable pub move_pair :
      J.Map → Text → Option J.Value → Option J.Value → Outcome (EvtxError X) J.Map
  unfolding probe
  move_pair m name (some old_attribute) (some old_value) =
      bind (probe (suc (J.len m)) (pair_taken m name) 1) λ n. ok (
        insert_filled (insert_filled m (slot name n) old_value) (attributes_key (slot name n))
          old_attribute)
  move_pair m name _ _ = ok m

  -- The value's own key goes when there is nothing in it. Indexing panics on a missing key.
  unfoldable pub drop_empty : Text → J.Map → Option J.Value → Outcome (EvtxError X) J.Map
  drop_empty name m none = panic
  drop_empty name m (some v) = if is_null v || is_empty_object v then ok (J.remove m name) else ok m

  -- The two insertions that take the old entries out, of which the second is only for an element
  -- whose attributes were there.
  abbrev pub take_out : Text → Option J.Value → J.Map → J.Map
  take_out name none m = m
  take_out name (some _) m = J.insert m name (null_value J)

  unfoldable pub insert_separate : Text → J.Map → J.Map → Outcome (EvtxError X) J.Map
  unfolding move_pair drop_empty
  insert_separate name attributes m =
      let old_attribute = J.get m (attributes_key name) in
      let m1 = J.insert m (attributes_key name) (null_value J) in
      bind (move_pair (take_out name old_attribute m1) name old_attribute (J.get m1 name)) λ m2.
        let m3 = J.insert m2 (attributes_key name) (of_map J attributes) in
        drop_empty name m3 (J.get m3 name)

  abbrev pub push_name : JsonOutput J → Text → JsonOutput J
  push_name s name = record s { stack = s.stack ++ (name ∷ []) }

  -- A change of the current parent's object.
  unfoldable pub change_parent :
      String
      → (J.Map → Outcome (EvtxError X) J.Map)
      → JsonOutput J
      → Outcome (EvtxError X) (JsonOutput J)
  unfolding at_current_parent in_object
  change_parent message f s =
      bind (at_current_parent J s.stack (λ v. in_object J message f v) s.map)
        λ map'. ok record s { map = map' }

  unfoldable pub insert_node_without_attributes :
      JsonOutput J → Text → Outcome (EvtxError X) (JsonOutput J)
  unfolding change_parent insert_plain
  insert_node_without_attributes s name =
      change_parent no_parent (λ m. insert_plain name m) (push_name s name)

module _ {X : Foreign} where
  -- `find(|a| a.name == "Name")`
  unfoldable pub find_name : List (XmlAttribute X) → Option (BinXmlValue X)
  find_name [] = none
  find_name (a ∷ rest) =
      let found = find_name rest in if text_eq a.name (codes "Name") then some a.value else found

module _ {X : Foreign} (J : SerdeJson X) (D : Display X) where
  -- The attributes that have a value.
  unfoldable pub collect_attributes : List (XmlAttribute X) → J.Map → Outcome (EvtxError X) J.Map
  unfolding value_from
  collect_attributes [] m = ok m
  collect_attributes (a ∷ rest) m =
      bind (value_from J D a.value)
        λ v. collect_attributes rest (if is_null J v then m else J.insert m a.name v)

  unfoldable pub insert_attributes :
      JsonOutput J → Text → J.Map → Outcome (EvtxError X) (JsonOutput J)
  unfolding change_parent insert_nested insert_separate
  insert_attributes s name attributes =
      if J.is_empty attributes
      then change_parent J no_value (λ m. ok (J.insert m name (null_value J))) s
      else if s.separate_json_attributes
      then change_parent J no_value (λ m. insert_separate J name attributes m) s
      else change_parent J no_parent (λ m. insert_nested J name attributes m) s

  unfoldable pub insert_node_with_attributes :
      JsonOutput J → XmlElement X → Text → Outcome (EvtxError X) (JsonOutput J)
  unfolding collect_attributes insert_attributes
  insert_node_with_attributes s element name =
      bind (collect_attributes element.attributes J.new)
        λ attributes. insert_attributes (push_name J s name) name attributes

  unfoldable pub insert_named :
      JsonOutput J → Option (BinXmlValue X) → Outcome (EvtxError X) (JsonOutput J)
  unfolding insert_node_without_attributes as_cow_str
  insert_named s none = ok (push_name J s (codes "Data"))
  insert_named s (some name) =
      bind (as_cow_str D name) λ data_key. insert_node_without_attributes J s data_key

  unfoldable pub insert_data_node :
      JsonOutput J → XmlElement X → Outcome (EvtxError X) (JsonOutput J)
  unfolding find_name insert_named
  insert_data_node s element = insert_named s (find_name element.attributes)
