-- ===== src/Json/Separate.antt =====
-- `insert_node_with_attributes` of src/json_output.rs with separate attributes gets through.
use evtx.Prelude.{Bool-cases, Text, ◌≡◌, refl, inl, inr, ◌||◌, Option, none, some}
use evtx.Foreign.{Foreign}
use evtx.SerdeJson.{SerdeJson, IsLawful}
use evtx.Json.Insert.{
  slot, attributes_key, is_null, is_empty_object, is_filled_object, insert_filled, move_pair,
  drop_empty, take_out, insert_separate,
}
use evtx.Json.Path.{Has}
use evtx.Err.{ok, EvtxError}
use evtx.Err.Success.{IsOk, IsOk-if}
use evtx.Json.{null_value, of_map}
use evtx.Json.Probe.{probe-pair}
use evtx.Json.Keeps.{Has-insert}

module _ {X : Foreign} {J : SerdeJson X} (L : IsLawful J) where
  Has-filled :
      (m : J.Map) (k k' : Text) (v : J.Value) → Has L m k' → Has L (insert_filled J m k v) k'
  Has-filled m k k' v h = elim (Bool-cases (is_filled_object J v)) [
    | inl c ↦ rw c (Has-insert L m k k' v h)
    | inr c ↦ rw c h
  ]

  move_pair-Has :
      (m : J.Map) (name : Text) (a b : Option J.Value) (k : Text)
      → Has L m k
      → (m' : J.Map) × (move_pair J m name a b ≡ ok m') × Has L m' k
  unfolding move_pair
  move_pair-Has m name none b k h = (m, refl, h)
  move_pair-Has m name (some a) none k h = (m, refl, h)
  move_pair-Has m name (some a) (some b) k h =
      let (n, found) = probe-pair L (EvtxError X) m name in
      (
        _,
        rw found refl,
        Has-filled _ (attributes_key (slot name n)) k a (Has-filled m (slot name n) k b h),
      )

  drop_empty-IsOk :
      (name : Text) (m : J.Map) → Has L m name → IsOk (drop_empty J name m (J.get m name))
  unfolding drop_empty
  drop_empty-IsOk name m (v, e) =
      rw e (IsOk-if (is_null J v || is_empty_object J v) (_, refl) (_, refl))

  Has-take_out :
      (name : Text) (o : Option J.Value) (m : J.Map) (k : Text)
      → Has L m k
      → Has L (take_out J name o m) k
  Has-take_out name none m k h = h
  Has-take_out name (some v) m k h = Has-insert L m name k (null_value J) h

  pub insert_separate-IsOk :
      (name : Text) (attributes m : J.Map)
      → Has L m name
      → IsOk (insert_separate J name attributes m)
  unfolding insert_separate
  insert_separate-IsOk name attributes m h =
      let key = attributes_key name in
      let m1 = J.insert m key (null_value J) in
      let old_attribute = J.get m key in
      let (m2, e, h2) =
        move_pair-Has (take_out J name old_attribute m1) name old_attribute (J.get m1 name) name
          (Has-take_out name old_attribute m1 name (Has-insert L m key name (null_value J) h)) in
      let m3 = J.insert m2 key (of_map J attributes) in
      rw e (drop_empty-IsOk name m3 (Has-insert L m2 key name (of_map J attributes) h2))
