-- ===== src/Json/Keeps.antt =====
-- What the insertions of src/json_output.rs do to the parent's object: the probe ends, the entries
-- under other names stay, and a concrete old value goes to a numbered name where the insertion
-- moves it.
use evtx.Prelude.{
  Bool-cases, Text, codes, text_eq, ℕ, suc, ◌≡◌, refl, sym, ap, ◌∙◌, ◌≢◌, inl, inr, false, ◌||◌,
  Option, none, some,
}
use evtx.Foreign.{Foreign}
use evtx.SerdeJson.{SerdeJson, IsLawful}
use evtx.Json.Insert.{
  is_some, slot, is_null, is_empty_object, is_filled_object, slot_taken, move_old, keep_concrete,
  insert_plain, keep_object, insert_nested,
}
use evtx.Json.Path.{Has, get-insert_same}
use evtx.Json.Slots.{text_eq-ne}
use evtx.Err.{ok, EvtxError}
use evtx.Err.Success.{IsOk, IsOk-bind}
use evtx.Json.{null_value, of_map}
use evtx.Json.Probe.{probe-first, probe-slot}

module _ {X : Foreign} {J : SerdeJson X} (L : IsLawful J) where
  pub get-insert_other :
      (m : J.Map) (k k' : Text) (v : J.Value) → k ≢ k' → J.get (J.insert m k v) k' ≡ J.get m k'
  get-insert_other m k k' v h = L.get-insert m k v k' ∙ rw (text_eq-ne k k' h) refl

  -- An entry that is there stays, or is replaced.
  pub Has-insert : (m : J.Map) (k k' : Text) (v : J.Value) → Has L m k' → Has L (J.insert m k v) k'
  Has-insert m k k' v (w, e) = elim (Bool-cases (text_eq k k')) [
    | inl c ↦ (v, L.get-insert m k v k' ∙ rw c refl)
    | inr c ↦ (w, L.get-insert m k v k' ∙ rw c e)
  ]

  taken-ne : (m : J.Map) (k k' : Text) → Has L m k → J.get m k' ≡ none → k ≢ k'
  taken-ne m k k' (v, e) free h = absurd (cc (e, free, ap (λ t. J.get m t) h))

  is_some-none : (o : Option J.Value) → is_some o ≡ false → o ≡ none
  is_some-none none h = refl
  is_some-none (some v) h = absurd cc

  -- With a serde_json that meets its laws: whatever the object and the name are, the probe for a
  -- free numbered name ends within one round more than the object has entries, and the old value
  -- is put at a numbered name that was free.
  pub move_old_lem :
      (m : J.Map) (name : Text) (old : J.Value)
      → (n : ℕ) × (move_old J m name old ≡ ok (J.insert m (slot name n) old))
        × (J.get m (slot name n) ≡ none)
  unfolding move_old
  move_old_lem m name old =
      let (n, found) = probe-slot L (EvtxError X) m name in
      let (free, _, _) = probe-first (suc (J.len m)) (λ i. slot_taken J m name i) 1 found in
      (n, rw found refl, is_some-none _ free)

  move_old-get :
      (m : J.Map) (name : Text) (old : J.Value) (k : Text) {v : J.Value}
      → J.get m k ≡ some v
      → (m' : J.Map) × (move_old J m name old ≡ ok m') × (J.get m' k ≡ some v)
  move_old-get m name old k e =
      let (n, moved, free) = move_old_lem m name old in
      let apart = taken-ne m k (slot name n) (_, e) free in
      (_, moved, get-insert_other m (slot name n) k old (λ h. apart (sym h)) ∙ e)

  pub keep_concrete-get :
      (m : J.Map) (name : Text) (o : Option J.Value) (k : Text) {v : J.Value}
      → J.get m k ≡ some v
      → (m' : J.Map) × (keep_concrete J m name o ≡ ok m') × (J.get m' k ≡ some v)
  unfolding keep_concrete
  keep_concrete-get m name none k e = (m, refl, e)
  keep_concrete-get m name (some old) k e =
      elim (Bool-cases (is_null J old || is_empty_object J old)) [
        | inl c ↦ rw c (m, refl, e)
        | inr c ↦ rw c (move_old-get m name old k e)
      ]

  keep_object-get :
      (m : J.Map) (name : Text) (o : Option J.Value) (k : Text) {v : J.Value}
      → J.get m k ≡ some v
      → (m' : J.Map) × (keep_object J m name o ≡ ok m') × (J.get m' k ≡ some v)
  unfolding keep_object
  keep_object-get m name none k e = (m, refl, e)
  keep_object-get m name (some old) k e = elim (Bool-cases (is_filled_object J old)) [
    | inl c ↦ rw c (move_old-get m name old k e)
    | inr c ↦ rw c (m, refl, e)
  ]

  -- With a serde_json that meets its laws: opening an element without attributes gets through and
  -- leaves every entry of its parent's object with another name as it is.
  pub insert_plain-keeps :
      (name : Text) (m : J.Map) (k : Text) {v : J.Value}
      → name ≢ k
      → J.get m k ≡ some v
      → (m' : J.Map) × (insert_plain J name m ≡ ok m') × (J.get m' k ≡ some v)
  unfolding insert_plain
  insert_plain-keeps name m k h e =
      keep_concrete-get (J.insert m name (null_value J)) name (J.get m name) k
        (get-insert_other m name k (null_value J) h ∙ e)

  -- With a serde_json that meets its laws: opening an element without attributes whose name has a
  -- value that is neither null nor an empty object moves that value to a numbered name that was
  -- free, and leaves null at the name.
  pub insert_plain-moves :
      (name : Text) (m : J.Map) {old : J.Value}
      → J.get m name ≡ some old
      → (is_null J old || is_empty_object J old) ≡ false
      → (m' : J.Map) × (n : ℕ) × (insert_plain J name m ≡ ok m')
        × (J.get m (slot name n) ≡ none)
        × (J.get m' (slot name n) ≡ some old)
        × (J.get m' name ≡ some (null_value J))
  unfolding insert_plain keep_concrete
  insert_plain-moves name m {old = old} e c =
      let m1 = J.insert m name (null_value J) in
      let (n, moved, free) = move_old_lem m1 name old in
      let placed = get-insert_same L m name (null_value J) in
      let apart = taken-ne m1 name (slot name n) (_, placed) free in
      (
        _,
        n,
        rw (e, c) moved,
        sym (get-insert_other m name (slot name n) (null_value J) apart) ∙ free,
        get-insert_same L m1 (slot name n) old,
        get-insert_other m1 (slot name n) name old (λ h. apart (sym h)) ∙ placed,
      )

  -- With a serde_json that meets its laws: opening an element with attributes, when they are not
  -- separate, gets through, leaves every entry of its parent's object with another name as it is,
  -- and puts the attributes at its name.
  pub insert_nested-keeps :
      (name : Text) (attributes m : J.Map) (k : Text) {v : J.Value}
      → name ≢ k
      → J.get m k ≡ some v
      → (m' : J.Map) × (insert_nested J name attributes m ≡ ok m')
        × (J.get m' k ≡ some v)
        × (J.get m' name
            ≡ some (of_map J (J.insert J.new (codes "#attributes") (of_map J attributes))))
  unfolding insert_nested
  insert_nested-keeps name attributes m k h e =
      let m1 = J.insert m name (null_value J) in
      let (m', kept, there) =
        keep_object-get m1 name (J.get m name) k (get-insert_other m name k (null_value J) h ∙ e) in
      (_, rw kept refl, get-insert_other m' name k _ h ∙ there, get-insert_same L m' name _)

  pub insert_plain-IsOk : (name : Text) (m : J.Map) → IsOk (insert_plain J name m)
  unfolding insert_plain
  insert_plain-IsOk name m =
      let (m', e, _) =
        keep_concrete-get (J.insert m name (null_value J)) name (J.get m name) name
          (get-insert_same L m name (null_value J)) in
      (m', e)

  pub insert_nested-IsOk :
      (name : Text) (attributes m : J.Map) → IsOk (insert_nested J name attributes m)
  unfolding insert_nested
  insert_nested-IsOk name attributes m =
      let (m', e, _) =
        keep_object-get (J.insert m name (null_value J)) name (J.get m name) name
          (get-insert_same L m name (null_value J)) in
      IsOk-bind _ (m', e) (λ m''. (_, refl))
