-- ===== src/SerdeJson.antt =====
-- serde_json, as a parameter: its values and its map, with what its documentation says of them.
use evtx.Prelude.{
  ◌==◌, if◌then◌else◌, Text, text_eq, ℕ, suc, ◌≤◌, ◌≡◌, ◌≢◌, Bool, Option, none, some, List,
}
use evtx.Foreign.{Foreign}
use evtx.Prelude.Int.{ℤ}

-- The variants of serde_json's `Value`, over its values, its map and its numbers.
pub data Json (V M N : Type 0) : Type 0 where
  null : Json V M N
  bool : Bool → Json V M N
  number : N → Json V M N
  string : Text → Json V M N
  array : List V → Json V M N
  object : M → Json V M N

pub record SerdeJson (X : Foreign) : Type 1 where
  pub Value : Type 0
  pub Map : Type 0
  pub Number : Type 0
  -- A match on a value, and the value of a variant
  pub view : Value → Json Value Map Number
  pub value : Json Value Map Number → Value
  -- `json!` of an integer, a float (by its bit pattern) and a time
  pub of_integer : ℤ → Number
  pub of_f32 : ℕ → Value
  pub of_f64 : ℕ → Value
  pub of_date_time : X.DateTime → Value
  pub new : Map
  pub get : Map → Text → Option Value
  -- `insert` gives what `get` gave before, too.
  pub insert : Map → Text → Value → Map
  pub remove : Map → Text → Map
  pub len : Map → ℕ
  pub is_empty : Map → Bool
  pub to_string : Value → Option Text
  pub to_string_pretty : Value → Option Text

-- What is documented of them.
pub record IsLawful {X : Foreign} (J : SerdeJson X) : Type 0 where
  pub view-value : (j : Json J.Value J.Map J.Number) → J.view (J.value j) ≡ j
  -- A float is a number, or null when it is not finite.
  pub f32_no_string : (n : ℕ) (s : Text) → J.view (J.of_f32 n) ≢ Json.string s
  pub f64_no_string : (n : ℕ) (s : Text) → J.view (J.of_f64 n) ≢ Json.string s
  pub get-new : (k : Text) → J.get J.new k ≡ none
  pub get-insert :
      (m : J.Map) (k : Text) (v : J.Value) (k' : Text)
      → J.get (J.insert m k v) k' ≡ (if text_eq k k' then some v else J.get m k')
  pub get-remove :
      (m : J.Map) (k k' : Text)
      → J.get (J.remove m k) k' ≡ (if text_eq k k' then none else J.get m k')
  pub len-new : J.len J.new ≡ 0
  pub len-remove :
      (m : J.Map) (k : Text) {v : J.Value}
      → J.get m k ≡ some v
      → suc (J.len (J.remove m k)) ≤ J.len m
  pub is_empty_law : (m : J.Map) → J.is_empty m ≡ (J.len m == 0)
