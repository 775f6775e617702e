-- ===== src/Value/Agree.antt =====
-- The three printings of a value in src/binxml/value_variant.rs against each other.
use evtx.Prelude.{Text, ◌≡◌, refl, sym, ap, ◌∙◌}
use evtx.Foreign.{Foreign}
use evtx.SerdeJson.{Json, SerdeJson, IsLawful}
use evtx.Display.{Display}
use evtx.Value.ToJson.{of_string, value_from, value_from_ref}
use evtx.Value.CowStr.{as_cow_str}
use evtx.Model.{BinXmlValue}
use evtx.Err.{ok}
use evtx.Err.Success.{IsOk}
use evtx.Err.Bind.{okay, ok-injective}

module _ (E : Type 0) {X : Foreign} (J : SerdeJson X) (D : Display X) where
  -- Both conversions into JSON, of an owned and of a borrowed value, are the same.
  pub value_from_ref_lem : (v : BinXmlValue X) → value_from_ref {E = E} J D v ≡ value_from J D v
  unfolding value_from_ref value_from
  value_from_ref_lem BinXmlValue.null_type = refl
  value_from_ref_lem (BinXmlValue.string_type s) = refl
  value_from_ref_lem (BinXmlValue.ansi_string_type s) = refl
  value_from_ref_lem (BinXmlValue.int8_type n) = refl
  value_from_ref_lem (BinXmlValue.uint8_type n) = refl
  value_from_ref_lem (BinXmlValue.int16_type n) = refl
  value_from_ref_lem (BinXmlValue.uint16_type n) = refl
  value_from_ref_lem (BinXmlValue.int32_type n) = refl
  value_from_ref_lem (BinXmlValue.uint32_type n) = refl
  value_from_ref_lem (BinXmlValue.int64_type n) = refl
  value_from_ref_lem (BinXmlValue.uint64_type n) = refl
  value_from_ref_lem (BinXmlValue.real32_type n) = refl
  value_from_ref_lem (BinXmlValue.real64_type n) = refl
  value_from_ref_lem (BinXmlValue.bool_type b) = refl
  value_from_ref_lem (BinXmlValue.binary_type bytes) = refl
  value_from_ref_lem (BinXmlValue.guid_type g) = refl
  value_from_ref_lem (BinXmlValue.file_time_type tm) = refl
  value_from_ref_lem (BinXmlValue.sys_time_type tm) = refl
  value_from_ref_lem (BinXmlValue.sid_type sid) = refl
  value_from_ref_lem (BinXmlValue.hex_int32_type s) = refl
  value_from_ref_lem (BinXmlValue.hex_int64_type s) = refl
  value_from_ref_lem (BinXmlValue.string_array_type ss) = refl
  value_from_ref_lem (BinXmlValue.int8_array_type ns) = refl
  value_from_ref_lem (BinXmlValue.uint8_array_type ns) = refl
  value_from_ref_lem (BinXmlValue.int16_array_type ns) = refl
  value_from_ref_lem (BinXmlValue.uint16_array_type ns) = refl
  value_from_ref_lem (BinXmlValue.int32_array_type ns) = refl
  value_from_ref_lem (BinXmlValue.uint32_array_type ns) = refl
  value_from_ref_lem (BinXmlValue.int64_array_type ns) = refl
  value_from_ref_lem (BinXmlValue.uint64_array_type ns) = refl
  value_from_ref_lem (BinXmlValue.real32_array_type ns) = refl
  value_from_ref_lem (BinXmlValue.real64_array_type ns) = refl
  value_from_ref_lem (BinXmlValue.bool_array_type bs) = refl
  value_from_ref_lem (BinXmlValue.guid_array_type gs) = refl
  value_from_ref_lem (BinXmlValue.file_time_array_type tms) = refl
  value_from_ref_lem (BinXmlValue.sys_time_array_type tms) = refl
  value_from_ref_lem (BinXmlValue.sid_array_type sids) = refl
  value_from_ref_lem (BinXmlValue.hex_int32_array_type ss) = refl
  value_from_ref_lem (BinXmlValue.hex_int64_array_type ss) = refl
  value_from_ref_lem BinXmlValue.evt_handle = refl
  value_from_ref_lem (BinXmlValue.bin_xml_type ts) = refl
  value_from_ref_lem BinXmlValue.evt_xml = refl
  value_from_ref_lem (BinXmlValue.size_t_type ts) = refl
  value_from_ref_lem BinXmlValue.ansi_string_array_type = refl
  value_from_ref_lem BinXmlValue.binary_array_type = refl
  value_from_ref_lem BinXmlValue.size_t_array_type = refl
  value_from_ref_lem BinXmlValue.evt_array_handle = refl
  value_from_ref_lem BinXmlValue.bin_xml_array_type = refl
  value_from_ref_lem BinXmlValue.evt_xml_array_type = refl

  -- A value that has a JSON form has a text.
  pub value_from-as_cow_str :
      (v : BinXmlValue X) {j : J.Value}
      → value_from {E = E} J D v ≡ ok j
      → IsOk (as_cow_str {E = E} D v)
  unfolding value_from as_cow_str
  value_from-as_cow_str BinXmlValue.null_type h = (_, refl)
  value_from-as_cow_str (BinXmlValue.string_type s) h = (_, refl)
  value_from-as_cow_str (BinXmlValue.ansi_string_type s) h = (_, refl)
  value_from-as_cow_str (BinXmlValue.int8_type n) h = (_, refl)
  value_from-as_cow_str (BinXmlValue.uint8_type n) h = (_, refl)
  value_from-as_cow_str (BinXmlValue.int16_type n) h = (_, refl)
  value_from-as_cow_str (BinXmlValue.uint16_type n) h = (_, refl)
  value_from-as_cow_str (BinXmlValue.int32_type n) h = (_, refl)
  value_from-as_cow_str (BinXmlValue.uint32_type n) h = (_, refl)
  value_from-as_cow_str (BinXmlValue.int64_type n) h = (_, refl)
  value_from-as_cow_str (BinXmlValue.uint64_type n) h = (_, refl)
  value_from-as_cow_str (BinXmlValue.real32_type n) h = (_, refl)
  value_from-as_cow_str (BinXmlValue.real64_type n) h = (_, refl)
  value_from-as_cow_str (BinXmlValue.bool_type b) h = (_, refl)
  value_from-as_cow_str (BinXmlValue.binary_type bytes) h = (_, refl)
  value_from-as_cow_str (BinXmlValue.guid_type g) h = (_, refl)
  value_from-as_cow_str (BinXmlValue.file_time_type tm) h = (_, refl)
  value_from-as_cow_str (BinXmlValue.sys_time_type tm) h = (_, refl)
  value_from-as_cow_str (BinXmlValue.sid_type sid) h = (_, refl)
  value_from-as_cow_str (BinXmlValue.hex_int32_type s) h = (_, refl)
  value_from-as_cow_str (BinXmlValue.hex_int64_type s) h = (_, refl)
  value_from-as_cow_str (BinXmlValue.string_array_type ss) h = (_, refl)
  value_from-as_cow_str (BinXmlValue.int8_array_type ns) h = (_, refl)
  value_from-as_cow_str (BinXmlValue.uint8_array_type ns) h = (_, refl)
  value_from-as_cow_str (BinXmlValue.int16_array_type ns) h = (_, refl)
  value_from-as_cow_str (BinXmlValue.uint16_array_type ns) h = (_, refl)
  value_from-as_cow_str (BinXmlValue.int32_array_type ns) h = (_, refl)
  value_from-as_cow_str (BinXmlValue.uint32_array_type ns) h = (_, refl)
  value_from-as_cow_str (BinXmlValue.int64_array_type ns) h = (_, refl)
  value_from-as_cow_str (BinXmlValue.uint64_array_type ns) h = (_, refl)
  value_from-as_cow_str (BinXmlValue.real32_array_type ns) h = (_, refl)
  value_from-as_cow_str (BinXmlValue.real64_array_type ns) h = (_, refl)
  value_from-as_cow_str (BinXmlValue.bool_array_type bs) h = (_, refl)
  value_from-as_cow_str (BinXmlValue.guid_array_type gs) h = (_, refl)
  value_from-as_cow_str (BinXmlValue.file_time_array_type tms) h = (_, refl)
  value_from-as_cow_str (BinXmlValue.sys_time_array_type tms) h = (_, refl)
  value_from-as_cow_str (BinXmlValue.sid_array_type sids) h = (_, refl)
  value_from-as_cow_str (BinXmlValue.hex_int32_array_type ss) h = (_, refl)
  value_from-as_cow_str (BinXmlValue.hex_int64_array_type ss) h = (_, refl)
  value_from-as_cow_str BinXmlValue.evt_handle h = absurd cc
  value_from-as_cow_str (BinXmlValue.bin_xml_type ts) h = absurd cc
  value_from-as_cow_str BinXmlValue.evt_xml h = absurd cc
  value_from-as_cow_str (BinXmlValue.size_t_type ts) h = absurd cc
  value_from-as_cow_str BinXmlValue.ansi_string_array_type h = absurd cc
  value_from-as_cow_str BinXmlValue.binary_array_type h = absurd cc
  value_from-as_cow_str BinXmlValue.size_t_array_type h = absurd cc
  value_from-as_cow_str BinXmlValue.evt_array_handle h = absurd cc
  value_from-as_cow_str BinXmlValue.bin_xml_array_type h = absurd cc
  value_from-as_cow_str BinXmlValue.evt_xml_array_type h = absurd cc

module _ (E : Type 0) {X : Foreign} {J : SerdeJson X} (L : IsLawful J) (D : Display X) where
  same_view :
      {j j' : J.Value} {s : Text}
      → okay {E = E} j ≡ okay j'
      → J.view j' ≡ Json.string s
      → J.view j ≡ Json.string s
  same_view h e = ap J.view (ok-injective h) ∙ e

  same_text :
      (t : Text) {j : J.Value} {s : Text}
      → okay {E = E} (of_string J t) ≡ okay j
      → J.view j ≡ Json.string s
      → okay {E = E} t ≡ okay s
  same_text t h e = cc (sym (L.view-value (Json.string t)) ∙ same_view h e)

  no_string :
      (k : Json J.Value J.Map J.Number) {j : J.Value} {s : Text}
      → okay {E = E} (J.value k) ≡ okay j
      → J.view j ≡ Json.string s
      → k ≡ Json.string s
  no_string k h e = sym (L.view-value k) ∙ same_view h e

  -- With a serde_json that meets its laws: where a value's JSON form is a string, that string is
  -- the value's text.
  pub value_from_text :
      (v : BinXmlValue X) {j : J.Value} {s : Text}
      → value_from {E = E} J D v ≡ ok j
      → J.view j ≡ Json.string s
      → as_cow_str {E = E} D v ≡ ok s
  unfolding value_from as_cow_str
  value_from_text BinXmlValue.null_type h e = absurd (cc (no_string _ h e))
  value_from_text (BinXmlValue.string_type s) h e = same_text _ h e
  value_from_text (BinXmlValue.ansi_string_type s) h e = same_text _ h e
  value_from_text (BinXmlValue.int8_type n) h e = absurd (cc (no_string _ h e))
  value_from_text (BinXmlValue.uint8_type n) h e = absurd (cc (no_string _ h e))
  value_from_text (BinXmlValue.int16_type n) h e = absurd (cc (no_string _ h e))
  value_from_text (BinXmlValue.uint16_type n) h e = absurd (cc (no_string _ h e))
  value_from_text (BinXmlValue.int32_type n) h e = absurd (cc (no_string _ h e))
  value_from_text (BinXmlValue.uint32_type n) h e = absurd (cc (no_string _ h e))
  value_from_text (BinXmlValue.int64_type n) h e = absurd (cc (no_string _ h e))
  value_from_text (BinXmlValue.uint64_type n) h e = absurd (cc (no_string _ h e))
  value_from_text (BinXmlValue.real32_type n) h e = absurd (L.f32_no_string n _ (same_view h e))
  value_from_text (BinXmlValue.real64_type n) h e = absurd (L.f64_no_string n _ (same_view h e))
  value_from_text (BinXmlValue.bool_type b) h e = absurd (cc (no_string _ h e))
  value_from_text (BinXmlValue.binary_type bytes) h e = same_text _ h e
  value_from_text (BinXmlValue.guid_type g) h e = same_text _ h e
  value_from_text (BinXmlValue.file_time_type tm) h e = same_text _ h e
  value_from_text (BinXmlValue.sys_time_type tm) h e = same_text _ h e
  value_from_text (BinXmlValue.sid_type sid) h e = same_text _ h e
  value_from_text (BinXmlValue.hex_int32_type s) h e = same_text _ h e
  value_from_text (BinXmlValue.hex_int64_type s) h e = same_text _ h e
  value_from_text (BinXmlValue.string_array_type ss) h e = absurd (cc (no_string _ h e))
  value_from_text (BinXmlValue.int8_array_type ns) h e = absurd (cc (no_string _ h e))
  value_from_text (BinXmlValue.uint8_array_type ns) h e = absurd (cc (no_string _ h e))
  value_from_text (BinXmlValue.int16_array_type ns) h e = absurd (cc (no_string _ h e))
  value_from_text (BinXmlValue.uint16_array_type ns) h e = absurd (cc (no_string _ h e))
  value_from_text (BinXmlValue.int32_array_type ns) h e = absurd (cc (no_string _ h e))
  value_from_text (BinXmlValue.uint32_array_type ns) h e = absurd (cc (no_string _ h e))
  value_from_text (BinXmlValue.int64_array_type ns) h e = absurd (cc (no_string _ h e))
  value_from_text (BinXmlValue.uint64_array_type ns) h e = absurd (cc (no_string _ h e))
  value_from_text (BinXmlValue.real32_array_type ns) h e = absurd (cc (no_string _ h e))
  value_from_text (BinXmlValue.real64_array_type ns) h e = absurd (cc (no_string _ h e))
  value_from_text (BinXmlValue.bool_array_type bs) h e = absurd (cc (no_string _ h e))
  value_from_text (BinXmlValue.guid_array_type gs) h e = absurd (cc (no_string _ h e))
  value_from_text (BinXmlValue.file_time_array_type tms) h e = absurd (cc (no_string _ h e))
  value_from_text (BinXmlValue.sys_time_array_type tms) h e = absurd (cc (no_string _ h e))
  value_from_text (BinXmlValue.sid_array_type sids) h e = absurd (cc (no_string _ h e))
  value_from_text (BinXmlValue.hex_int32_array_type ss) h e = absurd (cc (no_string _ h e))
  value_from_text (BinXmlValue.hex_int64_array_type ss) h e = absurd (cc (no_string _ h e))
  value_from_text BinXmlValue.evt_handle h e = absurd cc
  value_from_text (BinXmlValue.bin_xml_type ts) h e = absurd cc
  value_from_text BinXmlValue.evt_xml h e = absurd cc
  value_from_text (BinXmlValue.size_t_type ts) h e = absurd cc
  value_from_text BinXmlValue.ansi_string_array_type h e = absurd cc
  value_from_text BinXmlValue.binary_array_type h e = absurd cc
  value_from_text BinXmlValue.size_t_array_type h e = absurd cc
  value_from_text BinXmlValue.evt_array_handle h e = absurd cc
  value_from_text BinXmlValue.bin_xml_array_type h e = absurd cc
  value_from_text BinXmlValue.evt_xml_array_type h e = absurd cc
