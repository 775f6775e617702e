-- ===== src/Value/ToJson.antt =====
-- The two `From` implementations of src/binxml/value_variant.rs: a value as JSON.
use evtx.Prelude.{Text, ℕ, Bool, map}
use evtx.Foreign.{Foreign}
use evtx.SerdeJson.{Json, SerdeJson}
use evtx.Display.{Display, hex_bytes}
use evtx.Prelude.Int.{ℤ}
use evtx.Model.{BinXmlValue}
use evtx.Err.{Outcome, ok, panic}

module _ {X : Foreign} (J : SerdeJson X) where
  abbrev pub of_string : Text → J.Value
  of_string s = J.value (Json.string s)

  abbrev of_bool : Bool → J.Value
  of_bool b = J.value (Json.bool b)

  abbrev of_signed : ℤ → J.Value
  of_signed n = J.value (Json.number (J.of_integer n))

  abbrev of_unsigned : ℕ → J.Value
  of_unsigned n = of_signed (ℤ.pos n)

module _ {E : Type 0} {X : Foreign} (J : SerdeJson X) (D : Display X) where
  -- `From<BinXmlValue>`
  unfoldable pub value_from : BinXmlValue X → Outcome E J.Value
  value_from BinXmlValue.null_type = ok (J.value Json.null)
  value_from (BinXmlValue.string_type s) = ok (J.value (Json.string s))
  value_from (BinXmlValue.ansi_string_type s) = ok (J.value (Json.string s))
  value_from (BinXmlValue.int8_type n) = ok (of_signed J n)
  value_from (BinXmlValue.uint8_type n) = ok (of_unsigned J n)
  value_from (BinXmlValue.int16_type n) = ok (of_signed J n)
  value_from (BinXmlValue.uint16_type n) = ok (of_unsigned J n)
  value_from (BinXmlValue.int32_type n) = ok (of_signed J n)
  value_from (BinXmlValue.uint32_type n) = ok (of_unsigned J n)
  value_from (BinXmlValue.int64_type n) = ok (of_signed J n)
  value_from (BinXmlValue.uint64_type n) = ok (of_unsigned J n)
  value_from (BinXmlValue.real32_type n) = ok (J.of_f32 n)
  value_from (BinXmlValue.real64_type n) = ok (J.of_f64 n)
  value_from (BinXmlValue.bool_type b) = ok (J.value (Json.bool b))
  value_from (BinXmlValue.binary_type bytes) = ok (J.value (Json.string (hex_bytes bytes)))
  value_from (BinXmlValue.guid_type g) = ok (J.value (Json.string (D.guid_to_string g)))
  value_from (BinXmlValue.file_time_type tm) = ok (J.value (Json.string (D.format_date_time tm)))
  value_from (BinXmlValue.sys_time_type tm) = ok (J.value (Json.string (D.format_date_time tm)))
  value_from (BinXmlValue.sid_type sid) = ok (J.value (Json.string (D.sid_to_string sid)))
  value_from (BinXmlValue.hex_int32_type s) = ok (J.value (Json.string s))
  value_from (BinXmlValue.hex_int64_type s) = ok (J.value (Json.string s))
  value_from (BinXmlValue.string_array_type ss) = ok (J.value (Json.array (map (of_string J) ss)))
  value_from (BinXmlValue.int8_array_type ns) = ok (J.value (Json.array (map (of_signed J) ns)))
  value_from (BinXmlValue.uint8_array_type ns) = ok (J.value (Json.array (map (of_unsigned J) ns)))
  value_from (BinXmlValue.int16_array_type ns) = ok (J.value (Json.array (map (of_signed J) ns)))
  value_from (BinXmlValue.uint16_array_type ns) = ok (J.value (Json.array (map (of_unsigned J) ns)))
  value_from (BinXmlValue.int32_array_type ns) = ok (J.value (Json.array (map (of_signed J) ns)))
  value_from (BinXmlValue.uint32_array_type ns) = ok (J.value (Json.array (map (of_unsigned J) ns)))
  value_from (BinXmlValue.int64_array_type ns) = ok (J.value (Json.array (map (of_signed J) ns)))
  value_from (BinXmlValue.uint64_array_type ns) = ok (J.value (Json.array (map (of_unsigned J) ns)))
  value_from (BinXmlValue.real32_array_type ns) = ok (J.value (Json.array (map J.of_f32 ns)))
  value_from (BinXmlValue.real64_array_type ns) = ok (J.value (Json.array (map J.of_f64 ns)))
  value_from (BinXmlValue.bool_array_type bs) = ok (J.value (Json.array (map (of_bool J) bs)))
  value_from (BinXmlValue.guid_array_type gs) =
      ok (J.value (Json.array (map (λ g. of_string J (D.guid_to_string g)) gs)))
  value_from (BinXmlValue.file_time_array_type tms) =
      ok (J.value (Json.array (map J.of_date_time tms)))
  value_from (BinXmlValue.sys_time_array_type tms) =
      ok (J.value (Json.array (map J.of_date_time tms)))
  value_from (BinXmlValue.sid_array_type sids) =
      ok (J.value (Json.array (map (λ s. of_string J (D.sid_to_string s)) sids)))
  value_from (BinXmlValue.hex_int32_array_type ss) =
      ok (J.value (Json.array (map (of_string J) ss)))
  value_from (BinXmlValue.hex_int64_array_type ss) =
      ok (J.value (Json.array (map (of_string J) ss)))
  value_from BinXmlValue.evt_handle = panic
  value_from (BinXmlValue.bin_xml_type _) = panic
  value_from BinXmlValue.evt_xml = panic
  value_from (BinXmlValue.size_t_type _) = panic
  value_from BinXmlValue.ansi_string_array_type = panic
  value_from BinXmlValue.binary_array_type = panic
  value_from BinXmlValue.size_t_array_type = panic
  value_from BinXmlValue.evt_array_handle = panic
  value_from BinXmlValue.bin_xml_array_type = panic
  value_from BinXmlValue.evt_xml_array_type = panic

  -- `From<&BinXmlValue>`
  unfoldable pub value_from_ref : BinXmlValue X → Outcome E J.Value
  value_from_ref BinXmlValue.null_type = ok (J.value Json.null)
  value_from_ref (BinXmlValue.string_type s) = ok (J.value (Json.string s))
  value_from_ref (BinXmlValue.ansi_string_type s) = ok (J.value (Json.string s))
  value_from_ref (BinXmlValue.int8_type n) = ok (of_signed J n)
  value_from_ref (BinXmlValue.uint8_type n) = ok (of_unsigned J n)
  value_from_ref (BinXmlValue.int16_type n) = ok (of_signed J n)
  value_from_ref (BinXmlValue.uint16_type n) = ok (of_unsigned J n)
  value_from_ref (BinXmlValue.int32_type n) = ok (of_signed J n)
  value_from_ref (BinXmlValue.uint32_type n) = ok (of_unsigned J n)
  value_from_ref (BinXmlValue.int64_type n) = ok (of_signed J n)
  value_from_ref (BinXmlValue.uint64_type n) = ok (of_unsigned J n)
  value_from_ref (BinXmlValue.real32_type n) = ok (J.of_f32 n)
  value_from_ref (BinXmlValue.real64_type n) = ok (J.of_f64 n)
  value_from_ref (BinXmlValue.bool_type b) = ok (J.value (Json.bool b))
  value_from_ref (BinXmlValue.binary_type bytes) = ok (J.value (Json.string (hex_bytes bytes)))
  value_from_ref (BinXmlValue.guid_type g) = ok (J.value (Json.string (D.guid_to_string g)))
  value_from_ref (BinXmlValue.file_time_type tm) =
      ok (J.value (Json.string (D.format_date_time tm)))
  value_from_ref (BinXmlValue.sys_time_type tm) = ok (J.value (Json.string (D.format_date_time tm)))
  value_from_ref (BinXmlValue.sid_type sid) = ok (J.value (Json.string (D.sid_to_string sid)))
  value_from_ref (BinXmlValue.hex_int32_type s) = ok (J.value (Json.string s))
  value_from_ref (BinXmlValue.hex_int64_type s) = ok (J.value (Json.string s))
  value_from_ref (BinXmlValue.string_array_type ss) =
      ok (J.value (Json.array (map (of_string J) ss)))
  value_from_ref (BinXmlValue.int8_array_type ns) = ok (J.value (Json.array (map (of_signed J) ns)))
  value_from_ref (BinXmlValue.uint8_array_type ns) =
      ok (J.value (Json.array (map (of_unsigned J) ns)))
  value_from_ref (BinXmlValue.int16_array_type ns) =
      ok (J.value (Json.array (map (of_signed J) ns)))
  value_from_ref (BinXmlValue.uint16_array_type ns) =
      ok (J.value (Json.array (map (of_unsigned J) ns)))
  value_from_ref (BinXmlValue.int32_array_type ns) =
      ok (J.value (Json.array (map (of_signed J) ns)))
  value_from_ref (BinXmlValue.uint32_array_type ns) =
      ok (J.value (Json.array (map (of_unsigned J) ns)))
  value_from_ref (BinXmlValue.int64_array_type ns) =
      ok (J.value (Json.array (map (of_signed J) ns)))
  value_from_ref (BinXmlValue.uint64_array_type ns) =
      ok (J.value (Json.array (map (of_unsigned J) ns)))
  value_from_ref (BinXmlValue.real32_array_type ns) = ok (J.value (Json.array (map J.of_f32 ns)))
  value_from_ref (BinXmlValue.real64_array_type ns) = ok (J.value (Json.array (map J.of_f64 ns)))
  value_from_ref (BinXmlValue.bool_array_type bs) = ok (J.value (Json.array (map (of_bool J) bs)))
  value_from_ref (BinXmlValue.guid_array_type gs) =
      ok (J.value (Json.array (map (λ g. of_string J (D.guid_to_string g)) gs)))
  value_from_ref (BinXmlValue.file_time_array_type tms) =
      ok (J.value (Json.array (map J.of_date_time tms)))
  value_from_ref (BinXmlValue.sys_time_array_type tms) =
      ok (J.value (Json.array (map J.of_date_time tms)))
  value_from_ref (BinXmlValue.sid_array_type sids) =
      ok (J.value (Json.array (map (λ s. of_string J (D.sid_to_string s)) sids)))
  value_from_ref (BinXmlValue.hex_int32_array_type ss) =
      ok (J.value (Json.array (map (of_string J) ss)))
  value_from_ref (BinXmlValue.hex_int64_array_type ss) =
      ok (J.value (Json.array (map (of_string J) ss)))
  value_from_ref BinXmlValue.evt_handle = panic
  value_from_ref (BinXmlValue.bin_xml_type _) = panic
  value_from_ref BinXmlValue.evt_xml = panic
  value_from_ref (BinXmlValue.size_t_type _) = panic
  value_from_ref BinXmlValue.ansi_string_array_type = panic
  value_from_ref BinXmlValue.binary_array_type = panic
  value_from_ref BinXmlValue.size_t_array_type = panic
  value_from_ref BinXmlValue.evt_array_handle = panic
  value_from_ref BinXmlValue.bin_xml_array_type = panic
  value_from_ref BinXmlValue.evt_xml_array_type = panic
