-- ===== src/Value/CowStr.antt =====
-- `as_cow_str` of src/binxml/value_variant.rs: a value as text.
use evtx.Prelude.{Text, codes, List, map}
use evtx.Display.{Display, nat_to_string, int_to_string, bool_to_string, hex_bytes, join}
use evtx.Foreign.{Foreign}
use evtx.Model.{BinXmlValue}
use evtx.Err.{Outcome, ok, panic}

abbrev pub to_delimited_list : {A : Type 0} → (A → Text) → List A → Text
to_delimited_list to_string ns = join (map to_string ns)

module _ {E : Type 0} {X : Foreign} (D : Display X) where
  -- Values that templates' expansion takes away, and those that are not implemented, panic.
  unfoldable pub as_cow_str : BinXmlValue X → Outcome E Text
  as_cow_str BinXmlValue.null_type = ok (codes "")
  as_cow_str (BinXmlValue.string_type s) = ok s
  as_cow_str (BinXmlValue.ansi_string_type s) = ok s
  as_cow_str (BinXmlValue.int8_type n) = ok (int_to_string n)
  as_cow_str (BinXmlValue.uint8_type n) = ok (nat_to_string n)
  as_cow_str (BinXmlValue.int16_type n) = ok (int_to_string n)
  as_cow_str (BinXmlValue.uint16_type n) = ok (nat_to_string n)
  as_cow_str (BinXmlValue.int32_type n) = ok (int_to_string n)
  as_cow_str (BinXmlValue.uint32_type n) = ok (nat_to_string n)
  as_cow_str (BinXmlValue.int64_type n) = ok (int_to_string n)
  as_cow_str (BinXmlValue.uint64_type n) = ok (nat_to_string n)
  as_cow_str (BinXmlValue.real32_type n) = ok (D.f32_to_string n)
  as_cow_str (BinXmlValue.real64_type n) = ok (D.f64_to_string n)
  as_cow_str (BinXmlValue.bool_type b) = ok (bool_to_string b)
  as_cow_str (BinXmlValue.binary_type bytes) = ok (hex_bytes bytes)
  as_cow_str (BinXmlValue.guid_type g) = ok (D.guid_to_string g)
  as_cow_str (BinXmlValue.size_t_type n) = ok (nat_to_string n)
  as_cow_str (BinXmlValue.file_time_type tm) = ok (D.format_date_time tm)
  as_cow_str (BinXmlValue.sys_time_type tm) = ok (D.format_date_time tm)
  as_cow_str (BinXmlValue.sid_type sid) = ok (D.sid_to_string sid)
  as_cow_str (BinXmlValue.hex_int32_type s) = ok s
  as_cow_str (BinXmlValue.hex_int64_type s) = ok s
  as_cow_str (BinXmlValue.string_array_type ss) = ok (join ss)
  as_cow_str (BinXmlValue.int8_array_type ns) = ok (to_delimited_list int_to_string ns)
  as_cow_str (BinXmlValue.uint8_array_type ns) = ok (to_delimited_list nat_to_string ns)
  as_cow_str (BinXmlValue.int16_array_type ns) = ok (to_delimited_list int_to_string ns)
  as_cow_str (BinXmlValue.uint16_array_type ns) = ok (to_delimited_list nat_to_string ns)
  as_cow_str (BinXmlValue.int32_array_type ns) = ok (to_delimited_list int_to_string ns)
  as_cow_str (BinXmlValue.uint32_array_type ns) = ok (to_delimited_list nat_to_string ns)
  as_cow_str (BinXmlValue.int64_array_type ns) = ok (to_delimited_list int_to_string ns)
  as_cow_str (BinXmlValue.uint64_array_type ns) = ok (to_delimited_list nat_to_string ns)
  as_cow_str (BinXmlValue.real32_array_type ns) = ok (to_delimited_list D.f32_to_string ns)
  as_cow_str (BinXmlValue.real64_array_type ns) = ok (to_delimited_list D.f64_to_string ns)
  as_cow_str (BinXmlValue.bool_array_type bs) = ok (to_delimited_list bool_to_string bs)
  as_cow_str (BinXmlValue.guid_array_type gs) = ok (to_delimited_list D.guid_to_string gs)
  as_cow_str (BinXmlValue.file_time_array_type tms) =
      ok (to_delimited_list D.date_time_to_string tms)
  as_cow_str (BinXmlValue.sys_time_array_type tms) =
      ok (to_delimited_list D.date_time_to_string tms)
  as_cow_str (BinXmlValue.sid_array_type sids) = ok (to_delimited_list D.sid_to_string sids)
  as_cow_str (BinXmlValue.hex_int32_array_type ss) = ok (join ss)
  as_cow_str (BinXmlValue.hex_int64_array_type ss) = ok (join ss)
  as_cow_str BinXmlValue.evt_handle = panic
  as_cow_str (BinXmlValue.bin_xml_type _) = panic
  as_cow_str BinXmlValue.evt_xml = panic
  as_cow_str BinXmlValue.ansi_string_array_type = panic
  as_cow_str BinXmlValue.binary_array_type = panic
  as_cow_str BinXmlValue.size_t_array_type = panic
  as_cow_str BinXmlValue.evt_array_handle = panic
  as_cow_str BinXmlValue.bin_xml_array_type = panic
  as_cow_str BinXmlValue.evt_xml_array_type = panic
