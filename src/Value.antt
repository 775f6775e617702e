-- ===== src/Value.antt =====
-- `BinXmlValue::from_binxml_stream` and `deserialize_value_type` of src/binxml/value_variant.rs.
-- The reader of a nested fragment is a parameter, tied in `Deserializer`.
pub mod Progress
pub mod CowStr
pub mod ToJson
pub mod Agree
pub mod Typed
use evtx.Prelude.{
  leb, ◌==◌, if◌then◌else◌, length, take, drop, ℕ, ◌+◌, String, Bool, true, false, Option, none,
  some, List,
}
use evtx.Foreign.{Foreign}
use evtx.Err.{
  ok, panic, failed_to_read_token, unexpected_io_error, invalid_value_variant,
  unimplemented_value_variant,
}
use evtx.Cursor.{Read, pure, raise, ◌>>=◌, ◌>>◌, position, read_exact, ok_or}
use evtx.Macros.{
  unknown, try_read_u8, try_read_u16, try_read_u32, try_read_u64, try_read_i8, try_read_i16,
  try_read_i32, try_read_i64, try_read_f32, try_read_f64, try_read_bool, try_read_guid,
  try_read_sid, try_read_filetime, try_read_hex32, try_read_hex64, try_read_sized_array,
}
use evtx.Strings.{
  unwrap_or_default, read_utf16_by_size, read_len_prefixed_utf16_string,
  read_null_terminated_utf16_string, read_ansi_encoded_string, read_systemtime,
}
use evtx.Raw.{BinXmlValueType, value_type_from_u8}
use evtx.Model.{Tokens, BinXmlValue}

-- `format!("{:?}", value_type)`
unfoldable pub debug_name : BinXmlValueType → String
debug_name BinXmlValueType.null_type = "NullType"
debug_name BinXmlValueType.string_type = "StringType"
debug_name BinXmlValueType.ansi_string_type = "AnsiStringType"
debug_name BinXmlValueType.int8_type = "Int8Type"
debug_name BinXmlValueType.uint8_type = "UInt8Type"
debug_name BinXmlValueType.int16_type = "Int16Type"
debug_name BinXmlValueType.uint16_type = "UInt16Type"
debug_name BinXmlValueType.int32_type = "Int32Type"
debug_name BinXmlValueType.uint32_type = "UInt32Type"
debug_name BinXmlValueType.int64_type = "Int64Type"
debug_name BinXmlValueType.uint64_type = "UInt64Type"
debug_name BinXmlValueType.real32_type = "Real32Type"
debug_name BinXmlValueType.real64_type = "Real64Type"
debug_name BinXmlValueType.bool_type = "BoolType"
debug_name BinXmlValueType.binary_type = "BinaryType"
debug_name BinXmlValueType.guid_type = "GuidType"
debug_name BinXmlValueType.size_t_type = "SizeTType"
debug_name BinXmlValueType.file_time_type = "FileTimeType"
debug_name BinXmlValueType.sys_time_type = "SysTimeType"
debug_name BinXmlValueType.sid_type = "SidType"
debug_name BinXmlValueType.hex_int32_type = "HexInt32Type"
debug_name BinXmlValueType.hex_int64_type = "HexInt64Type"
debug_name BinXmlValueType.evt_handle = "EvtHandle"
debug_name BinXmlValueType.bin_xml_type = "BinXmlType"
debug_name BinXmlValueType.evt_xml_type = "EvtXmlType"
debug_name BinXmlValueType.string_array_type = "StringArrayType"
debug_name BinXmlValueType.ansi_string_array_type = "AnsiStringArrayType"
debug_name BinXmlValueType.int8_array_type = "Int8ArrayType"
debug_name BinXmlValueType.uint8_array_type = "UInt8ArrayType"
debug_name BinXmlValueType.int16_array_type = "Int16ArrayType"
debug_name BinXmlValueType.uint16_array_type = "UInt16ArrayType"
debug_name BinXmlValueType.int32_array_type = "Int32ArrayType"
debug_name BinXmlValueType.uint32_array_type = "UInt32ArrayType"
debug_name BinXmlValueType.int64_array_type = "Int64ArrayType"
debug_name BinXmlValueType.uint64_array_type = "UInt64ArrayType"
debug_name BinXmlValueType.real32_array_type = "Real32ArrayType"
debug_name BinXmlValueType.real64_array_type = "Real64ArrayType"
debug_name BinXmlValueType.bool_array_type = "BoolArrayType"
debug_name BinXmlValueType.binary_array_type = "BinaryArrayType"
debug_name BinXmlValueType.guid_array_type = "GuidArrayType"
debug_name BinXmlValueType.size_t_array_type = "SizeTArrayType"
debug_name BinXmlValueType.file_time_array_type = "FileTimeArrayType"
debug_name BinXmlValueType.sys_time_array_type = "SysTimeArrayType"
debug_name BinXmlValueType.sid_array_type = "SidArrayType"
debug_name BinXmlValueType.hex_int32_array_type = "HexInt32ArrayType"
debug_name BinXmlValueType.hex_int64_array_type = "HexInt64ArrayType"
debug_name BinXmlValueType.evt_handle_array = "EvtHandleArray"
debug_name BinXmlValueType.bin_xml_array_type = "BinXmlArrayType"
debug_name BinXmlValueType.evt_xml_array_type = "EvtXmlArrayType"

module _ {X : Foreign} where
  -- The slice `&data[from..from + sz]` panics where it does not lie in the data.
  unfoldable pub read_binary : ℕ → Read X (List ℕ)
  read_binary sz buf at =
      if leb (at + sz) (length buf) then ok (take sz (drop at buf), at + sz) else panic

  -- `BinXmlValueType::from_u8(byte).ok_or(InvalidValueVariant { .. })`
  unfoldable pub check_value_type : ℕ → Read X BinXmlValueType
  unfolding value_type_from_u8
  check_value_type byte = do
    at ← position
    ok_or (invalid_value_variant byte at) (value_type_from_u8 byte)

  unfoldable pub unimplemented : String → Option ℕ → Read X (BinXmlValue X)
  unimplemented name size = do at ← position; raise (unimplemented_value_variant name size at)

  unfoldable pub read_size_t : Option ℕ → Read X (BinXmlValue X)
  unfolding unimplemented
  read_size_t none = unimplemented "SizeT" none
  read_size_t (some sz) =
      if sz == 4
      then (do v ← try_read_hex32; pure (BinXmlValue.hex_int32_type v))
      else if sz == 8
      then (do v ← try_read_hex64; pure (BinXmlValue.hex_int64_type v))
      else unimplemented "SizeT" (some sz)

module _ {X : Foreign} (ansi_codec : X.Codec) (fragment : Option ℕ → Bool → Read X (Tokens X)) where
  unfoldable pub deserialize_value_type : BinXmlValueType → Option ℕ → Read X (BinXmlValue X)
  unfolding read_size_t read_binary debug_name unimplemented
  deserialize_value_type BinXmlValueType.null_type _ = pure BinXmlValue.null_type
  deserialize_value_type BinXmlValueType.string_type (some sz) = do
    s ← read_utf16_by_size (unexpected_io_error "failed to read sized utf-16 string") sz
    pure (BinXmlValue.string_type (unwrap_or_default s))
  deserialize_value_type BinXmlValueType.string_type none = do
    s ←
        read_len_prefixed_utf16_string
          (failed_to_read_token "len_prefixed_utf_16_str" "<string_value>") false
    pure (BinXmlValue.string_type (unwrap_or_default s))
  deserialize_value_type BinXmlValueType.ansi_string_type (some sz) = do
    s ← read_ansi_encoded_string sz ansi_codec
    pure (BinXmlValue.ansi_string_type (unwrap_or_default s))
  deserialize_value_type BinXmlValueType.ansi_string_type none = unimplemented "AnsiString" none
  deserialize_value_type BinXmlValueType.int8_type _ = do
    v ← try_read_i8 unknown
    pure (BinXmlValue.int8_type v)
  deserialize_value_type BinXmlValueType.uint8_type _ = do
    v ← try_read_u8 unknown
    pure (BinXmlValue.uint8_type v)
  deserialize_value_type BinXmlValueType.int16_type _ = do
    v ← try_read_i16 unknown
    pure (BinXmlValue.int16_type v)
  deserialize_value_type BinXmlValueType.uint16_type _ = do
    v ← try_read_u16 unknown
    pure (BinXmlValue.uint16_type v)
  deserialize_value_type BinXmlValueType.int32_type _ = do
    v ← try_read_i32 unknown
    pure (BinXmlValue.int32_type v)
  deserialize_value_type BinXmlValueType.uint32_type _ = do
    v ← try_read_u32 unknown
    pure (BinXmlValue.uint32_type v)
  deserialize_value_type BinXmlValueType.int64_type _ = do
    v ← try_read_i64 unknown
    pure (BinXmlValue.int64_type v)
  deserialize_value_type BinXmlValueType.uint64_type _ = do
    v ← try_read_u64 unknown
    pure (BinXmlValue.uint64_type v)
  deserialize_value_type BinXmlValueType.real32_type _ = do
    v ← try_read_f32 unknown
    pure (BinXmlValue.real32_type v)
  deserialize_value_type BinXmlValueType.real64_type _ = do
    v ← try_read_f64 unknown
    pure (BinXmlValue.real64_type v)
  deserialize_value_type BinXmlValueType.bool_type _ = do
    v ← try_read_bool
    pure (BinXmlValue.bool_type v)
  deserialize_value_type BinXmlValueType.guid_type _ = do
    v ← try_read_guid unknown
    pure (BinXmlValue.guid_type v)
  deserialize_value_type BinXmlValueType.size_t_type size = read_size_t size
  deserialize_value_type BinXmlValueType.file_time_type _ = do
    v ← try_read_filetime
    pure (BinXmlValue.file_time_type v)
  deserialize_value_type BinXmlValueType.sys_time_type _ = do
    v ← read_systemtime
    pure (BinXmlValue.sys_time_type v)
  deserialize_value_type BinXmlValueType.sid_type _ = do
    v ← try_read_sid
    pure (BinXmlValue.sid_type v)
  deserialize_value_type BinXmlValueType.hex_int32_type _ = do
    v ← try_read_hex32
    pure (BinXmlValue.hex_int32_type v)
  deserialize_value_type BinXmlValueType.hex_int64_type _ = do
    v ← try_read_hex64
    pure (BinXmlValue.hex_int64_type v)
  deserialize_value_type BinXmlValueType.bin_xml_type size = do
    tokens ← fragment size true
    pure (BinXmlValue.bin_xml_type tokens)
  deserialize_value_type BinXmlValueType.binary_type (some sz) = do
    bytes ← read_binary sz
    pure (BinXmlValue.binary_type bytes)
  deserialize_value_type BinXmlValueType.uint8_array_type (some sz) = do
    bytes ← read_exact (unexpected_io_error "Failed to read `UInt8ArrayType`") sz
    pure (BinXmlValue.uint8_array_type bytes)
  deserialize_value_type BinXmlValueType.string_array_type (some sz) = do
    vs ←
        try_read_sized_array
          (read_null_terminated_utf16_string
            (failed_to_read_token "null_terminated_utf_16_str" unknown))
          sz
    pure (BinXmlValue.string_array_type vs)
  deserialize_value_type BinXmlValueType.int8_array_type (some sz) = do
    vs ← try_read_sized_array (try_read_i8 unknown) sz
    pure (BinXmlValue.int8_array_type vs)
  deserialize_value_type BinXmlValueType.int16_array_type (some sz) = do
    vs ← try_read_sized_array (try_read_i16 unknown) sz
    pure (BinXmlValue.int16_array_type vs)
  deserialize_value_type BinXmlValueType.uint16_array_type (some sz) = do
    vs ← try_read_sized_array (try_read_u16 unknown) sz
    pure (BinXmlValue.uint16_array_type vs)
  deserialize_value_type BinXmlValueType.int32_array_type (some sz) = do
    vs ← try_read_sized_array (try_read_i32 unknown) sz
    pure (BinXmlValue.int32_array_type vs)
  deserialize_value_type BinXmlValueType.uint32_array_type (some sz) = do
    vs ← try_read_sized_array (try_read_u32 unknown) sz
    pure (BinXmlValue.uint32_array_type vs)
  deserialize_value_type BinXmlValueType.int64_array_type (some sz) = do
    vs ← try_read_sized_array (try_read_i64 unknown) sz
    pure (BinXmlValue.int64_array_type vs)
  deserialize_value_type BinXmlValueType.uint64_array_type (some sz) = do
    vs ← try_read_sized_array (try_read_u64 unknown) sz
    pure (BinXmlValue.uint64_array_type vs)
  deserialize_value_type BinXmlValueType.real32_array_type (some sz) = do
    vs ← try_read_sized_array (try_read_f32 unknown) sz
    pure (BinXmlValue.real32_array_type vs)
  deserialize_value_type BinXmlValueType.real64_array_type (some sz) = do
    vs ← try_read_sized_array (try_read_f64 unknown) sz
    pure (BinXmlValue.real64_array_type vs)
  deserialize_value_type BinXmlValueType.bool_array_type (some sz) = do
    vs ← try_read_sized_array try_read_bool sz
    pure (BinXmlValue.bool_array_type vs)
  deserialize_value_type BinXmlValueType.guid_array_type (some sz) = do
    vs ← try_read_sized_array (try_read_guid unknown) sz
    pure (BinXmlValue.guid_array_type vs)
  deserialize_value_type BinXmlValueType.file_time_array_type (some sz) = do
    vs ← try_read_sized_array try_read_filetime sz
    pure (BinXmlValue.file_time_array_type vs)
  deserialize_value_type BinXmlValueType.sys_time_array_type (some sz) = do
    vs ← try_read_sized_array read_systemtime sz
    pure (BinXmlValue.sys_time_array_type vs)
  deserialize_value_type BinXmlValueType.sid_array_type (some sz) = do
    vs ← try_read_sized_array try_read_sid sz
    pure (BinXmlValue.sid_array_type vs)
  deserialize_value_type BinXmlValueType.hex_int32_array_type (some sz) = do
    vs ← try_read_sized_array try_read_hex32 sz
    pure (BinXmlValue.hex_int32_array_type vs)
  deserialize_value_type BinXmlValueType.hex_int64_array_type (some sz) = do
    vs ← try_read_sized_array try_read_hex64 sz
    pure (BinXmlValue.hex_int64_array_type vs)
  deserialize_value_type value_type size = unimplemented (debug_name value_type) size

  unfoldable pub from_binxml_stream : Option ℕ → Read X (BinXmlValue X)
  unfolding deserialize_value_type try_read_u8 check_value_type
  from_binxml_stream size = do
    value_type_token ← try_read_u8 unknown
    value_type ← check_value_type value_type_token
    deserialize_value_type value_type size
