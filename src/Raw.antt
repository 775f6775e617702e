-- ===== src/Raw.antt =====
-- `BinXmlValueType` of src/binxml/value_variant.rs and src/model/raw.rs: the bytes that name a
-- value's type and a token.
pub mod Codes
use evtx.Prelude.{◌==◌, if◌then◌else◌, ℕ, Bool, true, false, ◌||◌, Option, none, some}

pub data BinXmlValueType : Type 0 where
  null_type string_type ansi_string_type int8_type uint8_type int16_type uint16_type :
      BinXmlValueType
  int32_type uint32_type int64_type uint64_type real32_type real64_type bool_type : BinXmlValueType
  binary_type guid_type size_t_type file_time_type sys_time_type sid_type : BinXmlValueType
  hex_int32_type hex_int64_type evt_handle bin_xml_type evt_xml_type : BinXmlValueType
  string_array_type ansi_string_array_type int8_array_type uint8_array_type : BinXmlValueType
  int16_array_type uint16_array_type int32_array_type uint32_array_type : BinXmlValueType
  int64_array_type uint64_array_type real32_array_type real64_array_type : BinXmlValueType
  bool_array_type binary_array_type guid_array_type size_t_array_type : BinXmlValueType
  file_time_array_type sys_time_array_type sid_array_type hex_int32_array_type : BinXmlValueType
  hex_int64_array_type evt_handle_array bin_xml_array_type evt_xml_array_type : BinXmlValueType

pub data BinXmlRawToken : Type 0 where
  end_of_stream : BinXmlRawToken
  -- with attributes or without
  open_start_element : Bool → BinXmlRawToken
  close_start_element close_empty_element close_element value : BinXmlRawToken
  -- more attributes expected or not
  attribute : Bool → BinXmlRawToken
  cdata_section char_reference entity_reference : BinXmlRawToken
  processing_instruction_target processing_instruction_data : BinXmlRawToken
  template_instance normal_substitution conditional_substitution start_of_stream : BinXmlRawToken

-- `BinXmlValueType::from_u8`
unfoldable pub value_type_from_u8 : ℕ → Option BinXmlValueType
value_type_from_u8 byte =
    if byte == 0x00
    then some BinXmlValueType.null_type
    else if byte == 0x01
    then some BinXmlValueType.string_type
    else if byte == 0x02
    then some BinXmlValueType.ansi_string_type
    else if byte == 0x03
    then some BinXmlValueType.int8_type
    else if byte == 0x04
    then some BinXmlValueType.uint8_type
    else if byte == 0x05
    then some BinXmlValueType.int16_type
    else if byte == 0x06
    then some BinXmlValueType.uint16_type
    else if byte == 0x07
    then some BinXmlValueType.int32_type
    else if byte == 0x08
    then some BinXmlValueType.uint32_type
    else if byte == 0x09
    then some BinXmlValueType.int64_type
    else if byte == 0x0a
    then some BinXmlValueType.uint64_type
    else if byte == 0x0b
    then some BinXmlValueType.real32_type
    else if byte == 0x0c
    then some BinXmlValueType.real64_type
    else if byte == 0x0d
    then some BinXmlValueType.bool_type
    else if byte == 0x0e
    then some BinXmlValueType.binary_type
    else if byte == 0x0f
    then some BinXmlValueType.guid_type
    else if byte == 0x10
    then some BinXmlValueType.size_t_type
    else if byte == 0x11
    then some BinXmlValueType.file_time_type
    else if byte == 0x12
    then some BinXmlValueType.sys_time_type
    else if byte == 0x13
    then some BinXmlValueType.sid_type
    else if byte == 0x14
    then some BinXmlValueType.hex_int32_type
    else if byte == 0x15
    then some BinXmlValueType.hex_int64_type
    else if byte == 0x20
    then some BinXmlValueType.evt_handle
    else if byte == 0x21
    then some BinXmlValueType.bin_xml_type
    else if byte == 0x23
    then some BinXmlValueType.evt_xml_type
    else if byte == 0x81
    then some BinXmlValueType.string_array_type
    else if byte == 0x82
    then some BinXmlValueType.ansi_string_array_type
    else if byte == 0x83
    then some BinXmlValueType.int8_array_type
    else if byte == 0x84
    then some BinXmlValueType.uint8_array_type
    else if byte == 0x85
    then some BinXmlValueType.int16_array_type
    else if byte == 0x86
    then some BinXmlValueType.uint16_array_type
    else if byte == 0x87
    then some BinXmlValueType.int32_array_type
    else if byte == 0x88
    then some BinXmlValueType.uint32_array_type
    else if byte == 0x89
    then some BinXmlValueType.int64_array_type
    else if byte == 0x8a
    then some BinXmlValueType.uint64_array_type
    else if byte == 0x8b
    then some BinXmlValueType.real32_array_type
    else if byte == 0x8c
    then some BinXmlValueType.real64_array_type
    else if byte == 0x8d
    then some BinXmlValueType.bool_array_type
    else if byte == 0x8e
    then some BinXmlValueType.binary_array_type
    else if byte == 0x8f
    then some BinXmlValueType.guid_array_type
    else if byte == 0x90
    then some BinXmlValueType.size_t_array_type
    else if byte == 0x91
    then some BinXmlValueType.file_time_array_type
    else if byte == 0x92
    then some BinXmlValueType.sys_time_array_type
    else if byte == 0x93
    then some BinXmlValueType.sid_array_type
    else if byte == 0x94
    then some BinXmlValueType.hex_int32_array_type
    else if byte == 0x95
    then some BinXmlValueType.hex_int64_array_type
    else none

-- `BinXMLRawToken::from_u8`
unfoldable pub raw_token_from_u8 : ℕ → Option BinXmlRawToken
raw_token_from_u8 byte =
    if byte == 0x00
    then some BinXmlRawToken.end_of_stream
    else if byte == 0x01
    then some (BinXmlRawToken.open_start_element false)
    else if byte == 0x41
    then some (BinXmlRawToken.open_start_element true)
    else if byte == 0x02
    then some BinXmlRawToken.close_start_element
    else if byte == 0x03
    then some BinXmlRawToken.close_empty_element
    else if byte == 0x04
    then some BinXmlRawToken.close_element
    else if byte == 0x05 || byte == 0x45
    then some BinXmlRawToken.value
    else if byte == 0x06
    then some (BinXmlRawToken.attribute false)
    else if byte == 0x46
    then some (BinXmlRawToken.attribute true)
    else if byte == 0x07 || byte == 0x47
    then some BinXmlRawToken.cdata_section
    else if byte == 0x08 || byte == 0x48
    then some BinXmlRawToken.char_reference
    else if byte == 0x09 || byte == 0x49
    then some BinXmlRawToken.entity_reference
    else if byte == 0x0a
    then some BinXmlRawToken.processing_instruction_target
    else if byte == 0x0b
    then some BinXmlRawToken.processing_instruction_data
    else if byte == 0x0c
    then some BinXmlRawToken.template_instance
    else if byte == 0x0d
    then some BinXmlRawToken.normal_substitution
    else if byte == 0x0e
    then some BinXmlRawToken.conditional_substitution
    else if byte == 0x0f
    then some BinXmlRawToken.start_of_stream
    else none
