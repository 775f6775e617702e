-- ===== src/Tokens.antt =====
-- src/binxml/tokens.rs: the readers of the composite tokens. Positions are 64-bit, offsets 32-bit.
pub mod Progress
use evtx.Prelude.{
  ltb, leb, ◌==◌, if◌then◌else◌, Text, ℕ, zero, suc, ◌+◌, ◌-◌, ◌%◌, ◌^◌, Bool, true, false, ◌&&◌,
  Option, none, some, List, [], ◌∷◌,
}
use evtx.Foreign.{Foreign}
use evtx.Err.{failed_to_read_token, unexpected_io_error, failed_to_deserialize_template, map_err}
use evtx.Cursor.{Read, pure, raise, starve, ◌>>=◌, ◌>>◌, position, seek}
use evtx.Macros.{unknown, try_read_u8, try_read_u16, try_read_u32, try_read_guid}
use evtx.Strings.{unwrap_or_default, read_len_prefixed_utf16_string}
use evtx.Raw.{BinXmlValueType}
use evtx.Model.{
  BinXmlFragmentHeader, BinXmlOpenStartElement, TemplateSubstitutionDescriptor,
  TemplateValueDescriptor, BinXmlTemplateDefinitionHeader, Token, Tokens, nil, cons, BinXmlValue,
  BinXmlTemplateDefinition,
}
use evtx.Name.{read_name_ref}
use evtx.Value.{check_value_type, deserialize_value_type}

abbrev pub is_null : {X : Foreign} → BinXmlValue X → Bool
is_null BinXmlValue.null_type = true
is_null _ = false

abbrev is_null_type : BinXmlValueType → Bool
is_null_type BinXmlValueType.null_type = true
is_null_type _ = false

-- `if let Some(c) = chunk { if data_size >= c.data.len() as u32`
abbrev is_out_of_chunk : Option ℕ → ℕ → Bool
is_out_of_chunk none data_size = false
is_out_of_chunk (some len) data_size = leb (len % 2 ^ 32) data_size

module _ {X : Foreign} where
  unfoldable pub wrap_template_error : {A : Type 0} → X.Guid → Read X A → Read X A
  wrap_template_error guid m buf at = map_err (failed_to_deserialize_template guid) (m buf at)

  unfoldable pub read_template_definition_header : Read X (BinXmlTemplateDefinitionHeader X)
  unfolding try_read_u32 try_read_guid
  read_template_definition_header = do
    next_template_offset ← try_read_u32 "next_template_offset"
    template_guid ← try_read_guid "template_guid"
    data_size ← try_read_u32 "template_data_size"
    pure record {
      next_template_offset = next_template_offset;
      guid = template_guid;
      data_size = data_size;
    }

  unfoldable pub read_fragment_header : Read X BinXmlFragmentHeader
  unfolding try_read_u8
  read_fragment_header = do
    major_version ← try_read_u8 "fragment_header_major_version"
    minor_version ← try_read_u8 "fragment_header_minor_version"
    flags ← try_read_u8 "fragment_header_flags"
    pure record { major_version = major_version; minor_version = minor_version; flags = flags }

  unfoldable pub read_processing_instruction_data : Read X Text
  unfolding read_len_prefixed_utf16_string
  read_processing_instruction_data = do
    pi ←
        read_len_prefixed_utf16_string (failed_to_read_token "len_prefixed_utf_16_str" "pi_data")
          false
    pure (unwrap_or_default pi)

  unfoldable pub read_substitution_descriptor : Bool → Read X TemplateSubstitutionDescriptor
  unfolding try_read_u16 try_read_u8 check_value_type
  read_substitution_descriptor optional = do
    substitution_index ← try_read_u16 unknown
    value_type_token ← try_read_u8 unknown
    value_type ← check_value_type value_type_token
    pure record {
      substitution_index = substitution_index;
      value_type = value_type;
      ignore = optional && is_null_type value_type;
    }

  -- The heuristic for a missing `dependency_identifier` takes the cursor back six bytes and reads
  -- again without it. From the second round on each goes back two bytes further than it began.
  unfoldable pub read_open_start_loop : ℕ → Option ℕ → Bool → Bool → Read X BinXmlOpenStartElement
  unfolding try_read_u16 try_read_u32 read_name_ref
  read_open_start_loop zero chunk_len has_attributes is_substitution = starve
  read_open_start_loop (suc f) chunk_len has_attributes is_substitution = do
    _ ←
        (if is_substitution
          then pure 0
          else try_read_u16 "open_start_element_dependency_identifier")
    data_size ← try_read_u32 "open_start_element_data_size"
    if is_out_of_chunk chunk_len data_size
        then (do
          at ← position
          _ ←
              (if ltb at 6
                then raise (unexpected_io_error "failed to skip when recovering")
                else seek (at - 6))
          read_open_start_loop f chunk_len has_attributes true)
        else (do
          name ← read_name_ref
          _ ←
              (if has_attributes
                then try_read_u32 "open_start_element_attribute_list_data_size"
                else pure 0)
          pure record { data_size = data_size; name = name })

  unfoldable pub read_open_start_element : Option ℕ → Bool → Bool → Read X BinXmlOpenStartElement
  unfolding read_open_start_loop
  read_open_start_element chunk_len has_attributes is_substitution = do
    at ← position
    read_open_start_loop (at + 3) chunk_len has_attributes is_substitution

  unfoldable pub read_value_descriptors : ℕ → Read X (List TemplateValueDescriptor)
  unfolding try_read_u16 try_read_u8 check_value_type
  read_value_descriptors zero = pure []
  read_value_descriptors (suc n) = do
    size ← try_read_u16 unknown
    value_type_token ← try_read_u8 unknown
    value_type ← check_value_type value_type_token
    _ ← try_read_u8 unknown
    rest ← read_value_descriptors n
    pure (record { size = size; value_type = value_type } ∷ rest)

  -- A value that was read short of its size is skipped over; one read beyond it is left as it is.
  unfoldable pub realign : ℕ → Read X Unit
  realign expected_position = do
    current_position ← position
    if ltb current_position expected_position then seek expected_position else pure tt

module _ {X : Foreign} (ansi_codec : X.Codec) (fragment : Option ℕ → Bool → Read X (Tokens X)) where
  unfoldable pub read_substitution_values : List TemplateValueDescriptor → Read X (Tokens X)
  unfolding deserialize_value_type realign
  read_substitution_values [] = pure nil
  read_substitution_values (descriptor ∷ rest) = do
    position_before_reading_value ← position
    v ← deserialize_value_type ansi_codec fragment descriptor.value_type (some descriptor.size)
    current ← position
    _ ← (if is_null v then seek (current + descriptor.size) else pure tt)
    _ ← realign (position_before_reading_value + descriptor.size)
    vs ← read_substitution_values rest
    pure (cons (Token.value v) vs)

  -- A template instance: the definition that stands in place is skipped.
  unfoldable pub read_template : Read X (Token X)
  unfolding try_read_u8 try_read_u32 read_template_definition_header read_value_descriptors
      read_substitution_values
  read_template = do
    _ ← try_read_u8 unknown
    template_id ← try_read_u32 unknown
    template_definition_data_offset ← try_read_u32 unknown
    at ← position
    _ ←
        (if at % 2 ^ 32 == template_definition_data_offset
          then (do
            template_header ← read_template_definition_header
            after ← position
            seek (after + template_header.data_size))
          else pure tt)
    number_of_substitutions ← try_read_u32 unknown
    value_descriptors ← read_value_descriptors number_of_substitutions
    substitution_array ← read_substitution_values value_descriptors
    pure (Token.template_instance template_definition_data_offset substitution_array)

  unfoldable pub read_template_definition : Read X (BinXmlTemplateDefinition X)
  unfolding read_template_definition_header wrap_template_error
  read_template_definition = do
    header ← read_template_definition_header
    tokens ← wrap_template_error header.guid (fragment (some header.data_size) false)
    pure record { header = header; tokens = tokens }
