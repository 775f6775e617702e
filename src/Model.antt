-- ===== src/Model.antt =====
-- src/model/deserialized.rs and the value of src/binxml/value_variant.rs: binary XML as a tree.
-- `BinXMLAttribute`, `BinXmlEntityReference` and `BinXMLProcessingInstructionTarget` hold one name
-- reference each, which is its offset in the chunk. A borrowed value and an owned one are the same.
use evtx.Prelude.{Text, ℕ, Bool, List}
use evtx.Prelude.Int.{ℤ}
use evtx.Foreign.{Foreign}
use evtx.Raw.{BinXmlValueType}

pub record BinXmlNameRef : Type 0 where
  pub offset : ℕ

pub record BinXmlFragmentHeader : Type 0 where
  pub major_version : ℕ
  pub minor_version : ℕ
  pub flags : ℕ

pub record BinXmlOpenStartElement : Type 0 where
  pub data_size : ℕ
  pub name : BinXmlNameRef

pub record TemplateSubstitutionDescriptor : Type 0 where
  pub substitution_index : ℕ
  pub value_type : BinXmlValueType
  pub ignore : Bool

pub record TemplateValueDescriptor : Type 0 where
  pub size : ℕ
  pub value_type : BinXmlValueType

pub record BinXmlTemplateDefinitionHeader (X : Foreign) : Type 0 where
  pub next_template_offset : ℕ
  pub guid : X.Guid
  pub data_size : ℕ

mutual
  -- A template instance has the offset of its definition and the substitution array.
  pub data Token (X : Foreign) : Type 0 where
    fragment_header : BinXmlFragmentHeader → Token X
    template_instance : ℕ → Tokens X → Token X
    open_start_element : BinXmlOpenStartElement → Token X
    attribute_list : Token X
    attribute : BinXmlNameRef → Token X
    close_start_element : Token X
    close_empty_element : Token X
    close_element : Token X
    value : BinXmlValue X → Token X
    cdata_section : Token X
    char_ref : Token X
    entity_ref : BinXmlNameRef → Token X
    pi_target : BinXmlNameRef → Token X
    pi_data : Text → Token X
    substitution : TemplateSubstitutionDescriptor → Token X
    end_of_stream : Token X
    start_of_stream : Token X

  -- `Vec<BinXMLDeserializedTokens>`
  pub data Tokens (X : Foreign) : Type 0 where
    nil : Tokens X
    cons : Token X → Tokens X → Tokens X

  pub data BinXmlValue (X : Foreign) : Type 0 where
    null_type : BinXmlValue X
    string_type : Text → BinXmlValue X
    ansi_string_type : Text → BinXmlValue X
    int8_type : ℤ → BinXmlValue X
    uint8_type : ℕ → BinXmlValue X
    int16_type : ℤ → BinXmlValue X
    uint16_type : ℕ → BinXmlValue X
    int32_type : ℤ → BinXmlValue X
    uint32_type : ℕ → BinXmlValue X
    int64_type : ℤ → BinXmlValue X
    uint64_type : ℕ → BinXmlValue X
    real32_type : ℕ → BinXmlValue X
    real64_type : ℕ → BinXmlValue X
    bool_type : Bool → BinXmlValue X
    binary_type : List ℕ → BinXmlValue X
    guid_type : X.Guid → BinXmlValue X
    size_t_type : ℕ → BinXmlValue X
    file_time_type : X.DateTime → BinXmlValue X
    sys_time_type : X.DateTime → BinXmlValue X
    sid_type : X.Sid → BinXmlValue X
    hex_int32_type : Text → BinXmlValue X
    hex_int64_type : Text → BinXmlValue X
    evt_handle : BinXmlValue X
    bin_xml_type : Tokens X → BinXmlValue X
    evt_xml : BinXmlValue X
    string_array_type : List Text → BinXmlValue X
    ansi_string_array_type : BinXmlValue X
    int8_array_type : List ℤ → BinXmlValue X
    uint8_array_type : List ℕ → BinXmlValue X
    int16_array_type : List ℤ → BinXmlValue X
    uint16_array_type : List ℕ → BinXmlValue X
    int32_array_type : List ℤ → BinXmlValue X
    uint32_array_type : List ℕ → BinXmlValue X
    int64_array_type : List ℤ → BinXmlValue X
    uint64_array_type : List ℕ → BinXmlValue X
    real32_array_type : List ℕ → BinXmlValue X
    real64_array_type : List ℕ → BinXmlValue X
    bool_array_type : List Bool → BinXmlValue X
    binary_array_type : BinXmlValue X
    guid_array_type : List X.Guid → BinXmlValue X
    size_t_array_type : BinXmlValue X
    file_time_array_type : List X.DateTime → BinXmlValue X
    sys_time_array_type : List X.DateTime → BinXmlValue X
    sid_array_type : List X.Sid → BinXmlValue X
    hex_int32_array_type : List Text → BinXmlValue X
    hex_int64_array_type : List Text → BinXmlValue X
    evt_array_handle : BinXmlValue X
    bin_xml_array_type : BinXmlValue X
    evt_xml_array_type : BinXmlValue X

pub record BinXmlTemplateDefinition (X : Foreign) : Type 0 where
  pub header : BinXmlTemplateDefinitionHeader X
  pub tokens : Tokens X
