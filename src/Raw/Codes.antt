-- ===== src/Raw/Codes.antt =====
-- The table of value types.
use evtx.Prelude.{
  ◌==◌, if◌then◌else◌, ==_iff, Bool-cases, ℕ, ◌+◌, ◌≡◌, refl, sym, ap, ◌∙◌, subst, ◌↔◌, inl, inr,
  Option, none, some,
}
use evtx.Raw.{BinXmlValueType, value_type_from_u8}

-- The types that have a byte, numbered as MS-EVEN6 numbers the types: an array is its element's
-- type with the bit 0x80.
abbrev pub array_bit : ℕ
array_bit = 0x80

abbrev pub type_code : BinXmlValueType → Option ℕ
type_code BinXmlValueType.null_type = some 0x00
type_code BinXmlValueType.string_type = some 0x01
type_code BinXmlValueType.ansi_string_type = some 0x02
type_code BinXmlValueType.int8_type = some 0x03
type_code BinXmlValueType.uint8_type = some 0x04
type_code BinXmlValueType.int16_type = some 0x05
type_code BinXmlValueType.uint16_type = some 0x06
type_code BinXmlValueType.int32_type = some 0x07
type_code BinXmlValueType.uint32_type = some 0x08
type_code BinXmlValueType.int64_type = some 0x09
type_code BinXmlValueType.uint64_type = some 0x0a
type_code BinXmlValueType.real32_type = some 0x0b
type_code BinXmlValueType.real64_type = some 0x0c
type_code BinXmlValueType.bool_type = some 0x0d
type_code BinXmlValueType.binary_type = some 0x0e
type_code BinXmlValueType.guid_type = some 0x0f
type_code BinXmlValueType.size_t_type = some 0x10
type_code BinXmlValueType.file_time_type = some 0x11
type_code BinXmlValueType.sys_time_type = some 0x12
type_code BinXmlValueType.sid_type = some 0x13
type_code BinXmlValueType.hex_int32_type = some 0x14
type_code BinXmlValueType.hex_int64_type = some 0x15
type_code BinXmlValueType.evt_handle = some 0x20
type_code BinXmlValueType.bin_xml_type = some 0x21
type_code BinXmlValueType.evt_xml_type = some 0x23
type_code BinXmlValueType.string_array_type = some (array_bit + 0x01)
type_code BinXmlValueType.ansi_string_array_type = some (array_bit + 0x02)
type_code BinXmlValueType.int8_array_type = some (array_bit + 0x03)
type_code BinXmlValueType.uint8_array_type = some (array_bit + 0x04)
type_code BinXmlValueType.int16_array_type = some (array_bit + 0x05)
type_code BinXmlValueType.uint16_array_type = some (array_bit + 0x06)
type_code BinXmlValueType.int32_array_type = some (array_bit + 0x07)
type_code BinXmlValueType.uint32_array_type = some (array_bit + 0x08)
type_code BinXmlValueType.int64_array_type = some (array_bit + 0x09)
type_code BinXmlValueType.uint64_array_type = some (array_bit + 0x0a)
type_code BinXmlValueType.real32_array_type = some (array_bit + 0x0b)
type_code BinXmlValueType.real64_array_type = some (array_bit + 0x0c)
type_code BinXmlValueType.bool_array_type = some (array_bit + 0x0d)
type_code BinXmlValueType.binary_array_type = some (array_bit + 0x0e)
type_code BinXmlValueType.guid_array_type = some (array_bit + 0x0f)
type_code BinXmlValueType.size_t_array_type = some (array_bit + 0x10)
type_code BinXmlValueType.file_time_array_type = some (array_bit + 0x11)
type_code BinXmlValueType.sys_time_array_type = some (array_bit + 0x12)
type_code BinXmlValueType.sid_array_type = some (array_bit + 0x13)
type_code BinXmlValueType.hex_int32_array_type = some (array_bit + 0x14)
type_code BinXmlValueType.hex_int64_array_type = some (array_bit + 0x15)
type_code BinXmlValueType.evt_handle_array = none
type_code BinXmlValueType.bin_xml_array_type = none
type_code BinXmlValueType.evt_xml_array_type = none

-- One row of the table.
row :
    (byte code : ℕ) (t : BinXmlValueType) {t' : BinXmlValueType} {rest : Option BinXmlValueType}
    → type_code t ≡ some code
    → (rest ≡ some t' → type_code t' ≡ some byte)
    → (if byte == code then some t else rest) ≡ some t'
    → type_code t' ≡ some byte
row byte code t {t' = t'} is_code others h = elim (Bool-cases (byte == code)) [
  | inl c ↦
      let same : t ≡ t' = cc (rw c at h) in
      ap type_code (sym same) ∙ is_code ∙ ap (λ b. some b) (sym ((==_iff _ _).0 c))
  | inr c ↦ others (rw c at h)
]

from_u8-code :
    (byte : ℕ) (t : BinXmlValueType) → value_type_from_u8 byte ≡ some t → type_code t ≡ some byte
unfolding value_type_from_u8
from_u8-code byte t = row byte _ BinXmlValueType.null_type refl (
    row byte _ BinXmlValueType.string_type refl (
      row byte _ BinXmlValueType.ansi_string_type refl (
        row byte _ BinXmlValueType.int8_type refl (
          row byte _ BinXmlValueType.uint8_type refl (
            row byte _ BinXmlValueType.int16_type refl (
              row byte _ BinXmlValueType.uint16_type refl (
                row byte _ BinXmlValueType.int32_type refl (
                  row byte _ BinXmlValueType.uint32_type refl (
                    row byte _ BinXmlValueType.int64_type refl (
                      row byte _ BinXmlValueType.uint64_type refl (
                        row byte _ BinXmlValueType.real32_type refl (
                          row byte _ BinXmlValueType.real64_type refl (
                            row byte _ BinXmlValueType.bool_type refl (
                              row byte _ BinXmlValueType.binary_type refl (
                                row byte _ BinXmlValueType.guid_type refl (
                                  row byte _ BinXmlValueType.size_t_type refl (
                                    row byte _ BinXmlValueType.file_time_type refl (
                                      row byte _ BinXmlValueType.sys_time_type refl (
                                        row byte _ BinXmlValueType.sid_type refl (
                                          row byte _ BinXmlValueType.hex_int32_type refl (
                                            row byte _ BinXmlValueType.hex_int64_type refl (
                                              row byte _ BinXmlValueType.evt_handle refl (
                                                row byte _ BinXmlValueType.bin_xml_type refl (
                                                  row byte _ BinXmlValueType.evt_xml_type refl (
                                                    row byte _ BinXmlValueType.string_array_type
                                                      refl
                                                      (row byte _
                                                        BinXmlValueType.ansi_string_array_type refl
                                                        (row byte _ BinXmlValueType.int8_array_type
                                                          refl
                                                          (row byte _
                                                            BinXmlValueType.uint8_array_type refl
                                                            (row byte _
                                                            BinXmlValueType.int16_array_type refl
                                                            (row byte _
                                                            BinXmlValueType.uint16_array_type refl
                                                            (row byte _
                                                            BinXmlValueType.int32_array_type refl
                                                            (row byte _
                                                            BinXmlValueType.uint32_array_type refl
                                                            (row byte _
                                                            BinXmlValueType.int64_array_type refl
                                                            (row byte _
                                                            BinXmlValueType.uint64_array_type refl
                                                            (row byte _
                                                            BinXmlValueType.real32_array_type refl
                                                            (row byte _
                                                            BinXmlValueType.real64_array_type refl
                                                            (row byte _
                                                            BinXmlValueType.bool_array_type refl
                                                            (row byte _
                                                            BinXmlValueType.binary_array_type refl
                                                            (row byte _
                                                            BinXmlValueType.guid_array_type refl
                                                            (row byte _
                                                            BinXmlValueType.size_t_array_type refl
                                                            (row byte _
                                                            BinXmlValueType.file_time_array_type
                                                            refl
                                                            (row byte _
                                                            BinXmlValueType.sys_time_array_type refl
                                                            (row byte _
                                                            BinXmlValueType.sid_array_type refl
                                                            (row byte _
                                                            BinXmlValueType.hex_int32_array_type
                                                            refl
                                                            (row byte _
                                                            BinXmlValueType.hex_int64_array_type
                                                            refl (λ h. absurd cc))))))))))))))))))))
                                                            ))))))))))))))))))))))))))

of_code :
    (t : BinXmlValueType) (code byte : ℕ)
    → some code ≡ some byte
    → value_type_from_u8 code ≡ some t
    → value_type_from_u8 byte ≡ some t
of_code t code byte h e =
    let same : code ≡ byte = cc in subst (λ b. value_type_from_u8 b ≡ some t) same e

code-from_u8 :
    (byte : ℕ) (t : BinXmlValueType) → type_code t ≡ some byte → value_type_from_u8 byte ≡ some t
unfolding value_type_from_u8
code-from_u8 byte BinXmlValueType.null_type h = of_code _ _ byte h refl
code-from_u8 byte BinXmlValueType.string_type h = of_code _ _ byte h refl
code-from_u8 byte BinXmlValueType.ansi_string_type h = of_code _ _ byte h refl
code-from_u8 byte BinXmlValueType.int8_type h = of_code _ _ byte h refl
code-from_u8 byte BinXmlValueType.uint8_type h = of_code _ _ byte h refl
code-from_u8 byte BinXmlValueType.int16_type h = of_code _ _ byte h refl
code-from_u8 byte BinXmlValueType.uint16_type h = of_code _ _ byte h refl
code-from_u8 byte BinXmlValueType.int32_type h = of_code _ _ byte h refl
code-from_u8 byte BinXmlValueType.uint32_type h = of_code _ _ byte h refl
code-from_u8 byte BinXmlValueType.int64_type h = of_code _ _ byte h refl
code-from_u8 byte BinXmlValueType.uint64_type h = of_code _ _ byte h refl
code-from_u8 byte BinXmlValueType.real32_type h = of_code _ _ byte h refl
code-from_u8 byte BinXmlValueType.real64_type h = of_code _ _ byte h refl
code-from_u8 byte BinXmlValueType.bool_type h = of_code _ _ byte h refl
code-from_u8 byte BinXmlValueType.binary_type h = of_code _ _ byte h refl
code-from_u8 byte BinXmlValueType.guid_type h = of_code _ _ byte h refl
code-from_u8 byte BinXmlValueType.size_t_type h = of_code _ _ byte h refl
code-from_u8 byte BinXmlValueType.file_time_type h = of_code _ _ byte h refl
code-from_u8 byte BinXmlValueType.sys_time_type h = of_code _ _ byte h refl
code-from_u8 byte BinXmlValueType.sid_type h = of_code _ _ byte h refl
code-from_u8 byte BinXmlValueType.hex_int32_type h = of_code _ _ byte h refl
code-from_u8 byte BinXmlValueType.hex_int64_type h = of_code _ _ byte h refl
code-from_u8 byte BinXmlValueType.evt_handle h = of_code _ _ byte h refl
code-from_u8 byte BinXmlValueType.bin_xml_type h = of_code _ _ byte h refl
code-from_u8 byte BinXmlValueType.evt_xml_type h = of_code _ _ byte h refl
code-from_u8 byte BinXmlValueType.string_array_type h = of_code _ _ byte h refl
code-from_u8 byte BinXmlValueType.ansi_string_array_type h = of_code _ _ byte h refl
code-from_u8 byte BinXmlValueType.int8_array_type h = of_code _ _ byte h refl
code-from_u8 byte BinXmlValueType.uint8_array_type h = of_code _ _ byte h refl
code-from_u8 byte BinXmlValueType.int16_array_type h = of_code _ _ byte h refl
code-from_u8 byte BinXmlValueType.uint16_array_type h = of_code _ _ byte h refl
code-from_u8 byte BinXmlValueType.int32_array_type h = of_code _ _ byte h refl
code-from_u8 byte BinXmlValueType.uint32_array_type h = of_code _ _ byte h refl
code-from_u8 byte BinXmlValueType.int64_array_type h = of_code _ _ byte h refl
code-from_u8 byte BinXmlValueType.uint64_array_type h = of_code _ _ byte h refl
code-from_u8 byte BinXmlValueType.real32_array_type h = of_code _ _ byte h refl
code-from_u8 byte BinXmlValueType.real64_array_type h = of_code _ _ byte h refl
code-from_u8 byte BinXmlValueType.bool_array_type h = of_code _ _ byte h refl
code-from_u8 byte BinXmlValueType.binary_array_type h = of_code _ _ byte h refl
code-from_u8 byte BinXmlValueType.guid_array_type h = of_code _ _ byte h refl
code-from_u8 byte BinXmlValueType.size_t_array_type h = of_code _ _ byte h refl
code-from_u8 byte BinXmlValueType.file_time_array_type h = of_code _ _ byte h refl
code-from_u8 byte BinXmlValueType.sys_time_array_type h = of_code _ _ byte h refl
code-from_u8 byte BinXmlValueType.sid_array_type h = of_code _ _ byte h refl
code-from_u8 byte BinXmlValueType.hex_int32_array_type h = of_code _ _ byte h refl
code-from_u8 byte BinXmlValueType.hex_int64_array_type h = of_code _ _ byte h refl
code-from_u8 byte BinXmlValueType.evt_handle_array h = absurd cc
code-from_u8 byte BinXmlValueType.bin_xml_array_type h = absurd cc
code-from_u8 byte BinXmlValueType.evt_xml_array_type h = absurd cc

-- `BinXmlValueType::from_u8` gives a type for a byte exactly where the table has that byte for the
-- type, for every byte and every type: no two rows clash, and the arrays' bytes are those of their
-- elements with the array bit. Handle and XML arrays have no byte.
pub value_type_from_u8_lem :
    (byte : ℕ) (t : BinXmlValueType)
    → (value_type_from_u8 byte ≡ some t) ↔ (type_code t ≡ some byte)
value_type_from_u8_lem byte t = (from_u8-code byte t, code-from_u8 byte t)
