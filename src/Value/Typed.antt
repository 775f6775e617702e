-- ===== src/Value/Typed.antt =====
-- `deserialize_value_type` of src/binxml/value_variant.rs gives values of the type it is asked for,
-- and only values that the outputs can print.
use evtx.Prelude.{
  ◌==◌, if◌then◌else◌, Text, ℕ, String, ◌≡◌, refl, subst, Bool, true, false, Option, none, some,
  List,
}
use evtx.Foreign.{Foreign}
use evtx.Raw.{BinXmlValueType}
use evtx.SerdeJson.{SerdeJson}
use evtx.Model.{Tokens, BinXmlValue}
use evtx.Display.{Display}
use evtx.Cursor.{Read, pure, raise, ◌>>=◌, position}
use evtx.Err.{ok, EvtxError}
use evtx.Err.Success.{IsOk}
use evtx.Value.ToJson.{value_from}
use evtx.Err.Bind.{bind-ok}
use evtx.Value.{unimplemented, read_size_t, deserialize_value_type}

module _ {X : Foreign} where
  -- The variant of a value.
  abbrev pub type_of : BinXmlValue X → BinXmlValueType
  type_of BinXmlValue.null_type = BinXmlValueType.null_type
  type_of (BinXmlValue.string_type _) = BinXmlValueType.string_type
  type_of (BinXmlValue.ansi_string_type _) = BinXmlValueType.ansi_string_type
  type_of (BinXmlValue.int8_type _) = BinXmlValueType.int8_type
  type_of (BinXmlValue.uint8_type _) = BinXmlValueType.uint8_type
  type_of (BinXmlValue.int16_type _) = BinXmlValueType.int16_type
  type_of (BinXmlValue.uint16_type _) = BinXmlValueType.uint16_type
  type_of (BinXmlValue.int32_type _) = BinXmlValueType.int32_type
  type_of (BinXmlValue.uint32_type _) = BinXmlValueType.uint32_type
  type_of (BinXmlValue.int64_type _) = BinXmlValueType.int64_type
  type_of (BinXmlValue.uint64_type _) = BinXmlValueType.uint64_type
  type_of (BinXmlValue.real32_type _) = BinXmlValueType.real32_type
  type_of (BinXmlValue.real64_type _) = BinXmlValueType.real64_type
  type_of (BinXmlValue.bool_type _) = BinXmlValueType.bool_type
  type_of (BinXmlValue.binary_type _) = BinXmlValueType.binary_type
  type_of (BinXmlValue.guid_type _) = BinXmlValueType.guid_type
  type_of (BinXmlValue.size_t_type _) = BinXmlValueType.size_t_type
  type_of (BinXmlValue.file_time_type _) = BinXmlValueType.file_time_type
  type_of (BinXmlValue.sys_time_type _) = BinXmlValueType.sys_time_type
  type_of (BinXmlValue.sid_type _) = BinXmlValueType.sid_type
  type_of (BinXmlValue.hex_int32_type _) = BinXmlValueType.hex_int32_type
  type_of (BinXmlValue.hex_int64_type _) = BinXmlValueType.hex_int64_type
  type_of BinXmlValue.evt_handle = BinXmlValueType.evt_handle
  type_of (BinXmlValue.bin_xml_type _) = BinXmlValueType.bin_xml_type
  type_of BinXmlValue.evt_xml = BinXmlValueType.evt_xml_type
  type_of (BinXmlValue.string_array_type _) = BinXmlValueType.string_array_type
  type_of BinXmlValue.ansi_string_array_type = BinXmlValueType.ansi_string_array_type
  type_of (BinXmlValue.int8_array_type _) = BinXmlValueType.int8_array_type
  type_of (BinXmlValue.uint8_array_type _) = BinXmlValueType.uint8_array_type
  type_of (BinXmlValue.int16_array_type _) = BinXmlValueType.int16_array_type
  type_of (BinXmlValue.uint16_array_type _) = BinXmlValueType.uint16_array_type
  type_of (BinXmlValue.int32_array_type _) = BinXmlValueType.int32_array_type
  type_of (BinXmlValue.uint32_array_type _) = BinXmlValueType.uint32_array_type
  type_of (BinXmlValue.int64_array_type _) = BinXmlValueType.int64_array_type
  type_of (BinXmlValue.uint64_array_type _) = BinXmlValueType.uint64_array_type
  type_of (BinXmlValue.real32_array_type _) = BinXmlValueType.real32_array_type
  type_of (BinXmlValue.real64_array_type _) = BinXmlValueType.real64_array_type
  type_of (BinXmlValue.bool_array_type _) = BinXmlValueType.bool_array_type
  type_of BinXmlValue.binary_array_type = BinXmlValueType.binary_array_type
  type_of (BinXmlValue.guid_array_type _) = BinXmlValueType.guid_array_type
  type_of BinXmlValue.size_t_array_type = BinXmlValueType.size_t_array_type
  type_of (BinXmlValue.file_time_array_type _) = BinXmlValueType.file_time_array_type
  type_of (BinXmlValue.sys_time_array_type _) = BinXmlValueType.sys_time_array_type
  type_of (BinXmlValue.sid_array_type _) = BinXmlValueType.sid_array_type
  type_of (BinXmlValue.hex_int32_array_type _) = BinXmlValueType.hex_int32_array_type
  type_of (BinXmlValue.hex_int64_array_type _) = BinXmlValueType.hex_int64_array_type
  type_of BinXmlValue.evt_array_handle = BinXmlValueType.evt_handle_array
  type_of BinXmlValue.bin_xml_array_type = BinXmlValueType.bin_xml_array_type
  type_of BinXmlValue.evt_xml_array_type = BinXmlValueType.evt_xml_array_type

  -- A value of a type. A size is read as a hexadecimal number.
  pub data HasType : BinXmlValueType → BinXmlValue X → Type 0 where
    same : {ty : BinXmlValueType} {v : BinXmlValue X} → type_of v ≡ ty → HasType ty v
    size_4 : {t : Text} → HasType BinXmlValueType.size_t_type (BinXmlValue.hex_int32_type t)
    size_8 : {t : Text} → HasType BinXmlValueType.size_t_type (BinXmlValue.hex_int64_type t)

  -- A value with a text and a JSON form, or nested binary XML.
  pub data IsPrintable (J : SerdeJson X) (D : Display X) : BinXmlValue X → Type 0 where
    printed : {v : BinXmlValue X} → IsOk (value_from {E = EvtxError X} J D v) → IsPrintable J D v
    nested : {tokens : Tokens X} → IsPrintable J D (BinXmlValue.bin_xml_type tokens)

module _ {X : Foreign} (J : SerdeJson X) (D : Display X) where
  -- What the reader gives has the type and can be printed.
  abbrev Yields : BinXmlValueType → Read X (BinXmlValue X) → Type 0
  Yields ty m =
      (buf : List ℕ) (at : ℕ) (v : BinXmlValue X) (at' : ℕ)
      → m buf at ≡ ok (v, at')
      → HasType ty v × IsPrintable J D v

  Yields-pure :
      {ty : BinXmlValueType} {v : BinXmlValue X}
      → HasType ty v × IsPrintable J D v
      → Yields ty (pure v)
  unfolding pure
  Yields-pure {ty = ty} {v = v} h buf at w at' e =
      let equal : v ≡ w = cc e in subst (λ u. HasType ty u × IsPrintable J D u) equal h

  Yields-wrap :
      {A : Type 0} {ty : BinXmlValueType} (m : Read X A) (g : A → BinXmlValue X)
      → ((a : A) → HasType ty (g a) × IsPrintable J D (g a))
      → Yields ty (m >>= λ a. pure (g a))
  unfolding ◌>>=◌
  Yields-wrap {ty = ty} m g h buf at w at' e =
      let ((a, p), _, e') = bind-ok (m buf at) _ e in Yields-pure (h a) buf p w at' e'

  Yields-unimplemented :
      {ty : BinXmlValueType} (name : String) (size : Option ℕ) → Yields ty (unimplemented name size)
  unfolding unimplemented ◌>>=◌ position raise
  Yields-unimplemented name size buf at w at' e = absurd cc

  Yields-if :
      {ty : BinXmlValueType} (b : Bool) {m m' : Read X (BinXmlValue X)}
      → Yields ty m
      → Yields ty m'
      → Yields ty (if b then m else m')
  Yields-if true h h' = h
  Yields-if false h h' = h'

  Yields-size_t : (size : Option ℕ) → Yields BinXmlValueType.size_t_type (read_size_t {X = X} size)
  unfolding read_size_t value_from
  Yields-size_t none = Yields-unimplemented _ _
  Yields-size_t (some sz) =
      Yields-if (sz == 4) (Yields-wrap _ _ (λ a. (size_4, printed (_, refl)))) (
        Yields-if (sz == 8) (Yields-wrap _ _ (λ a. (size_8, printed (_, refl))))
          (Yields-unimplemented _ _))

module _ {X : Foreign} (J : SerdeJson X) (D : Display X) (ansi_codec : X.Codec)
    (fragment : Option ℕ → Bool → Read X (Tokens X)) where
  deserialize_value_type-Yields :
      (ty : BinXmlValueType) (size : Option ℕ)
      → Yields J D ty (deserialize_value_type ansi_codec fragment ty size)
  unfolding deserialize_value_type value_from
  deserialize_value_type-Yields BinXmlValueType.null_type size =
      Yields-pure J D (same refl, printed (_, refl))
  deserialize_value_type-Yields BinXmlValueType.string_type (some sz) =
      Yields-wrap J D _ _ (λ a. (same refl, printed (_, refl)))
  deserialize_value_type-Yields BinXmlValueType.string_type none =
      Yields-wrap J D _ _ (λ a. (same refl, printed (_, refl)))
  deserialize_value_type-Yields BinXmlValueType.ansi_string_type (some sz) =
      Yields-wrap J D _ _ (λ a. (same refl, printed (_, refl)))
  deserialize_value_type-Yields BinXmlValueType.ansi_string_type none = Yields-unimplemented J D _ _
  deserialize_value_type-Yields BinXmlValueType.int8_type size =
      Yields-wrap J D _ _ (λ a. (same refl, printed (_, refl)))
  deserialize_value_type-Yields BinXmlValueType.uint8_type size =
      Yields-wrap J D _ _ (λ a. (same refl, printed (_, refl)))
  deserialize_value_type-Yields BinXmlValueType.int16_type size =
      Yields-wrap J D _ _ (λ a. (same refl, printed (_, refl)))
  deserialize_value_type-Yields BinXmlValueType.uint16_type size =
      Yields-wrap J D _ _ (λ a. (same refl, printed (_, refl)))
  deserialize_value_type-Yields BinXmlValueType.int32_type size =
      Yields-wrap J D _ _ (λ a. (same refl, printed (_, refl)))
  deserialize_value_type-Yields BinXmlValueType.uint32_type size =
      Yields-wrap J D _ _ (λ a. (same refl, printed (_, refl)))
  deserialize_value_type-Yields BinXmlValueType.int64_type size =
      Yields-wrap J D _ _ (λ a. (same refl, printed (_, refl)))
  deserialize_value_type-Yields BinXmlValueType.uint64_type size =
      Yields-wrap J D _ _ (λ a. (same refl, printed (_, refl)))
  deserialize_value_type-Yields BinXmlValueType.real32_type size =
      Yields-wrap J D _ _ (λ a. (same refl, printed (_, refl)))
  deserialize_value_type-Yields BinXmlValueType.real64_type size =
      Yields-wrap J D _ _ (λ a. (same refl, printed (_, refl)))
  deserialize_value_type-Yields BinXmlValueType.bool_type size =
      Yields-wrap J D _ _ (λ a. (same refl, printed (_, refl)))
  deserialize_value_type-Yields BinXmlValueType.binary_type (some sz) =
      Yields-wrap J D _ _ (λ a. (same refl, printed (_, refl)))
  deserialize_value_type-Yields BinXmlValueType.binary_type none = Yields-unimplemented J D _ _
  deserialize_value_type-Yields BinXmlValueType.guid_type size =
      Yields-wrap J D _ _ (λ a. (same refl, printed (_, refl)))
  deserialize_value_type-Yields BinXmlValueType.size_t_type size = Yields-size_t J D size
  deserialize_value_type-Yields BinXmlValueType.file_time_type size =
      Yields-wrap J D _ _ (λ a. (same refl, printed (_, refl)))
  deserialize_value_type-Yields BinXmlValueType.sys_time_type size =
      Yields-wrap J D _ _ (λ a. (same refl, printed (_, refl)))
  deserialize_value_type-Yields BinXmlValueType.sid_type size =
      Yields-wrap J D _ _ (λ a. (same refl, printed (_, refl)))
  deserialize_value_type-Yields BinXmlValueType.hex_int32_type size =
      Yields-wrap J D _ _ (λ a. (same refl, printed (_, refl)))
  deserialize_value_type-Yields BinXmlValueType.hex_int64_type size =
      Yields-wrap J D _ _ (λ a. (same refl, printed (_, refl)))
  deserialize_value_type-Yields BinXmlValueType.evt_handle size = Yields-unimplemented J D _ _
  deserialize_value_type-Yields BinXmlValueType.bin_xml_type size =
      Yields-wrap J D _ _ (λ a. (same refl, nested))
  deserialize_value_type-Yields BinXmlValueType.evt_xml_type size = Yields-unimplemented J D _ _
  deserialize_value_type-Yields BinXmlValueType.string_array_type (some sz) =
      Yields-wrap J D _ _ (λ a. (same refl, printed (_, refl)))
  deserialize_value_type-Yields BinXmlValueType.string_array_type none =
      Yields-unimplemented J D _ _
  deserialize_value_type-Yields BinXmlValueType.ansi_string_array_type size =
      Yields-unimplemented J D _ _
  deserialize_value_type-Yields BinXmlValueType.int8_array_type (some sz) =
      Yields-wrap J D _ _ (λ a. (same refl, printed (_, refl)))
  deserialize_value_type-Yields BinXmlValueType.int8_array_type none = Yields-unimplemented J D _ _
  deserialize_value_type-Yields BinXmlValueType.uint8_array_type (some sz) =
      Yields-wrap J D _ _ (λ a. (same refl, printed (_, refl)))
  deserialize_value_type-Yields BinXmlValueType.uint8_array_type none = Yields-unimplemented J D _ _
  deserialize_value_type-Yields BinXmlValueType.int16_array_type (some sz) =
      Yields-wrap J D _ _ (λ a. (same refl, printed (_, refl)))
  deserialize_value_type-Yields BinXmlValueType.int16_array_type none = Yields-unimplemented J D _ _
  deserialize_value_type-Yields BinXmlValueType.uint16_array_type (some sz) =
      Yields-wrap J D _ _ (λ a. (same refl, printed (_, refl)))
  deserialize_value_type-Yields BinXmlValueType.uint16_array_type none =
      Yields-unimplemented J D _ _
  deserialize_value_type-Yields BinXmlValueType.int32_array_type (some sz) =
      Yields-wrap J D _ _ (λ a. (same refl, printed (_, refl)))
  deserialize_value_type-Yields BinXmlValueType.int32_array_type none = Yields-unimplemented J D _ _
  deserialize_value_type-Yields BinXmlValueType.uint32_array_type (some sz) =
      Yields-wrap J D _ _ (λ a. (same refl, printed (_, refl)))
  deserialize_value_type-Yields BinXmlValueType.uint32_array_type none =
      Yields-unimplemented J D _ _
  deserialize_value_type-Yields BinXmlValueType.int64_array_type (some sz) =
      Yields-wrap J D _ _ (λ a. (same refl, printed (_, refl)))
  deserialize_value_type-Yields BinXmlValueType.int64_array_type none = Yields-unimplemented J D _ _
  deserialize_value_type-Yields BinXmlValueType.uint64_array_type (some sz) =
      Yields-wrap J D _ _ (λ a. (same refl, printed (_, refl)))
  deserialize_value_type-Yields BinXmlValueType.uint64_array_type none =
      Yields-unimplemented J D _ _
  deserialize_value_type-Yields BinXmlValueType.real32_array_type (some sz) =
      Yields-wrap J D _ _ (λ a. (same refl, printed (_, refl)))
  deserialize_value_type-Yields BinXmlValueType.real32_array_type none =
      Yields-unimplemented J D _ _
  deserialize_value_type-Yields BinXmlValueType.real64_array_type (some sz) =
      Yields-wrap J D _ _ (λ a. (same refl, printed (_, refl)))
  deserialize_value_type-Yields BinXmlValueType.real64_array_type none =
      Yields-unimplemented J D _ _
  deserialize_value_type-Yields BinXmlValueType.bool_array_type (some sz) =
      Yields-wrap J D _ _ (λ a. (same refl, printed (_, refl)))
  deserialize_value_type-Yields BinXmlValueType.bool_array_type none = Yields-unimplemented J D _ _
  deserialize_value_type-Yields BinXmlValueType.binary_array_type size =
      Yields-unimplemented J D _ _
  deserialize_value_type-Yields BinXmlValueType.guid_array_type (some sz) =
      Yields-wrap J D _ _ (λ a. (same refl, printed (_, refl)))
  deserialize_value_type-Yields BinXmlValueType.guid_array_type none = Yields-unimplemented J D _ _
  deserialize_value_type-Yields BinXmlValueType.size_t_array_type size =
      Yields-unimplemented J D _ _
  deserialize_value_type-Yields BinXmlValueType.file_time_array_type (some sz) =
      Yields-wrap J D _ _ (λ a. (same refl, printed (_, refl)))
  deserialize_value_type-Yields BinXmlValueType.file_time_array_type none =
      Yields-unimplemented J D _ _
  deserialize_value_type-Yields BinXmlValueType.sys_time_array_type (some sz) =
      Yields-wrap J D _ _ (λ a. (same refl, printed (_, refl)))
  deserialize_value_type-Yields BinXmlValueType.sys_time_array_type none =
      Yields-unimplemented J D _ _
  deserialize_value_type-Yields BinXmlValueType.sid_array_type (some sz) =
      Yields-wrap J D _ _ (λ a. (same refl, printed (_, refl)))
  deserialize_value_type-Yields BinXmlValueType.sid_array_type none = Yields-unimplemented J D _ _
  deserialize_value_type-Yields BinXmlValueType.hex_int32_array_type (some sz) =
      Yields-wrap J D _ _ (λ a. (same refl, printed (_, refl)))
  deserialize_value_type-Yields BinXmlValueType.hex_int32_array_type none =
      Yields-unimplemented J D _ _
  deserialize_value_type-Yields BinXmlValueType.hex_int64_array_type (some sz) =
      Yields-wrap J D _ _ (λ a. (same refl, printed (_, refl)))
  deserialize_value_type-Yields BinXmlValueType.hex_int64_array_type none =
      Yields-unimplemented J D _ _
  deserialize_value_type-Yields BinXmlValueType.evt_handle_array size = Yields-unimplemented J D _ _
  deserialize_value_type-Yields BinXmlValueType.bin_xml_array_type size =
      Yields-unimplemented J D _ _
  deserialize_value_type-Yields BinXmlValueType.evt_xml_array_type size =
      Yields-unimplemented J D _ _

  -- A value that is read has the type that was asked for, where a size becomes a hexadecimal
  -- number, and it either is nested binary XML or has a JSON form.
  pub deserialize_value_type-HasType :
      (ty : BinXmlValueType) (size : Option ℕ) (buf : List ℕ) (at : ℕ) {v : BinXmlValue X} {at' : ℕ}
      → deserialize_value_type ansi_codec fragment ty size buf at ≡ ok (v, at')
      → HasType ty v × IsPrintable J D v
  deserialize_value_type-HasType ty size buf at e =
      deserialize_value_type-Yields ty size buf at _ _ e
