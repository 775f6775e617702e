-- ===== src/Value/Progress.antt =====
-- `deserialize_value_type` returns, provided the reader of nested fragments does.
use evtx.Prelude.{
  leb, Bool-cases, length, ℕ, ◌+◌, String, inl, inr, Bool, true, false, Option, none, some, arith,
}
use evtx.Foreign.{Foreign}
use evtx.Cursor.{Read, pure, ◌>>=◌}
use evtx.Cursor.Progress.{
  reached, crashed, Stays, Advances, Stays-pure, Stays-raise, Stays-ok_or, Stays-if, Stays-Advances,
  Stays-read_exact, Stays-bind, Stays-position,
}
use evtx.Macros.Progress.{
  ForeignAdvances, Advances-u8, Advances-u16, Advances-u32, Advances-u64, Advances-f32,
  Advances-f64, Advances-i8, Advances-i16, Advances-i32, Advances-i64, Advances-bool,
  Advances-hex32, Advances-hex64, Advances-guid, Advances-sid, Advances-filetime, Stays-sized_array,
}
use evtx.Strings.Progress.{
  Stays-utf16_by_size, Advances-len_prefixed, Advances-null_terminated, Stays-ansi,
  Advances-systemtime,
}
use evtx.Model.{Tokens}
use evtx.Raw.{BinXmlValueType}
use evtx.Value.{read_binary, check_value_type, unimplemented, read_size_t, deserialize_value_type}
use evtx.Macros.{unknown}

module _ {X : Foreign} {f low : ℕ} where
  -- A reader whose result is only wrapped.
  pub Stays-wrap :
      {A B : Type 0} (m : Read X A) (g : A → B)
      → Stays f low m
      → Stays f low (m >>= λ a. pure (g a))
  Stays-wrap m g h = Stays-bind m _ h λ a. Stays-pure (g a)

  pub Stays-token :
      {A B : Type 0} (m : Read X A) (g : A → B) → Advances m → Stays f low (m >>= λ a. pure (g a))
  Stays-token m g h = Stays-wrap m g (Stays-Advances m h)

  Stays-unimplemented :
      (name : String) (size : Option ℕ) → Stays f low (unimplemented {X = X} name size)
  unfolding unimplemented
  Stays-unimplemented name size = Stays-position _ λ p h. Stays-raise _

  Stays-size_t : (size : Option ℕ) → Stays f low (read_size_t {X = X} size)
  unfolding read_size_t
  Stays-size_t none = Stays-unimplemented _ _
  Stays-size_t (some sz) =
      Stays-if _ _ _ (Stays-token _ _ Advances-hex32)
        (Stays-if _ _ _ (Stays-token _ _ Advances-hex64) (Stays-unimplemented _ _))

  Stays-binary : (sz : ℕ) → Stays f low (read_binary {X = X} sz)
  unfolding read_binary
  Stays-binary sz = record {
    run = λ buf p h k. elim (Bool-cases (leb (p + sz) (length buf))) [
      | inl c ↦ rw c (reached (omega arith))
      | inr c ↦ rw c crashed
    ];
  }

  pub Stays-check_value_type : (byte : ℕ) → Stays f low (check_value_type {X = X} byte)
  unfolding check_value_type
  Stays-check_value_type byte = Stays-position _ λ p h. Stays-ok_or _ _

module _ {X : Foreign} {f low : ℕ} (forward : ForeignAdvances X) (ansi_codec : X.Codec)
    (fragment : Option ℕ → Bool → Read X (Tokens X))
    (nested : (size : Option ℕ) (inside : Bool) → Stays f low (fragment size inside)) where
  pub Stays-value :
      (t : BinXmlValueType) (size : Option ℕ)
      → Stays f low (deserialize_value_type ansi_codec fragment t size)
  unfolding deserialize_value_type
  Stays-value BinXmlValueType.null_type size = Stays-pure _
  Stays-value BinXmlValueType.string_type (some sz) = Stays-wrap _ _ (Stays-utf16_by_size _ sz)
  Stays-value BinXmlValueType.string_type none = Stays-token _ _ (Advances-len_prefixed _ false)
  Stays-value BinXmlValueType.ansi_string_type (some sz) = Stays-wrap _ _ (Stays-ansi sz ansi_codec)
  Stays-value BinXmlValueType.int8_type size = Stays-token _ _ (Advances-i8 unknown)
  Stays-value BinXmlValueType.uint8_type size = Stays-token _ _ (Advances-u8 unknown)
  Stays-value BinXmlValueType.int16_type size = Stays-token _ _ (Advances-i16 unknown)
  Stays-value BinXmlValueType.uint16_type size = Stays-token _ _ (Advances-u16 unknown)
  Stays-value BinXmlValueType.int32_type size = Stays-token _ _ (Advances-i32 unknown)
  Stays-value BinXmlValueType.uint32_type size = Stays-token _ _ (Advances-u32 unknown)
  Stays-value BinXmlValueType.int64_type size = Stays-token _ _ (Advances-i64 unknown)
  Stays-value BinXmlValueType.uint64_type size = Stays-token _ _ (Advances-u64 unknown)
  Stays-value BinXmlValueType.real32_type size = Stays-token _ _ (Advances-f32 unknown)
  Stays-value BinXmlValueType.real64_type size = Stays-token _ _ (Advances-f64 unknown)
  Stays-value BinXmlValueType.bool_type size = Stays-token _ _ Advances-bool
  Stays-value BinXmlValueType.guid_type size = Stays-token _ _ (Advances-guid forward unknown)
  Stays-value BinXmlValueType.file_time_type size = Stays-token _ _ (Advances-filetime forward)
  Stays-value BinXmlValueType.sys_time_type size = Stays-token _ _ Advances-systemtime
  Stays-value BinXmlValueType.sid_type size = Stays-token _ _ (Advances-sid forward)
  Stays-value BinXmlValueType.hex_int32_type size = Stays-token _ _ Advances-hex32
  Stays-value BinXmlValueType.hex_int64_type size = Stays-token _ _ Advances-hex64
  Stays-value BinXmlValueType.size_t_type size = Stays-size_t size
  Stays-value BinXmlValueType.bin_xml_type size = Stays-wrap _ _ (nested size true)
  Stays-value BinXmlValueType.binary_type (some sz) = Stays-wrap _ _ (Stays-binary sz)
  Stays-value BinXmlValueType.uint8_array_type (some sz) = Stays-wrap _ _ (Stays-read_exact _ sz)
  Stays-value BinXmlValueType.int8_array_type (some sz) =
      Stays-wrap _ _ (Stays-sized_array _ (Advances-i8 unknown) sz)
  Stays-value BinXmlValueType.int16_array_type (some sz) =
      Stays-wrap _ _ (Stays-sized_array _ (Advances-i16 unknown) sz)
  Stays-value BinXmlValueType.uint16_array_type (some sz) =
      Stays-wrap _ _ (Stays-sized_array _ (Advances-u16 unknown) sz)
  Stays-value BinXmlValueType.int32_array_type (some sz) =
      Stays-wrap _ _ (Stays-sized_array _ (Advances-i32 unknown) sz)
  Stays-value BinXmlValueType.uint32_array_type (some sz) =
      Stays-wrap _ _ (Stays-sized_array _ (Advances-u32 unknown) sz)
  Stays-value BinXmlValueType.int64_array_type (some sz) =
      Stays-wrap _ _ (Stays-sized_array _ (Advances-i64 unknown) sz)
  Stays-value BinXmlValueType.uint64_array_type (some sz) =
      Stays-wrap _ _ (Stays-sized_array _ (Advances-u64 unknown) sz)
  Stays-value BinXmlValueType.real32_array_type (some sz) =
      Stays-wrap _ _ (Stays-sized_array _ (Advances-f32 unknown) sz)
  Stays-value BinXmlValueType.real64_array_type (some sz) =
      Stays-wrap _ _ (Stays-sized_array _ (Advances-f64 unknown) sz)
  Stays-value BinXmlValueType.bool_array_type (some sz) =
      Stays-wrap _ _ (Stays-sized_array _ Advances-bool sz)
  Stays-value BinXmlValueType.guid_array_type (some sz) =
      Stays-wrap _ _ (Stays-sized_array _ (Advances-guid forward unknown) sz)
  Stays-value BinXmlValueType.file_time_array_type (some sz) =
      Stays-wrap _ _ (Stays-sized_array _ (Advances-filetime forward) sz)
  Stays-value BinXmlValueType.sys_time_array_type (some sz) =
      Stays-wrap _ _ (Stays-sized_array _ Advances-systemtime sz)
  Stays-value BinXmlValueType.sid_array_type (some sz) =
      Stays-wrap _ _ (Stays-sized_array _ (Advances-sid forward) sz)
  Stays-value BinXmlValueType.hex_int32_array_type (some sz) =
      Stays-wrap _ _ (Stays-sized_array _ Advances-hex32 sz)
  Stays-value BinXmlValueType.hex_int64_array_type (some sz) =
      Stays-wrap _ _ (Stays-sized_array _ Advances-hex64 sz)
  Stays-value BinXmlValueType.string_array_type (some sz) =
      Stays-wrap _ _ (Stays-sized_array _ (Advances-null_terminated _) sz)
  Stays-value _ size = Stays-unimplemented _ size
