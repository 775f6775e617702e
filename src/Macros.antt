-- ===== src/Macros.antt =====
-- src/macros.rs: `try_read!` for the fixed-width tokens and the sized arrays. Each token names
-- itself in the error of a short read.
pub mod Progress
use evtx.Prelude.{
  ltb, leb, ◌==◌, if◌then◌else◌, Text, codes, ℕ, zero, suc, ◌+◌, ◌-◌, ◌/◌, ◌%◌, ◌^◌, String, Bool,
  true, false, List, [], ◌∷◌, ◌++◌,
}
use evtx.Prelude.Int.{ℤ, to_signed}
use evtx.Foreign.{Foreign}
use evtx.Err.{ok, failed_to_read_token}
use evtx.Cursor.{Read, pure, starve, ◌>>=◌, ◌>>◌, position, read_foreign, read_uint}

abbrev pub unknown : String
unknown = "<Unknown>"

-- A 32-bit integer: 0 is `false`, 1 and (with a warning) any other number `true`.
bool_of : ℤ → Bool
bool_of (ℤ.pos zero) = false
bool_of _ = true

module _ {X : Foreign} where
  unfoldable pub try_read_u8 : String → Read X ℕ
  try_read_u8 name = read_uint (failed_to_read_token "u8" name) 1

  unfoldable pub try_read_u16 : String → Read X ℕ
  try_read_u16 name = read_uint (failed_to_read_token "u16" name) 2

  unfoldable pub try_read_u32 : String → Read X ℕ
  try_read_u32 name = read_uint (failed_to_read_token "u32" name) 4

  unfoldable pub try_read_u64 : String → Read X ℕ
  try_read_u64 name = read_uint (failed_to_read_token "u64" name) 8

  unfoldable pub try_read_i8 : String → Read X ℤ
  try_read_i8 name = do u ← read_uint (failed_to_read_token "i8" name) 1; pure (to_signed (2 ^ 7) u)

  unfoldable pub try_read_i16 : String → Read X ℤ
  try_read_i16 name = do
    u ← read_uint (failed_to_read_token "i16" name) 2
    pure (to_signed (2 ^ 15) u)

  unfoldable pub try_read_i32 : String → Read X ℤ
  try_read_i32 name = do
    u ← read_uint (failed_to_read_token "i32" name) 4
    pure (to_signed (2 ^ 31) u)

  unfoldable pub try_read_i64 : String → Read X ℤ
  try_read_i64 name = do
    u ← read_uint (failed_to_read_token "i64" name) 8
    pure (to_signed (2 ^ 63) u)

  -- A float is its bit pattern.
  unfoldable pub try_read_f32 : String → Read X ℕ
  try_read_f32 name = read_uint (failed_to_read_token "f32" name) 4

  unfoldable pub try_read_f64 : String → Read X ℕ
  try_read_f64 name = read_uint (failed_to_read_token "f64" name) 8

  unfoldable pub try_read_bool : Read X Bool
  unfolding try_read_i32 bool_of
  try_read_bool = do number ← try_read_i32 unknown; pure (bool_of number)

  unfoldable pub try_read_guid : String → Read X X.Guid
  try_read_guid name = read_foreign (failed_to_read_token "guid" name) X.guid_from_reader

  unfoldable pub try_read_sid : Read X X.Sid
  try_read_sid = read_foreign (failed_to_read_token "ntsid" unknown) X.sid_from_reader

  unfoldable pub try_read_filetime : Read X X.DateTime
  try_read_filetime = read_foreign (failed_to_read_token "filetime" unknown) X.filetime_from_reader

-- A hexadecimal digit, in lower case.
abbrev hex_digit : ℕ → ℕ
hex_digit d = if ltb d 10 then 48 + d else 87 + d

-- The digits of `{:x}` before those in `acc`, for a number below 16^fuel.
pub to_hex : ℕ → ℕ → Text → Text
to_hex zero n acc = acc
to_hex (suc f) n acc =
    let acc' = hex_digit (n % 16) ∷ acc in
    let more = to_hex f (n / 16) acc' in if n / 16 == 0 then acc' else more

-- `format!("0x{:x}", value)`: of a signed value Rust prints the two's complement.
pub hex_text : ℕ → Text
unfolding to_hex
hex_text n = codes "0x" ++ to_hex 16 n []

module _ {X : Foreign} where
  unfoldable pub try_read_hex32 : Read X Text
  unfolding hex_text
  try_read_hex32 = do u ← read_uint (failed_to_read_token "i32" unknown) 4; pure (hex_text u)

  unfoldable pub try_read_hex64 : Read X Text
  unfolding hex_text
  try_read_hex64 = do u ← read_uint (failed_to_read_token "i64" unknown) 8; pure (hex_text u)

module _ {X : Foreign} {A : Type 0} where
  -- The loop of `try_read_sized_array!`. Each unit takes a byte at least, so `size + 1` rounds do.
  unfoldable pub read_array_loop : ℕ → Read X A → ℕ → ℕ → Read X (List A)
  read_array_loop zero unit start size = starve
  read_array_loop (suc f) unit start size = do
    at ← position
    if leb size (at - start)
        then pure []
        else (do v ← unit; vs ← read_array_loop f unit start size; pure (v ∷ vs))

  unfoldable pub try_read_sized_array : Read X A → ℕ → Read X (List A)
  unfolding read_array_loop
  try_read_sized_array unit size = do
    start_pos ← position
    read_array_loop (suc size) unit start_pos size
