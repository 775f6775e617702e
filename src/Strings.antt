-- ===== src/Strings.antt =====
-- src/utils/binxml_utils.rs, and `read_systemtime` of src/utils/time.rs. An `io::Error` inside
-- becomes the one error `e` that the caller makes of it.
pub mod Progress
pub mod RoundTrip
use evtx.Prelude.{
  ltb, leb, ◌==◌, if◌then◌else◌, Text, ℕ, zero, suc, ◌+◌, ◌-◌, ◌*◌, ◌/◌, ◌%◌, ◌^◌, Bool, true,
  false, ◌&&◌, Option, none, some, List, [], ◌∷◌,
}
use evtx.Foreign.{Foreign}
use evtx.Err.{DeserializationError, failed_to_read_token, remove_me, invalid_date_time_error}
use evtx.Cursor.{Read, pure, crash, starve, ◌>>=◌, ◌>>◌, buffer_len, read_exact, ok_or, read_uint}
use evtx.Macros.{unknown, try_read_u16}

abbrev pub is_surrogate : ℕ → Bool
is_surrogate u = leb 0xd800 u && ltb u 0xe000

abbrev pub is_high : ℕ → Bool
is_high u = leb 0xd800 u && ltb u 0xdc00

abbrev pub is_low : ℕ → Bool
is_low u = leb 0xdc00 u && ltb u 0xe000

abbrev pub cons_some : ℕ → Option Text → Option Text
cons_some c none = none
cons_some c (some s) = some (c ∷ s)

-- `std::char::decode_utf16`, collected: the first unpaired surrogate fails the whole.
pub decode_utf16 : List ℕ → Option Text
decode_utf16 [] = some []
decode_utf16 (u ∷ []) = if is_surrogate u then none else some (u ∷ [])
decode_utf16 (u ∷ v ∷ us) =
    let paired = cons_some (0x10000 + (u - 0xd800) * 0x400 + (v - 0xdc00)) (decode_utf16 us) in
    let single = cons_some u (decode_utf16 (v ∷ us)) in
    if is_surrogate u then (if is_high u && is_low v then paired else none) else single

pub take_until_nul : List ℕ → List ℕ
take_until_nul [] = []
take_until_nul (u ∷ us) = let rest = u ∷ take_until_nul us in if u == 0 then [] else rest

-- `if let Some('\0') = s.chars().last() { s.pop(); }`
pub strip_nul : Text → Text
strip_nul [] = []
strip_nul (c ∷ []) = if c == 0 then [] else c ∷ []
strip_nul (c ∷ d ∷ s) = c ∷ strip_nul (d ∷ s)

abbrev pub unwrap_or_default : Option Text → Text
unwrap_or_default none = []
unwrap_or_default (some s) = s

-- `bytes.retain(|&b| b != 0)`
pub retain_nonzero : List ℕ → List ℕ
retain_nonzero [] = []
retain_nonzero (b ∷ bs) = let rest = retain_nonzero bs in if b == 0 then rest else b ∷ rest

module _ {X : Foreign} (e : DeserializationError X) where
  -- The loop of `read_utf16_string` with a length.
  pub read_units : ℕ → Read X (List ℕ)
  read_units zero = pure []
  read_units (suc n) = do u ← read_uint e 2; us ← read_units n; pure (u ∷ us)

  -- The loop without one: up to the first 0. Each round takes two bytes.
  pub read_units_to_nul : ℕ → Read X (List ℕ)
  read_units_to_nul zero = starve
  read_units_to_nul (suc f) = do
    u ← read_uint e 2
    if u == 0 then pure [] else (do us ← read_units_to_nul f; pure (u ∷ us))

  pub read_utf16_string : Option ℕ → Read X Text
  unfolding read_units read_units_to_nul take_until_nul decode_utf16
  read_utf16_string (some len) = do us ← read_units len; ok_or e (decode_utf16 (take_until_nul us))
  read_utf16_string none = do
    len ← buffer_len
    us ← read_units_to_nul (suc len)
    ok_or e (decode_utf16 (take_until_nul us))

  -- `size` is in bytes.
  unfoldable pub read_utf16_by_size : ℕ → Read X (Option Text)
  unfolding read_utf16_string strip_nul
  read_utf16_by_size size =
      if size == 0
      then pure none
      else do s ← read_utf16_string (some (size / 2)); pure (some (strip_nul s))

  -- The product with 2 is a `u16`.
  unfoldable pub read_len_prefixed_utf16_string : Bool → Read X (Option Text)
  unfolding read_utf16_by_size
  read_len_prefixed_utf16_string is_null_terminated = do
    expected_number_of_characters ← read_uint e 2
    s ← read_utf16_by_size (expected_number_of_characters * 2 % 2 ^ 16)
    _ ← (if is_null_terminated then read_uint e 2 else pure 0)
    pure s

  unfoldable pub read_null_terminated_utf16_string : Read X Text
  unfolding read_utf16_string
  read_null_terminated_utf16_string = read_utf16_string none

module _ {X : Foreign} where
  unfoldable pub read_ansi_encoded_string : ℕ → X.Codec → Read X (Option Text)
  unfolding retain_nonzero
  read_ansi_encoded_string size ansi_codec = if size == 0 then pure none else do
    bytes ← read_exact remove_me size
    s ← ok_or (failed_to_read_token "ansi_string" "") (X.decode ansi_codec (retain_nonzero bytes))
    pure (some s)

  -- `.expect("Always valid")` panics where chrono gives no date.
  pub expect : {A : Type 0} → Option A → Read X A
  expect none = crash
  expect (some a) = pure a

  unfoldable pub read_systemtime : Read X X.DateTime
  unfolding expect try_read_u16
  read_systemtime = do
    year ← try_read_u16 unknown
    month ← try_read_u16 unknown
    day_of_week ← try_read_u16 unknown
    day ← try_read_u16 unknown
    hour ← try_read_u16 unknown
    minute ← try_read_u16 unknown
    second ← try_read_u16 unknown
    milliseconds ← try_read_u16 unknown
    if year == 0
          && month == 0
          && day == 0
          && hour == 0
          && minute == 0
          && second == 0
          && milliseconds == 0
        then (do
          unset ← expect (X.from_ymd_opt 1601 1 1)
          expect (X.and_hms_nano_opt unset 0 0 0 0))
        else do
          date ← ok_or invalid_date_time_error (X.from_ymd_opt year month day)
          ok_or invalid_date_time_error
              (X.and_hms_nano_opt date hour minute second (milliseconds * 1_000_000 % 2 ^ 32))
