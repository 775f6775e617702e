-- ===== src/Foreign.antt =====
-- What the program takes from other packages, as a parameter of the model: winstructs (`Guid`,
-- `Sid`, `WinTimestamp`), chrono, encoding, crc32fast and bitflags. A reader gets the buffer and
-- the cursor's position, and gives the value with the new position, or `none` where it fails.
use evtx.Prelude.{ℕ, Bool, Option, List, Text}

pub record Foreign : Type 1 where
  pub Guid : Type 0
  pub Sid : Type 0
  -- chrono's `DateTime<Utc>` and `NaiveDate`
  pub DateTime : Type 0
  pub NaiveDate : Type 0
  -- encoding's `EncodingRef`
  pub Codec : Type 0
  pub guid_from_reader : List ℕ → ℕ → Option (Guid × ℕ)
  pub sid_from_reader : List ℕ → ℕ → Option (Sid × ℕ)
  -- `WinTimestamp::from_reader` and `to_datetime`
  pub filetime_from_reader : List ℕ → ℕ → Option (DateTime × ℕ)
  -- year, month, day
  pub from_ymd_opt : ℕ → ℕ → ℕ → Option NaiveDate
  -- hour, minute, second, nanosecond, and `Utc.from_utc_datetime`
  pub and_hms_nano_opt : NaiveDate → ℕ → ℕ → ℕ → ℕ → Option DateTime
  pub decode : Codec → List ℕ → Option Text
  -- the CRC32 of crc32fast's `Hasher`
  pub crc32 : List ℕ → ℕ
  -- `from_bits_truncate` of the type with these flags
  pub from_bits_truncate : ℕ → ℕ → ℕ
  pub contains : ℕ → ℕ → Bool
