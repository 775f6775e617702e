-- ===== src/Name.antt =====
-- src/binxml/name.rs: names and the references to them. A name in a chunk is a link (the offset of
-- the next name of its bucket, or 0, and a hash), its length, its UTF-16 text and a terminator.
pub mod Progress
use evtx.Prelude.{ltb, ◌==◌, if◌then◌else◌, Text, ℕ, ◌+◌, ◌*◌, ◌%◌, ◌^◌, true, Option, none, some}
use evtx.Foreign.{Foreign}
use evtx.Err.{failed_to_read_token, remove_me}
use evtx.Cursor.{Read, pure, ◌>>=◌, ◌>>◌, position, seek, read_uint}
use evtx.Macros.{unknown, try_read_u16, try_read_u32}
use evtx.Strings.{unwrap_or_default, read_len_prefixed_utf16_string}
use evtx.Model.{BinXmlNameRef}

-- `BinXmlName` is its text.
abbrev pub BinXmlName : Type 0
BinXmlName = Text

pub record BinXmlNameLink : Type 0 where
  pub next_string : Option ℕ
  pub hash : ℕ

-- `BinXmlNameLink::data_size()`
abbrev pub name_link_size : ℕ
name_link_size = 6

module _ {X : Foreign} where
  -- `BinXmlNameLink::from_stream`
  unfoldable pub read_name_link : Read X BinXmlNameLink
  unfolding try_read_u16 try_read_u32
  read_name_link = do
    next_string ← try_read_u32 unknown
    name_hash ← try_read_u16 "name_hash"
    pure record {
      next_string = if ltb 0 next_string then some next_string else none;
      hash = name_hash;
    }

  -- `BinXmlName::from_stream`
  unfoldable pub read_name : Read X BinXmlName
  unfolding read_len_prefixed_utf16_string
  read_name = do
    name ←
        read_len_prefixed_utf16_string
          (failed_to_read_token "len_prefixed_utf_16_str_nul_terminated" "name") true
    pure (unwrap_or_default name)

  -- Skips a name that stands in place: `u32::from(len * 2)` is a product of `u16`s.
  unfoldable pub skip_inline_name : ℕ → Read X Unit
  unfolding read_name_link
  skip_inline_name position_before_string = do
    _ ← read_name_link
    len ← read_uint remove_me 2
    seek (position_before_string + (name_link_size + len * 2 % 2 ^ 16 + 4))

  -- `BinXmlNameRef::from_stream`
  unfoldable pub read_name_ref : Read X BinXmlNameRef
  unfolding try_read_u32 skip_inline_name
  read_name_ref = do
    name_offset ← try_read_u32 "name_offset"
    position_before_string ← position
    _ ←
        (if position_before_string == name_offset
          then skip_inline_name position_before_string
          else pure tt)
    pure record { offset = name_offset }
