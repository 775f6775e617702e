-- ===== src/Cursor.antt =====
-- src/macros.rs over `std::io::Cursor<&[u8]>`.
pub mod Progress
pub mod Reads
use evtx.Prelude.{
  leb, if◌then◌else◌, length, take, drop, ℕ, ◌+◌, ◌-◌, ◌*◌, Option, none, some, List, [], ◌∷◌,
}
use evtx.Foreign.{Foreign}
use evtx.Err.{Outcome, ok, err, panic, out_of_fuel, DeserializationError, bind}

-- A reader over a cursor. The bytes never change; a success gives the new position. After an
-- error no caller reads on, so the position is dropped.
abbrev pub Read : Foreign → Type 0 → Type 0
Read X A = List ℕ → ℕ → Outcome (DeserializationError X) (A × ℕ)

module _ {X : Foreign} {A : Type 0} where
  unfoldable pub pure : A → Read X A
  pure a buf pos = ok (a, pos)

  unfoldable pub raise : DeserializationError X → Read X A
  raise e buf pos = err e

  unfoldable pub crash : Read X A
  crash buf pos = panic

  unfoldable pub starve : Read X A
  starve buf pos = out_of_fuel

module _ {X : Foreign} {A B : Type 0} where
  infixl 5 ◌>>=◌ ◌>>◌
  unfoldable pub ◌>>=◌ : Read X A → (A → Read X B) → Read X B
  unfolding pure raise crash starve
  ◌>>=◌ m f buf pos = bind (m buf pos) λ (a, pos'). f a buf pos'

  abbrev pub ◌>>◌ : Read X A → Read X B → Read X B
  m >> k = m >>= λ _. k

module _ {X : Foreign} where
  unfoldable pub position : Read X ℕ
  position buf pos = ok (pos, pos)

  -- The length of the slice under the cursor.
  unfoldable pub buffer_len : Read X ℕ
  buffer_len buf pos = ok (length buf, pos)

  -- `seek(SeekFrom::Start(n))` on an in-memory cursor succeeds, also past the end.
  unfoldable pub seek : ℕ → Read X Unit
  seek n buf pos = ok (tt, n)

  -- `read_exact` of `n` bytes; `e` is the error that the caller makes of a short read.
  unfoldable pub read_exact : DeserializationError X → ℕ → Read X (List ℕ)
  read_exact e n buf pos =
      if leb n (length buf - pos) then ok (take n (drop pos buf), pos + n) else err e

-- `Option` and `Outcome` results of code that does not read.
module _ {X : Foreign} {A : Type 0} where
  unfoldable pub ok_or : DeserializationError X → Option A → Read X A
  ok_or e none = raise e
  ok_or e (some a) = pure a

  -- A reader of another package; a failure becomes the error `e`.
  unfoldable pub read_foreign : DeserializationError X → (List ℕ → ℕ → Option (A × ℕ)) → Read X A
  read_foreign e m buf pos = elim (m buf pos) [ none ↦ err e | some (a, pos') ↦ ok (a, pos') ]

-- byteorder's little-endian numbers: `read_exact` and `from_le_bytes`.
unfoldable pub from_le : List ℕ → ℕ
from_le [] = 0
from_le (b ∷ bs) = b + 256 * from_le bs

module _ {X : Foreign} where
  unfoldable pub read_uint : DeserializationError X → ℕ → Read X ℕ
  unfolding ◌>>=◌ read_exact from_le
  read_uint e w = do bs ← read_exact e w; pure (from_le bs)
