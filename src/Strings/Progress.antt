-- ===== src/Strings/Progress.antt =====
-- The string readers of src/utils/binxml_utils.rs and `read_systemtime` return.
use evtx.Prelude.{
  ◌==◌, length, ℕ, zero, suc, ◌+◌, ◌/◌, ◌≤◌, ◌<◌, Bool, Option, none, some, List, [], ◌∷◌, arith,
}
use evtx.Foreign.{Foreign}
use evtx.Err.{DeserializationError}
use evtx.Cursor.{◌>>=◌, buffer_len, read_uint}
use evtx.Cursor.Progress.{
  Safe, reached, Stays, Advances, Safe-if, Safe-bind, Safe-bind_eq, Stays-pure, Stays-crash,
  Stays-ok_or, Stays-if, Stays-Advances, Stays-read_exact, Stays-bind, Advances-bind,
  Advances-read_uint, read_uint-ok,
}
use evtx.Strings.{
  read_units, read_units_to_nul, read_utf16_string, read_utf16_by_size,
  read_len_prefixed_utf16_string, read_null_terminated_utf16_string, read_ansi_encoded_string,
  expect, read_systemtime,
}
use evtx.Macros.Progress.{Advances-u16}
use evtx.Macros.{unknown, try_read_u16}

module _ {X : Foreign} {f low : ℕ} (e : DeserializationError X) where
  Stays-read_units : (n : ℕ) → Stays f low (read_units e n)
  unfolding read_units
  Stays-read_units zero = Stays-pure []
  Stays-read_units (suc n) =
      Stays-bind _ _ (Stays-Advances _ (Advances-read_uint e 1))
        λ u. Stays-bind _ _ (Stays-read_units n) λ us. Stays-pure (u ∷ us)

  pub Stays-utf16_by_size : (size : ℕ) → Stays f low (read_utf16_by_size e size)
  unfolding read_utf16_by_size
  Stays-utf16_by_size size = Stays-if (size == 0) _ _ (Stays-pure none) (
      Stays-bind _ _ (Stays-bind _ _ (Stays-read_units (size / 2)) λ us. Stays-ok_or e _)
        λ s. Stays-pure _)

module _ {X : Foreign} (e : DeserializationError X) where
  pub Advances-len_prefixed : (nul : Bool) → Advances (read_len_prefixed_utf16_string e nul)
  unfolding read_len_prefixed_utf16_string
  Advances-len_prefixed nul = Advances-bind _ _ (Advances-read_uint e 1) λ n f low.
      Stays-bind _ _ (Stays-utf16_by_size e _) λ s.
        Stays-bind _ _ (Stays-if nul _ _ (Stays-Advances _ (Advances-read_uint e 1)) (Stays-pure 0))
          λ z. Stays-pure s

  -- Each round of the loop to the first 0 takes two bytes, so the buffer's length is enough fuel.
  Safe-to_nul :
      (n : ℕ) (buf : List ℕ) (p : ℕ)
      → length buf < n + p
      → 1 ≤ n
      → Safe (suc p) (read_units_to_nul e n buf p)
  unfolding read_units_to_nul ◌>>=◌
  Safe-to_nul zero buf p h k = absurd (omega arith)
  Safe-to_nul (suc n) buf p h k =
      Safe-bind_eq (read_uint e 2 buf p) _ ((Advances-read_uint e 1).run buf p) λ u p' eq k'.
        let inside = read_uint-ok e 2 buf p eq in
        Safe-if (u == 0) _ _ buf p' (λ c. reached (omega arith))
          λ c.
            Safe-bind _ (Safe-to_nul n buf p' (omega arith) (omega arith))
              λ us p'' k''. reached (omega arith)

  pub Advances-null_terminated : Advances (read_null_terminated_utf16_string e)
  unfolding read_null_terminated_utf16_string read_utf16_string ◌>>=◌ buffer_len
  Advances-null_terminated = record {
    run = λ buf p.
        Safe-bind _ (Safe-to_nul (suc (length buf)) buf p (omega arith) (omega arith))
          λ us p' k. (Stays-ok_or {f = suc (length buf)} e _).run buf p' (omega arith) k;
  }

module _ {X : Foreign} where
  Stays-expect : {A : Type 0} {f low : ℕ} (o : Option A) → Stays f low (expect {X = X} o)
  unfolding expect
  Stays-expect none = Stays-crash
  Stays-expect (some a) = Stays-pure a

  pub Stays-ansi :
      {f low : ℕ} (size : ℕ) (c : X.Codec) → Stays f low (read_ansi_encoded_string {X = X} size c)
  unfolding read_ansi_encoded_string
  Stays-ansi size c = Stays-if (size == 0) _ _ (Stays-pure none) (
      Stays-bind _ _ (Stays-read_exact _ size)
        λ bytes. Stays-bind _ _ (Stays-ok_or _ _) λ s. Stays-pure _)

  Stays-u16 : {f low : ℕ} → Stays f low (try_read_u16 {X = X} unknown)
  Stays-u16 = Stays-Advances _ (Advances-u16 unknown)

  pub Advances-systemtime : Advances (read_systemtime {X = X})
  unfolding read_systemtime
  Advances-systemtime = Advances-bind _ _ (Advances-u16 unknown) λ year f low.
      Stays-bind _ _ Stays-u16 λ month. Stays-bind _ _ Stays-u16 λ day_of_week.
        Stays-bind _ _ Stays-u16 λ day. Stays-bind _ _ Stays-u16 λ hour.
          Stays-bind _ _ Stays-u16 λ minute. Stays-bind _ _ Stays-u16 λ second.
            Stays-bind _ _ Stays-u16 λ milliseconds.
              Stays-if _ _ _ (Stays-bind _ _ (Stays-expect _) λ unset. Stays-expect _)
                (Stays-bind _ _ (Stays-ok_or _ _) λ date. Stays-ok_or _ _)
