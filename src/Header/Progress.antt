-- ===== src/Header/Progress.antt =====
-- The header readers return.
use evtx.Prelude.{ℕ, zero, suc, ◌+◌, String, List, [], ◌∷◌, arith}
use evtx.Foreign.{Foreign}
use evtx.Err.{
  DeserializationError, invalid_evtx_record_header_magic, invalid_evtx_chunk_magic,
  invalid_evtx_file_header_magic,
}
use evtx.Cursor.Progress.{
  Stays, Stays-pure, Stays-raise, Stays-if, Stays-Advances, Stays-seek, Stays-read_exact,
  Stays-bind, Stays-position, Advances-read_uint,
}
use evtx.Macros.Progress.{
  ForeignAdvances, Advances-u16, Advances-u32, Advances-u64, Advances-filetime,
}
use evtx.Header.{skip, read_u32_into, expect_magic, from_stream, chunk_header, record_header}
use evtx.Macros.{try_read_u16, try_read_u32, try_read_u64}

module _ {X : Foreign} {f low : ℕ} where
  Stays-skip : (n : ℕ) → Stays f low (skip {X = X} n)
  unfolding skip
  Stays-skip n = Stays-position _ λ p h. Stays-seek (p + n) (omega arith)

  Stays-u32s : (n : ℕ) → Stays f low (read_u32_into {X = X} n)
  unfolding read_u32_into
  Stays-u32s zero = Stays-pure []
  Stays-u32s (suc n) =
      Stays-bind _ _ (Stays-Advances _ (Advances-read_uint _ 3))
        λ v. Stays-bind _ _ (Stays-u32s n) λ vs. Stays-pure (v ∷ vs)

  Stays-magic :
      (invalid : List ℕ → DeserializationError X) (expected magic : List ℕ)
      → Stays f low (expect_magic invalid expected magic)
  unfolding expect_magic
  Stays-magic invalid expected magic = Stays-if _ _ _ (Stays-pure tt) (Stays-raise _)

  Stays-u16 : (name : String) → Stays f low (try_read_u16 {X = X} name)
  Stays-u16 name = Stays-Advances _ (Advances-u16 name)

  Stays-u32 : (name : String) → Stays f low (try_read_u32 {X = X} name)
  Stays-u32 name = Stays-Advances _ (Advances-u32 name)

  Stays-u64 : (name : String) → Stays f low (try_read_u64 {X = X} name)
  Stays-u64 name = Stays-Advances _ (Advances-u64 name)

  pub Stays-chunk_header : Stays f low (chunk_header {X = X})
  unfolding chunk_header
  Stays-chunk_header = Stays-bind _ _ (Stays-read_exact _ 8) λ magic.
      Stays-bind _ _ (Stays-magic invalid_evtx_chunk_magic _ magic) λ z.
        Stays-bind _ _ (Stays-u64 _) λ a. Stays-bind _ _ (Stays-u64 _) λ b.
          Stays-bind _ _ (Stays-u64 _) λ c. Stays-bind _ _ (Stays-u64 _) λ d.
            Stays-bind _ _ (Stays-u32 _) λ e. Stays-bind _ _ (Stays-u32 _) λ g.
              Stays-bind _ _ (Stays-u32 _) λ h. Stays-bind _ _ (Stays-u32 _) λ i.
                Stays-bind _ _ (Stays-skip 64) λ j. Stays-bind _ _ (Stays-u32 _) λ k.
                  Stays-bind _ _ (Stays-u32 _) λ l.
                    Stays-bind _ _ (Stays-u32s 64)
                      λ m. Stays-bind _ _ (Stays-u32s 32) λ n. Stays-pure _

  pub Stays-file_header : Stays f low (from_stream {X = X})
  unfolding from_stream
  Stays-file_header = Stays-bind _ _ (Stays-read_exact _ 8) λ magic.
      Stays-bind _ _ (Stays-magic invalid_evtx_file_header_magic _ magic) λ z.
        Stays-bind _ _ (Stays-u64 _) λ a. Stays-bind _ _ (Stays-u64 _) λ b.
          Stays-bind _ _ (Stays-u64 _) λ c. Stays-bind _ _ (Stays-u32 _) λ d.
            Stays-bind _ _ (Stays-u16 _) λ e. Stays-bind _ _ (Stays-u16 _) λ g.
              Stays-bind _ _ (Stays-u16 _) λ h. Stays-bind _ _ (Stays-u16 _) λ i.
                Stays-bind _ _ (Stays-skip 76) λ j. Stays-bind _ _ (Stays-u32 _) λ k.
                  Stays-bind _ _ (Stays-u32 _) λ l. Stays-bind _ _ (Stays-skip _) λ m. Stays-pure _

  pub Stays-record_header : ForeignAdvances X → Stays f low (record_header {X = X})
  unfolding record_header
  Stays-record_header forward = Stays-bind _ _ (Stays-read_exact _ 4) λ magic.
      Stays-bind _ _ (Stays-magic invalid_evtx_record_header_magic _ magic) λ z.
        Stays-bind _ _ (Stays-u32 _) λ a.
          Stays-bind _ _ (Stays-u64 _)
            λ b. Stays-bind _ _ (Stays-Advances _ (Advances-filetime forward)) λ c. Stays-pure _
