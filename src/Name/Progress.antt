-- ===== src/Name/Progress.antt =====
-- The name readers return, also where a name that stands in place is skipped.
use evtx.Prelude.{ℕ, ◌≤◌, true, arith}
use evtx.Foreign.{Foreign}
use evtx.Cursor.Progress.{
  Stays, Advances, Stays-pure, Stays-if, Stays-Advances, Stays-seek, Stays-bind, Stays-position,
  Advances-bind, Advances-read_uint,
}
use evtx.Macros.Progress.{Advances-u16, Advances-u32}
use evtx.Strings.Progress.{Advances-len_prefixed}
use evtx.Name.{read_name_link, read_name, skip_inline_name, read_name_ref}
use evtx.Macros.{unknown}

module _ {X : Foreign} where
  pub Advances-name_link : Advances (read_name_link {X = X})
  unfolding read_name_link
  Advances-name_link = Advances-bind _ _ (Advances-u32 unknown) λ next f low.
      Stays-bind _ _ (Stays-Advances _ (Advances-u16 "name_hash")) λ hash. Stays-pure _

  pub Advances-name : Advances (read_name {X = X})
  unfolding read_name
  Advances-name = Advances-bind _ _ (Advances-len_prefixed _ true) λ name f low. Stays-pure _

  Stays-skip_inline_name :
      {f low : ℕ} (start : ℕ) → low ≤ start → Stays f low (skip_inline_name {X = X} start)
  unfolding skip_inline_name
  Stays-skip_inline_name start h = Stays-bind _ _ (Stays-Advances _ Advances-name_link) λ link.
      Stays-bind _ _ (Stays-Advances _ (Advances-read_uint _ 1)) λ len. Stays-seek _ (omega arith)

  pub Advances-name_ref : Advances (read_name_ref {X = X})
  unfolding read_name_ref
  Advances-name_ref = Advances-bind _ _ (Advances-u32 "name_offset") λ name_offset f low.
      Stays-position _ λ start h.
        Stays-bind _ _ (Stays-if _ _ _ (Stays-skip_inline_name start h) (Stays-pure tt))
          λ z. Stays-pure _
