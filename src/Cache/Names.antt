-- ===== src/Cache/Names.antt =====
-- The string cache holds the names that the chunk has at the cached offsets.
use evtx.Prelude.{
  ltb, ◌==◌, ==_iff, Bool-cases, Option-cases, length, All, ℕ, zero, suc, ◌+◌, ◌%◌, ◌^◌, ◌<◌, ◌≡◌,
  subst, inl, inr, some, List, [], ◌∷◌, arith,
}
use evtx.Cache.{get, insert, StringCache, follow_strings, populate_strings}
use evtx.Macros.{unknown, try_read_u16, try_read_u32}
use evtx.Err.{ok}
use evtx.Foreign.{Foreign}
use evtx.Name.{BinXmlName, BinXmlNameLink, name_link_size, read_name_link, read_name}
use evtx.Cursor.{starve, ◌>>=◌, position, seek}
use evtx.Err.Bind.{bind-ok}
use evtx.Cursor.Progress.{read_uint-ok}

module _ (X : Foreign) (buf : List ℕ) where
  -- The name is what a reader finds behind the link at the offset.
  abbrev pub NameAt : ℕ × BinXmlName → Type 0
  NameAt (offset, name) =
      (end' : ℕ) × (read_name {X = X} buf (offset + name_link_size) ≡ ok (name, end'))

  abbrev pub NamesAt : StringCache → Type 0
  NamesAt cache = All NameAt cache

  pub get-NameAt :
      (cache : StringCache) (offset : ℕ) {name : BinXmlName}
      → NamesAt cache
      → get cache offset ≡ some name
      → NameAt (offset, name)
  unfolding get
  get-NameAt [] offset h e = absurd cc
  get-NameAt ((o, v) ∷ cache) offset {name = name} (hv, h) e = elim (Bool-cases (o == offset)) [
    | inl c ↦
        let same : v ≡ name = cc (rw c at e) in
        subst (λ o'. NameAt (o', name)) ((==_iff _ _).0 c) (subst (λ n. NameAt (o, n)) same hv)
    | inr c ↦ get-NameAt cache offset h (rw c at e)
  ]

  read_name_link-ok :
      (p : ℕ) {link : BinXmlNameLink} {q : ℕ}
      → read_name_link {X = X} buf p ≡ ok (link, q)
      → (q ≡ p + name_link_size) × (p < length buf)
  unfolding read_name_link ◌>>=◌ try_read_u32 try_read_u16
  read_name_link-ok p {q = q} h =
      let ((next_string, a), e1, h1) = bind-ok (try_read_u32 {X = X} unknown buf p) _ h in
      let ((hash, b), e2, h2) = bind-ok (try_read_u16 {X = X} "name_hash" buf a) _ h1 in
      let (room1, moved1) = read_uint-ok _ 4 buf p e1 in
      let (room2, moved2) = read_uint-ok _ 2 buf a e2 in
      let same : b ≡ q = cc in (omega arith, omega arith)

  insert-NamesAt :
      (cache : StringCache) (p : ℕ) {link : BinXmlNameLink} {name : BinXmlName} {q q' : ℕ}
      → length buf < 2 ^ 32
      → read_name_link {X = X} buf p ≡ ok (link, q)
      → read_name {X = X} buf q ≡ ok (name, q')
      → NamesAt cache
      → NamesAt (insert cache (p % 2 ^ 32) name)
  unfolding insert
  insert-NamesAt cache p {name = name} {q = q} {q' = q'} small e1 e2 h =
      let (moved, inside) = read_name_link-ok p e1 in
      let at : q ≡ p % 2 ^ 32 + name_link_size = omega arith in
      ((q', subst (λ x. read_name {X = X} buf x ≡ ok (name, q')) at e2), h)

  follow-NamesAt :
      (f : ℕ) (cache : StringCache) (p : ℕ) {cache' : StringCache} {p' : ℕ}
      → length buf < 2 ^ 32
      → NamesAt cache
      → follow_strings {X = X} f cache buf p ≡ ok (cache', p')
      → NamesAt cache'
  unfolding follow_strings ◌>>=◌ position seek starve
  follow-NamesAt zero cache p small h e = absurd cc
  follow-NamesAt (suc f) cache p {cache' = cache'} small h e =
      let ((link, q), e1, h1) = bind-ok (read_name_link {X = X} buf p) _ e in
      let ((name, q'), e2, h2) = bind-ok (read_name {X = X} buf q) _ h1 in
      let h' = insert-NamesAt cache p small e1 e2 h in
      elim (Option-cases link.next_string) [
        | inl c ↦
            let same : insert cache (p % 2 ^ 32) name ≡ cache' = cc (rw c at h2) in
            subst NamesAt same h'
        | inr (offset, c) ↦ follow-NamesAt f _ offset small h' (rw c at h2)
      ]

  pub populate-NamesAt :
      (fuel : ℕ) (offsets : List ℕ) (cache : StringCache) (p : ℕ) {cache' : StringCache} {p' : ℕ}
      → length buf < 2 ^ 32
      → NamesAt cache
      → populate_strings {X = X} fuel offsets cache buf p ≡ ok (cache', p')
      → NamesAt cache'
  unfolding populate_strings ◌>>=◌ seek
  populate-NamesAt fuel [] cache p small h e = subst NamesAt (cc e) h
  populate-NamesAt fuel (offset ∷ offsets) cache p {cache' = cache'} small h e =
      elim (Bool-cases (ltb 0 offset)) [
        | inl c ↦
            let ((filled, q), e1, e2) =
              bind-ok (follow_strings {X = X} fuel cache buf offset)
                (λ (filled, q). populate_strings {X = X} fuel offsets filled buf q) (rw c at e) in
            populate-NamesAt fuel offsets filled q small
              (follow-NamesAt fuel cache offset small h e1) e2
        | inr c ↦ populate-NamesAt fuel offsets cache p small h (rw c at e)
      ]
