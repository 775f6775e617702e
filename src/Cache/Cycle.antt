-- ===== src/Cache/Cycle.antt =====
-- A name that links to itself.
use evtx.Prelude.{ℕ, zero, suc, ◌≡◌, refl, some, List}
use evtx.Cache.{StringCache, follow_strings}
use evtx.Err.{ok, out_of_fuel}
use evtx.Cursor.{starve, ◌>>=◌, position, seek}
use evtx.Foreign.{Foreign}
use evtx.Name.{read_name, read_name_link, BinXmlName, BinXmlNameLink}

-- Where a name in the chunk links to itself, filling the string cache never comes to an end: no
-- number of links that may be followed is enough.
pub follow_strings-cycle :
    {X : Foreign} (buf : List ℕ) (p : ℕ) (link : BinXmlNameLink) (name : BinXmlName) {q q' : ℕ}
    → read_name_link {X = X} buf p ≡ ok (link, q)
    → read_name {X = X} buf q ≡ ok (name, q')
    → link.next_string ≡ some p
    → (f : ℕ) (cache : StringCache) → follow_strings {X = X} f cache buf p ≡ out_of_fuel
unfolding follow_strings ◌>>=◌ position seek starve
follow_strings-cycle buf p link name e1 e2 next zero cache = refl
follow_strings-cycle buf p link name e1 e2 next (suc f) cache =
    rw (e1, e2, next) (follow_strings-cycle buf p link name e1 e2 next f _)
