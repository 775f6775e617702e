-- ===== src/Display.antt =====
-- How values are written as text: Rust's `ToString` of numbers and Booleans, the `{:02X}` of a byte,
-- `join`, and, as a parameter, the formatting that winstructs, chrono and the floats have.
pub mod Decimal
use evtx.Prelude.{
  ltb, if◌then◌else◌, Text, codes, ℕ, zero, suc, ◌+◌, ◌/◌, ◌%◌, Bool, true, false, List, [], ◌∷◌,
  ◌++◌,
}
use evtx.Prelude.Int.{ℤ}
use evtx.Foreign.{Foreign}

pub record Display (X : Foreign) : Type 0 where
  pub guid_to_string : X.Guid → Text
  pub sid_to_string : X.Sid → Text
  -- `format(DATETIME_FORMAT).to_string()`
  pub format_date_time : X.DateTime → Text
  pub date_time_to_string : X.DateTime → Text
  -- floats by their bit patterns
  pub f32_to_string : ℕ → Text
  pub f64_to_string : ℕ → Text

-- The decimal digits of a number before `acc`, for a number below 10^fuel: `n + 1` is fuel enough
-- for `n`.
unfoldable pub digits : ℕ → ℕ → Text → Text
digits zero n acc = acc
digits (suc f) n acc =
    let acc' = (48 + n % 10) ∷ acc in
    let more = digits f (n / 10) acc' in if ltb n 10 then acc' else more

unfoldable pub nat_to_string : ℕ → Text
unfolding digits
nat_to_string n = digits (suc n) n []

unfoldable pub int_to_string : ℤ → Text
unfolding nat_to_string
int_to_string (ℤ.pos n) = nat_to_string n
int_to_string (ℤ.negsuc n) = codes "-" ++ nat_to_string (suc n)

abbrev pub bool_to_string : Bool → Text
bool_to_string true = codes "true"
bool_to_string false = codes "false"

-- A hexadecimal digit, in upper case.
abbrev pub upper_digit : ℕ → ℕ
upper_digit d = if ltb d 10 then 48 + d else 55 + d

-- `{:02X}` of each byte
unfoldable pub hex_bytes : List ℕ → Text
hex_bytes [] = []
hex_bytes (b ∷ bs) = upper_digit (b / 16) ∷ upper_digit (b % 16) ∷ hex_bytes bs

-- `join(",")`
unfoldable pub join : List Text → Text
join [] = []
join (t ∷ []) = t
join (t ∷ u ∷ us) = t ++ (44 ∷ join (u ∷ us))
