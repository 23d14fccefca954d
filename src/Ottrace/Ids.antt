-- ===== src/Ottrace/Ids.antt =====
-- The ids in the headers of ot_trace/__init__.py.
pub mod RoundTrip
use opentelemetry_python_con.Common.{
  ℕ, suc, ◌-◌, Bool, true, false, not, ◌&&◌, ◌||◌, Option, none, some, List, [], ◌∷◌, ◌++◌, length,
  drop, Text, text, text_eq, or_default, leb, ◌==◌, if◌then◌else◌,
}
use opentelemetry_python_con.Xray.Hex.{ℤ, pos, negsuc, int16, pad_hex}

-- `hex(n)`; a number has no more digits than its value
unfoldable pub hex : ℤ → Text
hex (pos n) = 48 ∷ 120 ∷ pad_hex 1 n n
hex (negsuc n) = 45 ∷ 48 ∷ 120 ∷ pad_hex 1 (suc n) (suc n)

-- `t[-n:]`, for a positive `n`
unfoldable pub last : ℕ → Text → Text
last n t = drop (length t - n) t

-- `hex(id)[2:][-16:]`
unfoldable pub print_id : ℤ → Text
print_id id = last 16 (drop 2 (hex id))

-- `[0-9a-f]`
unfoldable pub is_lower_hex : ℕ → Bool
is_lower_hex c = (leb 48 c && leb c 57) || (leb 97 c && leb c 102)

unfoldable pub all_lower_hex : Text → Bool
all_lower_hex [] = true
all_lower_hex (c ∷ t) = is_lower_hex c && all_lower_hex t

-- `[0-9a-f]{1,n}`
unfoldable pub valid_extract_id : ℕ → Text → Bool
valid_extract_id n t = leb 1 (length t) && (leb (length t) n && all_lower_hex t)

-- `next(iter(items), None)`, or none if there are no items
unfoldable pub extract_first_element : Option (List Text) → Option Text
extract_first_element none = none
extract_first_element (some []) = none
extract_first_element (some (t ∷ l)) = some t

-- `_extract_identifier`, with the number of digits of the pattern, and `default`
unfoldable pub extract_identifier : Option (List Text) → ℕ → ℤ → ℤ
extract_identifier items n default = elim (extract_first_element items) [
  | none ↦ default
  | some header ↦ if valid_extract_id n header then or_default (int16 header) default else default
]
