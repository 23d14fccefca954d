-- ===== src/Words.antt =====
-- `str.split` with a separator of one character, and `str.strip`, as the X-Ray propagator and the semantic
-- conventions use them. Text is Latin-1, as that of HTTP headers: its white space is below 256.
pub mod Laws
use opentelemetry_python_con.Common.{
  ℕ, Bool, true, false, ◌&&◌, ◌||◌, List, [], ◌∷◌, Text, leb, ◌==◌, if◌then◌else◌,
}

-- `c.isspace()`
unfoldable pub is_space : ℕ → Bool
is_space c = (leb 9 c && leb c 13) || (leb 28 c && leb c 32) || (c == 133) || (c == 160)

-- one more character before the first piece
unfoldable pub extend : ℕ → List Text → List Text
extend c [] = (c ∷ []) ∷ []
extend c (piece ∷ pieces) = (c ∷ piece) ∷ pieces

unfoldable pub split : ℕ → Text → List Text
split sep [] = [] ∷ []
split sep (c ∷ t) = let rest = split sep t in if c == sep then [] ∷ rest else extend c rest

unfoldable pub strip_left : Text → Text
strip_left [] = []
strip_left (c ∷ t) = let rest = strip_left t in if is_space c then rest else c ∷ t

-- `c` before a text that is stripped on the right
unfoldable pub keep_left : ℕ → Text → Text
keep_left c [] = if is_space c then [] else c ∷ []
keep_left c (d ∷ t) = c ∷ d ∷ t

unfoldable pub strip_right : Text → Text
strip_right [] = []
strip_right (c ∷ t) = keep_left c (strip_right t)

unfoldable pub strip : Text → Text
strip t = strip_right (strip_left t)
