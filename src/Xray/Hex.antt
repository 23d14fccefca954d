-- ===== src/Xray/Hex.antt =====
-- `int(text, 16)` and the format `{n:0wx}` of Python, on Latin-1 text, where only the ASCII digits are
-- decimal digits.
pub mod Digits
pub mod Bounds
use opentelemetry_python_con.Common.{
  ℕ, zero, suc, ◌+◌, ◌-◌, ◌*◌, ◌/◌, ◌%◌, Bool, true, false, not, ◌&&◌, ◌||◌, Option, none, some,
  List, [], ◌∷◌, ◌++◌, Text, ltb, leb, ◌==◌, if◌then◌else◌,
}
use mathlib.Core.Option

-- Python's `int`
pub data ℤ : Type 0 where
  pos : ℕ → ℤ
  negsuc : ℕ → ℤ

unfoldable pub negate : ℕ → ℤ
negate zero = pos 0
negate (suc n) = negsuc n

unfoldable pub hex_value : ℕ → Option ℕ
hex_value c =
    if leb 48 c && leb c 57
    then some (c - 48)
    else if leb 97 c && leb c 102
    then some (c - 87)
    else if leb 65 c && leb c 70
    then some (c - 55)
    else none

-- the white space that `int` skips
unfoldable pub is_int_space : ℕ → Bool
is_int_space c = (leb 9 c && leb c 13) || (c == 32) || (c == 133) || (c == 160)

unfoldable pub all_int_space : Text → Bool
all_int_space [] = true
all_int_space (c ∷ t) = is_int_space c && all_int_space t

abbrev underscore : ℕ
underscore = 95

-- The digits after the first, with single underscores between digits, and white space at the end;
-- `after_underscore` says if the last character was an underscore.
unfoldable pub more_digits : ℕ → Bool → Text → Option ℕ
more_digits acc after_underscore [] = if after_underscore then none else some acc
more_digits acc after_underscore (c ∷ t) =
    let separated = more_digits acc true t in
    elim (hex_value c) [
      | some d ↦ more_digits (16 * acc + d) false t
      | none ↦
          if c == underscore
          then (if after_underscore then none else separated)
          else if not after_underscore && all_int_space (c ∷ t)
          then some acc
          else none
    ]

unfoldable pub digits : Text → Option ℕ
digits [] = none
digits (c ∷ t) = elim (hex_value c) [ none ↦ none | some d ↦ more_digits d false t ]

-- after `0x`, where one underscore is allowed
unfoldable pub after_prefix : Text → Option ℕ
after_prefix [] = none
after_prefix (c ∷ t) = if c == underscore then digits t else digits (c ∷ t)

-- `0x` or `0X` may come before the digits.
unfoldable pub unsigned : Text → Option ℕ
unsigned [] = none
unsigned (c ∷ []) = digits (c ∷ [])
unsigned (c ∷ x ∷ t) =
    if (c == 48) && ((x == 120) || (x == 88)) then after_prefix t else digits (c ∷ x ∷ t)

unfoldable pub signed : Text → Option ℤ
signed [] = none
signed (c ∷ t) =
    if c == 43
    then Option.map pos (unsigned t)
    else if c == 45
    then Option.map negate (unsigned t)
    else Option.map pos (unsigned (c ∷ t))

unfoldable pub skip_int_space : Text → Text
skip_int_space [] = []
skip_int_space (c ∷ t) = let rest = skip_int_space t in if is_int_space c then rest else c ∷ t

-- `int(t, 16)`; `none` is a `ValueError`
unfoldable pub int16 : Text → Option ℤ
int16 t = signed (skip_int_space t)

unfoldable pub digit : ℕ → ℕ
digit d = if ltb d 10 then 48 + d else 87 + d

-- The digits of `n`, at least `w` of them; `fuel` bounds the digits beyond `w`.
unfoldable pub pad_hex : ℕ → ℕ → ℕ → Text
pad_hex zero zero n = []
pad_hex zero (suc fuel) n = elim (n == 0) [
  | true ↦ []
  | false ↦ pad_hex zero fuel (n / 16) ++ digit (n % 16) ∷ []
]
pad_hex (suc w) fuel n = pad_hex w fuel (n / 16) ++ digit (n % 16) ∷ []

-- `f"{n:0wx}"`; a number has no more digits than its value
unfoldable pub format_hex : ℕ → ℤ → Text
format_hex w (pos n) = pad_hex w n n
format_hex w (negsuc n) = 45 ∷ pad_hex (w - 1) (suc n) (suc n)
