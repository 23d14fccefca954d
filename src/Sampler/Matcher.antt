-- ===== src/Sampler/Matcher.antt =====
-- `_Matcher` of trace/sampler/_matcher.py. A regular expression that `to_regex_pattern` writes is a
-- list of its parts, and `fullmatch` is what Python's `re` does on those: `.` matches any
-- character but a newline.
pub mod Wildcards
pub mod Loop
pub mod Regex
pub mod Attributes
use opentelemetry_python_con.Common.{
  Dict, get, ℕ, zero, suc, ◌+◌, ◌-◌, Bool, true, false, not, ◌&&◌, ◌||◌, Option, none, some, List,
  [], ◌∷◌, ◌++◌, Text, text, text_eq, take, drop, length, ltb, or_default, ◌==◌, if◌then◌else◌,
}

-- The value of an attribute: a `str`, or a value of another type.
pub data AttributeValue : Type 0 where
  str : Text → AttributeValue
  other : ℕ → AttributeValue

abbrev pub star : ℕ
star = b'*'

abbrev pub question : ℕ
question = b'?'

abbrev pub newline : ℕ
newline = 10

-- `re.escape(s)`, `.*` and `.`
pub data Part : Type 0 where
  escaped : Text → Part
  dot_star : Part
  dot : Part

unfoldable pub is_wildcard : ℕ → Bool
is_wildcard c = (c == star) || (c == question)

-- `rule_pattern[token_start:index]`, as a part, if a token has begun
unfoldable pub flush : Text → Option ℕ → ℕ → List Part
flush pattern none index = []
flush pattern (some token_start) index =
    escaped (take (index - token_start) (drop token_start pattern)) ∷ []

unfoldable pub wildcard_part : ℕ → Part
wildcard_part char = if char == star then dot_star else dot

-- The loop of `to_regex_pattern` from `index` on, where the last argument is the text that is left.
unfoldable pub regex_loop : Text → Option ℕ → List Part → ℕ → Text → List Part
regex_loop pattern token_start regex index [] = regex ++ flush pattern token_start index
regex_loop pattern token_start regex index (char ∷ rest) =
    regex_loop pattern (if is_wildcard char then none else some (or_default token_start index))
      (if is_wildcard char
        then regex ++ (flush pattern token_start index ++ wildcard_part char ∷ [])
        else regex)
      (suc index) rest

unfoldable pub to_regex_pattern : Text → List Part
to_regex_pattern pattern = regex_loop pattern none [] 0 pattern

-- the text after a literal, if the text begins with it
unfoldable pub strip_literal : Text → Text → Option Text
strip_literal [] t = some t
strip_literal (c ∷ lit) [] = none
strip_literal (c ∷ lit) (d ∷ t) = if c == d then strip_literal lit t else none

-- `rest` at `t`, or after any number of characters that `.` matches
unfoldable pub any_suffix : (Text → Bool) → Text → Bool
any_suffix rest [] = rest []
any_suffix rest (c ∷ t) = rest (c ∷ t) || (not (c == newline) && any_suffix rest t)

-- `re.fullmatch(pattern, t) is not None`
unfoldable pub fullmatch : List Part → Text → Bool
fullmatch [] [] = true
fullmatch [] (c ∷ t) = false
fullmatch (escaped lit ∷ ps) t = elim (strip_literal lit t) [
  | none ↦ false
  | some t' ↦ fullmatch ps t'
]
fullmatch (dot_star ∷ ps) t = any_suffix (fullmatch ps) t
fullmatch (dot ∷ ps) [] = false
fullmatch (dot ∷ ps) (c ∷ t) = not (c == newline) && fullmatch ps t

unfoldable pub has_wildcard : Text → Bool
has_wildcard [] = false
has_wildcard (char ∷ rest) = is_wildcard char || has_wildcard rest

unfoldable pub match_text : Text → Text → Bool
match_text t [] = elim t [ [] ↦ true | c ∷ rest ↦ false ]
match_text t (c ∷ rest) =
    if has_wildcard (c ∷ rest)
    then fullmatch (to_regex_pattern (c ∷ rest)) t
    else text_eq (c ∷ rest) t

-- `wild_card_match(text, pattern)`; every caller gives a pattern that is a `str`.
unfoldable pub wild_card_match : Option AttributeValue → Text → Bool
wild_card_match value pattern = if text_eq pattern (text "*") then true else elim value [
  | none ↦ false
  | some v ↦ elim v [ str t ↦ match_text t pattern | other n ↦ false ]
]

-- `matched_count` after the loop
unfoldable pub matched_count : Dict AttributeValue → Dict Text → ℕ
matched_count [] rule_attributes = 0
matched_count ((key, val) ∷ attributes) rule_attributes =
    let rest = matched_count attributes rule_attributes in
    elim (get rule_attributes key) [
      | none ↦ rest
      | some pattern ↦ if wild_card_match (some val) pattern then suc rest else rest
    ]

-- `attribute_match`; `none` is an `attributes` that is `None`
unfoldable pub attribute_match : Option (Dict AttributeValue) → Dict Text → Bool
attribute_match attributes rule_attributes =
    if length rule_attributes == 0 then true else elim attributes [
      | none ↦ false
      | some d ↦
          if (length d == 0) || ltb (length d) (length rule_attributes)
          then false
          else matched_count d rule_attributes == length rule_attributes
    ]
