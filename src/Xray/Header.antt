-- ===== src/Xray/Header.antt =====
-- `_extract_span_properties` of aws_xray_propagator.py, with its validators and parsers. A result of
-- `none` is an `AwsParseTraceHeaderError`.
pub mod Bounds
use mathlib.Core.Option
use opentelemetry_python_con.Common.{
  ℕ, Bool, true, false, ◌&&◌, ◌||◌, Option, none, some, List, [], ◌∷◌, ◌++◌, length, take, drop,
  get_elem?, Text, text, text_eq, ◌==◌, if◌then◌else◌,
}
use opentelemetry_python_con.Words.{split, strip}
use opentelemetry_python_con.Xray.Hex.{ℤ, pos, int16}

abbrev pub kv_pair_delimiter : ℕ
kv_pair_delimiter = 59

abbrev pub key_and_value_delimiter : ℕ
key_and_value_delimiter = 61

abbrev pub trace_id_key : Text
trace_id_key = text "Root"

abbrev pub parent_id_key : Text
parent_id_key = text "Parent"

abbrev pub sampled_flag_key : Text
sampled_flag_key = text "Sampled"

abbrev pub trace_id_delimiter : ℕ
trace_id_delimiter = 45

abbrev pub is_sampled : Text
is_sampled = text "1"

abbrev pub not_sampled : Text
not_sampled = text "0"

-- `t[i] == c`
unfoldable pub has_char : Text → ℕ → ℕ → Bool
has_char t i c = elim (get_elem? t i) [ none ↦ false | some d ↦ d == c ]

unfoldable pub validate_trace_id : Text → Bool
validate_trace_id v =
    (length v == 35)
    && (has_char v 0 49 && (has_char v 1 trace_id_delimiter && has_char v 10 trace_id_delimiter))

unfoldable pub parse_trace_id : Text → Option ℤ
parse_trace_id v = int16 (take 8 (drop 2 v) ++ take 24 (drop 11 v))

unfoldable pub validate_span_id : Text → Bool
validate_span_id v = length v == 16

unfoldable pub parse_span_id : Text → Option ℤ
parse_span_id v = int16 v

unfoldable pub validate_sampled_flag : Text → Bool
validate_sampled_flag v = (length v == 1) && (text_eq v is_sampled || text_eq v not_sampled)

unfoldable pub parse_sampled_flag : Text → Bool
parse_sampled_flag v = has_char v 0 49

pub record Properties : Type 0 where
  pub trace_id : ℤ
  pub span_id : ℤ
  pub sampled : Bool

abbrev pub no_properties : Properties
no_properties = record { trace_id = pos 0; span_id = pos 0; sampled = false }

-- one pair of the header; a key that is not known is passed over
unfoldable pub read_pair : Text → Text → Properties → Option Properties
read_pair key value p =
    if text_eq key trace_id_key
    then (if validate_trace_id value
        then Option.map (λ t. record p { trace_id = t }) (parse_trace_id value)
        else none)
    else if text_eq key parent_id_key
    then (if validate_span_id value
        then Option.map (λ s. record p { span_id = s }) (parse_span_id value)
        else none)
    else if text_eq key sampled_flag_key
    then (if validate_sampled_flag value
        then some (record p { sampled = parse_sampled_flag value })
        else none)
    else some p

-- `key_str, value_str = ...`, which needs two pieces
unfoldable pub key_and_value : List Text → Option (Text × Text)
key_and_value [] = none
key_and_value (k ∷ []) = none
key_and_value (k ∷ v ∷ []) = some (strip k, strip v)
key_and_value (k ∷ v ∷ w ∷ l) = none

unfoldable pub read_pairs : List Text → Properties → Option Properties
read_pairs [] p = some p
read_pairs (kv ∷ rest) p = elim (key_and_value (split key_and_value_delimiter kv)) [
  | none ↦ none
  | some (key, value) ↦ elim (read_pair key value p) [ none ↦ none | some p' ↦ read_pairs rest p' ]
]

unfoldable pub extract_span_properties : Text → Option Properties
extract_span_properties header = read_pairs (split kv_pair_delimiter header) no_properties
