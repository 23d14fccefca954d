-- ===== src/Xray/Header/Bounds.antt =====
-- The ids that are read from a header fit in their fields.
use mathlib.Core.Option
use mathlib.Core.Path.{subst}
use opentelemetry_python_con.Common.{
  ◌≡◌, none, some, true, if◌then◌else◌, List, [], ◌∷◌, ◌++◌, length, take, drop, length-append,
  length-take, length-drop, Text, text_eq, arith, Bool-cases, Option-cases, inl, inr,
}
use opentelemetry_python_con.Words.{split}
use opentelemetry_python_con.Xray.Hex.{ℤ}
use opentelemetry_python_con.Xray.Hex.Bounds.{IsBelow, int16-IsBelow}
use opentelemetry_python_con.Xray.Header.{
  Properties, no_properties, trace_id_key, parent_id_key, sampled_flag_key, validate_trace_id,
  parse_trace_id, validate_span_id, parse_span_id, validate_sampled_flag, parse_sampled_flag,
  read_pair, key_and_value, read_pairs, extract_span_properties, key_and_value_delimiter,
  kv_pair_delimiter,
}

-- A trace id of at most 128 bits, and a span id of at most 64.
pub record Fits (p : Properties) : Type 0 where
  pub trace_id : IsBelow 32 p.trace_id
  pub span_id : IsBelow 16 p.span_id

length-trace_id :
    (v : Text) → length v ≡ 35 → length (take 8 (drop 2 v) ++ take 24 (drop 11 v)) ≡ 32
length-trace_id v h = omega (
  arith,
  length-append (take 8 (drop 2 v)) (take 24 (drop 11 v)),
  length-take 8 (drop 2 v),
  length-take 24 (drop 11 v),
  length-drop 2 v,
  length-drop 11 v,
)

validate_trace_id-length : (v : Text) → validate_trace_id v ≡ true → length v ≡ 35
unfolding validate_trace_id
validate_trace_id-length v h = ground arith

parse_trace_id-IsBelow :
    (v : Text) {z : ℤ} → validate_trace_id v ≡ true → parse_trace_id v ≡ some z → IsBelow 32 z
unfolding parse_trace_id
parse_trace_id-IsBelow v {z} h e =
    subst (λ w. IsBelow w z) (length-trace_id v (validate_trace_id-length v h))
      (int16-IsBelow (take 8 (drop 2 v) ++ take 24 (drop 11 v)) e)

parse_span_id-IsBelow :
    (v : Text) {z : ℤ} → validate_span_id v ≡ true → parse_span_id v ≡ some z → IsBelow 16 z
unfolding parse_span_id validate_span_id
parse_span_id-IsBelow v {z} h e =
    let same : length v ≡ 16 = ground arith in subst (λ w. IsBelow w z) same (int16-IsBelow v e)

new_trace_id :
    (value : Text) (p : Properties) {q : Properties}
    → Fits p
    → (if validate_trace_id value
        then Option.map (λ t. record p { trace_id = t }) (parse_trace_id value)
        else none)
      ≡ some q
    → Fits q
new_trace_id value p {q} f h = elim (Option-cases (parse_trace_id value)) [
  | inl e ↦ absurd (ground arith)
  | inr (z, e) ↦
      let valid : validate_trace_id value ≡ true = ground arith in
      let same : record p { trace_id = z } ≡ q = ground arith in
      subst Fits same
        (record { trace_id = parse_trace_id-IsBelow value valid e; span_id = f.span_id })
]

new_span_id :
    (value : Text) (p : Properties) {q : Properties}
    → Fits p
    → (if validate_span_id value
        then Option.map (λ s. record p { span_id = s }) (parse_span_id value)
        else none)
      ≡ some q
    → Fits q
new_span_id value p {q} f h = elim (Option-cases (parse_span_id value)) [
  | inl e ↦ absurd (ground arith)
  | inr (z, e) ↦
      let valid : validate_span_id value ≡ true = ground arith in
      let same : record p { span_id = z } ≡ q = ground arith in
      subst Fits same
        (record { trace_id = f.trace_id; span_id = parse_span_id-IsBelow value valid e })
]

new_flag :
    (value : Text) (p : Properties) {q : Properties}
    → Fits p
    → (if validate_sampled_flag value
        then some (record p { sampled = parse_sampled_flag value })
        else none)
      ≡ some q
    → Fits q
new_flag value p {q} f h =
    let same : record p { sampled = parse_sampled_flag value } ≡ q = ground arith in
    subst Fits same (record { trace_id = f.trace_id; span_id = f.span_id })

read_pair-Fits :
    (key value : Text) (p : Properties) {q : Properties}
    → Fits p
    → read_pair key value p ≡ some q
    → Fits q
unfolding read_pair
read_pair-Fits key value p {q} f h = elim (Bool-cases (text_eq key trace_id_key)) [
  | inl k ↦ new_trace_id value p f (ground arith)
  | inr k ↦ elim (Bool-cases (text_eq key parent_id_key)) [
    | inl k' ↦ new_span_id value p f (ground arith)
    | inr k' ↦ elim (Bool-cases (text_eq key sampled_flag_key)) [
      | inl s ↦ new_flag value p f (ground arith)
      | inr s ↦ let same : p ≡ q = ground arith in subst Fits same f
    ]
  ]
]

read_pairs-Fits :
    (pairs : List Text) (p : Properties) {q : Properties}
    → Fits p
    → read_pairs pairs p ≡ some q
    → Fits q
unfolding read_pairs
read_pairs-Fits [] p {q} f h = let same : p ≡ q = ground arith in subst Fits same f
read_pairs-Fits (kv ∷ pairs) p {q} f h =
    elim (Option-cases (key_and_value (split key_and_value_delimiter kv))) [
      | inl e ↦ absurd (ground arith)
      | inr ((key, value), e) ↦ elim (Option-cases (read_pair key value p)) [
        | inl e' ↦ absurd (ground arith)
        | inr (p', e') ↦ read_pairs-Fits pairs p' (read_pair-Fits key value p f e') (ground arith)
      ]
    ]

-- Whatever the header is, the trace id that is read from it has at most 128 bits and the span id at
-- most 64, apart from a sign.
pub extract_span_properties-Fits :
    (header : Text) {p : Properties} → extract_span_properties header ≡ some p → Fits p
unfolding extract_span_properties
extract_span_properties-Fits header h =
    read_pairs-Fits (split kv_pair_delimiter header) no_properties
      (record { trace_id = omega arith; span_id = omega arith }) h
