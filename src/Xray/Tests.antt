-- ===== src/Xray/Tests.antt =====
-- Runs of the X-Ray propagator on concrete headers, with contexts that hold one span.
use opentelemetry_python_con.Common.{
  ℕ, ◌≡◌, refl, true, false, ◌&&◌, Option, none, some, List, [], ◌∷◌, Text, text, text_eq,
  text_eq_refl, if◌then◌else◌, ◌⊎◌,
}
use opentelemetry_python_con.Words.{
  is_space, extend, split, strip_left, keep_left, strip_right, strip,
}
use opentelemetry_python_con.Xray.Hex.{
  pos, negsuc, negate, hex_value, is_int_space, all_int_space, more_digits, digits, after_prefix,
  unsigned, signed, skip_int_space, int16, digit, pad_hex, format_hex,
}
use opentelemetry_python_con.Xray.Api.Ids.{is_id, both_iff}
use opentelemetry_python_con.Xray.Api.{SpanContext, Api, Carriers}
use opentelemetry_python_con.Xray.Header.{
  has_char, validate_trace_id, parse_trace_id, validate_span_id, parse_span_id,
  validate_sampled_flag, parse_sampled_flag, read_pair, key_and_value, read_pairs,
  extract_span_properties,
}
use opentelemetry_python_con.Xray.Header.Bounds.{Fits, extract_span_properties-Fits}
use opentelemetry_python_con.Xray.Propagator.{
  trace_header_key, sampled_bit, join, xray_trace_id, print_header, extract, inject,
}
use opentelemetry_python_con.Xray.Propagator.RoundTrip.{seen, extract-inject}
use opentelemetry_python_con.Xray.Propagator.Safe.{IsRemoteIn, extract_cases}

abbrev span : SpanContext ℕ
span = record {
  trace_id = pos 116109686688819914704061304393251104659;
  span_id = pos 255;
  is_remote = false;
  trace_flags = 3;
  trace_state = 7;
}

abbrev no_span : SpanContext ℕ
no_span = record {
  trace_id = pos 0;
  span_id = pos 0;
  is_remote = false;
  trace_flags = 0;
  trace_state = 0;
}

-- a context is its current span
abbrev api : Api
api = record {
  Context = SpanContext ℕ;
  TraceState = ℕ;
  empty = no_span;
  runtime = span;
  current = λ c. c;
  with_span = λ s c. s;
  is_valid = λ t s. is_id 32 t && is_id 16 s;
  current-with_span = λ s c. refl;
  is_valid_iff = both_iff;
}

abbrev find : Text → List (Text × Text) → Option (List Text)
find k [] = none
find k ((j, v) ∷ c) = if text_eq j k then some (v ∷ []) else find k c

find-cons : (c : List (Text × Text)) (k v : Text) → find k ((k, v) ∷ c) ≡ some (v ∷ [])
find-cons c k v = rw (text_eq_refl k) refl

abbrev carriers : Carriers
carriers = record {
  Carrier = List (Text × Text);
  get = λ c k. find k c;
  set = λ c k v. (k, v) ∷ c;
  dict = λ k v. (k, v) ∷ [];
  get-set = find-cons;
  get-dict = find-cons [];
}

int16_examples :
    (int16 (text "ff") ≡ some (pos 255))
    × (int16 (text " -0X_1_f ") ≡ some (negsuc 30))
    × (int16 (text "1__f") ≡ none)
    × (int16 (text "-") ≡ none)
unfolding int16 skip_int_space signed unsigned after_prefix digits more_digits hex_value
    is_int_space all_int_space negate
int16_examples = (refl, refl, refl, refl)

abbrev header : Text
header = text "Root=1-5759e988-bd862e3fe1be46a994272793; Parent=53995c3f42cd8ad8 ;Sampled=1;Self=x"

header_properties :
    extract_span_properties header
    ≡ some (record {
      trace_id = pos 116109686688819914704061304393251104659;
      span_id = pos 6023947403358210776;
      sampled = true;
    })
unfolding extract_span_properties read_pairs split extend key_and_value strip strip_left strip_right
    keep_left is_space read_pair validate_trace_id has_char parse_trace_id validate_span_id
    parse_span_id validate_sampled_flag parse_sampled_flag int16 skip_int_space signed unsigned
    after_prefix digits more_digits hex_value is_int_space all_int_space negate text_eq
header_properties = refl

header_errors :
    (extract_span_properties (text "Root=1=2") ≡ none)
    × (extract_span_properties (text "Parent=xyz") ≡ none)
    × (extract_span_properties (text "Sampled=2") ≡ none)
    × (extract_span_properties (text "Root=1-5759e988-bd862e3fe1be46a994272793;") ≡ none)
unfolding extract_span_properties read_pairs split extend key_and_value strip strip_left strip_right
    keep_left is_space read_pair validate_trace_id has_char parse_trace_id validate_span_id
    parse_span_id validate_sampled_flag parse_sampled_flag int16 skip_int_space signed unsigned
    after_prefix digits more_digits hex_value is_int_space all_int_space negate text_eq
header_errors = (refl, refl, refl, refl)

print_header_example :
    print_header (pos 116109686688819914704061304393251104659) (pos 255) 3
    ≡ text "Root=1-5759e988-bd862e3fe1be46a994272793;Parent=00000000000000ff;Sampled=1"
unfolding print_header join xray_trace_id format_hex pad_hex digit sampled_bit
print_header_example = refl

extract-inject_example :
    extract api carriers (inject api carriers [] none) none ≡ seen api span no_span
extract-inject_example = extract-inject api carriers [] none none refl

extract_cases_example :
    (extract api carriers ((trace_header_key, header) ∷ []) none ≡ no_span)
    ⊎ IsRemoteIn api no_span (extract api carriers ((trace_header_key, header) ∷ []) none)
extract_cases_example = extract_cases api carriers ((trace_header_key, header) ∷ []) none

extract_span_properties-Fits_example : Fits (record {
  trace_id = pos 116109686688819914704061304393251104659;
  span_id = pos 6023947403358210776;
  sampled = true;
})
extract_span_properties-Fits_example = extract_span_properties-Fits header header_properties
