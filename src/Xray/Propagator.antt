-- ===== src/Xray/Propagator.antt =====
-- `AwsXRayPropagator` and `AwsXRayLambdaPropagator` of aws_xray_propagator.py. An argument `none` is a
-- context that is not given; the value of the environment variable is an argument.
pub mod Pairs
pub mod Printed
pub mod RoundTrip
pub mod Safe
use opentelemetry_python_con.Common.{
  ℕ, ◌%◌, Bool, true, false, Option, none, some, List, [], ◌∷◌, ◌++◌, take, drop, Text, text,
  or_default, ◌==◌, if◌then◌else◌,
}
use opentelemetry_python_con.Xray.Hex.{ℤ, format_hex}
use opentelemetry_python_con.Xray.Api.{SpanContext, Api, Carriers}
use opentelemetry_python_con.Xray.Header.{
  Properties, extract_span_properties, trace_id_key, parent_id_key, sampled_flag_key, is_sampled,
  not_sampled, kv_pair_delimiter, key_and_value_delimiter, trace_id_delimiter,
}

abbrev pub trace_header_key : Text
trace_header_key = text "X-Amzn-Trace-Id"

-- the one header, if it is not empty
unfoldable pub trace_header : Option (List Text) → Option Text
trace_header none = none
trace_header (some []) = none
trace_header (some ([] ∷ [])) = none
trace_header (some ((c ∷ t) ∷ [])) = some (c ∷ t)
trace_header (some (t ∷ u ∷ l)) = none

-- the bit of `TraceFlags.SAMPLED`
unfoldable pub sampled_bit : ℕ → Bool
sampled_bit flags = flags % 2 == 1

-- `sep.join(pieces)`
unfoldable pub join : ℕ → List Text → Text
join sep [] = []
join sep (t ∷ []) = t
join sep (t ∷ u ∷ l) = t ++ sep ∷ join sep (u ∷ l)

unfoldable pub xray_trace_id : ℤ → Text
xray_trace_id trace_id =
    let otel_trace_id = format_hex 32 trace_id in
    join trace_id_delimiter (text "1" ∷ take 8 otel_trace_id ∷ drop 8 otel_trace_id ∷ [])

unfoldable pub print_header : ℤ → ℤ → ℕ → Text
print_header trace_id span_id flags = join kv_pair_delimiter (
    join key_and_value_delimiter (trace_id_key ∷ xray_trace_id trace_id ∷ [])
    ∷ join key_and_value_delimiter (parent_id_key ∷ format_hex 16 span_id ∷ [])
    ∷ join key_and_value_delimiter
        (sampled_flag_key ∷ (if sampled_bit flags then is_sampled else not_sampled) ∷ [])
    ∷ [])

module _ (api : Api) where
  open api use {Context, TraceState}

  -- the span context that is made of a header's properties
  unfoldable pub remote_context : Properties → Context → SpanContext TraceState
  remote_context p context = record {
    trace_id = p.trace_id;
    span_id = p.span_id;
    is_remote = true;
    trace_flags = if p.sampled then 1 else 0;
    trace_state = (api.current context).trace_state;
  }

  -- what `extract` does with a header
  unfoldable pub extract_header : Text → Context → Context
  extract_header header context = elim (extract_span_properties header) [
    | none ↦ context
    | some p ↦
        if api.is_valid p.trace_id p.span_id
        then api.with_span (remote_context p context) context
        else context
  ]

  module _ (carriers : Carriers) where
    open carriers use {Carrier}

    unfoldable pub extract : Carrier → Option Context → Context
    extract carrier context =
        let given = or_default context api.empty in
        elim (trace_header (carriers.get carrier trace_header_key)) [
          | none ↦ given
          | some header ↦ extract_header header given
        ]

    unfoldable pub inject : Carrier → Option Context → Carrier
    inject carrier context =
        let span = api.current (or_default context api.runtime) in
        if api.is_valid span.trace_id span.span_id
        then carriers.set carrier trace_header_key
            (print_header span.trace_id span.span_id span.trace_flags)
        else carrier

    -- `AwsXRayLambdaPropagator.extract`, with the value of `_X_AMZN_TRACE_ID`
    unfoldable pub lambda_extract : Option Text → Carrier → Option Context → Context
    lambda_extract environ carrier context =
        let xray_context = extract carrier context in
        let span = api.current (or_default context api.runtime) in
        if api.is_valid span.trace_id span.span_id then xray_context else elim environ [
          | none ↦ xray_context
          | some header ↦ extract (carriers.dict trace_header_key header) (some xray_context)
        ]
