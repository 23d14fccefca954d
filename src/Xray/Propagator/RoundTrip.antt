-- ===== src/Xray/Propagator/RoundTrip.antt =====
-- What `inject` puts into a carrier, `extract` reads.
use opentelemetry_python_con.Common.{
  ℕ, ◌≡◌, refl, true, Option, some, [], ◌∷◌, or_default, if◌then◌else◌,
}
use opentelemetry_python_con.Xray.Hex.{ℤ, pos, negsuc}
use opentelemetry_python_con.Xray.Api.{SpanContext, Api, Carriers, IsId}
use opentelemetry_python_con.Xray.Header.{extract_span_properties}
use opentelemetry_python_con.Xray.Propagator.{
  trace_header_key, trace_header, sampled_bit, print_header, join, remote_context, extract_header,
  extract, inject,
}
use opentelemetry_python_con.Xray.Propagator.Printed.{extract_span_properties-print_header}

printed :
    (t s : ℤ) (flags : ℕ)
    → IsId 32 t
    → IsId 16 s
    → extract_span_properties (print_header t s flags)
      ≡ some (record { trace_id = t; span_id = s; sampled = sampled_bit flags })
printed (pos n) (pos m) flags h k = extract_span_properties-print_header n m flags h.1 k.1
printed (negsuc n) s flags h k = absurd h
printed (pos n) (negsuc m) flags h k = absurd k

-- A printed header is not empty.
trace_header-print_header :
    (t s : ℤ) (flags : ℕ)
    → trace_header (some (print_header t s flags ∷ [])) ≡ some (print_header t s flags)
unfolding trace_header print_header join
trace_header-print_header t s flags = refl

module _ (api : Api) where
  open api use {Context, TraceState}

  -- the span context that another process sees of `span`, in `context`
  abbrev pub seen : SpanContext TraceState → Context → SpanContext TraceState
  seen span context = record {
    trace_id = span.trace_id;
    span_id = span.span_id;
    is_remote = true;
    trace_flags = if sampled_bit span.trace_flags then 1 else 0;
    trace_state = (api.current context).trace_state;
  }

  -- the span context that is current for the caller
  abbrev pub sent : Option Context → SpanContext TraceState
  sent context = api.current (or_default context api.runtime)

  extract_header-print_header :
      (span : SpanContext TraceState) (context : Context)
      → api.is_valid span.trace_id span.span_id ≡ true
      → extract_header api (print_header span.trace_id span.span_id span.trace_flags) context
        ≡ api.with_span (seen span context) context
  unfolding extract_header remote_context
  extract_header-print_header span context h =
      let (t, s) = (api.is_valid_iff span.trace_id span.span_id).0 h in
      rw (printed span.trace_id span.span_id span.trace_flags t s, h, extract_header) refl

  module _ (carriers : Carriers) where
    open carriers use {Carrier}

    -- `extract` reads from the carrier that `inject` filled the ids of the span that was current, with
    -- its sampled flag, as a remote span in the context that it is given; the trace state is that of
    -- the given context. The current span is valid.
    pub extract-inject :
        (carrier : Carrier) (context given : Option Context)
        → api.is_valid (sent context).trace_id (sent context).span_id ≡ true
        → extract api carriers (inject api carriers carrier context) given
          ≡ api.with_span
              (seen (sent context) (or_default given api.empty))
              (or_default given api.empty)
    unfolding extract inject
    extract-inject carrier context given h =
        let span = sent context in
        let header = print_header span.trace_id span.span_id span.trace_flags in
        rw
          (
            h,
            carriers.get-set carrier trace_header_key header,
            trace_header-print_header span.trace_id span.span_id span.trace_flags,
            extract,
          )
          (extract_header-print_header span (or_default given api.empty) h)
