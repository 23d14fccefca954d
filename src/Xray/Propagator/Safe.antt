-- ===== src/Xray/Propagator/Safe.antt =====
-- What `extract` does with any carrier.
use opentelemetry_python_con.Common.{
  ◌≤◌, ◌≡◌, ◌⊎◌, refl, Bool, true, Option, Text, or_default, if◌then◌else◌, arith, Bool-cases,
  Option-cases, inl, inr,
}
use opentelemetry_python_con.Xray.Api.{SpanContext, Api, Carriers}
use opentelemetry_python_con.Xray.Header.{extract_span_properties}
use opentelemetry_python_con.Xray.Propagator.{
  trace_header_key, trace_header, remote_context, extract_header, extract,
}

flag_le : (b : Bool) → (if b then 1 else 0) ≤ 1
flag_le b = ground arith

module _ (api : Api) where
  open api use {Context, TraceState}

  -- A valid remote span, with no flag but the sampled one, and the trace state of `context`.
  abbrev pub IsRemoteIn : Context → SpanContext TraceState → Type 0
  IsRemoteIn context s =
      (s.is_remote ≡ true)
      × (api.is_valid s.trace_id s.span_id ≡ true)
      × (s.trace_flags ≤ 1)
      × (s.trace_state ≡ (api.current context).trace_state)

  extract_header_cases :
      (header : Text) (context : Context)
      → (extract_header api header context ≡ context)
        ⊎ IsRemoteIn context (api.current (extract_header api header context))
  unfolding extract_header remote_context
  extract_header_cases header context = elim (Option-cases (extract_span_properties header)) [
    | inl e ↦ inl (rw (e, extract_header) refl)
    | inr (p, e) ↦ elim (Bool-cases (api.is_valid p.trace_id p.span_id)) [
      | inl v ↦ inr (
          rw (e, v, api.current-with_span (remote_context api p context) context, extract_header)
            (refl, v, flag_le p.sampled, refl))
      | inr v ↦ inl (rw (e, v, extract_header) refl)
    ]
  ]

  -- `extract` returns the context that it was given, or one in which a valid remote span is current,
  -- with no flag but the sampled one and the trace state of the given context: no header makes it
  -- fail or makes an invalid span current.
  pub extract_cases :
      (carriers : Carriers) (carrier : carriers.Carrier) (context : Option Context)
      → (extract api carriers carrier context ≡ or_default context api.empty)
        ⊎ IsRemoteIn
            (or_default context api.empty)
            (api.current (extract api carriers carrier context))
  unfolding extract
  extract_cases carriers carrier context =
      elim (Option-cases (trace_header (carriers.get carrier trace_header_key))) [
        | inl e ↦ inl (rw (e, extract) refl)
        | inr (header, e) ↦
            rw (e, extract) (extract_header_cases header (or_default context api.empty))
      ]
