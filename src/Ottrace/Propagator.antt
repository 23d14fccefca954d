-- ===== src/Ottrace/Propagator.antt =====
-- `OTTracePropagator` of ot_trace/__init__.py. An argument `none` is a context that is not given.
pub mod RoundTrip
use opentelemetry_python_con.Common.{
  ℕ, ◌≡◌, ◌≢◌, Bool, true, false, not, ◌&&◌, Option, none, some, List, [], ◌∷◌, Text, text, text_eq,
  or_default, ◌==◌, if◌then◌else◌,
}
use opentelemetry_python_con.Common.{Dict}
use opentelemetry_python_con.Xray.Hex.{ℤ, pos, negsuc}
use opentelemetry_python_con.Xray.Api.{SpanContext, Api}
use opentelemetry_python_con.Ottrace.Baggage.{extract_baggage, inject_baggage}
use opentelemetry_python_con.Ottrace.Ids.{extract_first_element, extract_identifier, print_id}

abbrev pub ot_trace_id_header : Text
ot_trace_id_header = text "ot-tracer-traceid"

abbrev pub ot_span_id_header : Text
ot_span_id_header = text "ot-tracer-spanid"

abbrev pub ot_sampled_header : Text
ot_sampled_header = text "ot-tracer-sampled"

-- What the propagator uses of the API for baggage, of a trace state, of a carrier, and of `re`. The laws
-- are what the API documents: baggage and span are kept under different keys of a context, and a
-- setter changes the one key that it is given.
pub record Services (api : Api) : Type 1 where
  pub no_state : api.TraceState
  pub get_all : api.Context → Dict Text
  pub set_baggage : Text → Text → api.Context → api.Context
  pub Carrier : Type 0
  pub get : Carrier → Text → Option (List Text)
  pub keys : Carrier → List Text
  pub set : Carrier → Text → Text → Carrier
  pub is_word : ℕ → Bool
  pub current-set_baggage :
      (k v : Text) (c : api.Context) → api.current (set_baggage k v c) ≡ api.current c
  pub get-set : (c : Carrier) (k v : Text) → get (set c k v) k ≡ some (v ∷ [])
  pub get-set_other : (c : Carrier) (k l v : Text) → k ≢ l → get (set c k v) l ≡ get c l

-- `id == 0`
unfoldable pub is_zero : ℤ → Bool
is_zero (pos n) = n == 0
is_zero (negsuc n) = false

-- `_extract_first_element(items) == "true"`
unfoldable pub is_true : Option Text → Bool
is_true none = false
is_true (some t) = text_eq t (text "true")

module _ (api : Api) (services : Services api) where
  open api use {Context, TraceState}
  open services use {Carrier}

  unfoldable pub set_all : Dict Text → Context → Context
  set_all [] context = context
  set_all ((key, value) ∷ baggage) context =
      set_all baggage (services.set_baggage key value context)

  -- the remote span, and the baggage
  unfoldable pub extract_span : Carrier → ℤ → ℤ → Bool → Context → Context
  extract_span carrier traceid spanid sampled context =
      let context' =
        api.with_span
          (record {
            trace_id = traceid;
            span_id = spanid;
            is_remote = true;
            trace_flags = if sampled then 1 else 0;
            trace_state = services.no_state;
          })
          context in
      set_all
        (extract_baggage (λ key. extract_first_element (services.get carrier key))
          (services.keys carrier) (services.get_all context'))
        context'

  unfoldable pub extract : Carrier → Option Context → Context
  extract carrier context =
      let given = or_default context api.empty in
      let traceid = extract_identifier (services.get carrier ot_trace_id_header) 32 (pos 0) in
      let spanid = extract_identifier (services.get carrier ot_span_id_header) 16 (pos 0) in
      let sampled = is_true (extract_first_element (services.get carrier ot_sampled_header)) in
      if not (is_zero traceid) && not (is_zero spanid)
      then extract_span carrier traceid spanid sampled given
      else given

  unfoldable pub set_headers : List (Text × Text) → Carrier → Carrier
  set_headers [] carrier = carrier
  set_headers ((name, value) ∷ headers) carrier =
      set_headers headers (services.set carrier name value)

  -- the three headers of a span
  unfoldable pub set_span : SpanContext TraceState → Carrier → Carrier
  set_span span carrier =
      services.set
        (services.set (services.set carrier ot_trace_id_header (print_id span.trace_id))
          ot_span_id_header (print_id span.span_id))
        ot_sampled_header (if span.trace_flags == 1 then text "true" else text "false")

  unfoldable pub inject : Carrier → Option Context → Carrier
  inject carrier context =
      let current = or_default context api.runtime in
      let span = api.current current in
      if is_zero span.trace_id
      then carrier
      else set_headers (inject_baggage services.is_word (services.get_all current))
          (set_span span carrier)
