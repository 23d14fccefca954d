-- ===== src/Ottrace/Propagator/RoundTrip.antt =====
-- What `inject` puts into a carrier, `extract` reads, as far as the format goes.
use mathlib.Core.Path.{subst}
use opentelemetry_python_con.Common.{
  ℕ, ◌%◌, ◌^◌, ◌≡◌, ◌≢◌, refl, sym, ap, ◌∙◌, Bool, true, false, Option, some, List, [], ◌∷◌, ◌++◌,
  All, All-map, get_elem?, Text, text, text_eq, or_default, ◌==◌, if◌then◌else◌, arith,
}
use opentelemetry_python_con.Common.{Dict}
use opentelemetry_python_con.Xray.Hex.{pos}
use opentelemetry_python_con.Xray.Api.{SpanContext, Api}
use opentelemetry_python_con.Ottrace.Baggage.{ot_baggage_prefix, inject_baggage}
use opentelemetry_python_con.Ottrace.Baggage.Injected.{IsHeaderOf, inject_baggage_lem}
use opentelemetry_python_con.Ottrace.Ids.{extract_first_element, extract_identifier, print_id}
use opentelemetry_python_con.Ottrace.Ids.RoundTrip.{extract_identifier-print_id}
use opentelemetry_python_con.Ottrace.Propagator.{
  ot_trace_id_header, ot_span_id_header, ot_sampled_header, Services, is_zero, is_true, set_all,
  extract_span, extract, set_headers, set_span, inject,
}

-- The fourth character tells the headers of the span from those of the baggage.
abbrev fourth : Text → Option ℕ
fourth t = get_elem? t 3

not_baggage : (name other : Text) → fourth other ≡ some 116 → ot_baggage_prefix ++ name ≢ other
not_baggage name other h e = let same : fourth other ≡ some 98 = sym (ap fourth e) in ground arith

span-ne-trace : ot_span_id_header ≢ ot_trace_id_header
span-ne-trace e = let same = ap (λ t. get_elem? t 10) e in ground arith

sampled-ne-trace : ot_sampled_header ≢ ot_trace_id_header
sampled-ne-trace e = let same = ap (λ t. get_elem? t 10) e in ground arith

sampled-ne-span : ot_sampled_header ≢ ot_span_id_header
sampled-ne-span e = let same = ap (λ t. get_elem? t 11) e in ground arith

is_zero-pos : (n : ℕ) → (n == 0) ≡ false → is_zero (pos n) ≡ false
unfolding is_zero
is_zero-pos n h = h

by_test : (n : ℕ) → n ≢ 0 → (n == 0) ≡ false
by_test n h = ground arith

nonzero : (n : ℕ) → n % 16 ^ 16 ≢ 0 → (n == 0) ≡ false
nonzero n h = by_test n (λ e. h (omega (arith, e)))

module _ (api : Api) (services : Services api) where
  open api use {Context, TraceState}
  open services use {Carrier}

  current-set_all :
      (baggage : Dict Text) (c : Context)
      → api.current (set_all api services baggage c) ≡ api.current c
  unfolding set_all
  current-set_all [] c = refl
  current-set_all ((k, v) ∷ baggage) c =
      current-set_all baggage (services.set_baggage k v c) ∙ services.current-set_baggage k v c

  get-set_headers :
      (key : Text) (headers : List (Text × Text)) (c : Carrier)
      → All (λ h. h.0 ≢ key) headers
      → services.get (set_headers api services headers c) key ≡ services.get c key
  unfolding set_headers
  get-set_headers key [] c h = refl
  get-set_headers key ((name, value) ∷ headers) c h =
      get-set_headers key headers (services.set c name value) h.1
      ∙ services.get-set_other c name key value h.0

  other_header :
      (baggage : Dict Text) (key : Text)
      → fourth key ≡ some 116
      → All (λ h. h.0 ≢ key) (inject_baggage services.is_word baggage)
  other_header baggage key h =
      All-map (IsHeaderOf services.is_word baggage) (λ x. x.0 ≢ key)
        (inject_baggage services.is_word baggage)
        (λ x (name, (_, (e, _))). subst (λ t. t ≢ key) (sym e) (not_baggage name key h))
        (inject_baggage_lem services.is_word baggage).0

  -- the three headers after `inject`
  get-trace :
      (span : SpanContext TraceState) (carrier : Carrier)
      → services.get (set_span api services span carrier) ot_trace_id_header
        ≡ some (print_id span.trace_id ∷ [])
  unfolding set_span
  get-trace span carrier =
      services.get-set_other _ ot_sampled_header ot_trace_id_header _ sampled-ne-trace
      ∙ services.get-set_other _ ot_span_id_header ot_trace_id_header _ span-ne-trace
      ∙ services.get-set carrier ot_trace_id_header (print_id span.trace_id)

  get-span :
      (span : SpanContext TraceState) (carrier : Carrier)
      → services.get (set_span api services span carrier) ot_span_id_header
        ≡ some (print_id span.span_id ∷ [])
  unfolding set_span
  get-span span carrier =
      services.get-set_other _ ot_sampled_header ot_span_id_header _ sampled-ne-span
      ∙ services.get-set _ ot_span_id_header (print_id span.span_id)

  get-sampled :
      (span : SpanContext TraceState) (carrier : Carrier)
      → is_true (
          extract_first_element
            (services.get (set_span api services span carrier) ot_sampled_header))
        ≡ (span.trace_flags == 1)
  unfolding set_span is_true extract_first_element text_eq
  get-sampled span carrier =
      ap (λ o. is_true (extract_first_element o)) (services.get-set _ ot_sampled_header _)
      ∙ flag (span.trace_flags == 1)
    where
      flag : (b : Bool) → is_true (some (if b then text "true" else text "false")) ≡ b
      flag true = refl
      flag false = refl

  abbrev pub sent : Option Context → SpanContext TraceState
  sent context = api.current (or_default context api.runtime)

  -- what another process sees of a span
  abbrev pub received : ℕ → ℕ → Bool → SpanContext TraceState
  received n m sampled = record {
    trace_id = pos n;
    span_id = pos m;
    is_remote = true;
    trace_flags = if sampled then 1 else 0;
    trace_state = services.no_state;
  }

  current-extract_span :
      (carrier : Carrier) (n m : ℕ) (sampled : Bool) (c : Context)
      → api.current (extract_span api services carrier (pos n) (pos m) sampled c)
        ≡ received n m sampled
  unfolding extract_span
  current-extract_span carrier n m sampled c =
      current-set_all _ (api.with_span (received n m sampled) c)
      ∙ api.current-with_span (received n m sampled) c

  module _ (carrier : Carrier) (context : Option Context) (n m : ℕ)
      (trace : (sent context).trace_id ≡ pos n) (span : (sent context).span_id ≡ pos m)
      (some_trace : n % 16 ^ 16 ≢ 0) (some_span : m % 16 ^ 16 ≢ 0) where
    abbrev filled : Carrier
    filled = inject api services carrier context

    get-filled :
        (key : Text)
        → fourth key ≡ some 116
        → services.get filled key ≡ services.get (set_span api services (sent context) carrier) key
    unfolding inject
    get-filled key h =
        let not_zero : is_zero (sent context).trace_id ≡ false =
          ap is_zero trace ∙ is_zero-pos n (nonzero n some_trace) in
        rw not_zero (
          get-set_headers key
            (inject_baggage services.is_word (services.get_all (or_default context api.runtime)))
            (set_span api services (sent context) carrier)
            (other_header (services.get_all (or_default context api.runtime)) key h))

    read_trace :
        extract_identifier (services.get filled ot_trace_id_header) 32 (pos 0) ≡ pos (n % 16 ^ 16)
    read_trace =
        ap (λ o. extract_identifier o 32 (pos 0))
          (get-filled ot_trace_id_header refl
            ∙ get-trace (sent context) carrier
            ∙ ap (λ z. some (print_id z ∷ [])) trace)
        ∙ extract_identifier-print_id n 32 (pos 0) (omega arith)

    read_span :
        extract_identifier (services.get filled ot_span_id_header) 16 (pos 0) ≡ pos (m % 16 ^ 16)
    read_span =
        ap (λ o. extract_identifier o 16 (pos 0))
          (get-filled ot_span_id_header refl
            ∙ get-span (sent context) carrier
            ∙ ap (λ z. some (print_id z ∷ [])) span)
        ∙ extract_identifier-print_id m 16 (pos 0) (omega arith)

    read_sampled :
        is_true (extract_first_element (services.get filled ot_sampled_header))
        ≡ ((sent context).trace_flags == 1)
    read_sampled =
        ap (λ o. is_true (extract_first_element o)) (get-filled ot_sampled_header refl)
        ∙ get-sampled (sent context) carrier

    -- `extract` reads from the carrier that `inject` filled the last 64 bits of the two ids of the
    -- span that was current, as a remote span, in any context that it is given; the span is sampled
    -- exactly if the trace flags are the sampled flag and no other. The last 64 bits of neither id
    -- are zero.
    pub extract-inject_low :
        (given : Option Context)
        → api.current (extract api services filled given)
          ≡ received (n % 16 ^ 16) (m % 16 ^ 16) ((sent context).trace_flags == 1)
    unfolding extract
    extract-inject_low given =
        rw
          (
            read_trace,
            read_span,
            read_sampled,
            is_zero-pos (n % 16 ^ 16) (by_test (n % 16 ^ 16) some_trace),
            is_zero-pos (m % 16 ^ 16) (by_test (m % 16 ^ 16) some_span),
            extract,
          )
          (current-extract_span filled (n % 16 ^ 16) (m % 16 ^ 16) ((sent context).trace_flags == 1)
            (or_default given api.empty))
