-- ===== src/Agents/Processor/Ended.antt =====
-- Every span that is started is held or ended, if its id is not taken.
use opentelemetry_python_con.Common.{
  ℕ, ◌+◌, ◌≡◌, refl, ap, ◌∙◌, Bool, true, false, ◌&&◌, List, [], ◌∷◌, ◌++◌, Text, text, arith,
  if◌then◌else◌, Dict, get,
}
use opentelemetry_python_con.Agents.Spans.{Config, Span}
use opentelemetry_python_con.Agents.Content.{Content}
use opentelemetry_python_con.Agents.Actions.{
  Action, Extraction, end_early, end_root, end_all, detach_token, finish_span,
}
use opentelemetry_python_con.Agents.Processor.{
  Processor, delete, cleanup_loop, cleanup_spans_for_trace, keys_with, on_trace_start, on_trace_end,
  on_span_start, start_root, start_child, end_child, shutdown,
}
use opentelemetry_python_con.Agents.Counts.{
  one, starts, ends, total, held, of_option, total-append, of_option_zero, held_zero, held-delete,
  held-put, starts-Counts, ends-Counts, total-end_early, total-end_root, total-end_all,
  total-finish_span, total-detach_token,
}

module _ (n : ℕ) where
  -- how often span n is held or ended, and started
  abbrev pub known : Processor → ℕ
  known s =
      total (ends n) s.log + (held (λ m. one m n) s.root_spans + held (λ m. one m n) s.otel_spans)

  abbrev pub started : Processor → ℕ
  started s = total (starts n) s.log

  pub known-cleanup_loop :
      (ids : List Text) (s : Processor)
      → (known (cleanup_loop ids s) ≡ known s) × (started (cleanup_loop ids s) ≡ started s)
  unfolding cleanup_loop
  known-cleanup_loop [] s = (refl, refl)
  known-cleanup_loop (id ∷ ids) s =
      let early = end_early (text "Trace ended before span completion") (get s.otel_spans id) in
      let rest = known-cleanup_loop ids (record s {
        otel_spans = delete id s.otel_spans;
        tokens = delete id s.tokens;
        log = s.log ++ early;
      }) in
      let e =
        total-end_early (ends n) (ends-Counts n) (text "Trace ended before span completion")
          (get s.otel_spans id) in
      let b =
        total-end_early (starts n) (starts-Counts n) (text "Trace ended before span completion")
          (get s.otel_spans id) in
      let ea = total-append (ends n) s.log early in
      let ba = total-append (starts n) s.log early in
      let d = held-delete (λ m. one m n) id s.otel_spans in
      let z = of_option_zero (get s.otel_spans id) in
      (rest.0 ∙ omega (arith, e, ea, d), rest.1 ∙ omega (arith, b, ba, z))

  -- What is known of span n after an operation, where `lost` is what it forgets.
  abbrev pub Kept : Processor → ℕ → Processor → Type 0
  Kept s lost s' = known s' + lost + started s ≡ known s + started s'

  if-Kept :
      (b : Bool) (s : Processor) (lost : ℕ) (s' : Processor)
      → Kept s lost s'
      → Kept s (if b then lost else 0) (if b then s' else s)
  if-Kept true s lost s' h = h
  if-Kept false s lost s' h = omega arith

  Kept-append :
      (s s' : Processor) (lost : ℕ) (actions : List Action)
      → s'.log ≡ s.log ++ actions
      → total (ends n) actions
          + (held (λ m. one m n) s'.root_spans + held (λ m. one m n) s'.otel_spans)
          + lost
        ≡ held (λ m. one m n) s.root_spans
          + held (λ m. one m n) s.otel_spans
          + total (starts n) actions
      → Kept s lost s'
  Kept-append s s' lost actions e h =
      let ends_eq = ap (total (ends n)) e ∙ total-append (ends n) s.log actions in
      let starts_eq = ap (total (starts n)) e ∙ total-append (starts n) s.log actions in
      omega (arith, ends_eq, starts_eq, h)

  pub on_trace_start-Kept :
      (config : Config) (id name : Text) (s : Processor)
      → Kept s
          (if config.with_tracer then of_option (λ m. one m n) (get s.root_spans id) else 0)
          (on_trace_start config id name s)
  unfolding on_trace_start start_root
  on_trace_start-Kept config id name s =
      let p = held-put (λ m. one m n) id s.next s.root_spans in
      if-Kept config.with_tracer s _ _
        (Kept-append s (start_root config id name s) _ _ refl (omega (arith, p)))

  pub on_span_start-Kept :
      (config : Config) (span : Span) (s : Processor)
      → Kept s
          (if config.with_tracer && span.started
            then of_option (λ m. one m n) (get s.otel_spans span.span_id)
            else 0)
          (on_span_start config span s)
  unfolding on_span_start start_child
  on_span_start-Kept config span s =
      let p = held-put (λ m. one m n) span.span_id s.next s.otel_spans in
      if-Kept (config.with_tracer && span.started) s _ _
        (Kept-append s (start_child config span s) _ _ refl (omega (arith, p)))

  pub on_trace_end-Kept :
      (id : Text) (recording : Bool) (s : Processor) → Kept s 0 (on_trace_end id recording s)
  unfolding on_trace_end cleanup_spans_for_trace
  on_trace_end-Kept id recording s =
      let actions = end_root recording (get s.root_spans id) in
      let popped = record s { root_spans = delete id s.root_spans; log = s.log ++ actions } in
      let (k, b) = known-cleanup_loop (keys_with id s.otel_spans) popped in
      let d = held-delete (λ m. one m n) id s.root_spans in
      let e = total-end_root (ends n) (ends-Counts n) recording (get s.root_spans id) in
      let z =
        total-end_root (starts n) (starts-Counts n) recording (get s.root_spans id)
        ∙ of_option_zero (get s.root_spans id) in
      let root = Kept-append s popped 0 actions refl (omega (arith, d, e, z)) in
      omega (arith, k, b, root)

  pub shutdown-Kept : (s : Processor) → Kept s 0 (shutdown s)
  unfolding shutdown
  shutdown-Kept s =
      let e = total-end_all (ends n) (ends-Counts n) s.otel_spans in
      let r = total-end_all (ends n) (ends-Counts n) s.root_spans in
      let e0 = total-end_all (starts n) (starts-Counts n) s.otel_spans ∙ held_zero s.otel_spans in
      let r0 = total-end_all (starts n) (starts-Counts n) s.root_spans ∙ held_zero s.root_spans in
      let outer = total-append (ends n) (s.log ++ end_all s.otel_spans) (end_all s.root_spans) in
      let inner = total-append (ends n) s.log (end_all s.otel_spans) in
      let outer0 = total-append (starts n) (s.log ++ end_all s.otel_spans) (end_all s.root_spans) in
      let inner0 = total-append (starts n) s.log (end_all s.otel_spans) in
      omega (arith, e, r, e0, r0, outer, inner, outer0, inner0)

  pub end_child-Kept :
      (config : Config) (span : Span) (recording : Bool) (contents : Dict Content)
      (extraction : Extraction) (s : Processor)
      → Kept s 0 (end_child config span recording contents extraction s)
  unfolding end_child
  end_child-Kept config span recording contents extraction s =
      let token = get s.tokens span.span_id in
      let o = get s.otel_spans span.span_id in
      let actions = finish_span config o recording span extraction in
      let t = total-detach_token (ends n) token ∙ of_option_zero token in
      let t0 = total-detach_token (starts n) token ∙ of_option_zero token in
      let e = total-finish_span (ends n) (ends-Counts n) config o recording span extraction in
      let b =
        total-finish_span (starts n) (starts-Counts n) config o recording span extraction
        ∙ of_option_zero o in
      let outer = total-append (ends n) (s.log ++ detach_token token) actions in
      let inner = total-append (ends n) s.log (detach_token token) in
      let outer0 = total-append (starts n) (s.log ++ detach_token token) actions in
      let inner0 = total-append (starts n) s.log (detach_token token) in
      let d = held-delete (λ m. one m n) span.span_id s.otel_spans in
      omega (arith, t, t0, e, b, outer, inner, outer0, inner0, d)
