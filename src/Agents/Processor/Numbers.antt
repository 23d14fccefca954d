-- ===== src/Agents/Processor/Numbers.antt =====
-- A number is given to one span.
use opentelemetry_python_con.Common.{
  ℕ, ◌+◌, ltb, ◌≡◌, refl, sym, ap, ◌∙◌, Bool, true, false, ◌&&◌, List, [], ◌∷◌, ◌++◌, Text, arith,
  if◌then◌else◌, Dict, get,
}
use opentelemetry_python_con.Agents.Spans.{Config, Span}
use opentelemetry_python_con.Agents.Content.{Content}
use opentelemetry_python_con.Agents.Actions.{
  Extraction, detach_token, finish_span, end_root, end_all,
}
use opentelemetry_python_con.Agents.Processor.{
  Processor, init, delete, cleanup_loop, cleanup_spans_for_trace, keys_with, start_root,
  on_trace_start, on_trace_end, start_child, on_span_start, end_child, on_span_end, shutdown, Event,
  trace_start, trace_end, span_start, span_end, shut_down, step, run,
}
use opentelemetry_python_con.Agents.Counts.{
  one, starts, total-append, of_option_zero, held_zero, starts-Counts, total-end_root,
  total-end_all, total-finish_span, total-detach_token,
}
use opentelemetry_python_con.Agents.Processor.Ended.{started, known-cleanup_loop}

next-cleanup_loop : (ids : List Text) (s : Processor) → (cleanup_loop ids s).next ≡ s.next
unfolding cleanup_loop
next-cleanup_loop [] s = refl
next-cleanup_loop (id ∷ ids) s = next-cleanup_loop ids _

module _ (n : ℕ) where
  -- Span n is started once if its number was given, and else not.
  abbrev pub Numbered : Processor → Type 0
  Numbered s = started n s ≡ (if ltb n s.next then 1 else 0)

  given-suc : (m : ℕ) → (if ltb n m then 1 else 0) + one m n ≡ (if ltb n (m + 1) then 1 else 0)
  given-suc m = ground arith

  if-Numbered :
      (b : Bool) (s s' : Processor) → Numbered s' → Numbered s → Numbered (if b then s' else s)
  if-Numbered true s s' h' h = h'
  if-Numbered false s s' h' h = h

  start_root-Numbered :
      (config : Config) (id name : Text) (s : Processor)
      → Numbered s
      → Numbered (start_root config id name s)
  unfolding start_root
  start_root-Numbered config id name s h =
      let g = given-suc s.next in total-append (starts n) s.log _ ∙ omega (arith, g, h)

  start_child-Numbered :
      (config : Config) (span : Span) (s : Processor)
      → Numbered s
      → Numbered (start_child config span s)
  unfolding start_child
  start_child-Numbered config span s h =
      let g = given-suc s.next in total-append (starts n) s.log _ ∙ omega (arith, g, h)

  on_trace_end-Numbered :
      (id : Text) (recording : Bool) (s : Processor)
      → Numbered s
      → Numbered (on_trace_end id recording s)
  unfolding on_trace_end cleanup_spans_for_trace
  on_trace_end-Numbered id recording s h =
      let actions = end_root recording (get s.root_spans id) in
      let popped = record s { root_spans = delete id s.root_spans; log = s.log ++ actions } in
      let ids = keys_with id s.otel_spans in
      let z =
        total-end_root (starts n) (starts-Counts n) recording (get s.root_spans id)
        ∙ of_option_zero (get s.root_spans id) in
      (known-cleanup_loop n ids popped).1
      ∙ total-append (starts n) s.log actions
      ∙ omega (arith, z, h)
      ∙ ap (λ m. if ltb n m then 1 else 0) (sym (next-cleanup_loop ids popped))

  end_child-Numbered :
      (config : Config) (span : Span) (recording : Bool) (contents : Dict Content)
      (extraction : Extraction) (s : Processor)
      → Numbered s
      → Numbered (end_child config span recording contents extraction s)
  unfolding end_child
  end_child-Numbered config span recording contents extraction s h =
      let token = get s.tokens span.span_id in
      let o = get s.otel_spans span.span_id in
      let actions = finish_span config o recording span extraction in
      let t = total-detach_token (starts n) token ∙ of_option_zero token in
      let b =
        total-finish_span (starts n) (starts-Counts n) config o recording span extraction
        ∙ of_option_zero o in
      let inner = total-append (starts n) s.log (detach_token token) in
      total-append (starts n) (s.log ++ detach_token token) actions ∙ omega (arith, t, b, inner, h)

  shutdown-Numbered : (s : Processor) → Numbered s → Numbered (shutdown s)
  unfolding shutdown
  shutdown-Numbered s h =
      let e = total-end_all (starts n) (starts-Counts n) s.otel_spans ∙ held_zero s.otel_spans in
      let r = total-end_all (starts n) (starts-Counts n) s.root_spans ∙ held_zero s.root_spans in
      let inner = total-append (starts n) s.log (end_all s.otel_spans) in
      total-append (starts n) (s.log ++ end_all s.otel_spans) (end_all s.root_spans)
      ∙ omega (arith, e, r, inner, h)

  pub step-Numbered :
      (config : Config) (event : Event) (s : Processor)
      → Numbered s
      → Numbered (step config event s)
  unfolding step on_trace_start on_span_start on_span_end
  step-Numbered config (trace_start id name) s h =
      if-Numbered config.with_tracer s _ (start_root-Numbered config id name s h) h
  step-Numbered config (trace_end id recording) s h = on_trace_end-Numbered id recording s h
  step-Numbered config (span_start span) s h =
      if-Numbered (config.with_tracer && span.started) s _ (start_child-Numbered config span s h) h
  step-Numbered config (span_end span payload recording extract) s h =
      end_child-Numbered config span recording _ _ s h
  step-Numbered config shut_down s h = shutdown-Numbered s h

  pub run-Numbered :
      (config : Config) (events : List Event) (s : Processor)
      → Numbered s
      → Numbered (run config events s)
  unfolding run
  run-Numbered config [] s h = h
  run-Numbered config (event ∷ events) s h =
      run-Numbered config events (step config event s) (step-Numbered config event s h)

  pub init-Numbered : Numbered init
  unfolding init
  init-Numbered = ground arith
