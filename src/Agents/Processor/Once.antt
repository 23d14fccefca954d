-- ===== src/Agents/Processor/Once.antt =====
-- Each span is ended once.
use opentelemetry_python_con.Common.{
  ℕ, ◌≤◌, ◌<◌, ◌≡◌, refl, ◌&&◌, none, List, [], ◌∷◌, arith, if◌then◌else◌, get,
}
use opentelemetry_python_con.Agents.Spans.{Config}
use opentelemetry_python_con.Agents.Processor.{
  Processor, init, shutdown, Event, trace_start, trace_end, span_start, span_end, shut_down, step,
  run, on_span_end,
}
use opentelemetry_python_con.Agents.Counts.{one, starts, ends, total, of_option}
use opentelemetry_python_con.Agents.Processor.Ended.{
  known, started, Kept, on_trace_start-Kept, on_trace_end-Kept, on_span_start-Kept, end_child-Kept,
  shutdown-Kept,
}
use opentelemetry_python_con.Agents.Processor.Numbers.{init-Numbered, run-Numbered, step-Numbered}

-- The id that an event starts a span for is not that of a span that is open.
abbrev pub Unused : Event → Processor → Type 0
Unused (trace_start id name) s = get s.root_spans id ≡ none
Unused (span_start span) s = get s.otel_spans span.span_id ≡ none
Unused (trace_end id recording) s = Unit
Unused (span_end span payload recording extract) s = Unit
Unused shut_down s = Unit

abbrev pub AllUnused : Config → List Event → Processor → Type 0
AllUnused config [] s = Unit
AllUnused config (event ∷ events) s = Unused event s × AllUnused config events (step config event s)

module _ (n : ℕ) (config : Config) where
  lost : Event → Processor → ℕ
  lost (trace_start id name) s =
      if config.with_tracer then of_option (λ m. one m n) (get s.root_spans id) else 0
  lost (span_start span) s =
      if config.with_tracer && span.started
      then of_option (λ m. one m n) (get s.otel_spans span.span_id)
      else 0
  lost (trace_end id recording) s = 0
  lost (span_end span payload recording extract) s = 0
  lost shut_down s = 0

  step-Kept : (event : Event) (s : Processor) → Kept n s (lost event s) (step config event s)
  unfolding step lost on_span_end
  step-Kept (trace_start id name) s = on_trace_start-Kept n config id name s
  step-Kept (trace_end id recording) s = on_trace_end-Kept n id recording s
  step-Kept (span_start span) s = on_span_start-Kept n config span s
  step-Kept (span_end span payload recording extract) s =
      end_child-Kept n config span recording _ _ s
  step-Kept shut_down s = shutdown-Kept n s

  Unused-lost : (event : Event) (s : Processor) → Unused event s → lost event s ≡ 0
  unfolding lost
  Unused-lost (trace_start id name) s h = ground arith
  Unused-lost (span_start span) s h = ground arith
  Unused-lost (trace_end id recording) s h = refl
  Unused-lost (span_end span payload recording extract) s h = refl
  Unused-lost shut_down s h = refl

  -- No span is ended more often than it is started.
  known-run :
      (events : List Event) (s : Processor)
      → known n s ≤ started n s
      → known n (run config events s) ≤ started n (run config events s)
  unfolding run
  known-run [] s h = h
  known-run (event ∷ events) s h =
      let k = step-Kept event s in known-run events (step config event s) (omega (arith, k, h))

  known-run_unused :
      (events : List Event) (s : Processor)
      → AllUnused config events s
      → known n s ≡ started n s
      → known n (run config events s) ≡ started n (run config events s)
  unfolding run
  known-run_unused [] s unused h = h
  known-run_unused (event ∷ events) s (u, unused) h =
      let k = step-Kept event s in
      let z = Unused-lost event s u in
      known-run_unused events (step config event s) unused (omega (arith, k, z, h))

-- Whatever traces and spans start and end, and in whatever order: no span is ended twice.
pub run-ends_le :
    (config : Config) (events : List Event) (n : ℕ)
    → total (ends n) (run config events init).log ≤ 1
unfolding init
run-ends_le config events n =
    let k = known-run n config events init (omega arith) in
    let s = run-Numbered n config events init (init-Numbered n) in ground (arith, k, s)

-- If no trace and no span starts with the id of one that is open, then after a shutdown each span that was
-- started is ended, and once.
pub shutdown-run :
    (config : Config) (events : List Event) (n : ℕ)
    → AllUnused config events init
    → n < (run config events init).next
    → (total (starts n) (shutdown (run config events init)).log ≡ 1)
      × (total (ends n) (shutdown (run config events init)).log ≡ 1)
unfolding init shutdown step
shutdown-run config events n unused lt =
    let k = known-run_unused n config events init unused refl in
    let d = shutdown-Kept n (run config events init) in
    let s =
      step-Numbered n config shut_down (run config events init)
        (run-Numbered n config events init (init-Numbered n)) in
    let one_start : total (starts n) (shutdown (run config events init)).log ≡ 1 =
      ground (arith, s, lt) in
    (one_start, omega (arith, k, d, one_start))
