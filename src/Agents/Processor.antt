-- ===== src/Agents/Processor.antt =====
-- `GenAISemanticProcessor` of span_processor.py: its state, and what it does when traces and spans of the
-- Agents SDK start and end; `log` has its calls of the SDK in order. What the attributes of a span are,
-- whether it records, and whether it raises are part of an event.
pub mod Ended
pub mod Numbers
pub mod Once
use opentelemetry_python_con.Common.{
  ℕ, ◌+◌, ◌==◌, Bool, true, false, not, ◌&&◌, Option, none, some, List, [], ◌∷◌, ◌++◌, Text, text,
  text_eq, if◌then◌else◌, Dict, get, put,
}
use opentelemetry_python_con.Agents.Spans.{
  Span, server, get_span_kind, is_agent, or_else, Config, root_attributes, start_attributes,
  start_name,
}
use opentelemetry_python_con.Agents.Content.{
  Content, Payload, empty_content, has_key, update_agent_aggregate,
}
use opentelemetry_python_con.Agents.Actions.{
  Action, start_span, attach, end_early, end_root, Extraction, detach_token, finish_span, end_all,
}

pub record Processor : Type 0 where
  pub root_spans : Dict ℕ
  pub otel_spans : Dict ℕ
  pub tokens : Dict ℕ
  pub span_parents : Dict (Option Text)
  pub agent_content : Dict Content
  pub next : ℕ
  pub log : List Action

unfoldable pub init : Processor
init = record {
  root_spans = [];
  otel_spans = [];
  tokens = [];
  span_parents = [];
  agent_content = [];
  next = 0;
  log = [];
}

-- `d.pop(key, None)`, of which the value is `get d key`
unfoldable pub delete : {V : Type 0} → Text → Dict V → Dict V
delete key [] = []
delete key ((k, v) ∷ d) = let rest = delete key d in if text_eq k key then d else (k, v) ∷ rest

-- `key.startswith(prefix)`
unfoldable pub starts_with : Text → Text → Bool
starts_with key [] = true
starts_with [] (p ∷ ps) = false
starts_with (c ∷ cs) (p ∷ ps) = (c == p) && starts_with cs ps

unfoldable pub keys_with : Text → Dict ℕ → List Text
keys_with prefix [] = []
keys_with prefix ((k, v) ∷ d) =
    let rest = keys_with prefix d in if starts_with k prefix then k ∷ rest else rest

unfoldable pub cleanup_loop : List Text → Processor → Processor
cleanup_loop [] s = s
cleanup_loop (id ∷ ids) s = cleanup_loop ids (record s {
  otel_spans = delete id s.otel_spans;
  tokens = delete id s.tokens;
  log = s.log ++ end_early (text "Trace ended before span completion") (get s.otel_spans id);
})

unfoldable pub cleanup_spans_for_trace : Text → Processor → Processor
cleanup_spans_for_trace trace_id s = cleanup_loop (keys_with trace_id s.otel_spans) s

-- the root span of a trace
unfoldable pub start_root : Config → Text → Text → Processor → Processor
start_root config trace_id name s = record s {
  root_spans = put trace_id s.next s.root_spans;
  next = s.next + 1;
  log = s.log ++ start_span s.next name none (root_attributes config) server ∷ [];
}

unfoldable pub on_trace_start : Config → Text → Text → Processor → Processor
on_trace_start config trace_id name s =
    if config.with_tracer then start_root config trace_id name s else s

unfoldable pub on_trace_end : Text → Bool → Processor → Processor
on_trace_end trace_id recording s = cleanup_spans_for_trace trace_id (record s {
  root_spans = delete trace_id s.root_spans;
  log = s.log ++ end_root recording (get s.root_spans trace_id);
})

-- the span to start another one under; with `none` it is started in the current context
unfoldable pub parent_span : Span → Processor → Option ℕ
parent_span span s = elim span.parent_id [
  | none ↦ get s.root_spans span.trace_id
  | some [] ↦ get s.root_spans span.trace_id
  | some (c ∷ cs) ↦ get s.otel_spans (c ∷ cs)
]

-- the span of OpenTelemetry for a span, in whose context the code goes on
unfoldable pub start_child : Config → Span → Processor → Processor
start_child config span s = record s {
  otel_spans = put span.span_id s.next s.otel_spans;
  tokens = put span.span_id s.next s.tokens;
  span_parents = put span.span_id span.parent_id s.span_parents;
  agent_content =
      if is_agent span.span_data && not (has_key s.agent_content span.span_id)
      then put span.span_id empty_content s.agent_content
      else s.agent_content;
  next = s.next + 1;
  log =
      s.log
      ++ start_span s.next (start_name config span) (parent_span span s)
          (start_attributes config span.span_data) (get_span_kind span.span_data)
        ∷ attach s.next
        ∷ [];
}

unfoldable pub on_span_start : Config → Span → Processor → Processor
on_span_start config span s =
    if config.with_tracer && span.started then start_child config span s else s

-- What is gathered for an agent goes to the extraction of its own attributes.
unfoldable pub content_for : Span → Dict Content → Option Content
content_for span contents = if is_agent span.span_data then get contents span.span_id else none

-- the span of OpenTelemetry that is popped, with what is gathered and extracted
unfoldable pub end_child : Config → Span → Bool → Dict Content → Extraction → Processor → Processor
end_child config span recording contents extraction s = record s {
  otel_spans = delete span.span_id s.otel_spans;
  tokens = delete span.span_id s.tokens;
  span_parents = delete span.span_id s.span_parents;
  agent_content = if is_agent span.span_data then delete span.span_id contents else contents;
  log =
      s.log
      ++ detach_token (get s.tokens span.span_id)
      ++ finish_span config (get s.otel_spans span.span_id) recording span extraction;
}

unfoldable pub on_span_end :
    Config → Span → Payload → Bool → (Option Content → Extraction) → Processor → Processor
on_span_end config span payload recording extract s =
    let contents =
      update_agent_aggregate config.include_sensitive_data s.span_parents span.parent_id
        (or_else span.model span.response_model) payload s.agent_content in
    end_child config span recording contents (extract (content_for span contents)) s

unfoldable pub shutdown : Processor → Processor
shutdown s = record {
  root_spans = [];
  otel_spans = [];
  tokens = [];
  span_parents = [];
  agent_content = [];
  next = s.next;
  log = s.log ++ end_all s.otel_spans ++ end_all s.root_spans;
}

-- A call of the processor; `trace_start` has the id and the name of a trace.
pub data Event : Type 0 where
  trace_start : Text → Text → Event
  trace_end : Text → Bool → Event
  span_start : Span → Event
  span_end : Span → Payload → Bool → (Option Content → Extraction) → Event
  shut_down : Event

unfoldable pub step : Config → Event → Processor → Processor
step config (trace_start trace_id name) s = on_trace_start config trace_id name s
step config (trace_end trace_id recording) s = on_trace_end trace_id recording s
step config (span_start span) s = on_span_start config span s
step config (span_end span payload recording extract) s =
    on_span_end config span payload recording extract s
step config shut_down s = shutdown s

unfoldable pub run : Config → List Event → Processor → Processor
run config [] s = s
run config (event ∷ events) s = run config events (step config event s)
