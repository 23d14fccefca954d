-- ===== src/Agents/Tests.antt =====
-- Runs of the trace processor on concrete inputs.
use opentelemetry_python_con.Common.{
  ℕ, ◌≤◌, ◌≡◌, ◌↔◌, refl, arith, true, false, Option, none, some, List, [], ◌∷◌, Text, text,
  text_eq, Dict, get, put,
}
use opentelemetry_python_con.Agents.Spans.{
  agent, generation, Span, Operation, invoke_agent, chat, Config, or_else,
}
use opentelemetry_python_con.Agents.Content.{
  Content, Payload, Message, parts_message, text_part, empty_content, find_agent_parent_span_id,
  merge_content_sequence, merge_kept, merge_loop, merge_one, kept_messages, without_placeholders,
  is_placeholder_message, placeholder_at, all_redacted, is_redacted, set_at, find_loop, is_visited,
  has_key, parent_of,
}
use opentelemetry_python_con.Agents.Content.Ancestor.{
  IsFound, Nearest, find_agent_parent_span_id-IsFound,
}
use opentelemetry_python_con.Agents.Content.Nearest.{find_agent_parent_span_id_iff}
use opentelemetry_python_con.Agents.Content.Merged.{real_at, merge_content_sequence-real}
use opentelemetry_python_con.Agents.Actions.{
  Extraction, end_early, end_root, finish_span, detach_token, complete, renaming, is_model_call,
  rename, get_operation, text_of, request_model_of, response_model_of, set_error_type,
}
use opentelemetry_python_con.Agents.Processor.{
  delete, keys_with, starts_with, cleanup_loop, cleanup_spans_for_trace, start_root, on_trace_start,
  on_trace_end, start_child, on_span_start, end_child, on_span_end, init, shutdown, Event,
  trace_start, trace_end, span_start, span_end, step, run,
}
use opentelemetry_python_con.Agents.Counts.{starts, ends, total}
use opentelemetry_python_con.Agents.Processor.Once.{run-ends_le, shutdown-run}

abbrev value : Operation → Text
value chat = text "chat"
value invoke_agent = text "invoke_agent"
value _ = text "other"

abbrev config : Config
config = record {
  with_tracer = true;
  system_name = text "openai";
  include_sensitive_data = true;
  operation_value = value;
  own_name = none;
  own_id = none;
  own_description = none;
  name_default = none;
  id_default = none;
  description_default = none;
  address = none;
  port = none;
}

-- An agent in the trace `t`, and a call of a model below it.
abbrev agent_span : Span
agent_span = record {
  span_id = text "a";
  trace_id = text "t";
  parent_id = none;
  started = true;
  span_data = agent;
  model = none;
  response_model = none;
  data_name = some (text "helper");
  error = none;
}

abbrev model_span : Span
model_span = record agent_span {
  span_id = text "b";
  parent_id = some (text "a");
  span_data = generation false true;
  model = some (text "gpt");
  data_name = none;
}

abbrev hello : Message
hello = parts_message (text "user") (text_part (text "hello") ∷ [])

abbrev hidden : Message
hidden = parts_message (text "user") (text_part (text "readacted") ∷ [])

abbrev payload : Payload
payload = record { input_messages = hello ∷ []; output_messages = []; system_instructions = [] }

abbrev extract : Option Content → Extraction
extract content = record { attributes = []; raised = none }

-- The agent is not ended before the shutdown.
abbrev events : List Event
events =
    trace_start (text "t") (text "workflow")
    ∷ span_start agent_span
    ∷ span_start model_span
    ∷ span_end model_span payload true extract
    ∷ trace_end (text "t") true
    ∷ []

model_span_ended : total (ends 2) (run config events init).log ≡ 1
unfolding init run step on_trace_start start_root on_trace_end cleanup_spans_for_trace cleanup_loop
    keys_with starts_with on_span_start start_child on_span_end end_child delete end_early end_root
    finish_span detach_token complete renaming is_model_call rename get_operation text_of
    request_model_of response_model_of set_error_type or_else get put text_eq
model_span_ended = refl

agent_span_open : total (ends 1) (run config events init).log ≡ 0
unfolding init run step on_trace_start start_root on_trace_end cleanup_spans_for_trace cleanup_loop
    keys_with starts_with on_span_start start_child on_span_end end_child delete end_early end_root
    finish_span detach_token complete renaming is_model_call rename get_operation text_of
    request_model_of response_model_of set_error_type or_else get put text_eq
agent_span_open = refl

run-ends_le_example : total (ends 2) (run config events init).log ≤ 1
run-ends_le_example = run-ends_le config events 2

shutdown-run_example :
    (total (starts 1) (shutdown (run config events init)).log ≡ 1)
    × (total (ends 1) (shutdown (run config events init)).log ≡ 1)
unfolding init run step on_trace_start start_root on_trace_end cleanup_spans_for_trace cleanup_loop
    keys_with starts_with on_span_start start_child on_span_end end_child delete get put text_eq
shutdown-run_example =
    shutdown-run config events 1 (refl, (refl, (refl, (tt, (tt, tt))))) (omega arith)

-- `b` is below `a`, and `c` and `d` are below each other.
abbrev parents : Dict (Option Text)
parents =
    (text "a", none)
    ∷ (text "b", some (text "a"))
    ∷ (text "c", some (text "d"))
    ∷ (text "d", some (text "c"))
    ∷ []

abbrev contents : Dict Content
contents = (text "a", empty_content) ∷ []

found_above : find_agent_parent_span_id parents contents (some (text "b")) ≡ some (some (text "a"))
unfolding find_agent_parent_span_id find_loop is_visited has_key get text_eq parent_of
found_above = refl

none_on_cycle : find_agent_parent_span_id parents contents (some (text "c")) ≡ some none
unfolding find_agent_parent_span_id find_loop is_visited has_key get text_eq parent_of
none_on_cycle = refl

find_agent_parent_span_id-IsFound_example :
    IsFound (find_agent_parent_span_id parents contents (some (text "c")))
find_agent_parent_span_id-IsFound_example =
    find_agent_parent_span_id-IsFound parents contents (some (text "c"))

find_agent_parent_span_id_iff_example :
    (find_agent_parent_span_id parents contents (some (text "b")) ≡ some (some (text "a")))
    ↔ ((n : ℕ) × Nearest parents contents n (some (text "b")) (text "a"))
find_agent_parent_span_id_iff_example =
    find_agent_parent_span_id_iff parents contents (some (text "b")) (text "a")

placeholder_ignored : merge_content_sequence true (hello ∷ []) (hidden ∷ hello ∷ []) ≡ hello ∷ []
unfolding merge_content_sequence merge_kept merge_loop merge_one kept_messages without_placeholders
    is_placeholder_message placeholder_at all_redacted is_redacted set_at text_eq
placeholder_ignored = refl

merge_content_sequence-real_example :
    real_at 0 (merge_content_sequence true (hello ∷ []) (hidden ∷ [])) ≡ true
unfolding is_placeholder_message all_redacted is_redacted text_eq
merge_content_sequence-real_example = merge_content_sequence-real 0 (hello ∷ []) (hidden ∷ []) refl
