-- ===== src/Agents/Spans.antt =====
-- What span_processor.py of the OpenAI Agents instrumentation derives from one span of the Agents SDK.
use opentelemetry_python_con.Common.{
  ℕ, zero, suc, Bool, true, false, Option, none, some, List, [], ◌∷◌, ◌++◌, Text, text,
  if◌then◌else◌,
}

-- The class of `span.span_data`. Of a generation: whether it has an `embedding_dimension`, and whether its
-- first input is a dict with a role.
pub data SpanData : Type 0 where
  generation : Bool → Bool → SpanData
  agent : SpanData
  function : SpanData
  response : SpanData
  transcription : SpanData
  speech : SpanData
  guardrail : SpanData
  handoff : SpanData
  other : SpanData

-- `span.error`, a dict that is not empty: its message and data as text, its type and its name
pub record SpanError : Type 0 where
  pub message : Text
  pub data_text : Text
  pub type_name : Option Text
  pub name : Option Text

-- A span of the SDK: `model` is that of its data, `response_model` that of the data's response, and
-- `data_name` the name of the data.
pub record Span : Type 0 where
  pub span_id : Text
  pub trace_id : Text
  pub parent_id : Option Text
  pub started : Bool
  pub span_data : SpanData
  pub model : Option Text
  pub response_model : Option Text
  pub data_name : Option Text
  pub error : Option SpanError

pub data Operation : Type 0 where
  chat : Operation
  text_completion : Operation
  embeddings : Operation
  create_agent : Operation
  invoke_agent : Operation
  execute_tool : Operation
  transcribe : Operation
  speak : Operation
  check_guardrail : Operation
  hand_off : Operation
  unknown : Operation

unfoldable pub get_operation_name : SpanData → Operation
get_operation_name (generation true role) = embeddings
get_operation_name (generation false true) = chat
get_operation_name (generation false false) = text_completion
get_operation_name agent = invoke_agent
get_operation_name function = execute_tool
get_operation_name response = chat
get_operation_name transcription = transcribe
get_operation_name speech = speak
get_operation_name guardrail = check_guardrail
get_operation_name handoff = hand_off
get_operation_name other = unknown

pub data SpanKind : Type 0 where
  internal : SpanKind
  client : SpanKind
  server : SpanKind

unfoldable pub get_span_kind : SpanData → SpanKind
get_span_kind (generation embedding role) = client
get_span_kind agent = client
get_span_kind function = internal
get_span_kind response = client
get_span_kind transcription = client
get_span_kind speech = client
get_span_kind guardrail = internal
get_span_kind handoff = internal
get_span_kind other = internal

unfoldable pub is_agent : SpanData → Bool
is_agent agent = true
is_agent _ = false

unfoldable pub is_function : SpanData → Bool
is_function function = true
is_function _ = false

-- `x or y` of optional strings
unfoldable pub or_else : Option Text → Option Text → Option Text
or_else none y = y
or_else (some []) y = y
or_else (some (c ∷ cs)) y = some (c ∷ cs)

-- `f"{base_name} {name}" if name else base_name`
unfoldable pub with_name : Text → Option Text → Text
with_name base none = base
with_name base (some []) = base
with_name base (some (c ∷ cs)) = base ++ text " " ++ c ∷ cs

-- The values of the operations, which are for the most part constants of the semantic conventions.
unfoldable pub get_span_name :
    (Operation → Text) → Operation → Option Text → Option Text → Option Text → Text
get_span_name value chat model agent_name tool_name = with_name (value chat) model
get_span_name value text_completion model agent_name tool_name =
    with_name (value text_completion) model
get_span_name value embeddings model agent_name tool_name = with_name (value embeddings) model
get_span_name value transcribe model agent_name tool_name = with_name (value transcribe) model
get_span_name value speak model agent_name tool_name = with_name (value speak) model
get_span_name value create_agent model agent_name tool_name =
    with_name (value create_agent) agent_name
get_span_name value invoke_agent model agent_name tool_name =
    with_name (value invoke_agent) agent_name
get_span_name value execute_tool model agent_name tool_name =
    with_name (value execute_tool) tool_name
get_span_name value hand_off model agent_name tool_name = with_name (value hand_off) agent_name
get_span_name value check_guardrail model agent_name tool_name = value check_guardrail
get_span_name value unknown model agent_name tool_name = value unknown

pub data Status : Type 0 where
  ok : Status
  error_status : Text → Status

unfoldable pub get_span_status : Option SpanError → Status
get_span_status none = ok
get_span_status (some e) = error_status (e.message ++ text ": " ++ e.data_text)

-- An attribute of a span with its value, by its key.
pub data Attribute : Type 0 where
  provider_name : Text → Attribute
  system : Text → Attribute
  operation_name : Operation → Attribute
  agent_name : Text → Attribute
  agent_id : Text → Attribute
  agent_description : Text → Attribute
  server_address : Text → Attribute
  server_port : ℕ → Attribute
  request_model : Text → Attribute
  response_model : Text → Attribute
  tool_name : Text → Attribute
  error_type : Text → Attribute
  other_attribute : Text → Text → Attribute

-- What `__init__` keeps: `with_tracer` is whether there is a tracer. The addresses are those that are
-- resolved from the arguments and the base URL.
pub record Config : Type 0 where
  pub with_tracer : Bool
  pub system_name : Text
  pub include_sensitive_data : Bool
  pub operation_value : Operation → Text
  pub own_name : Option Text
  pub own_id : Option Text
  pub own_description : Option Text
  pub name_default : Option Text
  pub id_default : Option Text
  pub description_default : Option Text
  pub address : Option Text
  pub port : Option ℕ

-- `if x: attributes[key] = x`
unfoldable pub given : (Text → Attribute) → Option Text → List Attribute
given key none = []
given key (some []) = []
given key (some (c ∷ cs)) = key (c ∷ cs) ∷ []

unfoldable pub given_port : Option ℕ → List Attribute
given_port none = []
given_port (some zero) = []
given_port (some (suc port)) = server_port (suc port) ∷ []

unfoldable pub get_server_attributes : Config → List Attribute
get_server_attributes config = given server_address config.address ++ given_port config.port

-- The attributes of a root span, and those of a span when it starts.
unfoldable pub root_attributes : Config → List Attribute
root_attributes config =
    provider_name config.system_name
      ∷ system config.system_name
      ∷ operation_name invoke_agent
      ∷ given agent_name config.own_name
    ++ given agent_id config.own_id
    ++ given agent_description config.own_description
    ++ get_server_attributes config

unfoldable pub start_attributes : Config → SpanData → List Attribute
start_attributes config span_data =
    provider_name config.system_name
      ∷ system config.system_name
      ∷ operation_name (get_operation_name span_data)
      ∷ given agent_name (or_else config.own_name config.name_default)
    ++ given agent_id (or_else config.own_id config.id_default)
    ++ given agent_description (or_else config.own_description config.description_default)
    ++ get_server_attributes config

-- `model` of the data, or else of its response
unfoldable pub model_of : Span → Option Text
model_of span = elim span.model [ none ↦ span.response_model | some m ↦ some m ]

-- The name of a span when it starts.
unfoldable pub start_name : Config → Span → Text
start_name config span =
    get_span_name config.operation_value (get_operation_name span.span_data) (model_of span)
      (or_else config.own_name
        (or_else (if is_agent span.span_data then span.data_name else none) config.name_default))
      (if is_function span.span_data then span.data_name else none)
