-- ===== src/Agents/Actions.antt =====
-- The calls of the SDK that `GenAISemanticProcessor` of span_processor.py makes for a span. A span of
-- OpenTelemetry is a number, and so is the token of its context.
use opentelemetry_python_con.Common.{
  ℕ, Bool, true, false, Option, none, some, List, [], ◌∷◌, ◌++◌, map, Text, text, if◌then◌else◌,
  Dict,
}
use opentelemetry_python_con.Agents.Spans.{
  SpanData, generation, response, SpanError, Span, Operation, SpanKind, or_else, get_span_name,
  Status, ok, error_status, get_span_status, Attribute, operation_name, agent_name, request_model,
  response_model, tool_name, error_type, Config,
}

pub data Action : Type 0 where
  start_span : ℕ → Text → Option ℕ → List Attribute → SpanKind → Action
  attach : ℕ → Action
  detach : ℕ → Action
  set_attribute : ℕ → Attribute → Action
  update_name : ℕ → Text → Action
  set_status : ℕ → Status → Action
  record_metrics : ℕ → List Attribute → Action
  end_span : ℕ → Action

-- What `_extract_genai_attributes` yields, and the text of the exception that ends it, if one does.
pub record Extraction : Type 0 where
  pub attributes : List Attribute
  pub raised : Option Text

-- A span that is popped is ended with an error.
unfoldable pub end_early : Text → Option ℕ → List Action
end_early reason none = []
end_early reason (some n) = set_status n (error_status reason) ∷ end_span n ∷ []

unfoldable pub end_all : Dict ℕ → List Action
end_all [] = []
end_all ((k, n) ∷ d) = end_early (text "Application shutdown") (some n) ++ end_all d

unfoldable pub end_root : Bool → Option ℕ → List Action
end_root recording none = []
end_root recording (some n) =
    if recording then set_status n ok ∷ end_span n ∷ [] else end_span n ∷ []

unfoldable pub detach_token : Option ℕ → List Action
detach_token none = []
detach_token (some n) = detach n ∷ []

-- The last value that a key was given, for the keys that are read.
unfoldable pub get_operation : List Attribute → Option Operation
get_operation [] = none
get_operation (operation_name op ∷ attrs) = elim (get_operation attrs) [
  | none ↦ some op
  | some later ↦ some later
]
get_operation (_ ∷ attrs) = get_operation attrs

unfoldable pub text_of : (Attribute → Option Text) → List Attribute → Option Text
text_of key [] = none
text_of key (a ∷ attrs) = elim (text_of key attrs) [ none ↦ key a | some later ↦ some later ]

unfoldable pub request_model_of : Attribute → Option Text
request_model_of (request_model t) = some t
request_model_of _ = none

unfoldable pub response_model_of : Attribute → Option Text
response_model_of (response_model t) = some t
response_model_of _ = none

unfoldable pub agent_name_of : Attribute → Option Text
agent_name_of (agent_name t) = some t
agent_name_of _ = none

unfoldable pub tool_name_of : Attribute → Option Text
tool_name_of (tool_name t) = some t
tool_name_of _ = none

unfoldable pub is_model_call : SpanData → Bool
is_model_call (generation embedding role) = true
is_model_call response = true
is_model_call _ = false

-- `update_name`, where there are an operation and a model; a span that has the name already keeps it.
unfoldable pub rename : Config → ℕ → Option Operation → Option Text → List Attribute → List Action
rename config n none model attrs = []
rename config n (some op) none attrs = []
rename config n (some op) (some []) attrs = []
rename config n (some op) (some (c ∷ cs)) attrs =
    update_name n (
      get_span_name config.operation_value op (some (c ∷ cs)) (text_of agent_name_of attrs)
        (text_of tool_name_of attrs))
    ∷ []

unfoldable pub put_error_type : ℕ → Option Text → List Action
put_error_type n none = []
put_error_type n (some []) = []
put_error_type n (some (c ∷ cs)) = set_attribute n (error_type (c ∷ cs)) ∷ []

unfoldable pub set_error_type : ℕ → Option SpanError → List Action
set_error_type n none = []
set_error_type n (some e) = put_error_type n (or_else e.type_name e.name)

-- the new name of a call of a model
unfoldable pub renaming : Config → ℕ → Span → List Attribute → List Action
renaming config n span attrs =
    if is_model_call span.span_data
    then rename config n (get_operation attrs)
        (or_else (text_of request_model_of attrs) (text_of response_model_of attrs)) attrs
    else []

-- What follows the attributes in the `try` of `on_span_end`, or the handler of the exception.
unfoldable pub complete : Config → ℕ → Span → List Attribute → Option Text → List Action
complete config n span attrs (some reason) = set_status n (error_status reason) ∷ end_span n ∷ []
complete config n span attrs none =
    renaming config n span attrs
    ++ set_status n (get_span_status span.error) ∷ set_error_type n span.error
    ++ record_metrics n attrs ∷ end_span n ∷ []

-- The calls for a span that is popped, which is none where there is no such span.
unfoldable pub finish_span : Config → Option ℕ → Bool → Span → Extraction → List Action
finish_span config none recording span extraction = []
finish_span config (some n) recording span extraction =
    if recording
    then map (set_attribute n) extraction.attributes
      ++ complete config n span extraction.attributes extraction.raised
    else end_span n ∷ []
