-- ===== src/Genai/Chat.antt =====
-- `_ChatStreamMixin` of chat_wrappers.py in opentelemetry/instrumentation/openai_v2: a stream of chunks is
-- gathered into the messages that the invocation reports. `json.loads` is a parameter.
pub mod Once
pub mod Content
use opentelemetry_python_con.Common.{
  ℕ, Bool, true, false, Option, none, some, List, [], ◌∷◌, ◌++◌, Text, if◌then◌else◌, or_default,
  text, map,
}
use mathlib.Core.List.{flatten}
use opentelemetry_python_con.Genai.Stream.{Hooks}
use opentelemetry_python_con.Genai.Invocation.{Invocation, Api, stop, fail}
use opentelemetry_python_con.Genai.Buffers.{
  Chunk, Choice, Usage, ToolCallBuffer, ChoiceBuffer, truthy, build_choices,
}

-- what the mixin has gathered
pub record Gathered : Type 0 where
  pub choice_buffers : List ChoiceBuffer
  pub response_id : Option Text
  pub response_model : Option Text
  pub service_tier : Option Text
  pub prompt_tokens : Option ℕ
  pub completion_tokens : Option ℕ

unfoldable pub nothing : Gathered
nothing = record {
  choice_buffers = [];
  response_id = none;
  response_model = none;
  service_tier = none;
  prompt_tokens = none;
  completion_tokens = none;
}

-- `_set_response_id`, `_set_response_model` and `_set_response_service_tier`: the first value is kept.
unfoldable pub set_once : Option Text → Option Text → Option Text
set_once value old = if truthy old then old else if truthy value then value else old

-- with `chunk.choices`
unfoldable pub build_streaming_response : Option (List Choice) → Gathered → Gathered
build_streaming_response none g = g
build_streaming_response (some choices) g = record g {
  choice_buffers = build_choices choices g.choice_buffers;
}

-- with `chunk.usage`
unfoldable pub set_usage : Option Usage → Gathered → Gathered
set_usage none g = g
set_usage (some u) g = record g {
  completion_tokens = some u.completion_tokens;
  prompt_tokens = some u.prompt_tokens;
}

unfoldable pub process_chunk : Chunk → Gathered → Gathered
process_chunk chunk g = set_usage chunk.usage (
    build_streaming_response chunk.choices (record g {
      response_id = set_once chunk.id g.response_id;
      response_model = set_once chunk.model g.response_model;
      service_tier = set_once chunk.service_tier g.service_tier;
    }))

pub data Part (Json : Type 0) : Type 0 where
  text_part : Text → Part Json
  tool_call_request : Option Text → Option Text → Option Json → Part Json

-- An output message of the role "assistant".
pub record OutputMessage (Json : Type 0) : Type 0 where
  pub finish_reason : Text
  pub parts : List (Part Json)

-- The wrapper's state: what it has gathered, and the invocation with the fields that it sets.
pub record Chat (Json Context Error : Type 0) : Type 0 where
  pub capture_content : Bool
  pub gathered : Gathered
  pub invocation : Invocation Context Error
  pub response_model_name : Option Text
  pub response_id : Option Text
  pub input_tokens : Option ℕ
  pub output_tokens : Option ℕ
  pub finish_reasons : Option (List Text)
  pub response_service_tier : Option Text
  pub output_messages : List (OutputMessage Json)

-- `ChatStreamWrapper.__init__`, with an invocation whose fields are not set yet
unfoldable pub chat :
    {Json Context Error : Type 0} → Bool → Invocation Context Error → Chat Json Context Error
chat capture_content invocation = record {
  capture_content = capture_content;
  gathered = nothing;
  invocation = invocation;
  response_model_name = none;
  response_id = none;
  input_tokens = none;
  output_tokens = none;
  finish_reasons = none;
  response_service_tier = none;
  output_messages = [];
}

-- the finish reasons that are there and not empty
unfoldable pub reasons : List ChoiceBuffer → List Text
reasons [] = []
reasons (c ∷ cs) =
    let rest = reasons cs in
    elim c.finish_reason [ none ↦ rest | some r ↦ if truthy (some r) then r ∷ rest else rest ]

-- `json.loads`, or `none` for a `JSONDecodeError`; and a JSON value of a `str`.
module _ {Json : Type 0} (json_loads : Text → Option Json) (json_str : Text → Json) where
  unfoldable pub parsed_arguments : Text → Option Json
  parsed_arguments [] = none
  parsed_arguments (x ∷ xs) = some (or_default (json_loads (x ∷ xs)) (json_str (x ∷ xs)))

  unfoldable pub tool_call_parts : List (Option ToolCallBuffer) → List (Part Json)
  tool_call_parts [] = []
  tool_call_parts (none ∷ bs) = tool_call_parts bs
  tool_call_parts (some b ∷ bs) =
      tool_call_request b.function_name b.tool_call_id (parsed_arguments (flatten b.arguments))
      ∷ tool_call_parts bs

  unfoldable pub text_parts : List Text → List (Part Json)
  text_parts [] = []
  text_parts (t ∷ ts) = text_part (flatten (t ∷ ts)) ∷ []

  unfoldable pub output_message : ChoiceBuffer → OutputMessage Json
  output_message c = record {
    finish_reason = if truthy c.finish_reason then or_default c.finish_reason [] else text "error";
    parts = text_parts c.text_content ++ tool_call_parts c.tool_calls_buffers;
  }

  module _ {Context Error : Type 0} where
    unfoldable pub set_output_messages : Chat Json Context Error → Chat Json Context Error
    set_output_messages c =
        if c.capture_content
        then record c { output_messages = map output_message c.gathered.choice_buffers }
        else c

    -- `_cleanup` up to the call of `stop` or `fail`
    unfoldable pub set_response : Chat Json Context Error → Chat Json Context Error
    set_response c =
        let g = c.gathered in
        let found = reasons g.choice_buffers in
        set_output_messages (record c {
          response_model_name = g.response_model;
          response_id = g.response_id;
          input_tokens = g.prompt_tokens;
          output_tokens = g.completion_tokens;
          finish_reasons = elim found [ [] ↦ c.finish_reasons | r ∷ rs ↦ some (r ∷ rs) ];
          response_service_tier =
              if truthy g.service_tier then g.service_tier else c.response_service_tier;
        })

    -- `stop` or `fail`
    unfoldable pub end_invocation :
        Api Context Error
        → Option Error
        → Invocation Context Error
        → Invocation Context Error × Option Error
    end_invocation api none i = stop api i
    end_invocation api (some e) i = fail api e i

    -- with whether it raises, which is that of the invocation
    unfoldable pub cleanup :
        Api Context Error → Option Error → Chat Json Context Error → Chat Json Context Error × Bool
    cleanup api error c =
        let c' = set_response c in
        let (i, raised) = end_invocation api error c'.invocation in
        (record c' { invocation = i }, elim raised [ none ↦ false | some e ↦ true ])

    -- the hooks of `ChatStreamWrapper`
    unfoldable pub chat_hooks : Api Context Error → Hooks Chunk Error (Chat Json Context Error)
    chat_hooks api = record {
      process_chunk = λ chunk c. (record c { gathered = process_chunk chunk c.gathered }, false);
      on_stream_end = cleanup api none;
      on_stream_error = λ error. cleanup api (some error);
    }
