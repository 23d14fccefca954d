-- ===== src/Genai/Buffers.antt =====
-- chat_buffers.py of opentelemetry/instrumentation/openai_v2, and the loop over the choices of a chunk in
-- `_build_streaming_response` of chat_wrappers.py. Indices are natural numbers, and the SDK's chunks have
-- the fields that it declares.
mod Changes
pub mod Arguments
use opentelemetry_python_con.Common.{
  ℕ, ◌+◌, ◌-◌, zero, suc, Bool, true, false, Option, none, some, List, [], ◌∷◌, ◌++◌, length, Text,
  if◌then◌else◌, or_default,
}

-- The chunks of the SDK.
pub record Function : Type 0 where
  pub name : Option Text
  pub arguments : Option Text

pub record ToolCallDelta : Type 0 where
  pub index : ℕ
  pub id : Option Text
  pub function : Option Function

pub record Delta : Type 0 where
  pub content : Option Text
  pub tool_calls : Option (List ToolCallDelta)

pub record Choice : Type 0 where
  pub index : ℕ
  pub delta : Option Delta
  pub finish_reason : Option Text

pub record Usage : Type 0 where
  pub prompt_tokens : ℕ
  pub completion_tokens : ℕ

pub record Chunk : Type 0 where
  pub id : Option Text
  pub model : Option Text
  pub service_tier : Option Text
  pub choices : Option (List Choice)
  pub usage : Option Usage

pub record ToolCallBuffer : Type 0 where
  pub index : ℕ
  pub tool_call_id : Option Text
  pub function_name : Option Text
  pub arguments : List Text

pub record ChoiceBuffer : Type 0 where
  pub index : ℕ
  pub finish_reason : Option Text
  pub text_content : List Text
  pub tool_calls_buffers : List (Option ToolCallBuffer)

-- `ToolCallBuffer(index, tool_call_id, function_name)` and `ChoiceBuffer(index)`
unfoldable pub tool_call_buffer : ℕ → Option Text → Option Text → ToolCallBuffer
tool_call_buffer index tool_call_id function_name = record {
  index = index;
  tool_call_id = tool_call_id;
  function_name = function_name;
  arguments = [];
}

unfoldable pub choice_buffer : ℕ → ChoiceBuffer
choice_buffer index = record {
  index = index;
  finish_reason = none;
  text_content = [];
  tool_calls_buffers = [];
}

-- `for i in range(len(xs), n): xs.append(make(i))`, by the number of rounds
unfoldable pub fill {ℓ} : {A : Type ℓ} → (ℕ → A) → ℕ → List A → List A
fill make zero xs = xs
fill make (suc rounds) xs = fill make rounds (xs ++ make (length xs) ∷ [])

unfoldable pub fill_to {ℓ} : {A : Type ℓ} → (ℕ → A) → ℕ → List A → List A
fill_to make n xs = fill make (n - length xs) xs

-- `xs[i] = f(xs[i])`, at an index in range
unfoldable pub change_at {ℓ} : {A : Type ℓ} → (A → A) → ℕ → List A → List A
change_at f i [] = []
change_at f zero (x ∷ xs) = f x ∷ xs
change_at f (suc i) (x ∷ xs) = x ∷ change_at f i xs

unfoldable pub append_arguments : Option Text → ToolCallBuffer → ToolCallBuffer
append_arguments none b = b
append_arguments (some t) b = record b { arguments = b.arguments ++ t ∷ [] }

-- `function.name if function else None`
unfoldable pub function_name : Option Function → Option Text
function_name none = none
function_name (some f) = f.name

unfoldable pub extend_with : Option Function → ToolCallBuffer → Option ToolCallBuffer
extend_with none b = some b
extend_with (some f) b = some (append_arguments f.arguments b)

-- the buffer at the index of the call, made if there is none, with the arguments of the call
unfoldable pub extend_buffer : ToolCallDelta → Option ToolCallBuffer → Option ToolCallBuffer
extend_buffer call buffer =
    extend_with call.function
      (or_default buffer (tool_call_buffer call.index call.id (function_name call.function)))

unfoldable pub append_tool_call : ToolCallDelta → ChoiceBuffer → ChoiceBuffer
append_tool_call call c = record c {
  tool_calls_buffers =
      change_at (extend_buffer call) call.index
        (fill_to (λ _. none) (call.index + 1) c.tool_calls_buffers);
}

unfoldable pub append_text_content : Text → ChoiceBuffer → ChoiceBuffer
append_text_content content c = record c { text_content = c.text_content ++ content ∷ [] }

-- A `str` that may be `None` is true if it is there and not empty.
abbrev pub truthy : Option Text → Bool
truthy none = false
truthy (some []) = false
truthy (some (x ∷ xs)) = true

unfoldable pub append_tool_calls : List ToolCallDelta → ChoiceBuffer → ChoiceBuffer
append_tool_calls [] c = c
append_tool_calls (call ∷ calls) c = append_tool_calls calls (append_tool_call call c)

unfoldable pub set_finish_reason : Option Text → ChoiceBuffer → ChoiceBuffer
set_finish_reason reason c = if truthy reason then record c { finish_reason = reason } else c

unfoldable pub add_content : Option Text → ChoiceBuffer → ChoiceBuffer
add_content none c = c
add_content (some content) c = append_text_content content c

unfoldable pub add_tool_calls : Option (List ToolCallDelta) → ChoiceBuffer → ChoiceBuffer
add_tool_calls none c = c
add_tool_calls (some calls) c = append_tool_calls calls c

-- what a choice of a chunk changes in its buffer
unfoldable pub extend_choice : Option Text → Delta → ChoiceBuffer → ChoiceBuffer
extend_choice finish_reason delta c =
    add_tool_calls delta.tool_calls (add_content delta.content (set_finish_reason finish_reason c))

-- the body of the loop, with the fields of a choice
unfoldable pub build_choice : ℕ → Option Text → Option Delta → List ChoiceBuffer → List ChoiceBuffer
build_choice index finish_reason none buffers = buffers
build_choice index finish_reason (some delta) buffers =
    change_at (extend_choice finish_reason delta) index (fill_to choice_buffer (index + 1) buffers)

unfoldable pub build_choices : List Choice → List ChoiceBuffer → List ChoiceBuffer
build_choices [] buffers = buffers
build_choices (choice ∷ choices) buffers =
    build_choices choices (build_choice choice.index choice.finish_reason choice.delta buffers)
