-- ===== src/Genai/Buffers/Arguments.antt =====
-- The text and the arguments that the buffers hold, index by index.
use mathlib.Core.List.{append_assoc}
use opentelemetry_python_con.Common.{
  ℕ, ◌≡◌, refl, sym, ap, ◌∙◌, Option, none, some, List, [], ◌∷◌, ◌++◌, get_elem?, append-eq-nil,
  Text, ◌==◌, if◌then◌else◌, Bool-cases, inl, inr,
}
use opentelemetry_python_con.Genai.Buffers.{
  Function, ToolCallDelta, Delta, Choice, ToolCallBuffer, ChoiceBuffer, tool_call_buffer,
  choice_buffer, append_arguments, extend_buffer, append_tool_call, append_tool_calls,
  append_text_content, extend_choice, truthy, build_choices, function_name, extend_with,
  set_finish_reason, add_content, add_tool_calls, build_choice,
}
use opentelemetry_python_con.Genai.Buffers.Changes.{seen-change}

-- the arguments in a part of a chunk that are for the call with an index
abbrev pub one : Option Text → List Text
one none = []
one (some t) = t ∷ []

abbrev pub function_arguments : Option Function → List Text
function_arguments none = []
function_arguments (some f) = one f.arguments

abbrev pub call_arguments : ToolCallDelta → List Text
call_arguments call = function_arguments call.function

abbrev pub calls_arguments : ℕ → List ToolCallDelta → List Text
calls_arguments i [] = []
calls_arguments i (call ∷ calls) =
    (if call.index == i then call_arguments call else []) ++ calls_arguments i calls

abbrev pub optional_arguments : ℕ → Option (List ToolCallDelta) → List Text
optional_arguments i none = []
optional_arguments i (some calls) = calls_arguments i calls

abbrev pub delta_arguments : ℕ → Delta → List Text
delta_arguments i delta = optional_arguments i delta.tool_calls

abbrev pub delta_text : Delta → List Text
delta_text delta = one delta.content

abbrev pub in_choice : (Delta → List Text) → ℕ → ℕ → Option Delta → List Text
in_choice of_delta j index none = []
in_choice of_delta j index (some d) = if index == j then of_delta d else []

-- what the choices with an index hold of something
abbrev pub in_choices : (Delta → List Text) → ℕ → List Choice → List Text
in_choices of_delta j [] = []
in_choices of_delta j (choice ∷ choices) =
    in_choice of_delta j choice.index choice.delta ++ in_choices of_delta j choices

-- what the buffers hold
abbrev held : Option (Option ToolCallBuffer) → List Text
held none = []
held (some none) = []
held (some (some b)) = b.arguments

abbrev pub arguments_at : ℕ → ChoiceBuffer → List Text
arguments_at i c = held (get_elem? c.tool_calls_buffers i)

abbrev seen_in : (ChoiceBuffer → List Text) → Option ChoiceBuffer → List Text
seen_in of_buffer none = []
seen_in of_buffer (some c) = of_buffer c

abbrev pub in_buffers : (ChoiceBuffer → List Text) → ℕ → List ChoiceBuffer → List Text
in_buffers of_buffer j cs = seen_in of_buffer (get_elem? cs j)

append_arguments-held :
    (t : Option Text) (b : ToolCallBuffer) → (append_arguments t b).arguments ≡ b.arguments ++ one t
unfolding append_arguments
append_arguments-held none b = sym (append-eq-nil b.arguments)
append_arguments-held (some t) b = refl

extend_with-held :
    (f : Option Function) (b : ToolCallBuffer)
    → held (some (extend_with f b)) ≡ b.arguments ++ function_arguments f
unfolding extend_with
extend_with-held none b = sym (append-eq-nil b.arguments)
extend_with-held (some f) b = append_arguments-held f.arguments b

extend_buffer-held :
    (call : ToolCallDelta) (b : Option ToolCallBuffer)
    → held (some (extend_buffer call b)) ≡ held (some b) ++ call_arguments call
unfolding extend_buffer tool_call_buffer
extend_buffer-held call none =
    extend_with-held call.function
      (tool_call_buffer call.index call.id (function_name call.function))
extend_buffer-held call (some b) = extend_with-held call.function b

append_tool_call-arguments :
    (i : ℕ) (call : ToolCallDelta) (c : ChoiceBuffer)
    → arguments_at i (append_tool_call call c)
      ≡ arguments_at i c ++ (if call.index == i then call_arguments call else [])
unfolding append_tool_call
append_tool_call-arguments i call c =
    seen-change held (λ _. none) refl (λ _. refl) (extend_buffer call) (call_arguments call)
      (extend_buffer-held call) call.index i c.tool_calls_buffers

append_tool_calls-arguments :
    (i : ℕ) (calls : List ToolCallDelta) (c : ChoiceBuffer)
    → arguments_at i (append_tool_calls calls c) ≡ arguments_at i c ++ calls_arguments i calls
unfolding append_tool_calls
append_tool_calls-arguments i [] c = sym (append-eq-nil (arguments_at i c))
append_tool_calls-arguments i (call ∷ calls) c =
    append_tool_calls-arguments i calls (append_tool_call call c)
    ∙ ap (λ l. l ++ calls_arguments i calls) (append_tool_call-arguments i call c)
    ∙ append_assoc (arguments_at i c) _ (calls_arguments i calls)

append_tool_calls-text :
    (calls : List ToolCallDelta) (c : ChoiceBuffer)
    → (append_tool_calls calls c).text_content ≡ c.text_content
unfolding append_tool_calls append_tool_call
append_tool_calls-text [] c = refl
append_tool_calls-text (call ∷ calls) c = append_tool_calls-text calls (append_tool_call call c)

add_tool_calls-arguments :
    (i : ℕ) (calls : Option (List ToolCallDelta)) (c : ChoiceBuffer)
    → arguments_at i (add_tool_calls calls c) ≡ arguments_at i c ++ optional_arguments i calls
unfolding add_tool_calls
add_tool_calls-arguments i none c = sym (append-eq-nil (arguments_at i c))
add_tool_calls-arguments i (some calls) c = append_tool_calls-arguments i calls c

add_tool_calls-text :
    (calls : Option (List ToolCallDelta)) (c : ChoiceBuffer)
    → (add_tool_calls calls c).text_content ≡ c.text_content
unfolding add_tool_calls
add_tool_calls-text none c = refl
add_tool_calls-text (some calls) c = append_tool_calls-text calls c

-- `add_content` and `set_finish_reason` change the text only, and only the first.
add_content-fields :
    (t : Option Text) (c : ChoiceBuffer)
    → ((add_content t c).text_content ≡ c.text_content ++ one t)
      × ((add_content t c).tool_calls_buffers ≡ c.tool_calls_buffers)
unfolding add_content append_text_content
add_content-fields none c = (sym (append-eq-nil c.text_content), refl)
add_content-fields (some t) c = (refl, refl)

set_finish_reason-fields :
    (r : Option Text) (c : ChoiceBuffer)
    → ((set_finish_reason r c).text_content ≡ c.text_content)
      × ((set_finish_reason r c).tool_calls_buffers ≡ c.tool_calls_buffers)
unfolding set_finish_reason
set_finish_reason-fields r c = elim (Bool-cases (truthy r)) [
  | inl e ↦ rw e (refl, refl)
  | inr e ↦ rw e (refl, refl)
]

pub extend_choice-arguments :
    (i : ℕ) (reason : Option Text) (delta : Delta) (c : ChoiceBuffer)
    → arguments_at i (extend_choice reason delta c) ≡ arguments_at i c ++ delta_arguments i delta
unfolding extend_choice
extend_choice-arguments i reason delta c =
    add_tool_calls-arguments i delta.tool_calls
      (add_content delta.content (set_finish_reason reason c))
    ∙ ap (λ bs. held (get_elem? bs i) ++ delta_arguments i delta)
        ((add_content-fields delta.content (set_finish_reason reason c)).1
          ∙ (set_finish_reason-fields reason c).1)

pub extend_choice-text :
    (reason : Option Text) (delta : Delta) (c : ChoiceBuffer)
    → (extend_choice reason delta c).text_content ≡ c.text_content ++ delta_text delta
unfolding extend_choice
extend_choice-text reason delta c =
    add_tool_calls-text delta.tool_calls (add_content delta.content (set_finish_reason reason c))
    ∙ (add_content-fields delta.content (set_finish_reason reason c)).0
    ∙ ap (λ t. t ++ delta_text delta) (set_finish_reason-fields reason c).0

-- What is seen of the buffers grows by what the choices hold of it.
module _ (of_buffer : ChoiceBuffer → List Text) (of_delta : Delta → List Text)
    (fresh : (n : ℕ) → of_buffer (choice_buffer n) ≡ [])
    (grows : (reason : Option Text) (d : Delta) (c : ChoiceBuffer)
      → of_buffer (extend_choice reason d c) ≡ of_buffer c ++ of_delta d) where
  build_choice-in :
      (j index : ℕ) (reason : Option Text) (delta : Option Delta) (cs : List ChoiceBuffer)
      → in_buffers of_buffer j (build_choice index reason delta cs)
        ≡ in_buffers of_buffer j cs ++ in_choice of_delta j index delta
  unfolding build_choice
  build_choice-in j index reason none cs = sym (append-eq-nil (in_buffers of_buffer j cs))
  build_choice-in j index reason (some d) cs =
      seen-change (seen_in of_buffer) choice_buffer refl fresh (extend_choice reason d) (of_delta d)
        (λ c. grows reason d c) index j cs

  pub build_choices-in :
      (j : ℕ) (choices : List Choice) (cs : List ChoiceBuffer)
      → in_buffers of_buffer j (build_choices choices cs)
        ≡ in_buffers of_buffer j cs ++ in_choices of_delta j choices
  unfolding build_choices
  build_choices-in j [] cs = sym (append-eq-nil (in_buffers of_buffer j cs))
  build_choices-in j (choice ∷ choices) cs =
      build_choices-in j choices (build_choice choice.index choice.finish_reason choice.delta cs)
      ∙ ap (λ l. l ++ in_choices of_delta j choices)
          (build_choice-in j choice.index choice.finish_reason choice.delta cs)
      ∙ append_assoc (in_buffers of_buffer j cs) _ (in_choices of_delta j choices)
