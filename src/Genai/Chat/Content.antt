-- ===== src/Genai/Chat/Content.antt =====
-- What a chat stream has gathered when it ends.
use mathlib.Core.List.{append_assoc, foldl}
use opentelemetry_python_con.Common.{
  ℕ, ◌≡◌, refl, sym, ap, ◌∙◌, Bool, Option, none, some, List, [], ◌∷◌, ◌++◌, append-eq-nil, Text,
}
use opentelemetry_python_con.Genai.Stream.{Event, wrap, run}
use opentelemetry_python_con.Genai.Stream.Finals.{delivered, run-content}
use opentelemetry_python_con.Genai.Invocation.{Invocation, Api}
use opentelemetry_python_con.Genai.Buffers.{
  Chunk, Choice, Delta, Usage, ChoiceBuffer, choice_buffer, extend_choice,
}
use opentelemetry_python_con.Genai.Buffers.Arguments.{
  in_choices, in_buffers, arguments_at, delta_arguments, delta_text, build_choices-in,
  extend_choice-arguments, extend_choice-text,
}
use opentelemetry_python_con.Genai.Chat.{
  Gathered, nothing, build_streaming_response, set_usage, process_chunk, chat, chat_hooks,
}
use opentelemetry_python_con.Genai.Chat.Once.{cleanup-gathered}

-- what the chunks of a stream hold for the choice with an index
abbrev pub optional_choices : (Delta → List Text) → ℕ → Option (List Choice) → List Text
optional_choices of_delta j none = []
optional_choices of_delta j (some choices) = in_choices of_delta j choices

abbrev pub in_chunks : (Delta → List Text) → ℕ → List Chunk → List Text
in_chunks of_delta j [] = []
in_chunks of_delta j (chunk ∷ chunks) =
    optional_choices of_delta j chunk.choices ++ in_chunks of_delta j chunks

set_usage-buffers :
    (usage : Option Usage) (g : Gathered) → (set_usage usage g).choice_buffers ≡ g.choice_buffers
unfolding set_usage
set_usage-buffers none g = refl
set_usage-buffers (some u) g = refl

module _ (of_buffer : ChoiceBuffer → List Text) (of_delta : Delta → List Text)
    (fresh : (n : ℕ) → of_buffer (choice_buffer n) ≡ [])
    (grows : (reason : Option Text) (d : Delta) (c : ChoiceBuffer)
      → of_buffer (extend_choice reason d c) ≡ of_buffer c ++ of_delta d) where
  build_streaming_response-in :
      (j : ℕ) (choices : Option (List Choice)) (g : Gathered)
      → in_buffers of_buffer j (build_streaming_response choices g).choice_buffers
        ≡ in_buffers of_buffer j g.choice_buffers ++ optional_choices of_delta j choices
  unfolding build_streaming_response
  build_streaming_response-in j none g =
      sym (append-eq-nil (in_buffers of_buffer j g.choice_buffers))
  build_streaming_response-in j (some choices) g =
      build_choices-in of_buffer of_delta fresh grows j choices g.choice_buffers

  process_chunks-in :
      (j : ℕ) (chunks : List Chunk) (g : Gathered)
      → in_buffers of_buffer j (foldl (λ g chunk. process_chunk chunk g) g chunks).choice_buffers
        ≡ in_buffers of_buffer j g.choice_buffers ++ in_chunks of_delta j chunks
  unfolding process_chunk
  process_chunks-in j [] g = sym (append-eq-nil (in_buffers of_buffer j g.choice_buffers))
  process_chunks-in j (chunk ∷ chunks) g =
      process_chunks-in j chunks (process_chunk chunk g)
      ∙ ap (λ l. l ++ in_chunks of_delta j chunks)
          (ap (in_buffers of_buffer j) (set_usage-buffers chunk.usage _)
            ∙ build_streaming_response-in j chunk.choices _)
      ∙ append_assoc (in_buffers of_buffer j g.choice_buffers) _ (in_chunks of_delta j chunks)

module _ {Json : Type 0} (json_loads : Text → Option Json) (json_str : Text → Json)
    {Context Error : Type 0} (api : Api Context Error) where
  run-gathered :
      (capture_content : Bool) (i : Invocation Context Error) (events : List (Event Chunk Error))
      → (run
          (chat_hooks json_loads json_str api)
          events
          (wrap (chat capture_content i))).0.state.gathered
        ≡ foldl (λ g chunk. process_chunk chunk g) nothing (delivered events)
  unfolding chat_hooks wrap chat
  run-gathered capture_content i events =
      run-content (chat_hooks json_loads json_str api) (λ c. c.gathered)
        (λ g chunk. process_chunk chunk g)
        (record {
          on_chunk = λ chunk c. refl;
          on_end = λ c. cleanup-gathered json_loads json_str api none c;
          on_error = λ e c. cleanup-gathered json_loads json_str api (some e) c;
        })
        events (wrap (chat capture_content i))

  -- Whatever the user does with a chat stream: the buffer of a choice holds the pieces of text of that
  -- choice, and the buffer of each of its tool calls the pieces of the arguments of that call, from all
  -- chunks that were delivered, in the order in which they came, and nothing of another choice or call.
  pub run_pieces :
      (capture_content : Bool) (i : Invocation Context Error) (events : List (Event Chunk Error))
      (choice call : ℕ)
      → let buffers =
          (run
            (chat_hooks json_loads json_str api)
            events
            (wrap (chat capture_content i))).0.state.gathered.choice_buffers in
        (in_buffers (λ c. c.text_content) choice buffers
          ≡ in_chunks delta_text choice (delivered events))
        × (in_buffers (arguments_at call) choice buffers
            ≡ in_chunks (delta_arguments call) choice (delivered events))
  unfolding nothing choice_buffer
  run_pieces capture_content i events choice call = (
    ap (λ g. in_buffers (λ c. c.text_content) choice g.choice_buffers)
          (run-gathered capture_content i events)
        ∙ process_chunks-in (λ c. c.text_content) delta_text (λ n. refl) extend_choice-text choice
            (delivered events) nothing,
    ap (λ g. in_buffers (arguments_at call) choice g.choice_buffers)
          (run-gathered capture_content i events)
        ∙ process_chunks-in (arguments_at call) (delta_arguments call) (λ n. refl)
            (extend_choice-arguments call) choice (delivered events) nothing,
  )
