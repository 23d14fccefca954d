-- ===== src/Genai/Tests.antt =====
-- Runs of streams on concrete events.
use opentelemetry_python_con.Common.{ℕ, ◌+◌, ◌≡◌, true, none, some, List, [], ◌∷◌, Text, text}
use opentelemetry_python_con.Genai.Stream.{
  closed, close_error, chunk, stop_iteration, next_error, Event, next, close, exit, Hooks, wrap,
  run,
}
use opentelemetry_python_con.Genai.Stream.Calls.{logged, run_calls}
use opentelemetry_python_con.Genai.Invocation.{Api, new, start}
use opentelemetry_python_con.Genai.Buffers.{Chunk}
use opentelemetry_python_con.Genai.Buffers.Arguments.{in_buffers, arguments_at}
use opentelemetry_python_con.Genai.Chat.{chat, chat_hooks}
use opentelemetry_python_con.Genai.Chat.Content.{run_pieces}

-- Hooks that count the chunks and raise on each call.
abbrev counting : Hooks ℕ ℕ ℕ
counting = record {
  process_chunk = λ c h. (h + 1, true);
  on_stream_end = λ h. (h, true);
  on_stream_error = λ e h. (h, true);
}

-- A chunk, the end, the body's exception with an error of the close, and a chunk once more.
abbrev events : List (Event ℕ ℕ)
events = next (chunk 7) ∷ next stop_iteration ∷ exit (some 5) (close_error 6) ∷ next (chunk 8) ∷ []

run_calls_example :
    ((run
        (logged counting)
        events
        (wrap (record { inner = 0; chunks = []; ends = [] }))).0.state.ends
      ≡ none ∷ [])
    × ((run
          (logged counting)
          events
          (wrap (record { inner = 0; chunks = []; ends = [] }))).0.state.chunks
        ≡ 7 ∷ 8 ∷ [])
run_calls_example = run_calls counting events 0

abbrev api : Api ℕ ℕ
api = record {
  with_span = λ c. c + 1;
  apply_finish_raises = λ e. some 9;
  detach_raises = λ c. true;
}

abbrev call : ℕ → ℕ → Text → Chunk
call choice index arguments = record {
  id = none;
  model = some (text "m");
  service_tier = none;
  choices = some (
      record {
        index = choice;
        delta = some (record {
          content = some (text "x");
          tool_calls = some (
              record {
                index = index;
                id = some (text "id");
                function = some (record { name = none; arguments = some arguments });
              }
              ∷ []);
        });
        finish_reason = none;
      }
      ∷ []);
  usage = none;
}

abbrev chat_events : List (Event Chunk ℕ)
chat_events =
    next (chunk (call 1 2 (text "a")))
    ∷ next (chunk (call 0 2 (text "b")))
    ∷ next (chunk (call 1 2 (text "c")))
    ∷ next (next_error 4)
    ∷ close closed
    ∷ []

run_pieces_example :
    let buffers =
      (run
        (chat_hooks {Json = Text} (λ t. none) (λ t. t) api)
        chat_events
        (wrap (chat true (start api (new 0))))).0.state.gathered.choice_buffers in
    (in_buffers (λ c. c.text_content) 1 buffers ≡ text "x" ∷ text "x" ∷ [])
    × (in_buffers (arguments_at 2) 1 buffers ≡ text "a" ∷ text "c" ∷ [])
run_pieces_example = run_pieces (λ t. none) (λ t. t) api true (start api (new 0)) chat_events 1 2
