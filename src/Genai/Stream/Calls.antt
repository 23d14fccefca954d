-- ===== src/Genai/Stream/Calls.antt =====
-- The calls of a stream's hooks.
use mathlib.Core.List.{foldl, append_assoc}
use opentelemetry_python_con.Common.{
  ◌≡◌, refl, sym, ◌∙◌, Option, none, some, List, [], ◌∷◌, ◌++◌, append-eq-nil,
}
use opentelemetry_python_con.Genai.Stream.{Event, Hooks, wrap, run}
use opentelemetry_python_con.Genai.Stream.Finals.{first_end, delivered, run-ends, run-content}

-- A hook's calls, beside the state of hooks that may do anything.
pub record Logged (Chunk Error H : Type 0) : Type 0 where
  pub inner : H
  pub chunks : List Chunk
  pub ends : List (Option Error)

module _ {Chunk Error H : Type 0} (hooks : Hooks Chunk Error H) where
  abbrev pub logged : Hooks Chunk Error (Logged Chunk Error H)
  logged = record {
    process_chunk = λ c l. (
      record l { inner = (hooks.process_chunk c l.inner).0; chunks = l.chunks ++ c ∷ [] },
      (hooks.process_chunk c l.inner).1,
    );
    on_stream_end = λ l. (
      record l { inner = (hooks.on_stream_end l.inner).0; ends = l.ends ++ none ∷ [] },
      (hooks.on_stream_end l.inner).1,
    );
    on_stream_error = λ e l. (
      record l { inner = (hooks.on_stream_error e l.inner).0; ends = l.ends ++ some e ∷ [] },
      (hooks.on_stream_error e l.inner).1,
    );
  }

  foldl_snoc : (cs : List Chunk) (ds : List Chunk) → foldl (λ l c. l ++ c ∷ []) cs ds ≡ cs ++ ds
  foldl_snoc cs [] = sym (append-eq-nil cs)
  foldl_snoc cs (d ∷ ds) = foldl_snoc (cs ++ d ∷ []) ds ∙ append_assoc cs (d ∷ []) ds

  -- Whatever the hooks do, and whether they raise or not: of the two final hooks one is called at most, and
  -- once, for the first event that ends the stream, `on_stream_end` for its end or a close and
  -- `on_stream_error` for an exception of the stream, of its close, or of the body of a `with`; and
  -- `process_chunk` gets each chunk that is delivered, in order, also after the stream is closed.
  pub run_calls :
      (events : List (Event Chunk Error)) (h : H)
      → ((run logged events (wrap (record { inner = h; chunks = []; ends = [] }))).0.state.ends
          ≡ first_end events)
        × ((run logged events (wrap (record { inner = h; chunks = []; ends = [] }))).0.state.chunks
            ≡ delivered events)
  unfolding wrap
  run_calls events h = (
    (run-ends logged (λ l. Unit {0}) (λ l. l.ends)
        (record {
          on_chunk = λ c l g. (tt, refl);
          on_end = λ l g. (tt, refl);
          on_error = λ e l g. (tt, refl);
        })
        events (record { inner = h; chunks = []; ends = [] }) tt).1,
    run-content logged (λ l. l.chunks) (λ l c. l ++ c ∷ [])
          (record { on_chunk = λ c l. refl; on_end = λ l. refl; on_error = λ e l. refl }) events
          (wrap (record { inner = h; chunks = []; ends = [] }))
        ∙ foldl_snoc [] (delivered events),
  )
