-- ===== src/Genai/Stream.antt =====
-- `SyncStreamWrapper` of opentelemetry/util/genai/stream.py. The wrapped stream is what the SDK gives: an
-- event is an operation of the user together with what the stream does in it. The hooks of a subclass are
-- parameters. `AsyncStreamWrapper` has the same methods, with `await` before the calls of the stream.
pub mod Transparent
pub mod Finals
pub mod Calls
use opentelemetry_python_con.Common.{Bool, true, false, Option, none, some, List, [], ◌∷◌}

-- What a call of the wrapped stream does: it returns, or raises an `Exception`, or another
-- `BaseException`, such as `KeyboardInterrupt`.
pub data Closing (Error : Type 0) : Type 0 where
  closed : Closing Error
  close_error : Error → Closing Error
  close_interrupt : Error → Closing Error

pub data Item (Chunk Error : Type 0) : Type 0 where
  chunk : Chunk → Item Chunk Error
  stop_iteration : Item Chunk Error
  next_error : Error → Item Chunk Error
  next_interrupt : Error → Item Chunk Error

-- `__next__`, `close` and `__exit__`, the last with the exception of the body, if it has one.
pub data Event (Chunk Error : Type 0) : Type 0 where
  next : Item Chunk Error → Event Chunk Error
  close : Closing Error → Event Chunk Error
  exit : Option Error → Closing Error → Event Chunk Error

-- The hooks, each with whether it raises an `Exception`.
pub record Hooks (Chunk Error H : Type 0) : Type 0 where
  pub process_chunk : Chunk → H → H × Bool
  pub on_stream_end : H → H × Bool
  pub on_stream_error : Error → H → H × Bool

-- The wrapper, with the state of the subclass.
pub record Wrapper (H : Type 0) : Type 0 where
  pub finalized : Bool
  pub state : H

-- `__init__`
unfoldable pub wrap : {H : Type 0} → H → Wrapper H
wrap h = record { finalized = false; state = h }

-- What the user sees: a value is returned, or an exception is raised.
pub data Answer (Chunk Error : Type 0) : Type 0 where
  returned : Option Chunk → Answer Chunk Error
  stopped : Answer Chunk Error
  raised : Error → Answer Chunk Error

module _ {Chunk Error H : Type 0} (hooks : Hooks Chunk Error H) where
  -- Each returns whether the hook raised.
  unfoldable pub finalize_success : Wrapper H → Wrapper H × Bool
  finalize_success w = elim w.finalized [
    | true ↦ (w, false)
    | false ↦
        let (h, raises) = hooks.on_stream_end w.state in
        (record { finalized = true; state = h }, raises)
  ]

  unfoldable pub finalize_failure : Error → Wrapper H → Wrapper H × Bool
  finalize_failure error w = elim w.finalized [
    | true ↦ (w, false)
    | false ↦
        let (h, raises) = hooks.on_stream_error error w.state in
        (record { finalized = true; state = h }, raises)
  ]

  -- The exception of a hook is logged and dropped.
  unfoldable pub safe_finalize_success : Wrapper H → Wrapper H
  safe_finalize_success w = (finalize_success w).0

  unfoldable pub safe_finalize_failure : Error → Wrapper H → Wrapper H
  safe_finalize_failure error w = (finalize_failure error w).0

  unfoldable pub next_item : Item Chunk Error → Wrapper H → Wrapper H × Answer Chunk Error
  next_item (chunk c) w =
      let (h, raises) = hooks.process_chunk c w.state in (record w { state = h }, returned (some c))
  next_item stop_iteration w = (safe_finalize_success w, stopped)
  next_item (next_error e) w = (safe_finalize_failure e w, raised e)
  next_item (next_interrupt e) w = (w, raised e)

  unfoldable pub close_stream : Closing Error → Wrapper H → Wrapper H × Answer Chunk Error
  close_stream closed w = (safe_finalize_success w, returned none)
  close_stream (close_error e) w = (safe_finalize_failure e w, raised e)
  close_stream (close_interrupt e) w = (w, raised e)

  -- `__exit__` returns `False`, so that the exception of the body is raised again; one of `close` is
  -- dropped then, if it is an `Exception`.
  unfoldable pub exit_with : Error → Closing Error → Wrapper H → Wrapper H × Answer Chunk Error
  exit_with error closed w = (safe_finalize_failure error w, raised error)
  exit_with error (close_error e) w = (safe_finalize_failure error w, raised error)
  exit_with error (close_interrupt e) w = (safe_finalize_failure error w, raised e)

  unfoldable pub step : Event Chunk Error → Wrapper H → Wrapper H × Answer Chunk Error
  step (next item) w = next_item item w
  step (close closing) w = close_stream closing w
  step (exit none closing) w = close_stream closing w
  step (exit (some error) closing) w = exit_with error closing w

  -- What a user does with the wrapper, one operation after the other.
  unfoldable pub run : List (Event Chunk Error) → Wrapper H → Wrapper H × List (Answer Chunk Error)
  run [] w = (w, [])
  run (event ∷ events) w =
      let (w', answer) = step event w in
      let (w'', answers) = run events w' in (w'', answer ∷ answers)
