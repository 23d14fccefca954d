-- ===== src/Genai/Stream/Transparent.antt =====
-- What the user of a wrapped stream sees.
use opentelemetry_python_con.Common.{none, some}
use opentelemetry_python_con.Genai.Stream.{
  Closing, closed, close_error, close_interrupt, Item, chunk, stop_iteration, next_error,
  next_interrupt, Event, next, close, exit, Answer, returned, stopped, raised,
}

-- The answers of the stream itself, used without a wrapper.
module _ {Chunk Error : Type 0} where
  abbrev pub bare_item : Item Chunk Error → Answer Chunk Error
  bare_item (chunk c) = returned (some c)
  bare_item stop_iteration = stopped
  bare_item (next_error e) = raised e
  bare_item (next_interrupt e) = raised e

  abbrev pub bare_close : Closing Error → Answer Chunk Error
  bare_close closed = returned none
  bare_close (close_error e) = raised e
  bare_close (close_interrupt e) = raised e

  -- A `with` statement on a stream that closes itself, and does not hide the exception of the body.
  abbrev pub bare : Event Chunk Error → Answer Chunk Error
  bare (next item) = bare_item item
  bare (close closing) = bare_close closing
  bare (exit none closing) = bare_close closing
  bare (exit (some error) (close_interrupt e)) = raised e
  bare (exit (some error) closed) = raised error
  bare (exit (some error) (close_error e)) = raised error
