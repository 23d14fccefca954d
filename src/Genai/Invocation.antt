-- ===== src/Genai/Invocation.antt =====
-- The life cycle of `GenAIInvocation` of opentelemetry/util/genai/_invocation.py: its span and its context.
-- What `_apply_finish` of a subclass does is a parameter, as are the failures of `detach`.
pub mod Finish
use opentelemetry_python_con.Common.{
  ℕ, ◌+◌, Bool, if◌then◌else◌, Option, none, some, List, [], ◌∷◌, ◌++◌,
}

-- `context_token` holds the context before the invocation, and `current` is that of the thread.
pub record Invocation (Context Error : Type 0) : Type 0 where
  pub context_token : Option Context
  pub current : Context
  -- the calls of `_apply_finish`, and the number of those of `span.end`
  pub finished : List (Option Error)
  pub span_ends : ℕ

-- What the SDK and a subclass do: `set_span_in_context`, whether `_apply_finish` raises, and whether
-- `detach` does.
pub record Api (Context Error : Type 0) : Type 0 where
  pub with_span : Context → Context
  pub apply_finish_raises : Option Error → Option Error
  pub detach_raises : Context → Bool

unfoldable pub new : {Context Error : Type 0} → Context → Invocation Context Error
new current = record { context_token = none; current = current; finished = []; span_ends = 0 }

-- How a body ends: `raise_error` is an `Exception`, and `interrupt` another `BaseException`.
pub data Result (Error : Type 0) : Type 0 where
  ok : Result Error
  raise_error : Error → Result Error
  interrupt : Error → Result Error

module _ {Context Error : Type 0} (api : Api Context Error) where
  unfoldable pub start : Invocation Context Error → Invocation Context Error
  start i = record i { context_token = some i.current; current = api.with_span i.current }

  -- The `finally` block: an exception of `detach` is dropped, and the span is ended.
  unfoldable pub end_span : Context → Invocation Context Error → Invocation Context Error
  end_span token i = record i {
    current = if api.detach_raises token then i.current else token;
    span_ends = i.span_ends + 1;
  }

  -- with `_context_token`, and with the exception that it raises
  unfoldable pub finish_with :
      Option Context
      → Option Error
      → Invocation Context Error
      → Invocation Context Error × Option Error
  finish_with none error i = (i, none)
  finish_with (some token) error i = (
    end_span token (record i { finished = i.finished ++ error ∷ [] }),
    api.apply_finish_raises error,
  )

  unfoldable pub finish :
      Option Error → Invocation Context Error → Invocation Context Error × Option Error
  finish error i = finish_with i.context_token error i

  unfoldable pub stop : Invocation Context Error → Invocation Context Error × Option Error
  stop = finish none

  unfoldable pub fail : Error → Invocation Context Error → Invocation Context Error × Option Error
  fail error = finish (some error)

  -- an exception that is raised where there may be another
  abbrev raise_after : Option Error → Result Error → Result Error
  raise_after none r = r
  raise_after (some e) r = raise_error e

  -- `with invocation:`, where the body starts with the invocation and ends with a result
  unfoldable pub managed :
      (Invocation Context Error → Invocation Context Error × Result Error)
      → Invocation Context Error
      → Invocation Context Error × Result Error
  managed body i =
      let (i', result) = body i in
      elim result [
        | ok ↦ let (i'', raised) = stop i' in (i'', raise_after raised ok)
        | raise_error e ↦ let (i'', raised) = fail e i' in (i'', raise_after raised (raise_error e))
        | interrupt e ↦ (i', interrupt e)
      ]
