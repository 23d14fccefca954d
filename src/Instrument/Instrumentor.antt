-- ===== src/Instrument/Instrumentor.antt =====
-- `BaseInstrumentor` of instrumentor.py: the one instance of a class, with the state of the semantic
-- conventions that it initializes. What `_instrument` and `_uninstrument` of a subclass do is an argument.
pub mod Alternates
use opentelemetry_python_con.Common.{
  Bool, true, false, Option, none, some, List, [], ◌∷◌, Text, if◌then◌else◌,
}
use opentelemetry_python_con.Semconv.Modes.{Stability, new, initialize}
use opentelemetry_python_con.Instrument.Dependencies.{DependencyConflict}

-- what a subclass did to the library, when its method returned
pub data Patch : Type 0 where
  patched : Patch
  unpatched : Patch

-- `patches` is the history, the last one first.
pub record Instrumentor : Type 0 where
  pub is_instrumented : Bool
  pub stability : Stability
  pub patches : List Patch

unfoldable pub create : Stability → Instrumentor
create stability = record { is_instrumented = false; stability = stability; patches = [] }

pub record Arguments : Type 0 where
  pub skip_dep_check : Bool
  pub raise_exception_on_conflict : Bool

pub data Outcome (Req Error : Type 0) : Type 0 where
  returned : Outcome Req Error
  raised : Error → Outcome Req Error
  conflict_error : DependencyConflict Req → Outcome Req Error

-- The calls of a program, from any of its parts.
pub data Call (Req Error : Type 0) : Type 0 where
  instrument_call :
      Arguments → Option (DependencyConflict Req) → Option Text → Option Error → Call Req Error
  uninstrument_call : Option Error → Call Req Error

module _ {Req Error : Type 0} where
  -- after the check of the dependencies, with the value of the variable and what `_instrument` raises
  unfoldable pub patch :
      Option Text → Option Error → Instrumentor → Instrumentor × Outcome Req Error
  patch opt_in none i = (
    record {
      is_instrumented = true;
      stability = initialize opt_in i.stability;
      patches = patched ∷ i.patches;
    },
    returned,
  )
  patch opt_in (some e) i = (record i { stability = initialize opt_in i.stability }, raised e)

  unfoldable pub checked :
      Arguments
      → Option (DependencyConflict Req)
      → Option Text
      → Option Error
      → Instrumentor
      → Instrumentor × Outcome Req Error
  checked arguments none opt_in error i = patch opt_in error i
  checked arguments (some conflict) opt_in error i =
      if arguments.raise_exception_on_conflict then (i, conflict_error conflict) else (i, returned)

  -- with the conflict that the check finds, if it is made
  unfoldable pub instrument :
      Arguments
      → Option (DependencyConflict Req)
      → Option Text
      → Option Error
      → Instrumentor
      → Instrumentor × Outcome Req Error
  instrument arguments conflict opt_in error i =
      if i.is_instrumented
      then (i, returned)
      else if arguments.skip_dep_check
      then patch opt_in error i
      else checked arguments conflict opt_in error i

  unfoldable pub unpatch : Option Error → Instrumentor → Instrumentor × Outcome Req Error
  unpatch none i = (record i { is_instrumented = false; patches = unpatched ∷ i.patches }, returned)
  unpatch (some e) i = (i, raised e)

  -- with what `_uninstrument` raises
  unfoldable pub uninstrument : Option Error → Instrumentor → Instrumentor × Outcome Req Error
  uninstrument error i = if i.is_instrumented then unpatch error i else (i, returned)

  unfoldable pub step : Call Req Error → Instrumentor → Instrumentor
  step (instrument_call arguments conflict opt_in error) i =
      (instrument arguments conflict opt_in error i).0
  step (uninstrument_call error) i = (uninstrument error i).0

  unfoldable pub run : List (Call Req Error) → Instrumentor → Instrumentor
  run [] i = i
  run (call ∷ calls) i = run calls (step call i)
