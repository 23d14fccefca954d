-- ===== src/Instrument/Load.antt =====
-- auto_instrumentation/_load.py. An entry point of the interpreter is a record of what it does; `load` is what
-- loading it, or loading and calling what it holds, ends with.
pub mod Loaded
use opentelemetry_python_con.Common.{
  Bool, true, false, not, ◌&&◌, Option, none, some, List, [], ◌∷◌, ◌++◌, map, Text, text, text_eq,
  if◌then◌else◌,
}
use opentelemetry_python_con.Words.{split, strip}
use opentelemetry_python_con.Semconv.Modes.{is_in}

-- What `distro.load_instrumentor` ends with: it returns, or raises an exception of one of these classes.
pub data Loading (Error : Type 0) : Type 0 where
  loaded : Loading Error
  dependency_conflict : Loading Error
  module_not_found : Loading Error
  import_error : Loading Error
  other_error : Error → Loading Error

-- What the check of a distribution's dependencies gives, or the exception that it raises.
pub data Check (Error : Type 0) : Type 0 where
  no_conflict : Check Error
  conflict : Check Error
  check_error : Error → Check Error

-- An instrumentor's entry point: its check, and what loading it ends with.
pub record EntryPoint (Error : Type 0) : Type 0 where
  pub name : Text
  pub check : Check Error
  pub load : Loading Error

-- the names of the instrumentors that were loaded, and the exception that ends the function
pub record Progress (Error : Type 0) : Type 0 where
  pub instrumented : List Text
  pub raised : Option Error

-- `wanted is None or wanted == name`
unfoldable pub is_wanted : Option Text → Text → Bool
is_wanted none name = true
is_wanted (some w) name = text_eq w name

-- OTEL_PYTHON_DISABLED_INSTRUMENTATIONS
unfoldable pub package_to_exclude : Option Text → List Text
package_to_exclude none = []
package_to_exclude (some t) = map strip (split b',' t)

-- What loading a distro gives: it raises, or is no `BaseDistro`, or is one.
pub data DistroLoad (Error : Type 0) : Type 0 where
  distro_error : Error → DistroLoad Error
  no_distro : DistroLoad Error
  distro : DistroLoad Error

module _ {Error : Type 0} where
  -- the body of `try`, with what the other entry points give
  unfoldable pub load_instrumentor :
      Text → Check Error → Loading Error → Progress Error → Progress Error
  load_instrumentor name (check_error error) load rest = record {
    instrumented = [];
    raised = some error;
  }
  load_instrumentor name conflict load rest = rest
  load_instrumentor name no_conflict loaded rest = record rest {
    instrumented = name ∷ rest.instrumented;
  }
  load_instrumentor name no_conflict dependency_conflict rest = rest
  load_instrumentor name no_conflict module_not_found rest = rest
  load_instrumentor name no_conflict import_error rest = rest
  load_instrumentor name no_conflict (other_error error) rest = record {
    instrumented = [];
    raised = some error;
  }

  unfoldable pub instrumentor_loop : List Text → List (EntryPoint Error) → Progress Error
  instrumentor_loop excluded [] = record { instrumented = []; raised = none }
  instrumentor_loop excluded (e ∷ es) =
      let rest = instrumentor_loop excluded es in
      if is_in (text "*") excluded
      then record { instrumented = []; raised = none }
      else if is_in e.name excluded
      then rest
      else load_instrumentor e.name e.check e.load rest

  -- `entry_point.load()()` for each, where each may raise
  unfoldable pub call_all : List (Option Error) → Option Error
  call_all [] = none
  call_all (none ∷ hooks) = call_all hooks
  call_all (some error ∷ hooks) = some error

  -- what raised is raised; else what comes after it goes on
  abbrev pub and_then : Option Error → Progress Error → Progress Error
  and_then none progress = progress
  and_then (some error) progress = record { instrumented = []; raised = some error }

  -- the hooks after the instrumentors, if nothing was raised
  abbrev pub finish : Progress Error → Option Error → Progress Error
  finish progress error = elim progress.raised [
    | none ↦ record progress { raised = error }
    | some e ↦ progress
  ]

  unfoldable pub load_instrumentors :
      Option Text
      → List (Option Error)
      → List (EntryPoint Error)
      → List (Option Error)
      → Progress Error
  load_instrumentors disabled pre_instrument instrumentors post_instrument =
      and_then (call_all pre_instrument) (
        finish (instrumentor_loop (package_to_exclude disabled) instrumentors)
          (call_all post_instrument))

  -- A configurator: its name and what its `configure` raises. The result is the name of the one that was
  -- configured.
  unfoldable pub configurator_loop :
      Option Text → List (Text × Option Error) → Option Text → Option Text × Option Error
  configurator_loop wanted [] configured = (configured, none)
  configurator_loop wanted ((name, error) ∷ entries) (some done) =
      configurator_loop wanted entries (some done)
  configurator_loop wanted ((name, error) ∷ entries) none = elim (is_wanted wanted name) [
    | false ↦ configurator_loop wanted entries none
    | true ↦ elim error [
      | none ↦ configurator_loop wanted entries (some name)
      | some e ↦ (none, some e)
    ]
  ]

  -- `none` is the default distro.
  unfoldable pub load_distro :
      Option Text → List (Text × DistroLoad Error) → Option Text × Option Error
  load_distro wanted [] = (none, none)
  load_distro wanted ((name, result) ∷ entries) = elim (is_wanted wanted name) [
    | false ↦ load_distro wanted entries
    | true ↦ elim result [
      | distro_error e ↦ (none, some e)
      | no_distro ↦ load_distro wanted entries
      | distro ↦ (some name, none)
    ]
  ]
