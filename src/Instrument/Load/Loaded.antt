-- ===== src/Instrument/Load/Loaded.antt =====
-- Which instrumentors are loaded.
use opentelemetry_python_con.Common.{List, [], ◌∷◌, ◌++◌, Text, text, if◌then◌else◌}
use opentelemetry_python_con.Semconv.Modes.{is_in}
use opentelemetry_python_con.Instrument.Load.{
  Loading, loaded, dependency_conflict, module_not_found, import_error, other_error, EntryPoint,
  Check, check_error, conflict, no_conflict,
}

module _ {Error : Type 0} where
  -- An exception that is raised again, and not one that skips a single instrumentor.
  abbrev pub NoError : Check Error → Loading Error → Type 0
  NoError (check_error e) load = ⊥
  NoError conflict load = Unit
  NoError no_conflict (other_error e) = ⊥
  NoError no_conflict loaded = Unit
  NoError no_conflict dependency_conflict = Unit
  NoError no_conflict module_not_found = Unit
  NoError no_conflict import_error = Unit

  -- the name of an instrumentor that loads
  abbrev pub loaded_name : Text → Check Error → Loading Error → List Text
  loaded_name name no_conflict loaded = name ∷ []
  loaded_name name no_conflict dependency_conflict = []
  loaded_name name no_conflict module_not_found = []
  loaded_name name no_conflict import_error = []
  loaded_name name no_conflict (other_error e) = []
  loaded_name name conflict load = []
  loaded_name name (check_error e) load = []

  -- those that load, of the ones that are not excluded, in the order of the entry points
  abbrev pub loading : List Text → List (EntryPoint Error) → List Text
  loading excluded [] = []
  loading excluded (e ∷ es) =
      if is_in (text "*") excluded
      then []
      else if is_in e.name excluded
      then loading excluded es
      else loaded_name e.name e.check e.load ++ loading excluded es
