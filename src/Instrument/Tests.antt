-- ===== src/Instrument/Tests.antt =====
-- Dependencies, calls and entry points of concrete packages.
use opentelemetry_python_con.Common.{
  ◌≡◌, ◌↔◌, refl, true, false, none, some, List, [], ◌∷◌, All, Text, text, text_eq, if◌then◌else◌,
}
use opentelemetry_python_con.Words.{
  split, strip, extend, strip_left, strip_right, keep_left, is_space,
}
use opentelemetry_python_con.Semconv.Modes.{new, is_in}
use opentelemetry_python_con.Instrument.Dependencies.{
  Packaging, Installed, not_found, version, spec, find_dep, find_version, resolve, version_matches,
  get_dependency_conflicts, get_dependency_conflicts_any, any_loop, show_dep,
}
use opentelemetry_python_con.Instrument.Dependencies.Met.{
  IsMet, AnyMet, get_dependency_conflicts_iff,
}
use opentelemetry_python_con.Instrument.Instrumentor.{
  patched, unpatched, Arguments, create, Call, instrument_call, uninstrument_call, step, run,
  instrument, uninstrument, patch, unpatch, checked,
}
use opentelemetry_python_con.Instrument.Instrumentor.Alternates.{IsValid, run-create-IsValid}
use opentelemetry_python_con.Instrument.Load.{
  EntryPoint, loaded, module_not_found, no_conflict, conflict, load_instrumentors,
  load_instrumentor, package_to_exclude, instrumentor_loop, call_all,
}

-- A requirement is a name; `flask` is installed.
abbrev if_flask : Text → Installed
if_flask n = if text_eq n (text "flask") then version (some (text "3")) else not_found

abbrev packaging : Packaging Text
packaging = record {
  parse = λ t. some t;
  name = λ r. r;
  show = λ r. r;
  has_specifier = λ r. true;
  contains = λ r v. some (text_eq v (text "3"));
  marker = λ r extra. true;
  installed = λ n. if_flask n;
  has_part = λ t u. true;
}

flask_missing :
    get_dependency_conflicts packaging [] (spec (text "django") ∷ spec (text "flask") ∷ []) ≡ none
unfolding get_dependency_conflicts get_dependency_conflicts_any any_loop find_dep find_version
    resolve version_matches text_eq show_dep
flask_missing = refl

get_dependency_conflicts_iff_example :
    (get_dependency_conflicts packaging (spec (text "flask") ∷ []) [] ≡ none)
    ↔ (All (IsMet packaging) (spec (text "flask") ∷ []) × AnyMet packaging [])
get_dependency_conflicts_iff_example =
    get_dependency_conflicts_iff packaging (spec (text "flask") ∷ []) []

abbrev plain : Arguments
plain = record { skip_dep_check = false; raise_exception_on_conflict = false }

-- Two calls of `instrument`, two of `uninstrument` of which one raises, and `instrument` again.
abbrev calls : List (Call Text Text)
calls =
    instrument_call plain none none none
    ∷ instrument_call plain none none none
    ∷ uninstrument_call (some (text "error"))
    ∷ uninstrument_call none
    ∷ instrument_call (record plain { skip_dep_check = true }) none none none
    ∷ []

calls_history : (run calls (create new)).patches ≡ patched ∷ unpatched ∷ patched ∷ []
unfolding run step instrument uninstrument patch unpatch create checked
calls_history = refl

run-create-IsValid_example : IsValid (run calls (create new))
run-create-IsValid_example = run-create-IsValid Text Text calls new

abbrev entry_points : List (EntryPoint Text)
entry_points =
    record { name = text "a"; check = no_conflict; load = loaded }
    ∷ record { name = text "b"; check = no_conflict; load = loaded }
    ∷ record { name = text "c"; check = conflict; load = loaded }
    ∷ record { name = text "d"; check = no_conflict; load = module_not_found }
    ∷ []

loaded_test :
    (load_instrumentors {Error = Text} (some (text "x, a")) [] entry_points []).instrumented
    ≡ text "b" ∷ []
unfolding load_instrumentors load_instrumentor instrumentor_loop call_all package_to_exclude is_in
    text_eq split strip extend strip_left strip_right keep_left is_space
loaded_test = refl
