-- ===== src/Instrument/Dependencies.antt =====
-- dependencies.py. The package `packaging` and the metadata of installed distributions are parameters.
pub mod Met
use opentelemetry_python_con.Common.{
  Bool, true, false, not, ◌&&◌, ◌||◌, Option, none, some, List, [], ◌∷◌, ◌++◌, Text, text,
  if◌then◌else◌, or_default,
}

-- What `version` of a distribution gives: the metadata may have none.
pub data Installed : Type 0 where
  not_found : Installed
  version : Option Text → Installed

-- `Requirement`, with `none` for an `InvalidRequirement`, and `SpecifierSet.contains`, with `none` for an
-- `InvalidVersion`; `marker` evaluates a requirement's marker for an extra, and there is `in` for `str`.
pub record Packaging (Req : Type 0) : Type 0 where
  pub parse : Text → Option Req
  pub name : Req → Text
  pub show : Req → Text
  pub has_specifier : Req → Bool
  pub contains : Req → Text → Option Bool
  pub marker : Req → Text → Bool
  pub installed : Text → Installed
  pub has_part : Text → Text → Bool

-- `str | Requirement`
pub data Dep (Req : Type 0) : Type 0 where
  spec : Text → Dep Req
  requirement : Req → Dep Req

pub record DependencyConflict (Req : Type 0) : Type 0 where
  pub required : Option (Dep Req)
  pub found : Option Text
  pub required_any : List Text
  pub found_any : List Text

module _ {Req : Type 0} (packaging : Packaging Req) where
  unfoldable pub version_matches : Req → Option Text → Bool
  version_matches req none = not (packaging.has_specifier req)
  version_matches req (some v) =
      or_default (packaging.contains req v) (not (packaging.has_specifier req))

  -- `DependencyConflict(dep)` and `DependencyConflict(dep, found)`
  unfoldable pub conflict_of : Dep Req → Option Text → DependencyConflict Req
  conflict_of dep found = record {
    required = some dep;
    found = found;
    required_any = [];
    found_any = [];
  }

  -- `f"{req.name} {dist_version}"`
  unfoldable pub found_text : Req → Option Text → Text
  found_text req v = packaging.name req ++ text " " ++ or_default v (text "None")

  unfoldable pub resolve : Dep Req → Option Req
  resolve (spec t) = packaging.parse t
  resolve (requirement req) = some req

  unfoldable pub show_dep : Dep Req → Text
  show_dep (spec t) = t
  show_dep (requirement req) = packaging.show req

  -- What the loops find out of a dependency.
  pub data Finding : Type 0 where
    invalid : Finding
    missing : Finding
    mismatched : Text → Finding
    satisfied : Finding

  unfoldable pub find_version : Req → Installed → Finding
  find_version req not_found = missing
  find_version req (version v) =
      if version_matches req v then satisfied else mismatched (found_text req v)

  unfoldable pub find_dep : Dep Req → Finding
  find_dep dep = elim (resolve dep) [
    | none ↦ invalid
    | some req ↦ find_version req (packaging.installed (packaging.name req))
  ]

  -- `_get_dependency_conflicts_any`: the loop, with `required_any` and `found_any`
  unfoldable pub any_loop : List (Dep Req) → List Text → List Text → Option (DependencyConflict Req)
  any_loop [] required_any found_any =
      some (record {
        required = none;
        found = none;
        required_any = required_any;
        found_any = found_any;
      })
  any_loop (dep ∷ deps) required_any found_any = elim (find_dep dep) [
    | invalid ↦ some (conflict_of dep none)
    | missing ↦ any_loop deps (required_any ++ show_dep dep ∷ []) found_any
    | mismatched found ↦ any_loop deps (required_any ++ show_dep dep ∷ []) (found_any ++ found ∷ [])
    | satisfied ↦ none
  ]

  unfoldable pub get_dependency_conflicts_any : List (Dep Req) → Option (DependencyConflict Req)
  get_dependency_conflicts_any [] = none
  get_dependency_conflicts_any (dep ∷ deps) = any_loop (dep ∷ deps) [] []

  -- An absent `deps_any` is an empty one.
  unfoldable pub get_dependency_conflicts :
      List (Dep Req) → List (Dep Req) → Option (DependencyConflict Req)
  get_dependency_conflicts [] deps_any = get_dependency_conflicts_any deps_any
  get_dependency_conflicts (dep ∷ deps) deps_any = elim (find_dep dep) [
    | invalid ↦ some (conflict_of dep none)
    | missing ↦ some (conflict_of dep none)
    | mismatched found ↦ some (conflict_of dep (some found))
    | satisfied ↦ get_dependency_conflicts deps deps_any
  ]

  -- `get_dist_dependency_conflicts`: what a distribution requires, by the extra that its marker is for;
  -- `none` is the exception of an invalid requirement.
  unfoldable pub dist_loop :
      List Text → List (Dep Req) → List (Dep Req) → Option (List (Dep Req) × List (Dep Req))
  dist_loop [] deps deps_any = some (deps, deps_any)
  dist_loop (dep ∷ requires) deps deps_any =
      let skipped = dist_loop requires deps deps_any in
      if not (packaging.has_part (text "extra") dep)
      then skipped
      else if not (packaging.has_part (text "instruments") dep)
          && not (packaging.has_part (text "instruments-any") dep)
      then skipped
      else elim (packaging.parse dep) [
        | none ↦ none
        | some req ↦
            dist_loop requires
              (if packaging.marker req (text "instruments")
                then deps ++ requirement req ∷ []
                else deps)
              (if packaging.marker req (text "instruments-any")
                then deps_any ++ requirement req ∷ []
                else deps_any)
      ]

  unfoldable pub get_dist_dependency_conflicts :
      List Text → Option (Option (DependencyConflict Req))
  get_dist_dependency_conflicts requires = elim (dist_loop requires [] []) [
    | none ↦ none
    | some (deps, deps_any) ↦ some (get_dependency_conflicts deps deps_any)
  ]

  -- `_is_version_conflict`
  unfoldable pub is_version_conflict : DependencyConflict Req → Bool
  is_version_conflict c =
      (elim c.found [ none ↦ false | some [] ↦ false | some (x ∷ xs) ↦ true ])
      || (elim c.found_any [ [] ↦ false | x ∷ xs ↦ true ])
