-- ===== src/Instrument/Dependencies/Met.antt =====
-- When there is no conflict.
use opentelemetry_python_con.Common.{
  ◌≡◌, ◌≢◌, ◌↔◌, ◌++◌, refl, true, Option, none, some, Option-cases, List, [], ◌∷◌, All, Text,
  arith, ◌⊎◌, inl, inr,
}
use opentelemetry_python_con.Instrument.Dependencies.{
  Installed, not_found, version, Packaging, Dep, resolve, version_matches, find_version, Finding,
  invalid, missing, mismatched, satisfied, find_dep, any_loop, get_dependency_conflicts_any,
  get_dependency_conflicts, show_dep,
}

module _ {Req : Type 0} (packaging : Packaging Req) where
  -- The requirement is valid, and the package it names is installed in a version that matches.
  pub data IsMet (dep : Dep Req) : Type 0 where
    met :
        {req : Req} {v : Option Text}
        → resolve packaging dep ≡ some req
        → packaging.installed (packaging.name req) ≡ version v
        → version_matches packaging req v ≡ true
        → IsMet dep

  -- One of the dependencies is met, and none before it is an invalid requirement.
  pub data OneMet : List (Dep Req) → Type 0 where
    here : {dep : Dep Req} {deps : List (Dep Req)} → IsMet dep → OneMet (dep ∷ deps)
    there :
        {dep : Dep Req} {deps : List (Dep Req)}
        → resolve packaging dep ≢ none
        → OneMet deps
        → OneMet (dep ∷ deps)

  find_version-IsMet :
      (req : Req) (i : Installed)
      → find_version packaging req i ≡ satisfied
      → (v : Option Text) × (i ≡ version v) × (version_matches packaging req v ≡ true)
  unfolding find_version
  find_version-IsMet req not_found h = absurd (ground arith)
  find_version-IsMet req (version v) h = (v, refl, ground arith)

  find_dep-IsMet : (dep : Dep Req) → find_dep packaging dep ≡ satisfied → IsMet dep
  unfolding find_dep
  find_dep-IsMet dep h = elim (Option-cases (resolve packaging dep)) [
    | inl e ↦ absurd (ground arith)
    | inr (req, e) ↦
        let (v, i, m) =
          find_version-IsMet req (packaging.installed (packaging.name req)) (ground arith) in
        met e i m
  ]

  IsMet-find_dep : {dep : Dep Req} → IsMet dep → find_dep packaging dep ≡ satisfied
  unfolding find_dep find_version
  IsMet-find_dep (met e i m) = rw (e, find_dep, i, find_version, m) refl

  find_version-valid : (req : Req) (i : Installed) → find_version packaging req i ≢ invalid
  unfolding find_version
  find_version-valid req not_found h = ground arith
  find_version-valid req (version v) h = ground arith

  find_dep-invalid :
      (dep : Dep Req) → (find_dep packaging dep ≡ invalid) ↔ (resolve packaging dep ≡ none)
  unfolding find_dep
  find_dep-invalid dep = elim (Option-cases (resolve packaging dep)) [
    | inl e ↦ (λ h. e, λ h. rw (e, find_dep) refl)
    | inr (req, e) ↦ (
      λ h.
          absurd (find_version-valid req (packaging.installed (packaging.name req)) (ground arith)),
      λ h. absurd (ground arith),
    )
  ]

  Finding-cases :
      (f : Finding packaging)
      → (f ≡ invalid) ⊎ ((f ≡ satisfied) ⊎ ((f ≡ missing) ⊎ ((t : Text) × (f ≡ mismatched t))))
  Finding-cases invalid = inl refl
  Finding-cases satisfied = inr (inl refl)
  Finding-cases missing = inr (inr (inl refl))
  Finding-cases (mismatched t) = inr (inr (inr (t, refl)))

  any_loop-OneMet :
      (deps : List (Dep Req)) (required found : List Text)
      → any_loop packaging deps required found ≡ none
      → OneMet deps
  unfolding any_loop
  any_loop-OneMet [] required found h = absurd (ground arith)
  any_loop-OneMet (dep ∷ deps) required found h = elim (Finding-cases (find_dep packaging dep)) [
    | inl e ↦ absurd (ground arith)
    | inr (inl e) ↦ here (find_dep-IsMet dep e)
    | inr (inr (inl e)) ↦
        there (λ i. let j = (find_dep-invalid dep).1 i in ground arith)
          (any_loop-OneMet deps (required ++ show_dep packaging dep ∷ []) found (ground arith))
    | inr (inr (inr (t, e))) ↦
        there (λ i. let j = (find_dep-invalid dep).1 i in ground arith)
          (any_loop-OneMet deps (required ++ show_dep packaging dep ∷ []) (found ++ t ∷ [])
            (ground arith))
  ]

  OneMet-any_loop :
      {deps : List (Dep Req)}
      → OneMet deps
      → (required found : List Text) → any_loop packaging deps required found ≡ none
  unfolding any_loop
  OneMet-any_loop (here m) required found = let e = IsMet-find_dep m in rw (e, any_loop) refl
  OneMet-any_loop (there {dep = dep} valid rest) required found =
      elim (Finding-cases (find_dep packaging dep)) [
        | inl e ↦ absurd (valid ((find_dep-invalid dep).0 e))
        | inr (inl e) ↦ rw (e, any_loop) refl
        | inr (inr (inl e)) ↦ rw (e, any_loop) (OneMet-any_loop rest _ found)
        | inr (inr (inr (t, e))) ↦ rw (e, any_loop) (OneMet-any_loop rest _ _)
      ]

  -- what `deps_any` asks for
  abbrev pub AnyMet : List (Dep Req) → Type 0
  AnyMet [] = Unit
  AnyMet (dep ∷ deps) = OneMet (dep ∷ deps)

  any_iff :
      (deps_any : List (Dep Req))
      → (get_dependency_conflicts_any packaging deps_any ≡ none) ↔ AnyMet deps_any
  unfolding get_dependency_conflicts_any
  any_iff [] = (λ h. tt, λ h. refl)
  any_iff (dep ∷ deps) = (any_loop-OneMet (dep ∷ deps) [] [], λ h. OneMet-any_loop h [] [])

  -- There is no conflict exactly if each of the dependencies is a valid requirement whose package is installed in a
  -- version that matches, and so is one of those of which any is enough, if there are such, with no invalid
  -- requirement before it.
  pub get_dependency_conflicts_iff :
      (deps deps_any : List (Dep Req))
      → (get_dependency_conflicts packaging deps deps_any ≡ none)
        ↔ (All IsMet deps × AnyMet deps_any)
  unfolding get_dependency_conflicts
  get_dependency_conflicts_iff [] deps_any =
      (λ h. (tt, (any_iff deps_any).0 h), λ h. (any_iff deps_any).1 h.1)
  get_dependency_conflicts_iff (dep ∷ deps) deps_any =
      let rest = get_dependency_conflicts_iff deps deps_any in
      elim (Finding-cases (find_dep packaging dep)) [
        | inl e ↦ (
          λ h. absurd (ground arith),
          λ h. let e' = IsMet-find_dep h.0.0 in absurd (ground arith),
        )
        | inr (inl e) ↦ (
          λ h. let r = rest.0 (ground arith) in ((find_dep-IsMet dep e, r.0), r.1),
          λ h. rw (e, get_dependency_conflicts) (rest.1 (h.0.1, h.1)),
        )
        | inr (inr (inl e)) ↦ (
          λ h. absurd (ground arith),
          λ h. let e' = IsMet-find_dep h.0.0 in absurd (ground arith),
        )
        | inr (inr (inr (t, e))) ↦ (
          λ h. absurd (ground arith),
          λ h. let e' = IsMet-find_dep h.0.0 in absurd (ground arith),
        )
      ]
