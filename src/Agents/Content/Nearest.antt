-- ===== src/Agents/Content/Nearest.antt =====
-- The agent that the search finds is the nearest one.
use opentelemetry_python_con.Common.{
  ℕ, zero, suc, ◌<◌, ◌≡◌, ◌↔◌, refl, sym, ap, ◌∙◌, true, false, Option, none, some, List, [], ◌∷◌,
  All, Text, text_eq, text_eq_sound, arith, inl, inr, Bool-cases, Dict,
}
use mathlib.Core.Path.{subst}
use opentelemetry_python_con.Agents.Content.{
  Content, has_key, parent_of, is_visited, find_loop, find_agent_parent_span_id,
}
use opentelemetry_python_con.Agents.Content.Ancestor.{
  Nearest, here, above, find_agent_parent_span_id-IsFound,
}

module _ (parents : Dict (Option Text)) (contents : Dict Content) where
  steps_unique :
      {n m : ℕ} {current : Option Text} {id id' : Text}
      → Nearest parents contents n current id
      → Nearest parents contents m current id'
      → n ≡ m
  steps_unique (here k) (here k') = refl
  steps_unique (here k) (above k' rest) = absurd (ground arith)
  steps_unique (above k rest) (here k') = absurd (ground arith)
  steps_unique (above k rest) (above k' rest') = ap suc (steps_unique rest rest')

  find_loop-Nearest :
      (fuel : ℕ) (visited : List Text) (current : Option Text) {id : Text}
      → find_loop fuel parents contents visited current ≡ some (some id)
      → (n : ℕ) × Nearest parents contents n current id
  unfolding find_loop
  find_loop-Nearest fuel visited none h = absurd (ground arith)
  find_loop-Nearest fuel visited (some []) h = absurd (ground arith)
  find_loop-Nearest zero visited (some (c ∷ cs)) h = absurd (ground arith)
  find_loop-Nearest (suc fuel) visited (some (c ∷ cs)) {id} h =
      elim (Bool-cases (is_visited (c ∷ cs) visited)) [
        | inl v ↦ absurd (ground arith)
        | inr v ↦ elim (Bool-cases (has_key contents (c ∷ cs))) [
          | inl k ↦
              let same : c ∷ cs ≡ id = ground arith in
              (0, subst (λ t. Nearest parents contents 0 (some (c ∷ cs)) t) same (here k))
          | inr k ↦
              let (n, rest) =
                find_loop-Nearest fuel ((c ∷ cs) ∷ visited) (parent_of parents (c ∷ cs)) {id = id}
                  (ground arith) in
              (suc n, above k rest)
        ]
      ]

  -- the keys that are visited are further from the agent
  abbrev Further : ℕ → Text → List Text → Type 0
  Further n id visited =
      All (λ v. (m : ℕ) × (n < m) × Nearest parents contents m (some v) id) visited

  Further-at :
      (n : ℕ) (key id : Text) (visited : List Text)
      → Further n id visited
      → is_visited key visited ≡ true
      → (m : ℕ) × (n < m) × Nearest parents contents m (some key) id
  unfolding is_visited
  Further-at n key id [] all h = absurd (ground arith)
  Further-at n key id (v ∷ vs) ((m, lt, near), all) h = elim (Bool-cases (text_eq key v)) [
    | inl e ↦ (
      m,
      lt,
      subst (λ t. Nearest parents contents m (some t) id) (sym (text_eq_sound key v e)) near,
    )
    | inr e ↦ Further-at n key id vs all (ground arith)
  ]

  Further-weaken :
      (n : ℕ) (id : Text) (visited : List Text) → Further (suc n) id visited → Further n id visited
  Further-weaken n id [] all = tt
  Further-weaken n id (v ∷ vs) ((m, lt, near), all) =
      ((m, omega (arith, lt), near), Further-weaken n id vs all)

  not_visited :
      {n : ℕ} {key id : Text} (visited : List Text)
      → Nearest parents contents n (some key) id
      → Further n id visited
      → is_visited key visited ≡ false
  not_visited {n} {key} {id} visited near all = elim (Bool-cases (is_visited key visited)) [
    | inl v ↦
        let (m, lt, other) = Further-at n key id visited all v in
        let same = steps_unique near other in absurd (omega (arith, lt, same))
    | inr v ↦ v
  ]

  Nearest-find_loop :
      (fuel : ℕ) {n : ℕ} (visited : List Text) {current : Option Text} {id : Text} {r : Option Text}
      → Nearest parents contents n current id
      → Further n id visited
      → find_loop fuel parents contents visited current ≡ some r
      → r ≡ some id
  unfolding find_loop
  Nearest-find_loop zero visited (here k) all h = absurd (ground arith)
  Nearest-find_loop zero visited (above k rest) all h = absurd (ground arith)
  Nearest-find_loop (suc fuel) visited (here k) all h =
      let new = not_visited visited (here k) all in ground arith
  Nearest-find_loop (suc fuel) {n = suc n} visited {id = id} (above {c = c} {cs = cs} k rest) all
        h =
      let new = not_visited visited (above k rest) all in
      Nearest-find_loop fuel {n = n} ((c ∷ cs) ∷ visited) {id = id} rest
        ((suc n, omega arith, above k rest), Further-weaken n id visited all) (ground arith)

  -- An agent is found exactly if it is the nearest, some number of steps up, whose content is gathered.
  pub find_agent_parent_span_id_iff :
      (current : Option Text) (id : Text)
      → (find_agent_parent_span_id parents contents current ≡ some (some id))
        ↔ ((n : ℕ) × Nearest parents contents n current id)
  unfolding find_agent_parent_span_id
  find_agent_parent_span_id_iff current id = (
    find_loop-Nearest _ [] current,
    λ (n, near).
        let (r, e) = find_agent_parent_span_id-IsFound parents contents current in
        e ∙ ap some (Nearest-find_loop _ [] near tt e),
  )
