-- ===== src/Agents/Content/Ancestor.antt =====
-- The search for the agent that a span is below: it ends, also where the parents form a cycle, and finds the
-- nearest agent.
use opentelemetry_python_con.Common.{
  ℕ, zero, suc, ◌+◌, ◌≤◌, ◌<◌, ◌≡◌, ◌⊎◌, refl, ap, ◌∙◌, Bool, true, false, Option, none, some, List,
  [], ◌∷◌, Text, text_eq, text_eq_sound, length, arith, inl, inr, Bool-cases, Option-cases,
  if◌then◌else◌, Dict, get,
}
use opentelemetry_python_con.Agents.Content.{
  Content, has_key, parent_of, is_visited, find_loop, find_agent_parent_span_id,
}

-- the entries of the dict whose keys are not visited
abbrev unvisited : Dict (Option Text) → List Text → ℕ
unvisited [] visited = 0
unvisited ((k, v) ∷ d) visited = (if is_visited k visited then 0 else 1) + unvisited d visited

unvisited_le : (d : Dict (Option Text)) (visited : List Text) → unvisited d visited ≤ length d
unvisited_le [] visited = omega arith
unvisited_le ((k, v) ∷ d) visited = let r = unvisited_le d visited in ground arith

unvisited_grows :
    (d : Dict (Option Text)) (key : Text) (visited : List Text)
    → unvisited d (key ∷ visited) ≤ unvisited d visited
unfolding is_visited
unvisited_grows [] key visited = omega arith
unvisited_grows ((k, v) ∷ d) key visited = let r = unvisited_grows d key visited in ground arith

unvisited_less :
    (d : Dict (Option Text)) (key : Text) (visited : List Text) {v : Option Text}
    → get d key ≡ some v
    → is_visited key visited ≡ false
    → unvisited d (key ∷ visited) < unvisited d visited
unfolding is_visited get
unvisited_less [] key visited h new = absurd (ground arith)
unvisited_less ((k, v) ∷ d) key visited {v = w} h new = elim (Bool-cases (text_eq k key)) [
  | inl e ↦
      let same : is_visited k visited ≡ false =
        ap (λ t. is_visited t visited) (text_eq_sound k key e) ∙ new in
      let r = unvisited_grows d key visited in rw (e, same) (omega (arith, r))
  | inr e ↦
      let r = unvisited_less d key visited {v = w} (ground arith) new in
      let g : is_visited k (key ∷ visited) ≡ is_visited k visited = rw (e, is_visited) refl in
      rw g (omega (arith, r))
]

abbrev pub IsFound : {A : Type 0} → Option A → Type 0
IsFound {A} o = (r : A) × (o ≡ some r)

if-IsFound :
    {A : Type 0} (b : Bool) {x y : Option A}
    → IsFound x
    → (b ≡ false → IsFound y)
    → IsFound (if b then x else y)
if-IsFound true f g = f
if-IsFound false f g = g refl

-- the parent of a key that is not visited: there is none, or fewer entries are left
parent_of-cases :
    (parents : Dict (Option Text)) (key : Text) (visited : List Text)
    → is_visited key visited ≡ false
    → (parent_of parents key ≡ none)
      ⊎ (unvisited parents (key ∷ visited) < unvisited parents visited)
unfolding parent_of
parent_of-cases parents key visited new = elim (Option-cases (get parents key)) [
  | inl e ↦ inl (rw (e, parent_of) refl)
  | inr (p, e) ↦ inr (unvisited_less parents key visited {v = p} e new)
]

-- Fuel for the entries that are not visited, and for one more pass, is enough.
find_loop-IsFound :
    (fuel : ℕ) (parents : Dict (Option Text)) (contents : Dict Content) (visited : List Text)
    (current : Option Text)
    → unvisited parents visited < fuel
    → IsFound (find_loop fuel parents contents visited current)
unfolding find_loop
find_loop-IsFound fuel parents contents visited none h = (none, refl)
find_loop-IsFound fuel parents contents visited (some []) h = (none, refl)
find_loop-IsFound zero parents contents visited (some (c ∷ cs)) h = absurd (omega (arith, h))
find_loop-IsFound (suc fuel) parents contents visited (some (c ∷ cs)) h =
    if-IsFound (is_visited (c ∷ cs) visited) (none, refl)
      (λ new.
        if-IsFound (has_key contents (c ∷ cs)) (some (c ∷ cs), refl)
          (λ e. elim (parent_of-cases parents (c ∷ cs) visited new) [
            | inl none_left ↦
                (none, ap (find_loop fuel parents contents ((c ∷ cs) ∷ visited)) none_left)
            | inr less ↦
                find_loop-IsFound fuel parents contents ((c ∷ cs) ∷ visited)
                  (parent_of parents (c ∷ cs)) (omega (arith, h, less))
          ]))

-- The search for an agent ends with a result, whatever the parents are, also where they form a cycle.
pub find_agent_parent_span_id-IsFound :
    (parents : Dict (Option Text)) (contents : Dict Content) (current : Option Text)
    → IsFound (find_agent_parent_span_id parents contents current)
unfolding find_agent_parent_span_id
find_agent_parent_span_id-IsFound parents contents current =
    let le = unvisited_le parents [] in
    find_loop-IsFound (length parents + 1) parents contents [] current (omega (arith, le))

-- `Nearest parents contents n current id`: n steps up from `current`, `id` is the first that has content.
pub data Nearest (parents : Dict (Option Text)) (contents : Dict Content)
    : ℕ → Option Text → Text → Type 0 where
  here :
      {c : ℕ} {cs : Text}
      → has_key contents (c ∷ cs) ≡ true
      → Nearest parents contents 0 (some (c ∷ cs)) (c ∷ cs)
  above :
      {n c : ℕ} {cs id : Text}
      → has_key contents (c ∷ cs) ≡ false
      → Nearest parents contents n (parent_of parents (c ∷ cs)) id
      → Nearest parents contents (suc n) (some (c ∷ cs)) id
