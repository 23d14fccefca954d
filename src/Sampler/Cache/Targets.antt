-- ===== src/Sampler/Cache/Targets.antt =====
-- `update_sampling_targets`: what becomes of the appliers, and the polling interval that it returns.
use mathlib.Core.Path.{ap₂}
use opentelemetry_python_con.Common.{
  ℕ, ◌≡◌, ◌≤◌, ◌<◌, Bool-cases, ◌⊎◌, inl, inr, refl, ap, Option, none, some, List, [], ◌∷◌, map,
  All, In, here, there, arith, ltb, or_default,
}
use opentelemetry_python_con.Sampler.Target.{Target, TargetResponse}
use opentelemetry_python_con.Sampler.Applier.{Applier}
use opentelemetry_python_con.Sampler.Applier.Counts.{with_target_keeps}
use opentelemetry_python_con.Sampler.Cache.{
  Cache, find_target, lower, assign, note_interval, retarget, update_sampling_targets,
  default_target_polling_interval,
}
use opentelemetry_python_con.Sampler.Cache.Choice.{rules}

abbrev listed : Option ℕ → List ℕ → List ℕ
listed none is = is
listed (some i) is = i ∷ is

In-second : {n m i : ℕ} {is : List ℕ} → In n (m ∷ is) → In n (m ∷ i ∷ is)
In-second here = here
In-second (there h) = there (there h)

module _ {Rate : Type 0} where
  abbrev interval_of : Option (Target Rate) → List ℕ → List ℕ
  interval_of none rest = rest
  interval_of (some t) rest = listed t.interval rest

  -- the intervals of the targets that were given to an applier
  pub intervals : List (Target Rate) → List (Applier Rate) → List ℕ
  intervals targets [] = []
  intervals targets (a ∷ appliers) =
      interval_of (find_target a.rule.rule_name targets) (intervals targets appliers)

-- `least` is the least of the intervals, if there is one.
abbrev pub LeastOf : Option ℕ → List ℕ → Type 0
LeastOf none is = is ≡ []
LeastOf (some m) is = In m is × All (λ i. m ≤ i) is

abbrev starting : Option ℕ → List ℕ → List ℕ
starting none is = is
starting (some m) is = m ∷ is

LeastOf-less :
    (result : Option ℕ) (m i : ℕ) (is : List ℕ)
    → i < m
    → LeastOf result (i ∷ is)
    → LeastOf result (m ∷ i ∷ is)
LeastOf-less none m i is lt h = absurd (ground arith)
LeastOf-less (some n) m i is lt h = (there h.0, (omega arith, h.1))

LeastOf-more :
    (result : Option ℕ) (m i : ℕ) (is : List ℕ)
    → m ≤ i
    → LeastOf result (m ∷ is)
    → LeastOf result (m ∷ i ∷ is)
LeastOf-more none m i is le h = absurd (ground arith)
LeastOf-more (some n) m i is le (h, all) = (In-second h, (all.0, (omega arith, all.1)))

LeastOf-lower :
    (result least interval : Option ℕ) (is : List ℕ)
    → LeastOf result (starting (lower least interval) is)
    → LeastOf result (starting least (listed interval is))
unfolding lower
LeastOf-lower result none none is h = h
LeastOf-lower result (some m) none is h = h
LeastOf-lower result none (some i) is h = h
LeastOf-lower result (some m) (some i) is h = elim (Bool-cases (ltb i m)) [
  | inl lt ↦ LeastOf-less result m i is (ground arith) (rw lt at h)
  | inr ge ↦ LeastOf-more result m i is (ground arith) (rw ge at h)
]

module _ {Rate : Type 0} (now : ℕ) (targets : List (Target Rate)) where
  pub retarget-map :
      (appliers : List (Applier Rate)) (least : Option ℕ)
      → (retarget now targets appliers least).0
        ≡ map (λ a. assign now (find_target a.rule.rule_name targets) a) appliers
  unfolding retarget
  retarget-map [] least = refl
  retarget-map (a ∷ appliers) least =
      let found = find_target a.rule.rule_name targets in
      ap (◌∷◌ (assign now found a)) (retarget-map appliers (note_interval found least))

  pub rule-assign : (t : Option (Target Rate)) (a : Applier Rate) → (assign now t a).rule ≡ a.rule
  unfolding assign
  rule-assign none a = refl
  rule-assign (some t) a = (with_target_keeps now t a).1

  pub statistics-assign :
      (t : Option (Target Rate)) (a : Applier Rate) → (assign now t a).statistics ≡ a.statistics
  unfolding assign
  statistics-assign none a = refl
  statistics-assign (some t) a = (with_target_keeps now t a).0

  pub rules-retarget :
      (appliers : List (Applier Rate)) (least : Option ℕ)
      → rules (retarget now targets appliers least).0 ≡ rules appliers
  unfolding retarget
  rules-retarget [] least = refl
  rules-retarget (a ∷ appliers) least =
      let found = find_target a.rule.rule_name targets in
      ap₂ ◌∷◌ (rule-assign found a) (rules-retarget appliers (note_interval found least))

  LeastOf-note :
      (result least : Option ℕ) (t : Option (Target Rate)) (is : List ℕ)
      → LeastOf result (starting (note_interval t least) is)
      → LeastOf result (starting least (interval_of t is))
  unfolding note_interval
  LeastOf-note result least none is h = h
  LeastOf-note result least (some t) is h = LeastOf-lower result least t.interval is h

  retarget-LeastOf :
      (appliers : List (Applier Rate)) (least : Option ℕ)
      → LeastOf
          (retarget now targets appliers least).1
          (starting least (intervals targets appliers))
  unfolding retarget intervals
  retarget-LeastOf [] none = refl
  retarget-LeastOf [] (some m) = (here, (omega arith, tt))
  retarget-LeastOf (a ∷ appliers) least =
      let found = find_target a.rule.rule_name targets in
      LeastOf-note (retarget now targets appliers (note_interval found least)).1 least found
        (intervals targets appliers) (retarget-LeastOf appliers (note_interval found least))

module _ {Rate : Type 0} (now : ℕ) (response : TargetResponse Rate) (c : Cache Rate) where
  abbrev returned : ℕ
  returned = (update_sampling_targets now response c).0.1

  interval_LeastOf :
      (result : Option ℕ) (is : List ℕ)
      → LeastOf result is
      → ((is ≡ [])
          × (or_default result default_target_polling_interval ≡ default_target_polling_interval))
        ⊎ (In (or_default result default_target_polling_interval) is
            × All (λ i. or_default result default_target_polling_interval ≤ i) is)
  interval_LeastOf none is h = inl (h, refl)
  interval_LeastOf (some m) is h = inr h

  -- The polling interval that is returned is the least of the intervals of the targets that were
  -- given to an applier, and ten seconds if there is none.
  pub polling_interval_least :
      ((intervals response.targets c.appliers ≡ []) × (returned ≡ default_target_polling_interval))
      ⊎ (In returned (intervals response.targets c.appliers)
          × All (λ i. returned ≤ i) (intervals response.targets c.appliers))
  unfolding update_sampling_targets
  polling_interval_least =
      interval_LeastOf _ _ (retarget-LeastOf now response.targets c.appliers none)
