-- ===== src/Sampler/Cache/Keys.antt =====
-- Rules with the same name, priority and version stand at the same place, and are kept alike.
use opentelemetry_python_con.Common.{
  ◌≡◌, ◌≢◌, ◌==◌, ◌&&◌, inl, inr, List, [], ◌∷◌, arith, Bool, true, not, Bool-cases, sym, refl, ◌∙◌,
  if◌then◌else◌, ltb, length, Text, text_eq,
}
use opentelemetry_python_con.Sampler.Rule.{Rule, rule_lt}
use opentelemetry_python_con.Sampler.Rule.Order.{IsSorted, IsLeast}
use opentelemetry_python_con.Sampler.Applier.{Applier}
use opentelemetry_python_con.Sampler.Cache.{is_supported}
use opentelemetry_python_con.Sampler.Cache.Choice.{rules}

-- The rule has a name, and is of version 1.
abbrev pub IsSupported : {Rate : Type 0} → Rule Rate → Type 0
IsSupported r = (r.rule_name ≢ []) × (r.version ≡ 1)

named_if_nonempty :
    (name : Text) (v : Bool) → (not (text_eq name []) && v) ≡ (ltb 0 (length name) && v)
unfolding text_eq
named_if_nonempty [] v = refl
named_if_nonempty (c ∷ name) v = ground arith

module _ {Rate : Type 0} where
  -- the same as a test
  unfoldable pub named : Rule Rate → Bool
  named r = ltb 0 (length r.rule_name) && (r.version == 1)

  pub is_supported-named : (r : Rule Rate) → is_supported r ≡ named r
  unfolding is_supported named
  is_supported-named r = named_if_nonempty r.rule_name (r.version == 1)

  pub named-IsSupported : (r : Rule Rate) → named r ≡ true → IsSupported r
  unfolding named
  named-IsSupported r h = (λ e. absurd (ground arith), ground arith)

  -- the rules that are supported
  unfoldable pub supported : List (Rule Rate) → List (Rule Rate)
  supported [] = []
  supported (r ∷ rs) = let rest = supported rs in if named r then r ∷ rest else rest

-- The name, the priority and the version are the same.
abbrev pub SameKey : {Rate : Type 0} → Rule Rate → Rule Rate → Type 0
SameKey r s = (r.rule_name ≡ s.rule_name) × (r.priority ≡ s.priority) × (r.version ≡ s.version)

module _ {Rate : Type 0} where
  rule_lt-SameKey :
      (r r' s s' : Rule Rate) → SameKey r r' → SameKey s s' → rule_lt r s ≡ rule_lt r' s'
  unfolding rule_lt
  rule_lt-SameKey r r' s s' h k = ground arith

  abbrev pub SameKeys : List (Rule Rate) → List (Applier Rate) → Type 0
  SameKeys [] [] = Unit
  SameKeys [] (a ∷ as') = ⊥
  SameKeys (r ∷ rs) [] = ⊥
  SameKeys (r ∷ rs) (a ∷ as') = SameKey r a.rule × SameKeys rs as'

  IsLeast-SameKeys :
      (r r' : Rule Rate) (rs : List (Rule Rate)) (l : List (Applier Rate))
      → SameKey r r'
      → SameKeys rs l
      → IsLeast r rs
      → IsLeast r' (rules l)
  IsLeast-SameKeys r r' [] [] k h least = tt
  IsLeast-SameKeys r r' [] (a ∷ l) k h least = absurd h
  IsLeast-SameKeys r r' (s ∷ rs) [] k h least = absurd h
  IsLeast-SameKeys r r' (s ∷ rs) (a ∷ l) k h least = (
    sym (rule_lt-SameKey s a.rule r r' h.0 k) ∙ least.0,
    IsLeast-SameKeys r r' rs l k h.1 least.1,
  )

  pub IsSorted-SameKeys :
      (rs : List (Rule Rate)) (l : List (Applier Rate))
      → SameKeys rs l
      → IsSorted rs
      → IsSorted (rules l)
  IsSorted-SameKeys [] [] h sorted = tt
  IsSorted-SameKeys [] (a ∷ l) h sorted = absurd h
  IsSorted-SameKeys (r ∷ rs) [] h sorted = absurd h
  IsSorted-SameKeys (r ∷ rs) (a ∷ l) h sorted =
      (IsLeast-SameKeys r a.rule rs l h.0 h.1 sorted.0, IsSorted-SameKeys rs l h.1 sorted.1)

  supported-IsLeast :
      (r : Rule Rate) (rs : List (Rule Rate)) → IsLeast r rs → IsLeast r (supported rs)
  unfolding supported
  supported-IsLeast r [] h = tt
  supported-IsLeast r (s ∷ rs) h = elim (Bool-cases (named s)) [
    | inl p ↦ rw p (h.0, supported-IsLeast r rs h.1)
    | inr p ↦ rw p (supported-IsLeast r rs h.1)
  ]

  pub supported-IsSorted : (rs : List (Rule Rate)) → IsSorted rs → IsSorted (supported rs)
  unfolding supported
  supported-IsSorted [] h = tt
  supported-IsSorted (s ∷ rs) h = elim (Bool-cases (named s)) [
    | inl p ↦ rw p (supported-IsLeast s rs h.0, supported-IsSorted rs h.1)
    | inr p ↦ rw p (supported-IsSorted rs h.1)
  ]
