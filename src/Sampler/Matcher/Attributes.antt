-- ===== src/Sampler/Matcher/Attributes.antt =====
-- `attribute_match`: a count over the attributes of the span that stands for a statement on each
-- attribute of the rule.
use mathlib.Core.Path.{subst}
use opentelemetry_python_con.Common.{
  ℕ, suc, ◌≡◌, ◌↔◌, ◌≤◌, refl, Bool, true, false, Option, none, some, [], ◌∷◌, Text, arith, length,
  All, sym, ◌≢◌, ◌⊎◌, Option-cases, if◌then◌else◌, text_eq_iff, inl, inr,
}
use opentelemetry_python_con.Common.{Dict, get}
use opentelemetry_python_con.Sampler.Matcher.{
  AttributeValue, wild_card_match, matched_count, attribute_match,
}

-- The keys of a `dict` are distinct.
abbrev pub Distinct : {V : Type 0} → Dict V → Type 0
Distinct [] = Unit
Distinct ((k, v) ∷ d) = (get d k ≡ none) × Distinct d

-- The value that the span has for a rule's key, if any, matches the rule's pattern.
is_hit : Option AttributeValue → Text → Bool
is_hit none pattern = false
is_hit (some v) pattern = wild_card_match (some v) pattern

-- The attributes of a rule that a span matches.
hits : Dict AttributeValue → Dict Text → ℕ
hits d [] = 0
hits d ((k, pattern) ∷ rules) =
    let rest = hits d rules in if is_hit (get d k) pattern then suc rest else rest

hits-nil : (rules : Dict Text) → hits [] rules ≡ 0
unfolding hits is_hit get
hits-nil [] = refl
hits-nil ((k, pattern) ∷ rules) = hits-nil rules

module _ (k : Text) (v : AttributeValue) (d : Dict AttributeValue) where
  hits_absent : (rules : Dict Text) → get rules k ≡ none → hits ((k, v) ∷ d) rules ≡ hits d rules
  unfolding hits get
  hits_absent [] h = refl
  hits_absent ((j, pattern) ∷ rules) h =
      ground (arith, text_eq_iff k j, text_eq_iff j k, hits_absent rules)

  counted : Option Text → ℕ → ℕ
  counted none n = n
  counted (some pattern) n = if wild_card_match (some v) pattern then suc n else n

  hits_cons :
      (rules : Dict Text)
      → get d k ≡ none
      → Distinct rules
      → hits ((k, v) ∷ d) rules ≡ counted (get rules k) (hits d rules)
  unfolding hits get is_hit counted
  hits_cons [] h u = refl
  hits_cons ((j, pattern) ∷ rules) h u =
      ground (arith, text_eq_iff k j, text_eq_iff j k, hits_absent rules, hits_cons rules h u.1)

matched_count-hits :
    (d : Dict AttributeValue) (rules : Dict Text)
    → Distinct d
    → Distinct rules
    → matched_count d rules ≡ hits d rules
unfolding matched_count counted
matched_count-hits [] rules h u = sym (hits-nil rules)
matched_count-hits ((k, v) ∷ d) rules h u =
    ground (arith, hits_cons k v d rules h.0 u, matched_count-hits d rules h.1 u)

hits-le : (d : Dict AttributeValue) (rules : Dict Text) → hits d rules ≤ length rules
unfolding hits
hits-le d [] = omega arith
hits-le d ((k, pattern) ∷ rules) = ground (arith, hits-le d rules)

matched_count-le : (d : Dict AttributeValue) (rules : Dict Text) → matched_count d rules ≤ length d
unfolding matched_count
matched_count-le [] rules = omega arith
matched_count-le ((k, v) ∷ d) rules = ground (arith, matched_count-le d rules)

-- The span has an attribute under the rule's key, and its value matches the rule's pattern.
abbrev pub HasMatch : Dict AttributeValue → Text × Text → Type 0
HasMatch d r = (v : AttributeValue) × (get d r.0 ≡ some v) × (wild_card_match (some v) r.1 ≡ true)

is_hit-HasMatch :
    (d : Dict AttributeValue) (r : Text × Text) → is_hit (get d r.0) r.1 ≡ true → HasMatch d r
unfolding is_hit
is_hit-HasMatch d r h = elim (Option-cases (get d r.0)) [
  | inl e ↦ absurd (ground arith)
  | inr (v, e) ↦ (v, e, ground arith)
]

HasMatch-is_hit :
    (d : Dict AttributeValue) (r : Text × Text) → HasMatch d r → is_hit (get d r.0) r.1 ≡ true
unfolding is_hit
HasMatch-is_hit d r (v, e, m) = ground arith

All-HasMatch :
    (d : Dict AttributeValue) (rules : Dict Text)
    → hits d rules ≡ length rules
    → All (HasMatch d) rules
unfolding hits
All-HasMatch d [] h = tt
All-HasMatch d (r ∷ rules) h = (
  is_hit-HasMatch d r (ground (arith, hits-le d rules)),
  All-HasMatch d rules (ground (arith, hits-le d rules)),
)

hits-All :
    (d : Dict AttributeValue) (rules : Dict Text)
    → All (HasMatch d) rules
    → hits d rules ≡ length rules
unfolding hits
hits-All d [] h = refl
hits-All d (r ∷ rules) h = ground (arith, HasMatch-is_hit d r h.0, hits-All d rules h.1)

-- Some dict of attributes is given, and it matches each attribute of the rule.
abbrev pub MatchesAll : Option (Dict AttributeValue) → Dict Text → Type 0
MatchesAll attributes rules =
    (d : Dict AttributeValue) × (attributes ≡ some d) × All (HasMatch d) rules

module _ (rules : Dict Text) (u : Distinct rules) where
  sound_some :
      (d : Dict AttributeValue)
      → Distinct d
      → length rules ≢ 0
      → attribute_match (some d) rules ≡ true
      → All (HasMatch d) rules
  unfolding attribute_match
  sound_some d h n m = All-HasMatch d rules (ground (arith, matched_count-hits d rules h u))

  complete_some :
      (d : Dict AttributeValue)
      → Distinct d
      → All (HasMatch d) rules
      → attribute_match (some d) rules ≡ true
  unfolding attribute_match
  complete_some d h m =
      ground (arith, matched_count-hits d rules h u, hits-All d rules m, matched_count-le d rules)

-- The dict that is given, if one is given, has distinct keys.
abbrev pub DistinctIfGiven : Option (Dict AttributeValue) → Type 0
DistinctIfGiven none = Unit
DistinctIfGiven (some d) = Distinct d

sound :
    (attributes : Option (Dict AttributeValue)) (rules : Dict Text)
    → DistinctIfGiven attributes
    → Distinct rules
    → attribute_match attributes rules ≡ true
    → (rules ≡ []) ⊎ MatchesAll attributes rules
unfolding attribute_match
sound attributes [] h u m = inl refl
sound none (r ∷ rules) h u m = absurd (ground arith)
sound (some d) (r ∷ rules) h u m = inr (d, refl, sound_some (r ∷ rules) u d h (omega arith) m)

complete :
    (attributes : Option (Dict AttributeValue)) (rules : Dict Text)
    → DistinctIfGiven attributes
    → Distinct rules
    → (rules ≡ []) ⊎ MatchesAll attributes rules
    → attribute_match attributes rules ≡ true
unfolding attribute_match
complete attributes [] h u m = refl
complete attributes (r ∷ rules) h u (inl e) = absurd (ground arith)
complete none (r ∷ rules) h u (inr (d, e, m)) = absurd (ground arith)
complete (some d) (r ∷ rules) h u (inr (d', e, m)) =
    let same : d ≡ d' = cc in
    complete_some (r ∷ rules) u d h (subst (λ x. All (HasMatch x) (r ∷ rules)) (sym same) m)

-- `attribute_match`, which counts the matching attributes of the span, holds exactly if the rule has
-- no attributes, or attributes are given and under each key of the rule they have a value that
-- matches. Both dicts have distinct keys, as dicts do.
pub attribute_match_iff :
    (attributes : Option (Dict AttributeValue)) (rules : Dict Text)
    → DistinctIfGiven attributes
    → Distinct rules
    → (attribute_match attributes rules ≡ true) ↔ ((rules ≡ []) ⊎ MatchesAll attributes rules)
attribute_match_iff attributes rules h u =
    (sound attributes rules h u, complete attributes rules h u)
