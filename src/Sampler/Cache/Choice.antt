-- ===== src/Sampler/Cache/Choice.antt =====
-- Which rule decides on a request.
use opentelemetry_python_con.Common.{
  ℕ, ◌≡◌, ◌⊎◌, inl, inr, refl, true, false, none, some, List, [], ◌∷◌, map, All, In, here, there,
  Bool-cases,
}
use opentelemetry_python_con.Sampler.Sdk.{Sdk, Request, Attributes}
use opentelemetry_python_con.Sampler.Rule.{Rule, rule_lt}
use opentelemetry_python_con.Sampler.Rule.Order.{IsSorted, IsLeast, rule_lt_irrefl}
use opentelemetry_python_con.Sampler.Limited.{fallback_sample}
use opentelemetry_python_con.Sampler.Applier
use opentelemetry_python_con.Sampler.Applier.{Applier}
use opentelemetry_python_con.Sampler.Applier.Matching.{Semconv}
use opentelemetry_python_con.Sampler.Cache.{Cache, applies, sample_first, should_sample}

-- the rules of the appliers, in order
abbrev pub rules : {Rate : Type 0} → List (Applier Rate) → List (Rule Rate)
rules appliers = map (λ a. a.rule) appliers

module _ (sc : Semconv) (sdk : Sdk) (now : ℕ) (request : Request sdk) (resource : Attributes) where
  open sdk use {Rate}

  -- `b` does not apply, or it is not before `a` in the order of rules.
  abbrev pub NotBefore : Applier Rate → Applier Rate → Type 0
  NotBefore a b = (applies sc sdk now request resource b ≡ false) ⊎ (rule_lt b.rule a.rule ≡ false)

  -- An applier of the list applies, none that applies is before it, and it gives the answer.
  abbrev pub Chosen : List (Applier Rate) → sdk.SamplingResult → Type 0
  Chosen appliers result =
      (a : Applier Rate) × In a appliers
      × (applies sc sdk now request resource a ≡ true)
      × All (NotBefore a) appliers
      × (result ≡ (Applier.should_sample sdk now request a).0)

  abbrev pub NoneApplies : List (Applier Rate) → Type 0
  NoneApplies appliers = All (λ a. applies sc sdk now request resource a ≡ false) appliers

  abbrev FirstChoice : List (Applier Rate) → Type 0
  FirstChoice l =
      ((sample_first sc sdk now request resource l ≡ none) × NoneApplies l)
      ⊎ ((result : sdk.SamplingResult) × (l' : List (Applier Rate)) × (sample_first sc sdk now
              request resource l
            ≡ some (result, l'))
          × Chosen l result)

  least-NotBefore :
      (a : Applier Rate) (l : List (Applier Rate)) → IsLeast a.rule (rules l) → All (NotBefore a) l
  least-NotBefore a [] h = tt
  least-NotBefore a (b ∷ l) h = (inr h.0, least-NotBefore a l h.1)

  first_choice : (l : List (Applier Rate)) → IsSorted (rules l) → FirstChoice l
  unfolding sample_first
  first_choice [] h = inl (refl, tt)
  first_choice (a ∷ l) h = elim (Bool-cases (applies sc sdk now request resource a)) [
    | inl yes_a ↦ inr (
      (Applier.should_sample sdk now request a).0,
      (Applier.should_sample sdk now request a).1 ∷ l,
      rw yes_a,
      (a, here, yes_a, (inr (rule_lt_irrefl a.rule), least-NotBefore a l h.0), refl),
    )
    | inr no_a ↦ elim (first_choice l h.1) [
      | inl n ↦ inl (rw (no_a, n.0), (no_a, n.1))
      | inr (result, l', e, (b, m, y, nb, f)) ↦
          inr (result, a ∷ l', rw (no_a, e), (b, there m, y, (inl no_a, nb), f))
    ]
  ]

module _ (sc : Semconv) (sdk : Sdk) (now : ℕ) (request : Request sdk) (c : Cache sdk.Rate) where
  pub should_sample-none :
      sample_first sc sdk now request c.resource c.appliers ≡ none
      → should_sample sc sdk now request c ≡ (
        (fallback_sample sdk now request c.fallback).0,
        record c { fallback = (fallback_sample sdk now request c.fallback).1 },
      )
  unfolding should_sample
  should_sample-none e = rw (e, should_sample)

  pub should_sample-some :
      {result : sdk.SamplingResult} {l : List (Applier sdk.Rate)}
      → sample_first sc sdk now request c.resource c.appliers ≡ some (result, l)
      → should_sample sc sdk now request c ≡ (result, record c { appliers = l })
  unfolding should_sample
  should_sample-some e = rw (e, should_sample)

  -- Of the appliers that match the request, the one whose rule comes first, by priority and then by
  -- name, gives the answer, and the fallback sampler's limiter is not charged; if none matches, the
  -- fallback sampler answers, and the appliers stay as they are. The appliers are sorted.
  pub should_sample_choice :
      IsSorted (rules c.appliers)
      → (NoneApplies sc sdk now request c.resource c.appliers
          × ((should_sample sc sdk now request c).0
              ≡ (fallback_sample sdk now request c.fallback).0)
          × ((should_sample sc sdk now request c).1.appliers ≡ c.appliers))
        ⊎ (Chosen sc sdk now request c.resource c.appliers (should_sample sc sdk now request c).0
            × ((should_sample sc sdk now request c).1.fallback ≡ c.fallback))
  should_sample_choice h = elim (first_choice sc sdk now request c.resource c.appliers h) [
    | inl (e, n) ↦ inl (n, rw (should_sample-none e), rw (should_sample-none e))
    | inr (result, l', e, (a, m, y, nb, f)) ↦
        inr ((a, m, y, nb, rw (should_sample-some e) f), rw (should_sample-some e))
  ]
