-- ===== src/Sampler/Cache/Invariant.antt =====
-- What holds of the cache after any sequence of its operations.
use mathlib.Core.Path.{subst}
use opentelemetry_python_con.Common.{
  ℕ, ◌≡◌, inl, inr, refl, ap, Bool, Option, none, some, List, [], ◌∷◌, All, arith, Bool-cases,
  Option-cases,
}
use opentelemetry_python_con.Sampler.Sdk.{Sdk, Request, Attributes}
use opentelemetry_python_con.Sampler.Rule.{Rule, sort}
use opentelemetry_python_con.Sampler.Rule.Order.{IsSorted}
use opentelemetry_python_con.Sampler.Target.{Target, TargetResponse}
use opentelemetry_python_con.Sampler.Applier
use opentelemetry_python_con.Sampler.Applier.{Applier, with_target, get_then_reset_statistics}
use opentelemetry_python_con.Sampler.Applier.Counts.{
  IsCounted, init-IsCounted, reset-IsCounted, should_sample-IsCounted, rule-should_sample,
}
use opentelemetry_python_con.Sampler.Applier.Matching.{Semconv}
use opentelemetry_python_con.Sampler.Cache.{
  Cache, sample_first, should_sample, find_target, assign, retarget, update_sampling_targets,
  update_sampling_rules, reset_all, get_all_statistics, applies,
}
use opentelemetry_python_con.Sampler.Cache.Choice.{rules, should_sample-none, should_sample-some}
use opentelemetry_python_con.Sampler.Cache.Keys.{IsSupported, named, named-IsSupported, supported}
use opentelemetry_python_con.Sampler.Cache.Update.{
  Carries-All, update_sampling_rules-Carries, update_sampling_rules-IsSorted,
}
use opentelemetry_python_con.Sampler.Cache.Targets.{rules-retarget, rule-assign, statistics-assign}

-- A rule that the cache may hold, with counts that are in order.
abbrev pub IsGood : {Rate : Type 0} → Applier Rate → Type 0
IsGood a = IsSupported a.rule × IsCounted a.statistics

-- The appliers are in the order of their rules, each rule has a name and is of version 1, and the counts
-- of each are in order.
pub record IsValid {Rate : Type 0} (c : Cache Rate) : Type 0 where
  pub sorted : IsSorted (rules c.appliers)
  pub good : All IsGood c.appliers

module _ (sc : Semconv) (sdk : Sdk) (now : ℕ) (request : Request sdk) (resource : Attributes) where
  open sdk use {Rate}

  abbrev answered : Applier Rate → Applier Rate
  answered a = (Applier.should_sample sdk now request a).1

  answered-IsGood : (a : Applier Rate) → IsGood a → IsGood (answered a)
  answered-IsGood a h =
      (rw (rule-should_sample sdk now request a) h.0, should_sample-IsCounted sdk now request a h.1)

  -- One applier has answered, and the others are as they were.
  pub data Answered : List (Applier Rate) → List (Applier Rate) → Type 0 where
    this : {a : Applier Rate} {l : List (Applier Rate)} → Answered (a ∷ l) (answered a ∷ l)
    later :
        {a : Applier Rate} {l l' : List (Applier Rate)} → Answered l l' → Answered (a ∷ l) (a ∷ l')

  pub sample_first-Answered :
      (l : List (Applier Rate)) {r : sdk.SamplingResult} {l' : List (Applier Rate)}
      → sample_first sc sdk now request resource l ≡ some (r, l')
      → Answered l l'
  unfolding sample_first
  sample_first-Answered [] e = absurd (ground arith)
  sample_first-Answered (a ∷ l) {r} {l'} e =
      elim (Bool-cases (applies sc sdk now request resource a)) [
        | inl p ↦
            let same : answered a ∷ l ≡ l' = ground arith in
            subst (λ x. Answered (a ∷ l) x) same this
        | inr p ↦ elim (Option-cases (sample_first sc sdk now request resource l)) [
          | inl n ↦ absurd (ground arith)
          | inr ((r', m), n) ↦
              let same : a ∷ m ≡ l' = ground arith in
              subst (λ x. Answered (a ∷ l) x) same (later (sample_first-Answered l n))
        ]
      ]

  Answered-rules : {l l' : List (Applier Rate)} → Answered l l' → rules l' ≡ rules l
  Answered-rules (this {a} {l}) = ap (λ r. r ∷ rules l) (rule-should_sample sdk now request a)
  Answered-rules (later {a} h) = ap (◌∷◌ a.rule) (Answered-rules h)

  Answered-IsGood : {l l' : List (Applier Rate)} → Answered l l' → All IsGood l → All IsGood l'
  Answered-IsGood (this {a}) g = (answered-IsGood a g.0, g.1)
  Answered-IsGood (later h) g = (g.0, Answered-IsGood h g.1)

module _ (sc : Semconv) (sdk : Sdk) (now : ℕ) (request : Request sdk) (c : Cache sdk.Rate) where
  pub should_sample-IsValid : IsValid c → IsValid (should_sample sc sdk now request c).1
  should_sample-IsValid h =
      elim (Option-cases (sample_first sc sdk now request c.resource c.appliers)) [
        | inl e ↦
            rw (should_sample-none sc sdk now request c e)
              (record { sorted = h.sorted; good = h.good })
        | inr ((r, l), e) ↦
            let answered = sample_first-Answered sc sdk now request c.resource c.appliers e in
            rw (should_sample-some sc sdk now request c e) (record {
              sorted = rw (Answered-rules sc sdk now request c.resource answered) h.sorted;
              good = Answered-IsGood sc sdk now request c.resource answered h.good;
            })
      ]

module _ {Rate : Type 0} (now : ℕ) where
  assign-IsGood : (t : Option (Target Rate)) (a : Applier Rate) → IsGood a → IsGood (assign now t a)
  assign-IsGood t a h = (rw (rule-assign now [] t a) h.0, rw (statistics-assign now [] t a) h.1)

  retarget-IsGood :
      (targets : List (Target Rate)) (l : List (Applier Rate)) (least : Option ℕ)
      → All IsGood l
      → All IsGood (retarget now targets l least).0
  unfolding retarget
  retarget-IsGood targets [] least h = tt
  retarget-IsGood targets (a ∷ l) least h =
      (assign-IsGood (find_target a.rule.rule_name targets) a h.0, retarget-IsGood targets l _ h.1)

  pub update_sampling_targets-IsValid :
      (response : TargetResponse Rate) (c : Cache Rate)
      → IsValid c
      → IsValid (update_sampling_targets now response c).1
  unfolding update_sampling_targets
  update_sampling_targets-IsValid response c h = record {
    sorted = rw (rules-retarget now response.targets c.appliers none) h.sorted;
    good = retarget-IsGood response.targets c.appliers none h.good;
  }

  rules-reset_all : (l : List (Applier Rate)) → rules (reset_all now l).1 ≡ rules l
  unfolding reset_all get_then_reset_statistics
  rules-reset_all [] = refl
  rules-reset_all (a ∷ l) = ap (◌∷◌ a.rule) (rules-reset_all l)

  reset_all-IsGood : (l : List (Applier Rate)) → All IsGood l → All IsGood (reset_all now l).1
  unfolding reset_all get_then_reset_statistics
  reset_all-IsGood [] h = tt
  reset_all-IsGood (a ∷ l) h = ((h.0.0, reset-IsCounted now a), reset_all-IsGood l h.1)

  pub get_all_statistics-IsValid :
      (c : Cache Rate) → IsValid c → IsValid (get_all_statistics now c).1
  unfolding get_all_statistics
  get_all_statistics-IsValid c h = record {
    sorted = rw (rules-reset_all c.appliers) h.sorted;
    good = reset_all-IsGood c.appliers h.good;
  }

supported-All : {Rate : Type 0} (rs : List (Rule Rate)) → All IsSupported (supported rs)
unfolding supported
supported-All [] = tt
supported-All (r ∷ rs) = elim (Bool-cases (named r)) [
  | inl p ↦ rw p (named-IsSupported r p, supported-All rs)
  | inr p ↦ rw p (supported-All rs)
]

module _ {Rate : Type 0} (rate_eq : Rate → Rate → Bool) (now : ℕ) (c : Cache Rate) where
  fresh-IsGood : (r : Rule Rate) → IsSupported r → IsGood (Applier.init r c.client_id now none none)
  unfolding Applier.init Applier.init_untargeted
  fresh-IsGood r p = (p, init-IsCounted r c.client_id now none)

  pub update_sampling_rules-IsValid :
      (new_rules : List (Rule Rate))
      → IsValid c
      → IsValid (update_sampling_rules rate_eq now new_rules c)
  update_sampling_rules-IsValid new_rules h = record {
    sorted = update_sampling_rules-IsSorted rate_eq now new_rules c;
    good =
        Carries-All rate_eq c.client_id now c.appliers IsGood IsSupported h.good fresh-IsGood
          (supported (sort new_rules)) _ (supported-All (sort new_rules))
          (update_sampling_rules-Carries rate_eq now new_rules c).0;
  }
