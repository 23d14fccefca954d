-- ===== src/Sampler/Cache/Conserve.antt =====
-- No count is lost or made twice: what the appliers hold, and what is sent.
use opentelemetry_python_con.Common.{
  ℕ, ◌+◌, ◌≡◌, refl, Bool, Option, none, some, List, [], ◌∷◌, All, arith, Option-cases, inl, inr,
}
use opentelemetry_python_con.Sampler.Sdk.{Sdk, Request, Attributes}
use opentelemetry_python_con.Sampler.Rule.{Rule, sort}
use opentelemetry_python_con.Sampler.Target.{Target, Snapshot, snapshot, no_statistics}
use opentelemetry_python_con.Sampler.Applier
use opentelemetry_python_con.Sampler.Applier.{Applier, get_then_reset_statistics}
use opentelemetry_python_con.Sampler.Applier.Counts.{should_sample_counts}
use opentelemetry_python_con.Sampler.Applier.Matching.{Semconv}
use opentelemetry_python_con.Sampler.Cache.{
  Cache, sample_first, should_sample, find_target, retarget, update_sampling_rules, reset_all,
}
use opentelemetry_python_con.Sampler.Cache.Choice.{should_sample-none, should_sample-some}
use opentelemetry_python_con.Sampler.Cache.Keys.{supported}
use opentelemetry_python_con.Sampler.Cache.Update.{Carries-All, update_sampling_rules-Carries}
use opentelemetry_python_con.Sampler.Cache.Targets.{statistics-assign}
use opentelemetry_python_con.Sampler.Cache.Invariant.{Answered, this, later, sample_first-Answered}

-- the requests that the appliers have counted
pub total : {Rate : Type 0} → List (Applier Rate) → ℕ
total [] = 0
total (a ∷ l) = a.statistics.request_count + total l

-- the requests in the documents that are sent
pub sent_total : List Snapshot → ℕ
sent_total [] = 0
sent_total (d ∷ l) = d.statistics.request_count + sent_total l

abbrev pub HasNone : {Rate : Type 0} → Applier Rate → Type 0
HasNone a = a.statistics.request_count ≡ 0

module _ {Rate : Type 0} (now : ℕ) where
  pub total-zero : (l : List (Applier Rate)) → All HasNone l → total l ≡ 0
  unfolding total
  total-zero [] h = refl
  total-zero (a ∷ l) h = omega (arith, total-zero l h.1)

  pub sent_total-reset_all : (l : List (Applier Rate)) → sent_total (reset_all now l).0 ≡ total l
  unfolding total sent_total reset_all get_then_reset_statistics snapshot
  sent_total-reset_all [] = refl
  sent_total-reset_all (a ∷ l) = omega (arith, sent_total-reset_all l)

  pub HasNone-reset_all : (l : List (Applier Rate)) → All HasNone (reset_all now l).1
  unfolding reset_all get_then_reset_statistics no_statistics
  HasNone-reset_all [] = tt
  HasNone-reset_all (a ∷ l) = (refl, HasNone-reset_all l)

  pub HasNone-retarget :
      (targets : List (Target Rate)) (l : List (Applier Rate)) (least : Option ℕ)
      → All HasNone l
      → All HasNone (retarget now targets l least).0
  unfolding retarget
  HasNone-retarget targets [] least h = tt
  HasNone-retarget targets (a ∷ l) least h = (
    rw (statistics-assign now [] (find_target a.rule.rule_name targets) a) h.0,
    HasNone-retarget targets l _ h.1,
  )

module _ (sc : Semconv) (sdk : Sdk) (now : ℕ) (request : Request sdk) where
  total-Answered :
      (resource : Attributes) {l l' : List (Applier sdk.Rate)}
      → Answered sc sdk now request resource l l'
      → total l' ≡ total l + 1
  unfolding total
  total-Answered resource (this {a} {l}) = omega (arith, (should_sample_counts sdk now request a).0)
  total-Answered resource (later h) = omega (arith, total-Answered resource h)

  -- A request is counted once if an applier answers it, and not at all if the fallback sampler does.
  pub total-should_sample :
      (c : Cache sdk.Rate)
      → total (should_sample sc sdk now request c).1.appliers
        ≡ total c.appliers
          + (elim (sample_first sc sdk now request c.resource c.appliers) [ none ↦ 0 | some _ ↦ 1 ])
  total-should_sample c =
      elim (Option-cases (sample_first sc sdk now request c.resource c.appliers)) [
        | inl e ↦ rw (should_sample-none sc sdk now request c e, e) (omega arith)
        | inr ((r, l), e) ↦
            rw (should_sample-some sc sdk now request c e, e)
              (total-Answered c.resource
                (sample_first-Answered sc sdk now request c.resource c.appliers e))
      ]

module _ {Rate : Type 0} (rate_eq : Rate → Rate → Bool) (now : ℕ) (c : Cache Rate) where
  fresh-HasNone : (r : Rule Rate) → HasNone (Applier.init r c.client_id now none none)
  unfolding Applier.init Applier.init_untargeted no_statistics
  fresh-HasNone r = refl

  All-Unit : (rs : List (Rule Rate)) → All (λ r. Unit {0}) rs
  All-Unit [] = tt
  All-Unit (r ∷ rs) = (tt, All-Unit rs)

  pub HasNone-update_sampling_rules :
      (new_rules : List (Rule Rate))
      → All HasNone c.appliers
      → All HasNone (update_sampling_rules rate_eq now new_rules c).appliers
  HasNone-update_sampling_rules new_rules h =
      Carries-All rate_eq c.client_id now c.appliers HasNone (λ r. Unit {0}) h
        (λ r _. fresh-HasNone r) (supported (sort new_rules)) _
        (All-Unit (supported (sort new_rules)))
        (update_sampling_rules-Carries rate_eq now new_rules c).0
