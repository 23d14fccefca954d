-- ===== src/Sampler/Applier/Counts.antt =====
-- The counts that an applier reports to X-Ray.
use opentelemetry_python_con.Common.{
  ℕ, ◌+◌, ◌≤◌, ◌≡◌, refl, false, Option, none, some, Text, arith, if◌then◌else◌,
}
use opentelemetry_python_con.Sampler.Sdk.{Sdk, Request}
use opentelemetry_python_con.Sampler.Rule.{Rule}
use opentelemetry_python_con.Sampler.Target.{Target, Statistics, no_statistics}
use opentelemetry_python_con.Sampler.Limited.{is_dropped}
use opentelemetry_python_con.Sampler.Applier.{
  Applier, init, init_untargeted, init_targeted, with_target, get_then_reset_statistics, count,
  should_sample,
}

-- Every request that borrows is sampled, and every request that is sampled is counted.
pub record IsCounted (s : Statistics) : Type 0 where
  pub borrowed : s.borrow_count ≤ s.sample_count
  pub sampled : s.sample_count ≤ s.request_count

no_statistics-IsCounted :
    (client_id rule_name : Text) → IsCounted (no_statistics client_id rule_name)
unfolding no_statistics
no_statistics-IsCounted client_id rule_name = omega arith

module _ {Rate : Type 0} where
  pub init-IsCounted :
      (rule : Rule Rate) (client_id : Text) (now : ℕ) (target : Option (Target Rate))
      → IsCounted (init rule client_id now none target).statistics
  unfolding init init_untargeted init_targeted
  init-IsCounted rule client_id now none = no_statistics-IsCounted client_id rule.rule_name
  init-IsCounted rule client_id now (some t) = no_statistics-IsCounted client_id rule.rule_name

  pub reset-IsCounted :
      (now : ℕ) (a : Applier Rate) → IsCounted (get_then_reset_statistics now a).1.statistics
  unfolding get_then_reset_statistics
  reset-IsCounted now a = no_statistics-IsCounted a.client_id a.rule.rule_name

  -- A new target keeps the rule, the client and the counts, and ends the borrowing.
  pub with_target_keeps :
      (now : ℕ) (t : Target Rate) (a : Applier Rate)
      → ((with_target now t a).statistics ≡ a.statistics)
        × ((with_target now t a).rule ≡ a.rule)
        × ((with_target now t a).client_id ≡ a.client_id)
        × ((with_target now t a).borrowing ≡ false)
  unfolding with_target init init_targeted
  with_target_keeps now t a = (refl, refl, refl, refl)

module _ (sdk : Sdk) (now : ℕ) (request : Request sdk) (a : Applier sdk.Rate) where
  -- A request is counted once, as sampled exactly if its result is not a drop, and as borrowed only
  -- if the applier is borrowing and the request was sampled.
  pub should_sample_counts :
      let (result, a') = should_sample sdk now request a in
      (a'.statistics.request_count ≡ a.statistics.request_count + 1)
      × (a'.statistics.sample_count
          ≡ a.statistics.sample_count + (if is_dropped sdk result then 0 else 1))
      × (a'.statistics.borrow_count
          ≤ a.statistics.borrow_count
            + (if a.borrowing then (if is_dropped sdk result then 0 else 1) else 0))
      × (a.statistics.borrow_count ≤ a'.statistics.borrow_count)
  unfolding should_sample count
  should_sample_counts = ground arith

  pub should_sample-IsCounted :
      IsCounted a.statistics → IsCounted (should_sample sdk now request a).1.statistics
  unfolding should_sample count
  should_sample-IsCounted h = ground arith

  pub rule-should_sample : (should_sample sdk now request a).1.rule ≡ a.rule
  unfolding should_sample
  rule-should_sample = ground arith
