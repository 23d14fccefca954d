-- ===== src/Sampler/Applier.antt =====
-- `_SamplingRuleApplier` of trace/sampler/_sampling_rule_applier.py, but for `matches`, which is in
-- Applier/Matching. A method reads the clock more than once; here the call has one time, `now`. The
-- two locks make each method one step.
pub mod Matching
pub mod Counts
pub mod Decisions
use opentelemetry_python_con.Common.{
  ℕ, ◌+◌, Bool, true, false, not, Option, none, some, Text, leb, ltb, ◌==◌, or_default,
  if◌then◌else◌,
}
use opentelemetry_python_con.Sampler.RateLimiter.{RateLimiter}
use opentelemetry_python_con.Sampler.Sdk.{Sdk, Request}
use opentelemetry_python_con.Sampler.Rule.{Rule}
use opentelemetry_python_con.Sampler.Target.{Target, Statistics, Snapshot, no_statistics, snapshot}
use opentelemetry_python_con.Sampler.Limited.{
  reservoir, limited_sample, ratio_sample, answer, is_dropped,
}

-- `datetime.max`, in microseconds
pub clock_max : ℕ
clock_max = 253402300799999999

pub record Applier (Rate : Type 0) : Type 0 where
  pub client_id : Text
  pub rule : Rule Rate
  pub statistics : Statistics
  pub borrowing : Bool
  pub fixed_rate : Rate
  pub reservoir : RateLimiter
  pub reservoir_expiry : ℕ

module _ {Rate : Type 0} where
  -- the constructor with no `target`
  unfoldable pub init_untargeted : Rule Rate → Text → ℕ → Statistics → Applier Rate
  init_untargeted rule client_id now statistics = record {
    client_id = client_id;
    rule = rule;
    statistics = statistics;
    borrowing = ltb 0 rule.reservoir_size;
    fixed_rate = rule.fixed_rate;
    reservoir = reservoir (if ltb 0 rule.reservoir_size then 1 else 0) now;
    reservoir_expiry = clock_max;
  }

  -- the constructor with a `target`: a quota with no time to live is taken as expired
  unfoldable pub init_targeted : Rule Rate → Text → ℕ → Statistics → Target Rate → Applier Rate
  init_targeted rule client_id now statistics target = record {
    client_id = client_id;
    rule = rule;
    statistics = statistics;
    borrowing = false;
    fixed_rate = target.fixed_rate;
    reservoir = reservoir (or_default target.reservoir_quota 0) now;
    reservoir_expiry = or_default target.reservoir_quota_ttl now;
  }

  unfoldable pub init :
      Rule Rate → Text → ℕ → Option Statistics → Option (Target Rate) → Applier Rate
  init rule client_id now statistics target =
      let counts = or_default statistics (no_statistics client_id rule.rule_name) in
      elim target [
        | none ↦ init_untargeted rule client_id now counts
        | some t ↦ init_targeted rule client_id now counts t
      ]

  unfoldable pub with_target : ℕ → Target Rate → Applier Rate → Applier Rate
  with_target now target a = init a.rule a.client_id now (some a.statistics) (some target)

  unfoldable pub get_then_reset_statistics : ℕ → Applier Rate → Snapshot × Applier Rate
  get_then_reset_statistics now a = (
    snapshot a.statistics now,
    record a { statistics = no_statistics a.client_id a.rule.rule_name },
  )

unfoldable pub count : Bool → Bool → Statistics → Statistics
count has_borrowed has_sampled s = record s {
  request_count = s.request_count + 1;
  borrow_count = s.borrow_count + (if has_borrowed then 1 else 0);
  sample_count = s.sample_count + (if has_sampled then 1 else 0);
}

module _ (sdk : Sdk) where
  open sdk use {Rate, SamplingResult}

  -- the first answer: a drop, if the reservoir has expired, or what the reservoir says
  unfoldable pub from_reservoir : ℕ → Request sdk → Applier Rate → SamplingResult × RateLimiter
  from_reservoir now request a =
      if leb a.reservoir_expiry now
      then (answer sdk sdk.drop request, a.reservoir)
      else limited_sample sdk now request a.reservoir

  unfoldable pub should_sample : ℕ → Request sdk → Applier Rate → SamplingResult × Applier Rate
  should_sample now request a =
      let (first, reservoir') = from_reservoir now request a in
      let second = ratio_sample sdk a.fixed_rate request in
      if is_dropped sdk first
      then (
        second,
        record a {
          statistics = count false (not (is_dropped sdk second)) a.statistics;
          reservoir = reservoir';
        },
      )
      else (
        first,
        record a { statistics = count a.borrowing true a.statistics; reservoir = reservoir' },
      )
