-- ===== src/Sampler/Remote.antt =====
-- `_InternalAwsXRayRemoteSampler` of trace/sampler/aws_xray_remote_sampler.py. Its two timers are
-- the two polls below, which may come at any time; what a timer is set to is part of the state.
pub mod Run
pub mod Failure
use opentelemetry_python_con.Common.{ℕ, Bool, Option, none, some, List, Text, ltb, if◌then◌else◌}
use opentelemetry_python_con.Sampler.Sdk.{Sdk, Request, Attributes}
use opentelemetry_python_con.Sampler.Target.{Snapshot}
use opentelemetry_python_con.Sampler.Limited.{fallback_init, fallback_sample}
use opentelemetry_python_con.Sampler.Applier.Matching.{Semconv}
use opentelemetry_python_con.Sampler.Cache
use opentelemetry_python_con.Sampler.Cache.{
  Cache, update_sampling_rules, update_sampling_targets, get_all_statistics, expired,
  default_target_polling_interval,
}
use opentelemetry_python_con.Sampler.Client.{
  RulesReply, TargetsReply, get_sampling_rules, get_sampling_targets,
}

abbrev pub default_rules_polling_interval : ℕ
default_rules_polling_interval = 300

-- The intervals are in seconds, and the random jitters that are added to them are left out.
pub record Remote (Rate : Type 0) : Type 0 where
  pub cache : Cache Rate
  pub polling_interval : ℕ
  pub target_polling_interval : ℕ

-- an interval that is missing or less than ten seconds
unfoldable pub rules_interval : Option ℕ → ℕ
rules_interval none = default_rules_polling_interval
rules_interval (some i) = if ltb i 10 then default_rules_polling_interval else i

unfoldable pub init : {Rate : Type 0} → Attributes → Option ℕ → Text → ℕ → Remote Rate
init resource polling_interval client_id now = record {
  cache = Cache.init resource (fallback_init now) client_id now;
  polling_interval = rules_interval polling_interval;
  target_polling_interval = default_target_polling_interval;
}

module _ (sc : Semconv) (sdk : Sdk) where
  open sdk use {Rate, SamplingResult}

  unfoldable pub should_sample : ℕ → Request sdk → Remote Rate → SamplingResult × Remote Rate
  should_sample now request s =
      let (backup, fallback') = fallback_sample sdk now request s.cache.fallback in
      let (result, cache') = Cache.should_sample sc sdk now request s.cache in
      if expired now s.cache
      then (backup, record s { cache = record s.cache { fallback = fallback' } })
      else (result, record s { cache = cache' })

  -- `__get_and_update_sampling_rules`
  unfoldable pub poll_rules : ℕ → RulesReply Rate → Remote Rate → Remote Rate
  poll_rules now reply s = record s {
    cache = update_sampling_rules sdk.rate_eq now (get_sampling_rules sdk.zero_rate reply) s.cache;
  }

  -- `__get_and_update_sampling_targets`: what is sent, and the state after the reply; the second reply
  -- is that to the request for rules, which is made if they were modified.
  unfoldable pub poll_targets :
      ℕ → TargetsReply Rate → RulesReply Rate → Remote Rate → List Snapshot × Remote Rate
  poll_targets now reply rules_reply s =
      let (sent, cleared) = get_all_statistics now s.cache in
      let ((refresh, interval), cache') =
        update_sampling_targets now (get_sampling_targets sdk.zero_rate reply) cleared in
      let s' = record s { cache = cache'; target_polling_interval = interval } in
      let refreshed = poll_rules now rules_reply s' in (sent, if refresh then refreshed else s')
