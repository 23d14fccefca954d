-- ===== src/Sampler/Client.antt =====
-- What `_AwsXRaySamplingClient` of trace/sampler/_aws_xray_sampling_client.py makes of a reply of the
-- X-Ray proxy. Sending the request is left out: a reply is an argument.
use opentelemetry_python_con.Common.{ℕ, Option, none, List, [], ◌∷◌}
use opentelemetry_python_con.Sampler.Rule
use opentelemetry_python_con.Sampler.Rule.{Rule, RuleFields}
use opentelemetry_python_con.Sampler.Target.{
  Document, UnprocessedDocument, TargetResponse, init_response,
}

-- A record of the reply: with no `SamplingRule`, with one, or with one that has a key which the
-- constructor refuses.
pub data RuleRecord (Rate : Type 0) : Type 0 where
  no_rule : RuleRecord Rate
  rule : RuleFields Rate → RuleRecord Rate
  unknown_key : RuleRecord Rate

-- The request failed or was no JSON; the JSON had no `SamplingRuleRecords`; or it had records.
pub data RulesReply (Rate : Type 0) : Type 0 where
  rules_failed : RulesReply Rate
  no_records : RulesReply Rate
  records : List (RuleRecord Rate) → RulesReply Rate

-- The loop over the records ends at an exception, and what was read is returned.
unfoldable pub read_records : {Rate : Type 0} → Rate → List (RuleRecord Rate) → List (Rule Rate)
read_records zero_rate [] = []
read_records zero_rate (no_rule ∷ rs) = read_records zero_rate rs
read_records zero_rate (rule f ∷ rs) = Rule.init zero_rate f ∷ read_records zero_rate rs
read_records zero_rate (unknown_key ∷ rs) = []

unfoldable pub get_sampling_rules : {Rate : Type 0} → Rate → RulesReply Rate → List (Rule Rate)
get_sampling_rules zero_rate rules_failed = []
get_sampling_rules zero_rate no_records = []
get_sampling_rules zero_rate (records rs) = read_records zero_rate rs

-- A failure, a reply with a key missing or with a key too many; or the three arguments of
-- `_SamplingTargetResponse`.
pub data TargetsReply (Rate : Type 0) : Type 0 where
  targets_failed : TargetsReply Rate
  targets :
      Option ℕ
      → Option (List (Document Rate))
      → Option (List UnprocessedDocument)
      → TargetsReply Rate

unfoldable pub get_sampling_targets :
    {Rate : Type 0} → Rate → TargetsReply Rate → TargetResponse Rate
get_sampling_targets zero_rate targets_failed = init_response zero_rate none none none
get_sampling_targets zero_rate (targets modified documents unprocessed) =
    init_response zero_rate modified documents unprocessed
