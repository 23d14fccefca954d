-- ===== src/Sampler/Tests/Values.antt =====
-- A stand-in for the SDK, and test data.
use opentelemetry_python_con.Common.{
  ℕ, refl, Bool, true, false, not, Option, none, some, [], ◌∷◌, Text, text, ◌==◌, ltb,
}
use opentelemetry_python_con.Common.{Dict}
use opentelemetry_python_con.Sampler.Matcher.{str}
use opentelemetry_python_con.Sampler.RateLimiter.{RateLimiter}
use opentelemetry_python_con.Sampler.Sdk.{Sdk, Request, Attributes}
use opentelemetry_python_con.Sampler.Rule.{Rule}
use opentelemetry_python_con.Sampler.Target.{Target, TargetResponse, Statistics}
use opentelemetry_python_con.Sampler.Applier.{Applier}
use opentelemetry_python_con.Sampler.Applier.Matching.{Semconv}
use opentelemetry_python_con.Sampler.Cache.{Cache}
use opentelemetry_python_con.Sampler.Remote.{Remote}

abbrev pub Answer : Type 0
Answer = Bool × Option Attributes × Option ℕ

-- Rates are percents; a decision is whether to sample; a ratio samples the trace ids below it.
abbrev pub sdk : Sdk
sdk = record {
  Rate = ℕ;
  rate_eq = λ a b. a == b;
  zero_rate = 0;
  fallback_rate = 5;
  Decision = Bool;
  drop = false;
  record_and_sample = true;
  is_drop = not;
  is_drop-drop = refl;
  is_drop-record_and_sample = refl;
  Call = Unit;
  TraceState = ℕ;
  SamplingResult = Answer;
  sampling_result = λ d a s. (d, a, s);
  decision = λ r. r.0;
  decision-sampling_result = λ d a s. refl;
  ratio_based = λ rate _ trace_id a s. (ltb trace_id rate, a, s);
}

abbrev pub sc : Semconv
sc = record {
  url_path = text "url.path";
  url_full = text "url.full";
  http_request_method = text "http.request.method";
  server_address = text "server.address";
  service_name = text "service.name";
  cloud_platform = text "cloud.platform";
  cloud_resource_id = text "cloud.resource_id";
  aws_ecs_container_arn = text "aws.ecs.container.arn";
  aws_lambda = text "aws_lambda";
  aws_elastic_beanstalk = text "aws_elastic_beanstalk";
  aws_ec2 = text "aws_ec2";
  aws_ecs = text "aws_ecs";
  aws_eks = text "aws_eks";
  parse_path = λ u. [];
}

abbrev pub span : Attributes
span = (text "url.path", str (text "/a/b")) ∷ (text "user", str (text "u1")) ∷ []

abbrev pub wanted : Dict Text
wanted = (text "user", text "u?") ∷ []

abbrev pub call : Request sdk
call = record { call = tt; trace_id = 50; attributes = some span; trace_state = none }

-- the rule for everything, and one for paths below /a
abbrev pub everything : Rule ℕ
everything = record {
  attributes = [];
  fixed_rate = 10;
  http_method = text "*";
  host = text "*";
  priority = 10000;
  reservoir_size = 1;
  resource_arn = text "*";
  rule_arn = [];
  rule_name = text "Default";
  service_name = text "*";
  service_type = text "*";
  url_path = text "*";
  version = 1;
}

abbrev pub below_a : Rule ℕ
below_a = record everything {
  attributes = wanted;
  fixed_rate = 60;
  priority = 5;
  rule_name = text "a";
  url_path = text "/a/*";
}

abbrev pub limiter : RateLimiter
limiter = record { max_balance = 1000000; quota = 2; wallet_floor = 2000000 }

abbrev pub statistics : Statistics
statistics = record {
  client_id = text "c";
  rule_name = text "a";
  request_count = 3;
  borrow_count = 1;
  sample_count = 2;
}

abbrev pub applier : Applier ℕ
applier = record {
  client_id = text "c";
  rule = below_a;
  statistics = statistics;
  borrowing = true;
  fixed_rate = 60;
  reservoir = limiter;
  reservoir_expiry = 9000000;
}

abbrev pub other_applier : Applier ℕ
other_applier = record applier { rule = everything }

abbrev pub cache : Cache ℕ
cache = record {
  client_id = text "c";
  appliers = applier ∷ other_applier ∷ [];
  resource = [];
  fallback = limiter;
  last_modified = 1000000;
}

abbrev pub remote : Remote ℕ
remote = record { cache = cache; polling_interval = 300; target_polling_interval = 10 }

abbrev pub target : Target ℕ
target = record {
  fixed_rate = 20;
  interval = some 7;
  reservoir_quota = some 4;
  reservoir_quota_ttl = some 8000000;
  rule_name = text "a";
}

abbrev pub response : TargetResponse ℕ
response = record { last_rule_modification = 2000000; targets = target ∷ []; unprocessed = [] }
