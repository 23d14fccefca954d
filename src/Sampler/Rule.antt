-- ===== src/Sampler/Rule.antt =====
-- `_SamplingRule` of trace/sampler/_sampling_rule.py.
pub mod Order
pub mod Equal
use opentelemetry_python_con.Common.{
  ℕ, Bool, true, false, ◌&&◌, Option, none, some, List, [], ◌∷◌, Text, length, ltb, or_default,
  text_eq, text_lt, ◌==◌, if◌then◌else◌,
}
use opentelemetry_python_con.Common.{Dict, get}

pub record Rule (Rate : Type 0) : Type 0 where
  pub attributes : Dict Text
  pub fixed_rate : Rate
  pub http_method : Text
  pub host : Text
  pub priority : ℕ
  pub reservoir_size : ℕ
  pub resource_arn : Text
  pub rule_arn : Text
  pub rule_name : Text
  pub service_name : Text
  pub service_type : Text
  pub url_path : Text
  pub version : ℕ

-- the keyword arguments of the constructor, where `none` is a missing one or `None`
pub record RuleFields (Rate : Type 0) : Type 0 where
  pub attributes : Option (Dict Text)
  pub fixed_rate : Option Rate
  pub http_method : Option Text
  pub host : Option Text
  pub priority : Option ℕ
  pub reservoir_size : Option ℕ
  pub resource_arn : Option Text
  pub rule_arn : Option Text
  pub rule_name : Option Text
  pub service_name : Option Text
  pub service_type : Option Text
  pub url_path : Option Text
  pub version : Option ℕ

unfoldable pub init : {Rate : Type 0} → Rate → RuleFields Rate → Rule Rate
init zero_rate f = record {
  attributes = or_default f.attributes [];
  fixed_rate = or_default f.fixed_rate zero_rate;
  http_method = or_default f.http_method [];
  host = or_default f.host [];
  priority = or_default f.priority 10001;
  reservoir_size = or_default f.reservoir_size 0;
  resource_arn = or_default f.resource_arn [];
  rule_arn = or_default f.rule_arn [];
  rule_name = or_default f.rule_name [];
  service_name = or_default f.service_name [];
  service_type = or_default f.service_type [];
  url_path = or_default f.url_path [];
  version = or_default f.version 0;
}

-- `__lt__`
unfoldable pub rule_lt : {Rate : Type 0} → Rule Rate → Rule Rate → Bool
rule_lt r s =
    if r.priority == s.priority then text_lt r.rule_name s.rule_name else ltb r.priority s.priority

-- `==` on `dict`: as many keys, and the same value under each
unfoldable pub includes : Dict Text → Dict Text → Bool
includes d [] = true
includes d ((k, v) ∷ e) = (elim (get d k) [ none ↦ false | some w ↦ text_eq w v ]) && includes d e

unfoldable pub dict_eq : Dict Text → Dict Text → Bool
dict_eq d e = (length d == length e) && includes d e

-- `__eq__`, in the order of its tests
unfoldable pub rule_eq : {Rate : Type 0} → (Rate → Rate → Bool) → Rule Rate → Rule Rate → Bool
rule_eq rate_eq r s =
    rate_eq r.fixed_rate s.fixed_rate
    && (text_eq r.http_method s.http_method
        && (text_eq r.host s.host
            && ((r.priority == s.priority)
                && ((r.reservoir_size == s.reservoir_size)
                    && (text_eq r.resource_arn s.resource_arn
                        && (text_eq r.rule_arn s.rule_arn
                            && (text_eq r.rule_name s.rule_name
                                && (text_eq r.service_name s.service_name
                                    && (text_eq r.service_type s.service_type
                                        && (text_eq r.url_path s.url_path
                                            && ((r.version == s.version)
                                                && dict_eq r.attributes s.attributes)))))))))))

-- `list.sort()`, which is stable: an insertion before the first rule that is not less.
unfoldable pub insert : {Rate : Type 0} → Rule Rate → List (Rule Rate) → List (Rule Rate)
insert r [] = r ∷ []
insert r (s ∷ rules) = let rest = insert r rules in if rule_lt s r then s ∷ rest else r ∷ s ∷ rules

unfoldable pub sort : {Rate : Type 0} → List (Rule Rate) → List (Rule Rate)
sort [] = []
sort (r ∷ rules) = insert r (sort rules)
