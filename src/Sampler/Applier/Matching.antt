-- ===== src/Sampler/Applier/Matching.antt =====
-- `matches` of trace/sampler/_sampling_rule_applier.py, and what it reads. The names of attributes
-- come from the package of semantic conventions. `parse_path u` stands for `urlparse(u).path`; a
-- URL that `urlparse` refuses with a `ValueError` is left out.
use opentelemetry_python_con.Common.{
  Bool, true, false, ◌&&◌, ◌||◌, Option, none, some, [], ◌∷◌, Text, text, text_eq, if◌then◌else◌,
}
use opentelemetry_python_con.Common.{get}
use opentelemetry_python_con.Sampler.Matcher.{
  AttributeValue, str, other, wild_card_match, attribute_match,
}
use opentelemetry_python_con.Sampler.Sdk.{Attributes}
use opentelemetry_python_con.Sampler.Rule.{Rule}

pub record Semconv : Type 0 where
  pub url_path : Text
  pub url_full : Text
  pub http_request_method : Text
  pub server_address : Text
  pub service_name : Text
  pub cloud_platform : Text
  pub cloud_resource_id : Text
  pub aws_ecs_container_arn : Text
  pub aws_lambda : Text
  pub aws_elastic_beanstalk : Text
  pub aws_ec2 : Text
  pub aws_ecs : Text
  pub aws_eks : Text
  pub parse_path : Text → Text

-- `text.find(needle) > -1`
unfoldable pub starts_with : Text → Text → Bool
starts_with [] t = true
starts_with (c ∷ needle) [] = false
starts_with (c ∷ needle) (d ∷ t) = text_eq (c ∷ []) (d ∷ []) && starts_with needle t

unfoldable pub contains : Text → Text → Bool
unfolding starts_with
contains needle [] = starts_with needle []
contains needle (c ∷ t) = starts_with needle (c ∷ t) || contains needle t

-- `attributes.get(key, attributes.get(backup, None))`
unfoldable pub get_or_backup : Attributes → Text → Text → Option AttributeValue
get_or_backup d key backup = elim (get d key) [ none ↦ get d backup | some v ↦ some v ]

-- the same where `attributes` may be `None`
unfoldable pub lookup : Option Attributes → Text → Text → Option AttributeValue
lookup none key backup = none
lookup (some d) key backup = get_or_backup d key backup

module _ (sc : Semconv) where
  -- the path, where only the full URL may be given: with no `://` it is taken for bad
  -- instrumentation, and with neither attribute the path is `/`
  path_in_url : AttributeValue → Option AttributeValue
  path_in_url (other n) = none
  path_in_url (str u) =
      let path = sc.parse_path u in
      if contains (text "://") u
      then some (str (if text_eq path [] then text "/" else path))
      else none

  unfoldable pub resolve_path :
      Option AttributeValue → Option AttributeValue → Option AttributeValue
  unfolding path_in_url
  resolve_path (some path) url_full = some path
  resolve_path none none = some (str (text "/"))
  resolve_path none (some u) = path_in_url u

  -- `cloud_platform_mapping.get(platform, "")`
  unfoldable pub cloud_platform_mapping : Text → Text
  cloud_platform_mapping p =
      if text_eq p sc.aws_lambda
      then text "AWS::Lambda::Function"
      else if text_eq p sc.aws_elastic_beanstalk
      then text "AWS::ElasticBeanstalk::Environment"
      else if text_eq p sc.aws_ec2
      then text "AWS::EC2::Instance"
      else if text_eq p sc.aws_ecs
      then text "AWS::ECS::Container"
      else if text_eq p sc.aws_eks
      then text "AWS::EKS::Container"
      else []

  unfoldable pub get_service_type : Attributes → Text
  get_service_type resource = elim (get resource sc.cloud_platform) [
    | none ↦ []
    | some v ↦ elim v [ str p ↦ cloud_platform_mapping p | other n ↦ [] ]
  ]

  unfoldable pub get_lambda_arn : Attributes → Option Attributes → AttributeValue
  get_lambda_arn resource attributes =
      elim (get_or_backup resource sc.cloud_resource_id (text "faas.id")) [
        | some arn ↦ arn
        | none ↦ elim (lookup attributes sc.cloud_resource_id (text "faas.id")) [
          | some arn ↦ arn
          | none ↦ str []
        ]
      ]

  is_text : Option AttributeValue → Text → Bool
  is_text none t = false
  is_text (some (str s)) t = text_eq s t
  is_text (some (other n)) t = false

  unfoldable pub get_arn : Attributes → Option Attributes → AttributeValue
  unfolding is_text
  get_arn resource attributes = elim (get resource sc.aws_ecs_container_arn) [
    | some arn ↦ arn
    | none ↦
        if is_text (get resource sc.cloud_platform) sc.aws_lambda
        then get_lambda_arn resource attributes
        else str []
  ]

  -- what a span offers to the patterns of a rule
  pub record Subject : Type 0 where
    pub path : Option AttributeValue
    pub method : Option AttributeValue
    pub host : Option AttributeValue
    pub name : Option AttributeValue
    pub service_type : Option AttributeValue
    pub arn : Option AttributeValue

  unfoldable pub subject : Attributes → Option Attributes → Subject
  subject resource attributes = record {
    path =
        resolve_path (lookup attributes sc.url_path (text "http.target"))
          (lookup attributes sc.url_full (text "http.url"));
    method = lookup attributes sc.http_request_method (text "http.method");
    host = lookup attributes sc.server_address (text "http.host");
    name = elim (get resource sc.service_name) [ none ↦ some (str []) | some v ↦ some v ];
    service_type = some (str (get_service_type resource));
    arn = some (get_arn resource attributes);
  }

  unfoldable pub matches : {Rate : Type 0} → Attributes → Option Attributes → Rule Rate → Bool
  matches resource attributes rule =
      let s = subject resource attributes in
      attribute_match attributes rule.attributes
      && (wild_card_match s.path rule.url_path
          && (wild_card_match s.method rule.http_method
              && (wild_card_match s.host rule.host
                  && (wild_card_match s.name rule.service_name
                      && (wild_card_match s.service_type rule.service_type
                          && wild_card_match s.arn rule.resource_arn)))))
