-- ===== src/Sampler/Cache.antt =====
-- `_RuleCache` of trace/sampler/_rule_cache.py. The cache lock makes each update one step. The
-- fallback sampler's limiter is kept here; the remote sampler holds the same object.
pub mod Choice
pub mod Keys
pub mod Update
pub mod Targets
pub mod Invariant
pub mod Conserve
use opentelemetry_python_con.Common.{
  ℕ, ◌+◌, ◌*◌, Bool, true, false, not, ◌&&◌, ◌||◌, Option, none, some, List, [], ◌∷◌, map, Text,
  text_eq, ltb, ◌==◌, or_default, if◌then◌else◌,
}
use opentelemetry_python_con.Sampler.RateLimiter.{RateLimiter, second}
use opentelemetry_python_con.Sampler.Sdk.{Sdk, Request, Attributes}
use opentelemetry_python_con.Sampler.Rule.{Rule, rule_eq, sort}
use opentelemetry_python_con.Sampler.Target.{Target, TargetResponse, Snapshot}
use opentelemetry_python_con.Sampler.Limited.{fallback_sample}
use opentelemetry_python_con.Sampler.Applier
use opentelemetry_python_con.Sampler.Applier.{Applier, with_target, get_then_reset_statistics}
use opentelemetry_python_con.Sampler.Applier.Matching.{Semconv, matches}

abbrev pub cache_ttl_seconds : ℕ
cache_ttl_seconds = 3600

abbrev pub default_target_polling_interval : ℕ
default_target_polling_interval = 10

pub record Cache (Rate : Type 0) : Type 0 where
  pub client_id : Text
  pub appliers : List (Applier Rate)
  pub resource : Attributes
  pub fallback : RateLimiter
  pub last_modified : ℕ

-- `min_polling_interval` after one more target
unfoldable pub lower : Option ℕ → Option ℕ → Option ℕ
lower least none = least
lower none (some interval) = some interval
lower (some m) (some interval) = if ltb interval m then some interval else some m

module _ {Rate : Type 0} where
  unfoldable pub init : Attributes → RateLimiter → Text → ℕ → Cache Rate
  init resource fallback client_id now = record {
    client_id = client_id;
    appliers = [];
    resource = resource;
    fallback = fallback;
    last_modified = now;
  }

  -- a rule with a name, and of version 1
  unfoldable pub is_supported : Rule Rate → Bool
  is_supported rule = not (text_eq rule.rule_name []) && (rule.version == 1)

  unfoldable pub new_appliers : Text → ℕ → List (Rule Rate) → List (Applier Rate)
  new_appliers client_id now [] = []
  new_appliers client_id now (rule ∷ rules) =
      let rest = new_appliers client_id now rules in
      if is_supported rule then Applier.init rule client_id now none none ∷ rest else rest

  -- `rule_applier_map.get(name)`: of two appliers with the name, the later one is in the map
  unfoldable pub find_applier : Text → List (Applier Rate) → Option (Applier Rate)
  find_applier name [] = none
  find_applier name (a ∷ appliers) = elim (find_applier name appliers) [
    | some later ↦ some later
    | none ↦ if text_eq a.rule.rule_name name then some a else none
  ]

  -- `target_map.get(name)`
  unfoldable pub find_target : Text → List (Target Rate) → Option (Target Rate)
  find_target name [] = none
  find_target name (t ∷ targets) = elim (find_target name targets) [
    | some later ↦ some later
    | none ↦ if text_eq t.rule_name name then some t else none
  ]

  -- the old applier, if it has an equal rule of the same name
  unfoldable pub keep_unchanged :
      (Rate → Rate → Bool) → List (Applier Rate) → Applier Rate → Applier Rate
  keep_unchanged rate_eq old a = elim (find_applier a.rule.rule_name old) [
    | none ↦ a
    | some b ↦ if rule_eq rate_eq a.rule b.rule then b else a
  ]

  unfoldable pub update_sampling_rules :
      (Rate → Rate → Bool) → ℕ → List (Rule Rate) → Cache Rate → Cache Rate
  update_sampling_rules rate_eq now rules c = record c {
    appliers = map (keep_unchanged rate_eq c.appliers) (new_appliers c.client_id now (sort rules));
    last_modified = now;
  }

  -- one applier, and `min_polling_interval` after it
  unfoldable pub assign : ℕ → Option (Target Rate) → Applier Rate → Applier Rate
  assign now none a = a
  assign now (some t) a = with_target now t a

  unfoldable pub note_interval : Option (Target Rate) → Option ℕ → Option ℕ
  note_interval none least = least
  note_interval (some t) least = lower least t.interval

  unfoldable pub retarget :
      ℕ → List (Target Rate) → List (Applier Rate) → Option ℕ → List (Applier Rate) × Option ℕ
  retarget now targets [] least = ([], least)
  retarget now targets (a ∷ appliers) least =
      let found = find_target a.rule.rule_name targets in
      let (rest, result) = retarget now targets appliers (note_interval found least) in
      (assign now found a ∷ rest, result)

  unfoldable pub update_sampling_targets :
      ℕ → TargetResponse Rate → Cache Rate → (Bool × ℕ) × Cache Rate
  update_sampling_targets now response c =
      let (appliers, least) = retarget now response.targets c.appliers none in
      (
        (
          ltb c.last_modified response.last_rule_modification,
          or_default least default_target_polling_interval,
        ),
        record c { appliers = appliers },
      )

  unfoldable pub reset_all : ℕ → List (Applier Rate) → List Snapshot × List (Applier Rate)
  reset_all now [] = ([], [])
  reset_all now (a ∷ appliers) =
      let (s, a') = get_then_reset_statistics now a in
      let (rest, appliers') = reset_all now appliers in (s ∷ rest, a' ∷ appliers')

  unfoldable pub get_all_statistics : ℕ → Cache Rate → List Snapshot × Cache Rate
  get_all_statistics now c =
      let (all, appliers) = reset_all now c.appliers in (all, record c { appliers = appliers })

  unfoldable pub expired : ℕ → Cache Rate → Bool
  expired now c = ltb (c.last_modified + cache_ttl_seconds * second) now

module _ (sc : Semconv) (sdk : Sdk) (now : ℕ) (request : Request sdk) where
  open sdk use {Rate, SamplingResult}

  abbrev pub applies : Attributes → Applier Rate → Bool
  applies resource a = matches sc resource request.attributes a.rule

  -- The first applier that matches answers; its state changes in place.
  unfoldable pub sample_first :
      Attributes → List (Applier Rate) → Option (SamplingResult × List (Applier Rate))
  sample_first resource [] = none
  sample_first resource (a ∷ appliers) =
      let (result, a') = Applier.should_sample sdk now request a in
      let rest = sample_first resource appliers in
      if applies resource a
      then some (result, a' ∷ appliers)
      else elim rest [ none ↦ none | some (r, l) ↦ some (r, a ∷ l) ]

  unfoldable pub should_sample : Cache Rate → SamplingResult × Cache Rate
  should_sample c =
      let (result, fallback') = fallback_sample sdk now request c.fallback in
      elim (sample_first c.resource c.appliers) [
        | some (r, l) ↦ (r, record c { appliers = l })
        | none ↦ (result, record c { fallback = fallback' })
      ]
