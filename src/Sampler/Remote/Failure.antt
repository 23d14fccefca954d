-- ===== src/Sampler/Remote/Failure.antt =====
-- What a poll sends, and what a poll that fails leaves.
use opentelemetry_python_con.Common.{ℕ, ◌≡◌, refl, none, [], All, ltb, ap, Bool-cases, inl, inr}
use opentelemetry_python_con.Sampler.Sdk.{Sdk, Request}
use opentelemetry_python_con.Sampler.Limited.{fallback_sample}
use opentelemetry_python_con.Sampler.Applier.Matching.{Semconv}
use opentelemetry_python_con.Sampler.Cache.{
  Cache, sample_first, new_appliers, update_sampling_rules, update_sampling_targets,
  get_all_statistics, expired,
}
use opentelemetry_python_con.Sampler.Rule.{sort}
use opentelemetry_python_con.Sampler.Cache.Choice.{should_sample-none}
use opentelemetry_python_con.Sampler.Cache.Conserve.{
  total, sent_total, HasNone, total-zero, sent_total-reset_all, HasNone-reset_all, HasNone-retarget,
  HasNone-update_sampling_rules,
}
use opentelemetry_python_con.Sampler.Client.{
  RulesReply, TargetsReply, get_sampling_rules, get_sampling_targets,
}
use opentelemetry_python_con.Sampler.Remote.{Remote, should_sample, poll_rules, poll_targets}

module _ (sc : Semconv) (sdk : Sdk) where
  sample_first-empty :
      (later : ℕ) (r : Request sdk) (c : Cache sdk.Rate)
      → c.appliers ≡ []
      → sample_first sc sdk later r c.resource c.appliers ≡ none
  unfolding sample_first
  sample_first-empty later r c e = rw (e, sample_first)

  empty_answers :
      (later : ℕ) (r : Request sdk) (t : Remote sdk.Rate)
      → t.cache.appliers ≡ []
      → (should_sample sc sdk later r t).0 ≡ (fallback_sample sdk later r t.cache.fallback).0
  unfolding should_sample
  empty_answers later r t e = elim (Bool-cases (expired later t.cache)) [
    | inl old ↦ rw (old, should_sample)
    | inr fresh ↦
        let none_first =
          should_sample-none sc sdk later r t.cache (sample_first-empty later r t.cache e) in
        rw (fresh, should_sample) (ap (λ p. p.0) none_first)
  ]

module _ (sc : Semconv) (sdk : Sdk) (now : ℕ) (s : Remote sdk.Rate) where
  open sdk use {Rate}

  cleared :
      (reply : TargetsReply Rate) (rules_reply : RulesReply Rate)
      → All HasNone (poll_targets sc sdk now reply rules_reply s).1.cache.appliers
  unfolding poll_targets poll_rules update_sampling_targets get_all_statistics
  cleared reply rules_reply =
      let response = get_sampling_targets sdk.zero_rate reply in
      let zero =
        HasNone-retarget now response.targets _ none (HasNone-reset_all now s.cache.appliers) in
      elim (Bool-cases (ltb s.cache.last_modified response.last_rule_modification)) [
        | inl refresh ↦ rw refresh (
            HasNone-update_sampling_rules sdk.rate_eq now _
              (get_sampling_rules sdk.zero_rate rules_reply) zero)
        | inr same ↦ rw same zero
      ]

  -- A poll of targets sends exactly the requests that the appliers have counted since the last one, and
  -- leaves them with a count of zero, whatever the reply is.
  pub poll_targets-total :
      (reply : TargetsReply Rate) (rules_reply : RulesReply Rate)
      → (sent_total (poll_targets sc sdk now reply rules_reply s).0 ≡ total s.cache.appliers)
        × (total (poll_targets sc sdk now reply rules_reply s).1.cache.appliers ≡ 0)
  unfolding poll_targets get_all_statistics
  poll_targets-total reply rules_reply =
      (sent_total-reset_all now s.cache.appliers, total-zero now _ (cleared reply rules_reply))

  update_empty :
      (reply : RulesReply Rate)
      → get_sampling_rules sdk.zero_rate reply ≡ []
      → (poll_rules sc sdk now reply s).cache.appliers ≡ []
  unfolding poll_rules update_sampling_rules sort new_appliers
  update_empty reply e = rw e

  -- After a reply with no rules the cache has no applier, and counts as
  -- updated now; every request is then answered by the fallback sampler.
  pub poll_rules_empty :
      (reply : RulesReply Rate) (later : ℕ) (r : Request sdk)
      → get_sampling_rules sdk.zero_rate reply ≡ []
      → ((poll_rules sc sdk now reply s).cache.appliers ≡ [])
        × ((poll_rules sc sdk now reply s).cache.last_modified ≡ now)
        × ((should_sample sc sdk later r (poll_rules sc sdk now reply s)).0
            ≡ (fallback_sample sdk later r s.cache.fallback).0)
  unfolding poll_rules update_sampling_rules
  poll_rules_empty reply later r e =
      let gone = update_empty reply e in (gone, refl, empty_answers sc sdk later r _ gone)
