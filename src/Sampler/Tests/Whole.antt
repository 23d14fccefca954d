-- ===== src/Sampler/Tests/Whole.antt =====
-- The rule cache and the remote sampler at concrete inputs.

use opentelemetry_python_con.Common.{◌≡◌, ◌⊎◌, refl, none, some, List, [], ◌∷◌, text, All}
use opentelemetry_python_con.Sampler.Limited.{fallback_sample}
use opentelemetry_python_con.Sampler.Rule.{sort}
use opentelemetry_python_con.Sampler.Rule.Order.{IsSorted}
use opentelemetry_python_con.Sampler.Cache.{should_sample, update_sampling_rules}
use opentelemetry_python_con.Sampler.Cache.Choice.{NoneApplies, Chosen, should_sample_choice}
use opentelemetry_python_con.Sampler.Cache.Keys.{supported}
use opentelemetry_python_con.Sampler.Cache.Update.{Carries, update_sampling_rules-Carries}
use opentelemetry_python_con.Sampler.Cache.Invariant.{IsValid}
use opentelemetry_python_con.Sampler.Cache.Conserve.{total, sent_total}
use opentelemetry_python_con.Sampler.Client.{rules_failed, records, targets, get_sampling_rules}
use opentelemetry_python_con.Sampler.Remote
use opentelemetry_python_con.Sampler.Remote.{init, poll_rules, poll_targets}
use opentelemetry_python_con.Sampler.Remote.Run.{
  Event, request, rules_timer, targets_timer, run, InOrder, run-init-IsValid,
}
use opentelemetry_python_con.Sampler.Remote.Failure.{poll_targets-total, poll_rules_empty}
use opentelemetry_python_con.Sampler.Tests.Values.{sdk, sc, call, everything, cache, remote}

should_sample_choice_example :
    (NoneApplies sc sdk 3000000 call cache.resource cache.appliers
      × ((should_sample sc sdk 3000000 call cache).0
          ≡ (fallback_sample sdk 3000000 call cache.fallback).0)
      × ((should_sample sc sdk 3000000 call cache).1.appliers ≡ cache.appliers))
    ⊎ (Chosen sc sdk 3000000 call cache.resource cache.appliers
          (should_sample sc sdk 3000000 call cache).0
        × ((should_sample sc sdk 3000000 call cache).1.fallback ≡ cache.fallback))
unfolding opentelemetry_python_con.Sampler.Rule.rule_lt
should_sample_choice_example = should_sample_choice sc sdk 3000000 call cache ((refl, tt), (tt, tt))

update_sampling_rules-Carries_example :
    Carries sdk.rate_eq cache.client_id 4000000 cache.appliers
      (supported (sort (everything ∷ [])))
      (update_sampling_rules sdk.rate_eq 4000000 (everything ∷ []) cache).appliers
    × IsSorted (supported (sort (everything ∷ [])))
    × ((update_sampling_rules sdk.rate_eq 4000000 (everything ∷ []) cache).last_modified ≡ 4000000)
update_sampling_rules-Carries_example =
    update_sampling_rules-Carries sdk.rate_eq 4000000 (everything ∷ []) cache

poll_targets-total_example :
    (sent_total (poll_targets sc sdk 4000000 (targets none none none) rules_failed remote).0
      ≡ total remote.cache.appliers)
    × (total
          (poll_targets sc sdk 4000000
            (targets none none none)
            rules_failed
            remote).1.cache.appliers
        ≡ 0)
poll_targets-total_example =
    poll_targets-total sc sdk 4000000 remote (targets none none none) rules_failed

poll_rules_empty_example :
    ((poll_rules sc sdk 4000000 rules_failed remote).cache.appliers ≡ [])
    × ((poll_rules sc sdk 4000000 rules_failed remote).cache.last_modified ≡ 4000000)
    × ((Remote.should_sample sc sdk 5000000 call (poll_rules sc sdk 4000000 rules_failed remote)).0
        ≡ (fallback_sample sdk 5000000 call remote.cache.fallback).0)
unfolding get_sampling_rules
poll_rules_empty_example = poll_rules_empty sc sdk 4000000 remote rules_failed 5000000 call refl

abbrev events : List (Event sdk)
events =
    rules_timer 2000000 (records [])
    ∷ request 3000000 call
    ∷ targets_timer 4000000 (targets none none none) rules_failed
    ∷ []

run-init-IsValid_example :
    IsValid (run sc sdk events (init [] (some 60) (text "c") 1000000)).1.cache
    × All (InOrder sc sdk) (run sc sdk events (init [] (some 60) (text "c") 1000000)).0
run-init-IsValid_example = run-init-IsValid sc sdk events [] (some 60) (text "c") 1000000
