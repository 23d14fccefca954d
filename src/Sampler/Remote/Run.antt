-- ===== src/Sampler/Remote/Run.antt =====
-- Runs of the remote sampler: any sequence of requests and polls, at any times.
use opentelemetry_python_con.Common.{
  ℕ, Option, List, [], ◌∷◌, ◌++◌, Text, All, All-append, Bool-cases, inl, inr,
}
use opentelemetry_python_con.Sampler.Sdk.{Sdk, Request, Attributes}
use opentelemetry_python_con.Sampler.Target.{Snapshot, snapshot}
use opentelemetry_python_con.Sampler.Applier.Counts.{IsCounted}
use opentelemetry_python_con.Sampler.Applier.Matching.{Semconv}
use opentelemetry_python_con.Sampler.Cache
use opentelemetry_python_con.Sampler.Cache.{
  Cache, get_all_statistics, reset_all, expired, update_sampling_targets,
}
use opentelemetry_python_con.Sampler.Applier.{Applier, get_then_reset_statistics}
use opentelemetry_python_con.Sampler.Cache.Invariant.{
  IsValid, IsGood, should_sample-IsValid, update_sampling_rules-IsValid,
  update_sampling_targets-IsValid, get_all_statistics-IsValid,
}
use opentelemetry_python_con.Sampler.Client.{
  RulesReply, TargetsReply, get_sampling_rules, get_sampling_targets,
}
use opentelemetry_python_con.Sampler.Remote.{Remote, init, should_sample, poll_rules, poll_targets}

pub data Event (sdk : Sdk) : Type 0 where
  request : ℕ → Request sdk → Event sdk
  rules_timer : ℕ → RulesReply sdk.Rate → Event sdk
  targets_timer : ℕ → TargetsReply sdk.Rate → RulesReply sdk.Rate → Event sdk

module _ (sc : Semconv) (sdk : Sdk) where
  open sdk use {Rate}

  -- one event: what it sends to X-Ray, and the state after it
  unfoldable pub step : Event sdk → Remote Rate → List Snapshot × Remote Rate
  step (request now r) s = ([], (should_sample sc sdk now r s).1)
  step (rules_timer now reply) s = ([], poll_rules sc sdk now reply s)
  step (targets_timer now reply rules_reply) s = poll_targets sc sdk now reply rules_reply s

  -- all that a sequence of events sends, in order, and the state at the end
  unfoldable pub run : List (Event sdk) → Remote Rate → List Snapshot × Remote Rate
  run [] s = ([], s)
  run (e ∷ events) s =
      let (sent, s') = step e s in let (rest, end) = run events s' in (sent ++ rest, end)

  -- the counts of a document are in order
  abbrev pub InOrder : Snapshot → Type 0
  InOrder d = IsCounted d.statistics

  sent_InOrder :
      (now : ℕ) (l : List (Applier Rate)) → All IsGood l → All InOrder (reset_all now l).0
  unfolding reset_all get_then_reset_statistics snapshot
  sent_InOrder now [] h = tt
  sent_InOrder now (a ∷ l) h = (h.0.1, sent_InOrder now l h.1)

  poll_rules-IsValid :
      (now : ℕ) (reply : RulesReply Rate) (s : Remote Rate)
      → IsValid s.cache
      → IsValid (poll_rules sc sdk now reply s).cache
  unfolding poll_rules
  poll_rules-IsValid now reply s h =
      update_sampling_rules-IsValid sdk.rate_eq now s.cache (get_sampling_rules sdk.zero_rate reply)
        h

  should_sample-cache-IsValid :
      (now : ℕ) (r : Request sdk) (s : Remote Rate)
      → IsValid s.cache
      → IsValid (should_sample sc sdk now r s).1.cache
  unfolding should_sample
  should_sample-cache-IsValid now r s h = elim (Bool-cases (expired now s.cache)) [
    | inl old ↦ rw (old, should_sample) (record { sorted = h.sorted; good = h.good })
    | inr fresh ↦ rw (fresh, should_sample) (should_sample-IsValid sc sdk now r s.cache h)
  ]

  poll_targets-IsValid :
      (now : ℕ) (reply : TargetsReply Rate) (rules_reply : RulesReply Rate) (s : Remote Rate)
      → IsValid s.cache
      → IsValid (poll_targets sc sdk now reply rules_reply s).1.cache
        × All InOrder (poll_targets sc sdk now reply rules_reply s).0
  unfolding poll_targets
  poll_targets-IsValid now reply rules_reply s h =
      let cleared = get_all_statistics now s.cache in
      let response = get_sampling_targets sdk.zero_rate reply in
      let valid =
        update_sampling_targets-IsValid now response cleared.1
          (get_all_statistics-IsValid now s.cache h) in
      (
        elim (Bool-cases (update_sampling_targets now response cleared.1).0.0) [
          | inl refresh ↦ rw refresh (poll_rules-IsValid now rules_reply _ valid)
          | inr same ↦ rw same valid
        ],
        unfold get_all_statistics in (sent_InOrder now s.cache.appliers h.good),
      )

  step-IsValid :
      (e : Event sdk) (s : Remote Rate)
      → IsValid s.cache
      → IsValid (step e s).1.cache × All InOrder (step e s).0
  unfolding step
  step-IsValid (request now r) s h = (should_sample-cache-IsValid now r s h, tt)
  step-IsValid (rules_timer now reply) s h = (poll_rules-IsValid now reply s h, tt)
  step-IsValid (targets_timer now reply rules_reply) s h =
      poll_targets-IsValid now reply rules_reply s h

  run-IsValid :
      (events : List (Event sdk)) (s : Remote Rate)
      → IsValid s.cache
      → IsValid (run events s).1.cache × All InOrder (run events s).0
  unfolding run
  run-IsValid [] s h = (h, tt)
  run-IsValid (e ∷ events) s h =
      let (valid, sent) = step-IsValid e s h in
      let (valid', rest) = run-IsValid events (step e s).1 valid in
      (valid', All-append InOrder (step e s).0 (run events (step e s).1).0 sent rest)

  -- Whatever requests and polls come after the start, and in whatever order: the rules of the cache
  -- are in the order of priority and name, each has a name and is of version 1, and of every rule, in
  -- the cache and in all that was sent, no more requests were borrowed than sampled and no more
  -- sampled than counted.
  pub run-init-IsValid :
      (events : List (Event sdk)) (resource : Attributes) (interval : Option ℕ) (client_id : Text)
      (now : ℕ)
      → IsValid (run events (init resource interval client_id now)).1.cache
        × All InOrder (run events (init resource interval client_id now)).0
  unfolding init Cache.init
  run-init-IsValid events resource interval client_id now =
      run-IsValid events (init resource interval client_id now) (record { sorted = tt; good = tt })
