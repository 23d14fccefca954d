-- ===== src/Sampler/Target.antt =====
-- `_SamplingTarget`, `_UnprocessedStatistics` and `_SamplingTargetResponse` of
-- trace/sampler/_sampling_target.py, and `_SamplingStatisticsDocument` of
-- _sampling_statistics_document.py. Timestamps, which are floats of seconds, are in microseconds.
use opentelemetry_python_con.Common.{ℕ, Option, none, some, List, [], ◌∷◌, Text, or_default}

pub record Target (Rate : Type 0) : Type 0 where
  pub fixed_rate : Rate
  pub interval : Option ℕ
  pub reservoir_quota : Option ℕ
  pub reservoir_quota_ttl : Option ℕ
  pub rule_name : Text

-- A document of the response: the keyword arguments of a target, or keys that no target has, which
-- the constructor refuses.
pub data Document (Rate : Type 0) : Type 0 where
  fields : Option Rate → Option ℕ → Option ℕ → Option ℕ → Option Text → Document Rate
  unknown_key : Document Rate

unfoldable pub init_target : {Rate : Type 0} → Rate → Document Rate → Option (Target Rate)
init_target zero_rate (fields rate interval quota ttl name) = some (record {
  fixed_rate = or_default rate zero_rate;
  interval = interval;
  reservoir_quota = quota;
  reservoir_quota_ttl = ttl;
  rule_name = or_default name [];
})
init_target zero_rate unknown_key = none

-- an exception from a document is logged, and the document is left out
unfoldable pub init_targets : {Rate : Type 0} → Rate → List (Document Rate) → List (Target Rate)
init_targets zero_rate [] = []
init_targets zero_rate (d ∷ documents) =
    let rest = init_targets zero_rate documents in
    elim (init_target zero_rate d) [ none ↦ rest | some t ↦ t ∷ rest ]

pub record Unprocessed : Type 0 where
  pub error_code : Option Text
  pub message : Option Text
  pub rule_name : Option Text

-- The constructor tests `ErrorCode` for all three: `none` is a field that is `None`.
unfoldable pub init_unprocessed : Option Text → Option Text → Option Text → Unprocessed
init_unprocessed none message rule_name = record {
  error_code = some [];
  message = some [];
  rule_name = some [];
}
init_unprocessed (some code) message rule_name = record {
  error_code = some code;
  message = message;
  rule_name = rule_name;
}

pub data UnprocessedDocument : Type 0 where
  unprocessed_fields : Option Text → Option Text → Option Text → UnprocessedDocument
  unprocessed_unknown_key : UnprocessedDocument

unfoldable pub init_unprocesseds : List UnprocessedDocument → List Unprocessed
init_unprocesseds [] = []
init_unprocesseds (unprocessed_fields code message name ∷ documents) =
    init_unprocessed code message name ∷ init_unprocesseds documents
init_unprocesseds (unprocessed_unknown_key ∷ documents) = init_unprocesseds documents

pub record TargetResponse (Rate : Type 0) : Type 0 where
  pub last_rule_modification : ℕ
  pub targets : List (Target Rate)
  pub unprocessed : List Unprocessed

unfoldable pub init_response :
    {Rate : Type 0}
    → Rate
    → Option ℕ
    → Option (List (Document Rate))
    → Option (List UnprocessedDocument)
    → TargetResponse Rate
init_response zero_rate modified documents unprocessed = record {
  last_rule_modification = or_default modified 0;
  targets = init_targets zero_rate (or_default documents []);
  unprocessed = init_unprocesseds (or_default unprocessed []);
}

pub record Statistics : Type 0 where
  pub client_id : Text
  pub rule_name : Text
  pub request_count : ℕ
  pub borrow_count : ℕ
  pub sample_count : ℕ

unfoldable pub no_statistics : Text → Text → Statistics
no_statistics client_id rule_name = record {
  client_id = client_id;
  rule_name = rule_name;
  request_count = 0;
  borrow_count = 0;
  sample_count = 0;
}

-- `snapshot`: the counts, stamped with the time
pub record Snapshot : Type 0 where
  pub statistics : Statistics
  pub timestamp : ℕ

unfoldable pub snapshot : Statistics → ℕ → Snapshot
snapshot s now = record { statistics = s; timestamp = now }
