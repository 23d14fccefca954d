-- ===== src/Sampler/Sdk.antt =====
-- What the sampler takes from the OpenTelemetry SDK, which is not part of the repository, and the
-- floating-point rates that it only stores, compares and hands on.
use opentelemetry_python_con.Common.{ℕ, ◌≡◌, Bool, true, false, Option}
use opentelemetry_python_con.Common.{Dict}
use opentelemetry_python_con.Sampler.Matcher.{AttributeValue}

abbrev pub Attributes : Type 0
Attributes = Dict AttributeValue

pub record Sdk : Type 1 where
  -- `float`, with `==`, and the rates 0.0 and 0.05
  pub Rate : Type 0
  pub rate_eq : Rate → Rate → Bool
  pub zero_rate : Rate
  pub fallback_rate : Rate
  -- `Decision`, and the test `is Decision.DROP`
  pub Decision : Type 0
  pub drop : Decision
  pub record_and_sample : Decision
  pub is_drop : Decision → Bool
  pub is_drop-drop : is_drop drop ≡ true
  pub is_drop-record_and_sample : is_drop record_and_sample ≡ false
  -- the arguments of `should_sample` that samplers hand on unread: parent context, name, kind, links
  pub Call : Type 0
  pub TraceState : Type 0
  -- `SamplingResult(decision, attributes, trace_state)` and its field `decision`
  pub SamplingResult : Type 0
  pub sampling_result : Decision → Option Attributes → Option TraceState → SamplingResult
  pub decision : SamplingResult → Decision
  pub decision-sampling_result :
      (d : Decision) (a : Option Attributes) (s : Option TraceState)
      → decision (sampling_result d a s) ≡ d
  -- `TraceIdRatioBased(rate).should_sample(...)`, which keeps no state
  pub ratio_based : Rate → Call → ℕ → Option Attributes → Option TraceState → SamplingResult

-- the arguments of `should_sample`
pub record Request (sdk : Sdk) : Type 0 where
  pub call : sdk.Call
  pub trace_id : ℕ
  pub attributes : Option Attributes
  pub trace_state : Option sdk.TraceState
