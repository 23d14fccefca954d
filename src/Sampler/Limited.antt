-- ===== src/Sampler/Limited.antt =====
-- `_RateLimitingSampler` and `_FallbackSampler` (trace/sampler/_rate_limiting_sampler.py and
-- _fallback_sampler.py).
use opentelemetry_python_con.Common.{ℕ, ◌≡◌, Bool, not, arith, if◌then◌else◌}
use opentelemetry_python_con.Sampler.RateLimiter
use opentelemetry_python_con.Sampler.RateLimiter.{RateLimiter, try_spend}
use opentelemetry_python_con.Sampler.Sdk.{Sdk, Request}

-- the reservoir of `_RateLimitingSampler(quota, clock)`
unfoldable pub reservoir : ℕ → ℕ → RateLimiter
reservoir quota now = RateLimiter.init 1 quota now

-- `_FallbackSampler` keeps a limiter of one request a second, and samples one in twenty of the rest.
unfoldable pub fallback_init : ℕ → RateLimiter
fallback_init now = reservoir 1 now

module _ (sdk : Sdk) where
  open sdk use {
    Rate, SamplingResult, sampling_result, decision, is_drop, drop, record_and_sample, ratio_based,
  }

  -- `SamplingResult(decision, attributes, trace_state)` with the request's own
  abbrev pub answer : sdk.Decision → Request sdk → SamplingResult
  answer d request = sampling_result d request.attributes request.trace_state

  abbrev pub is_dropped : SamplingResult → Bool
  is_dropped result = is_drop (decision result)

  -- `TraceIdRatioBased(rate).should_sample`
  abbrev pub ratio_sample : Rate → Request sdk → SamplingResult
  ratio_sample rate request =
      ratio_based rate request.call request.trace_id request.attributes request.trace_state

  unfoldable pub limited_sample : ℕ → Request sdk → RateLimiter → SamplingResult × RateLimiter
  limited_sample now request r = (
    if (try_spend 1 now r).0 then answer record_and_sample request else answer drop request,
    (try_spend 1 now r).1,
  )

  unfoldable pub fallback_sample : ℕ → Request sdk → RateLimiter → SamplingResult × RateLimiter
  fallback_sample now request r =
      let (result, r') = limited_sample now request r in
      if is_dropped result then (ratio_sample sdk.fallback_rate request, r') else (result, r')

  -- A limited sampler answers with the request's attributes and state, and drops exactly the
  -- requests that its reservoir does not pay for.
  pub is_dropped-limited :
      (now : ℕ) (request : Request sdk) (r : RateLimiter)
      → is_dropped (limited_sample now request r).0 ≡ not (try_spend 1 now r).0
  unfolding limited_sample
  is_dropped-limited now request r = ground (
    arith,
    sdk.decision-sampling_result drop request.attributes request.trace_state,
    sdk.decision-sampling_result record_and_sample request.attributes request.trace_state,
    sdk.is_drop-drop,
    sdk.is_drop-record_and_sample,
  )
