-- ===== src/Sampler/Applier/Decisions.antt =====
-- Which requests an applier samples.
use opentelemetry_python_con.Common.{ℕ, ◌+◌, ◌<◌, ◌≡◌, ◌↔◌, ◌⊎◌, true, false, arith}
use opentelemetry_python_con.Sampler.RateLimiter.Refill.{Affordable, try_spend_iff}
use opentelemetry_python_con.Sampler.Sdk.{Sdk, Request}
use opentelemetry_python_con.Sampler.Limited.{ratio_sample, is_dropped, is_dropped-limited}
use opentelemetry_python_con.Sampler.Applier.{Applier, count, from_reservoir, should_sample}

module _ (sdk : Sdk) (now : ℕ) (request : Request sdk) (a : Applier sdk.Rate) where
  -- The reservoir has not expired and pays for the request.
  abbrev pub FromReservoir : Type 0
  FromReservoir = (now < a.reservoir_expiry) × Affordable 1 now a.reservoir

  from_reservoir_iff : (is_dropped sdk (from_reservoir sdk now request a).0 ≡ false) ↔ FromReservoir
  unfolding from_reservoir
  from_reservoir_iff = ground (
    arith,
    is_dropped-limited sdk now request a.reservoir,
    try_spend_iff 1 now a.reservoir,
    sdk.decision-sampling_result sdk.drop request.attributes request.trace_state,
    sdk.is_drop-drop,
  )

  -- A request is sampled exactly if the reservoir pays for it, or else the fixed rate samples it.
  pub should_sample_iff :
      (is_dropped sdk (should_sample sdk now request a).0 ≡ false)
      ↔ (FromReservoir ⊎ (is_dropped sdk (ratio_sample sdk a.fixed_rate request) ≡ false))
  unfolding should_sample
  should_sample_iff = ground (arith, from_reservoir_iff)

  -- A request is counted as borrowed exactly if the applier is borrowing and the reservoir pays.
  pub borrow_count-should_sample :
      ((should_sample sdk now request a).1.statistics.borrow_count ≡ a.statistics.borrow_count + 1)
      ↔ ((a.borrowing ≡ true) × FromReservoir)
  unfolding should_sample count
  borrow_count-should_sample = ground (arith, from_reservoir_iff)
