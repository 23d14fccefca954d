-- ===== src/Sampler/Tests/Parts.antt =====
-- The rate limiter, the matcher and the applier at concrete inputs.
use opentelemetry_python_con.Common.{
  ◌+◌, ◌-◌, ◌*◌, ◌≤◌, ◌≡◌, ◌↔◌, ◌⊎◌, refl, true, false, some, [], ◌∷◌, text, arith, text_eq,
}
use opentelemetry_python_con.Sampler.RateLimiter.{second, try_spend}
use opentelemetry_python_con.Sampler.RateLimiter.Bound.{accepted, accepted-le}
use opentelemetry_python_con.Sampler.RateLimiter.Refill.{try_spend_after_second}
use opentelemetry_python_con.Common.{get}
use opentelemetry_python_con.Sampler.Matcher.{
  str, other, is_wildcard, flush, wildcard_part, regex_loop, to_regex_pattern, strip_literal,
  any_suffix, fullmatch, has_wildcard, match_text, wild_card_match, matched_count, attribute_match,
}
use opentelemetry_python_con.Sampler.Matcher.Wildcards.{IsMatch, wild_card_match_iff}
use opentelemetry_python_con.Sampler.Matcher.Attributes.{MatchesAll, attribute_match_iff}
use opentelemetry_python_con.Sampler.Limited.{ratio_sample, is_dropped}
use opentelemetry_python_con.Sampler.Applier.{should_sample}
use opentelemetry_python_con.Sampler.Applier.Decisions.{FromReservoir, should_sample_iff}
use opentelemetry_python_con.Sampler.Tests.Values.{sdk, span, wanted, call, limiter, applier}

matcher : Unit {0}
unfolding get is_wildcard flush wildcard_part regex_loop to_regex_pattern strip_literal any_suffix
    fullmatch has_wildcard match_text wild_card_match matched_count attribute_match text_eq
matcher = tt

wildcards :
    (wild_card_match (some (str (text "/a/b"))) (text "/a/*") ≡ true)
    × (wild_card_match (some (str (text "/b"))) (text "/a*") ≡ false)
    × (wild_card_match (some (other 3)) (text "*") ≡ true)
    × (wild_card_match (some (str (text "u1"))) (text "u?") ≡ true)
    × (wild_card_match (some (str (10 ∷ []))) (text "?") ≡ false)
unfolding matcher
wildcards = (refl, refl, refl, refl, refl)

attributes : attribute_match (some span) wanted ≡ true
unfolding matcher
attributes = refl

-- three requests in one instant, with a wallet that is full at a quota of two
burst : accepted (3000000 ∷ 3000000 ∷ 3000000 ∷ []) limiter ≡ 2
unfolding accepted try_spend
burst = refl

accepted-le_example :
    accepted (3000000 ∷ 3000000 ∷ 3000000 ∷ []) limiter * second
    ≤ limiter.quota * (3500000 - 3000000) + limiter.max_balance * limiter.quota
accepted-le_example =
    accepted-le (3000000 ∷ 3000000 ∷ 3000000 ∷ []) 3000000 3500000 limiter (omega arith)
      (omega arith)

try_spend_after_second_example : (try_spend 1 2500000 limiter).0 ≡ true
try_spend_after_second_example =
    try_spend_after_second limiter 1500000 2500000 (omega arith) (omega arith) (omega arith)
      (omega arith)

wild_card_match_iff_example :
    (wild_card_match (some (str (text "u1"))) (text "u?") ≡ true)
    ↔ ((text "u?" ≡ text "*") ⊎ IsMatch (text "u?") (some (str (text "u1"))))
wild_card_match_iff_example = wild_card_match_iff (some (str (text "u1"))) (text "u?")

attribute_match_iff_example :
    (attribute_match (some span) wanted ≡ true) ↔ ((wanted ≡ []) ⊎ MatchesAll (some span) wanted)
unfolding get text_eq
attribute_match_iff_example = attribute_match_iff (some span) wanted (refl, (refl, tt)) (refl, tt)

should_sample_iff_example : (is_dropped sdk (should_sample sdk 3000000 call applier).0 ≡ false) ↔ (
    FromReservoir sdk 3000000 call applier
    ⊎ (is_dropped sdk (ratio_sample sdk applier.fixed_rate call) ≡ false))
should_sample_iff_example = should_sample_iff sdk 3000000 call applier
