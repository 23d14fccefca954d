-- ===== src/Sampler/Rule/Equal.antt =====
-- What `__eq__` of two rules says.
use opentelemetry_python_con.Common.{◌≡◌, Bool, true, arith, text_eq_iff}
use opentelemetry_python_con.Sampler.Rule.{Rule, rule_eq}

module _ {Rate : Type 0} (rate_eq : Rate → Rate → Bool) where
  -- Rules that are equal by `__eq__` have the same name, version, priority and reservoir, so that
  -- they stand at the same place in the order.
  pub rule_eq-fields :
      (r s : Rule Rate)
      → rule_eq rate_eq r s ≡ true
      → (r.rule_name ≡ s.rule_name)
        × (r.priority ≡ s.priority)
        × (r.reservoir_size ≡ s.reservoir_size)
        × (r.version ≡ s.version)
  unfolding rule_eq
  rule_eq-fields r s h = ground (arith, text_eq_iff r.rule_name s.rule_name)
