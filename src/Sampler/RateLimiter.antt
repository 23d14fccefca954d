-- ===== src/Sampler/RateLimiter.antt =====
-- `_RateLimiter` of trace/sampler/_rate_limiter.py: a wallet that fills with time and is spent by
-- requests. Times are microseconds, the resolution of `datetime`. The source holds the wallet in
-- milliseconds and divides the cost by the quota; here the wallet is held in `quota`-ths of a
-- microsecond, where the same comparison is between whole numbers, and Python's rounding of
-- `float` and `Decimal` is left out. The lock makes `try_spend` one step.
pub mod Bound
pub mod Refill
use opentelemetry_python_con.Common.{
  ℕ, ◌+◌, ◌-◌, ◌*◌, min, Bool, true, false, ltb, leb, ◌==◌, if◌then◌else◌,
}

-- microseconds to a second; also the price of one request, in `quota`-ths of a microsecond
abbrev pub second : ℕ
second = 1000000

pub record RateLimiter : Type 0 where
  pub max_balance : ℕ
  pub quota : ℕ
  pub wallet_floor : ℕ

unfoldable pub init : ℕ → ℕ → ℕ → RateLimiter
init max_balance_in_seconds quota now = record {
  max_balance = max_balance_in_seconds * second;
  quota = quota;
  wallet_floor = quota * now;
}

-- A clock that was set back gives a negative balance, which no cost fits in.
unfoldable pub try_spend : ℕ → ℕ → RateLimiter → Bool × RateLimiter
try_spend cost now r =
    if r.quota == 0
    then (false, r)
    else (let ceiling = r.quota * now in
        let balance = min (ceiling - r.wallet_floor) (r.max_balance * r.quota) in
        if ltb ceiling r.wallet_floor
        then (false, r)
        else if leb (cost * second) balance
        then (true, record r { wallet_floor = ceiling - (balance - cost * second) })
        else (false, r))
