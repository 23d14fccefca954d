-- ===== src/Sampler/RateLimiter/Refill.antt =====
-- When `try_spend` accepts, and what it leaves in the wallet.
use opentelemetry_python_con.Common.{ℕ, ◌+◌, ◌-◌, ◌*◌, ◌≤◌, ◌≡◌, ◌↔◌, ◌≢◌, true, arith}
use opentelemetry_python_con.Sampler.RateLimiter.{RateLimiter, second, init, try_spend}

abbrev pub Affordable : ℕ → ℕ → RateLimiter → Type 0
Affordable cost now r =
    (r.quota ≢ 0)
    × (r.wallet_floor + cost * second ≤ r.quota * now)
    × (cost * second ≤ r.max_balance * r.quota)

-- `try_spend` accepts exactly when there is a quota, the time since the wallet's floor pays for the
-- cost, and the cost is no more than a full wallet.
pub try_spend_iff :
    (cost now : ℕ) (r : RateLimiter) → ((try_spend cost now r).0 ≡ true) ↔ Affordable cost now r
unfolding try_spend
try_spend_iff cost now r = ground arith

pub quota-try_spend : (cost now : ℕ) (r : RateLimiter) → (try_spend cost now r).1.quota ≡ r.quota
unfolding try_spend
quota-try_spend cost now r = ground arith

pub max_balance-try_spend :
    (cost now : ℕ) (r : RateLimiter) → (try_spend cost now r).1.max_balance ≡ r.max_balance
unfolding try_spend
max_balance-try_spend cost now r = ground arith

-- The floor of the wallet is not after the time `now`.
abbrev pub IsFilled : ℕ → RateLimiter → Type 0
IsFilled now r = r.wallet_floor ≤ r.quota * now

pub init-IsFilled : (m q now : ℕ) → IsFilled now (init m q now)
unfolding init
init-IsFilled m q now = omega arith

pub try_spend-IsFilled :
    (cost now : ℕ) (r : RateLimiter) → IsFilled now r → IsFilled now (try_spend cost now r).1
unfolding try_spend
try_spend-IsFilled cost now r h = ground arith

second-le-mul : (q m : ℕ) → q ≢ 0 → second ≤ m → second ≤ m * q
second-le-mul q m h k = grind arith

wait_second : (q t now : ℕ) → q ≢ 0 → t + second ≤ now → q * t + second ≤ q * now
wait_second q t now h k = grind (arith, second-le-mul q (now - t) h (omega arith))

-- A second after a time at which the wallet was not overdrawn, a request is accepted, whatever
-- was spent before: the quota is positive and the wallet holds at least a second.
pub try_spend_after_second :
    (r : RateLimiter) (t now : ℕ)
    → r.quota ≢ 0
    → second ≤ r.max_balance
    → IsFilled t r
    → t + second ≤ now
    → (try_spend 1 now r).0 ≡ true
try_spend_after_second r t now q m h later = (try_spend_iff 1 now r).1 (
  q,
  omega (arith, wait_second r.quota t now q later),
  omega (arith, second-le-mul r.quota r.max_balance q m),
)
