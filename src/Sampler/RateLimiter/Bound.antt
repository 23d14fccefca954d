-- ===== src/Sampler/RateLimiter/Bound.antt =====
-- How many requests a limiter accepts in an interval of time.
use opentelemetry_python_con.Common.{
  ℕ, suc, ◌+◌, ◌-◌, ◌*◌, ◌≤◌, ◌≡◌, ◌⊎◌, inl, inr, true, false, List, [], ◌∷◌, arith, All, refl, sym,
  ap, ◌∙◌, Bool-cases, if◌then◌else◌,
}
use native.Mathlib.Nat.{mul-le-mul_left, mul-add}
use opentelemetry_python_con.Sampler.RateLimiter.{RateLimiter, second, try_spend}

-- The requests accepted of those made at the times of the list, in the list's order.
unfoldable pub accepted : List ℕ → RateLimiter → ℕ
accepted [] r = 0
accepted (now ∷ times) r =
    let rest = accepted times (try_spend 1 now r).1 in
    if (try_spend 1 now r).0 then suc rest else rest

Unchanged-reject :
    (now : ℕ) (r : RateLimiter) → (try_spend 1 now r).0 ≡ false → (try_spend 1 now r).1 ≡ r
unfolding try_spend
Unchanged-reject now r e = ground arith

-- A limiter of quota `q` and balance `m`, and an interval from `t` to `t'`.
module _ (q m t t' : ℕ) where
  -- A level that the wallet's floor has reached, or that a full wallet at time `t` has.
  record Reached (level : ℕ) (r : RateLimiter) : Type 0 where
    same_quota : r.quota ≡ q
    same_max : r.max_balance ≡ m
    reached : (level ≤ r.wallet_floor) ⊎ (level + m * q ≤ q * t)
    before_end : level ≤ q * t'

  abbrev Within : ℕ → Type 0
  Within now = (q * t ≤ q * now) × (q * now ≤ q * t')

  Reached-accept :
      (level now : ℕ) (r : RateLimiter)
      → Reached level r
      → Within now
      → (try_spend 1 now r).0 ≡ true
      → Reached (level + second) (try_spend 1 now r).1
  unfolding try_spend
  Reached-accept level now r h w e = ground arith

  -- Accepted requests raise the level, by a second's worth each.
  accepted-Reached :
      (times : List ℕ) (level : ℕ) (r : RateLimiter)
      → Reached level r
      → All Within times
      → accepted times r * second + level ≤ q * t'
  unfolding accepted
  accepted-Reached [] level r h all = omega arith
  accepted-Reached (now ∷ times) level r h all = elim (Bool-cases (try_spend 1 now r).0) [
    | inl spent ↦ rw spent (
        omega (
          arith,
          accepted-Reached times (level + second) (try_spend 1 now r).1
              (Reached-accept level now r h all.0 spent) all.1,
        ))
    | inr kept ↦ rw (kept, Unchanged-reject now r kept) (accepted-Reached times level r h all.1)
  ]

  abbrev Between : ℕ → Type 0
  Between now = (t ≤ now) × (now ≤ t')

  All-Within : (times : List ℕ) → All Between times → All Within times
  All-Within [] h = tt
  All-Within (now ∷ times) h =
      ((mul-le-mul_left q h.0.0, mul-le-mul_left q h.0.1), All-Within times h.1)

full_or_empty : (a b floor : ℕ) → (a - b ≤ floor) ⊎ (a - b + b ≤ a)
full_or_empty a b floor = ground arith

mul-sub_self : (q t t' : ℕ) → t ≤ t' → q * (t' - t) + q * t ≡ q * t'
mul-sub_self q t t' h = sym (mul-add q (t' - t) t) ∙ ap (◌*◌ q) (omega arith)

-- Of the requests made between two times, in any order and from any state of the wallet, a limiter
-- accepts no more than its quota for the length of the interval and one full wallet.
pub accepted-le :
    (times : List ℕ) (t t' : ℕ) (r : RateLimiter)
    → t ≤ t'
    → All (λ now. (t ≤ now) × (now ≤ t')) times
    → accepted times r * second ≤ r.quota * (t' - t) + r.max_balance * r.quota
accepted-le times t t' r h all =
    let q = r.quota in
    let m = r.max_balance in
    let start : Reached q m t t' (q * t - m * q) r = record {
      same_quota = refl;
      same_max = refl;
      reached = full_or_empty (q * t) (m * q) r.wallet_floor;
      before_end = omega (arith, mul-le-mul_left q h);
    } in
    omega (
      arith,
      accepted-Reached q m t t' times (q * t - m * q) r start (All-Within q m t t' times all),
      mul-sub_self q t t' h,
    )
