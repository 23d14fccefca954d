-- ===== src/Opamp/Job/Backoff.antt =====
-- How often a job is tried, and how long the agent waits between the attempts.
use mathlib.Core.Path.{subst}
use opentelemetry_python_con.Common.{
  ℕ, zero, suc, ◌+◌, ◌-◌, ◌*◌, ◌^◌, ◌≤◌, ◌≡◌, refl, min, Bool, true, false, ◌||◌, Option, none,
  some, List, [], ◌∷◌, leb, leb→le, if◌then◌else◌, arith, Bool-cases, inl, inr,
}
use opentelemetry_python_con.Opamp.Client.{Payload}
use opentelemetry_python_con.Opamp.Job.{Job, init, max_delay, should_retry, delay, fail}

-- `initial_backoff`, doubled `k` times and up to a minute
abbrev pub wait : ℕ → ℕ → ℕ
wait b k = min (b * 2 ^ k) max_delay

-- the waits from the one of number `k` on
abbrev pub waits : ℕ → ℕ → ℕ → List ℕ
waits b k zero = []
waits b k (suc n) = wait b k ∷ waits b (suc k) n

doubled : (b k d : ℕ) → d ≡ wait b k → min (min (d * 2) max_delay) max_delay ≡ wait b (suc k)
doubled b k d e =
    let twice : b * 2 ^ suc k ≡ 2 * (b * 2 ^ k) = grind arith in omega (arith, twice, e)

prepend :
    (c : Bool) (d : ℕ) (l : List ℕ)
    → (elim (if c then some l else none) [ none ↦ none | some r ↦ some (d ∷ r) ])
      ≡ (if c then some (d ∷ l) else none)
prepend true d l = refl
prepend false d l = refl

module _ {Description Config : Type 0} where
  -- the delays after `n` failed attempts, or `none` if the job is dropped before
  unfoldable pub failures : ℕ → Job Description Config → Option (List ℕ)
  failures zero j = some []
  failures (suc n) j = elim (fail j) [
    | none ↦ none
    | some (d, j') ↦ elim (failures n j') [ none ↦ none | some l ↦ some (d ∷ l) ]
  ]

  -- the initial job after one more failure
  abbrev again : Job Description Config → Job Description Config
  again j = record j {
    attempt = j.attempt + 1;
    backoff = min (min j.backoff max_delay * 2) max_delay;
  }

  fail_initial :
      (b k : ℕ) (j : Job Description Config)
      → j.is_initial ≡ true
      → min j.backoff max_delay ≡ wait b k
      → fail j ≡ some (wait b k, again j)
  unfolding fail delay
  fail_initial b k j h e = rw (h, e) refl

  failures_initial :
      (n k b : ℕ) (j : Job Description Config)
      → j.is_initial ≡ true
      → min j.backoff max_delay ≡ wait b k
      → failures n j ≡ some (waits b k n)
  unfolding failures
  failures_initial zero k b j h e = refl
  failures_initial (suc n) k b j h e =
      rw
        (
          fail_initial b k j h e,
          failures_initial n (suc k) b (again j) h (doubled b k (min j.backoff max_delay) e),
          failures,
        )
        refl

  fail_other :
      (k : ℕ) (j : Job Description Config)
      → j.is_initial ≡ false
      → j.attempt ≡ k
      → suc k ≤ j.max_retries
      → fail j ≡ some (wait j.initial_backoff k, record j { attempt = j.attempt + 1 })
  unfolding fail delay should_retry
  fail_other k j h e l =
      let retry : leb (j.attempt + 1) j.max_retries ≡ true = ground arith in
      let before : j.attempt + 1 - 1 ≡ k = omega arith in rw (h, retry, before) refl

  fail_last :
      (k : ℕ) (j : Job Description Config)
      → j.is_initial ≡ false
      → j.attempt ≡ k
      → j.max_retries ≤ k
      → fail j ≡ none
  unfolding fail delay should_retry
  fail_last k j h e l =
      let no_retry : leb (j.attempt + 1) j.max_retries ≡ false = ground arith in
      rw (h, no_retry) refl

  failures_other :
      (n k : ℕ) (j : Job Description Config)
      → j.is_initial ≡ false
      → j.attempt ≡ k
      → k ≤ j.max_retries
      → failures n j
        ≡ (if leb (k + n) j.max_retries then some (waits j.initial_backoff k n) else none)
  unfolding failures
  failures_other zero k j h e l =
      let enough : leb (k + 0) j.max_retries ≡ true = ground arith in rw enough refl
  failures_other (suc n) k j h e l = elim (Bool-cases (leb (suc k) j.max_retries)) [
    | inl r ↦
        let shift : k + suc n ≡ suc k + n = omega arith in
        let rest =
          failures_other n (suc k) (record j { attempt = j.attempt + 1 }) h (omega (arith, e))
            (leb→le (suc k) j.max_retries r) in
        rw (fail_other k j h e (leb→le (suc k) j.max_retries r), failures, rest, shift)
          (prepend (leb (suc k + n) j.max_retries) (wait j.initial_backoff k)
            (waits j.initial_backoff (suc k) n))
    | inr r ↦
        let over : leb (k + suc n) j.max_retries ≡ false = ground arith in
        rw (fail_last k j h e (ground arith), failures, over) refl
  ]

  -- After `n` failed attempts a new job has been tried again after `n` waits, each of which is twice the
  -- one before it, up to a minute, or it was dropped: that is so exactly if it is not the initial job
  -- and `n` is more than its retries. The initial job doubles the wait that it stores, and any other
  -- computes it from the number of the attempt.
  pub failures_lem :
      (payload : Payload Description Config) (max_retries initial_backoff : ℕ) (is_initial : Bool)
      (n : ℕ)
      → failures n (init payload max_retries initial_backoff is_initial)
        ≡ (if is_initial || leb n max_retries then some (waits initial_backoff 0 n) else none)
  unfolding init
  failures_lem payload m b true n =
      failures_initial n 0 b (init payload m b true) refl (omega arith)
  failures_lem payload m b false n =
      let none_before : 0 + n ≡ n = omega arith in
      subst
        (λ k. failures n (init payload m b false) ≡ (if leb k m then some (waits b 0 n) else none))
        none_before (failures_other n 0 (init payload m b false) refl refl (omega arith))
