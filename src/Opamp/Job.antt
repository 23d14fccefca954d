-- ===== src/Opamp/Job.antt =====
-- `_Job` of agent.py. Delays are whole numbers of milliseconds, before the jitter of 20% is applied.
pub mod Backoff
use opentelemetry_python_con.Common.{
  ℕ, ◌+◌, ◌-◌, ◌*◌, ◌^◌, min, Bool, true, false, not, ◌&&◌, Option, none, some, leb, if◌then◌else◌,
}
use opentelemetry_python_con.Opamp.Client.{Payload}

abbrev pub max_delay : ℕ
max_delay = 60000

pub record Job (Description Config : Type 0) : Type 0 where
  pub payload : Payload Description Config
  pub attempt : ℕ
  pub max_retries : ℕ
  pub initial_backoff : ℕ
  pub backoff : ℕ
  pub is_initial : Bool

module _ {Description Config : Type 0} where
  unfoldable pub init : Payload Description Config → ℕ → ℕ → Bool → Job Description Config
  init payload max_retries initial_backoff is_initial = record {
    payload = payload;
    attempt = 0;
    max_retries = max_retries;
    initial_backoff = initial_backoff;
    backoff = initial_backoff;
    is_initial = is_initial;
  }

  unfoldable pub should_retry : Job Description Config → Bool
  should_retry j = leb j.attempt j.max_retries

  -- called after a failure, so `attempt` is positive
  unfoldable pub delay : Job Description Config → ℕ × Job Description Config
  delay j =
      let d = min j.backoff max_delay in
      if j.is_initial
      then (d, record j { backoff = min (d * 2) max_delay })
      else (min (j.initial_backoff * 2 ^ (j.attempt - 1)) max_delay, j)

  -- A failed attempt: the delay before the next one, or `none` if the job is dropped.
  unfoldable pub fail : Job Description Config → Option (ℕ × Job Description Config)
  fail j =
      let j' : Job Description Config = record j { attempt = j.attempt + 1 } in
      if not j.is_initial && not (should_retry j') then none else some (delay j')
