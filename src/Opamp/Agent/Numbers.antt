-- ===== src/Opamp/Agent/Numbers.antt =====
-- The numbers of the messages that the agent sends.
use opentelemetry_python_con.Common.{ℕ, ◌+◌, ◌≤◌, ◌≡◌, false, Option, none, some, List, [], ◌∷◌}
use opentelemetry_python_con.Opamp.Proto.{Bytes, Proto}
use opentelemetry_python_con.Opamp.Agent.{
  Agent, Work, Event, scheduler_woke, sent_on_demand, job_taken, reply, failure, abandoned,
  stop_called,
}
use opentelemetry_python_con.Opamp.Agent.Kept.{Kept}

-- `stop()` is not called.
abbrev pub IsRunning : {D C : Type 0} → Event D C → Type 0
IsRunning stop_called = ⊥
IsRunning scheduler_woke = Unit
IsRunning (sent_on_demand payload max_retries) = Unit
IsRunning job_taken = Unit
IsRunning (reply r on_connect handler callback) = Unit
IsRunning (failure on_connect_failed callback) = Unit
IsRunning (abandoned callback) = Unit

module _ (proto : Proto) where
  open proto use {Description, Config}

  -- the sequence number in a message, as the server decodes it
  unfoldable pub number : Bytes → ℕ
  number b = elim (proto.decode b) [ none ↦ 0 | some m ↦ m.sequence_num ]

  -- After messages with all the numbers below `s`, each message has the next number, or the one of the
  -- message before it.
  abbrev pub Steady : ℕ → List Bytes → Type 0
  Steady s [] = Unit
  Steady s (b ∷ l) = (number b ≤ s) × ((s ≤ number b + 1) × Steady (number b + 1) l)

  unfoldable after : ℕ → List Bytes → ℕ
  after s [] = s
  after s (b ∷ l) = after (number b + 1) l

  -- `next` is the number of the next message: all below have been sent, but perhaps the last one,
  -- which is that of the job in work.
  abbrev InWork : ℕ → ℕ → Option (Work Description Config) → Type 0
  InWork s next none = s ≡ next
  InWork s next (some w) = (number w.prepared + 1 ≡ next) × ((s ≤ next) × (next ≤ s + 1))

  record Pending (s : ℕ) (a : Agent Description Config) : Type 0 where
    running : a.stopped ≡ false
    work : InWork s a.client.sequence_num a.current
