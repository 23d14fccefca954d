-- ===== src/Opamp/Agent.antt =====
-- `OpAMPAgent` of agent.py. The queue, the two threads and the caller's thread are interleaved in
-- events; each is what a thread does between two waits.
pub mod Kept
pub mod Outcomes
pub mod Numbers
pub mod Initial
pub mod Report
use opentelemetry_python_con.Common.{
  ℕ, Bool, true, false, not, ◌&&◌, Option, none, some, List, [], ◌∷◌, ◌++◌, Text, or_default,
  if◌then◌else◌,
}
use opentelemetry_python_con.Opamp.Proto.{Bytes, Proto}
use opentelemetry_python_con.Opamp.Client.{
  Client, Payload, message, build_heartbeat_message, build_agent_disconnect_message,
  build_full_state_message, update_effective_config, update_remote_config_status, prepare_message,
}
use opentelemetry_python_con.Opamp.Job
use opentelemetry_python_con.Opamp.Job.{Job, fail}

-- What `_process_message` reads of a `ServerToAgent`.
pub record Response : Type 0 where
  pub error_response : Bool
  pub report_full_state : Bool

-- a job that the worker has taken, with its prepared message
pub record Work (Description Config : Type 0) : Type 0 where
  pub job : Job Description Config
  pub prepared : Bytes

pub record Agent (Description Config : Type 0) : Type 0 where
  pub max_retries : ℕ
  pub heartbeat_max_retries : ℕ
  pub initial_backoff : ℕ
  pub client : Client Description Config
  pub queue : List (Job Description Config)
  pub current : Option (Work Description Config)
  pub schedule : Bool
  pub stopped : Bool

-- What a callback may call: the client's updates, and `send`.
pub data Call (Description Config : Type 0) : Type 0 where
  update_status : Bytes → ℕ → Text → Call Description Config
  update_config : Config → Call Description Config
  send_payload : Payload Description Config → Option ℕ → Call Description Config

module _ {Description Config : Type 0} where
  unfoldable pub put : Job Description Config → Agent Description Config → Agent Description Config
  put job a = record a { queue = a.queue ++ job ∷ [] }

  -- `max_retries` may be left out
  unfoldable pub send :
      Payload Description Config → Option ℕ → Agent Description Config → Agent Description Config
  send payload max_retries a =
      put (Job.init payload (or_default max_retries a.max_retries) a.initial_backoff false) a

  unfoldable pub call :
      Call Description Config → Agent Description Config → Agent Description Config
  call (update_status hash status error_message) a = record a {
    client = (update_remote_config_status hash status error_message a.client).1;
  }
  call (update_config config) a = record a { client = update_effective_config config a.client }
  call (send_payload payload max_retries) a = send payload max_retries a

  -- a callback, as the calls that it makes
  unfoldable pub invoke :
      List (Call Description Config) → Agent Description Config → Agent Description Config
  invoke [] a = a
  invoke (c ∷ calls) a = invoke calls (call c a)

  -- The full state is built after the callback.
  unfoldable pub process_message :
      Response
      → List (Call Description Config)
      → Agent Description Config
      → Agent Description Config
  process_message r handler a =
      let a' = invoke handler a in
      if r.error_response
      then a'
      else if r.report_full_state
      then send (message (build_full_state_message a'.client)) none a'
      else a'

  unfoldable pub start : Agent Description Config → Agent Description Config
  start a =
      put
        (Job.init (message (build_full_state_message a.client)) a.max_retries a.initial_backoff
          true)
        (record a { stopped = false })

  unfoldable pub enable_scheduler : Bool → Agent Description Config → Agent Description Config
  enable_scheduler is_initial a = if is_initial then record a { schedule = true } else a

  unfoldable pub heartbeat : Agent Description Config → Agent Description Config
  heartbeat a =
      if not a.stopped && a.schedule
      then put
          (Job.init (message (build_heartbeat_message a.client)) a.heartbeat_max_retries
            a.initial_backoff false)
          a
      else a

  unfoldable pub finish :
      List (Call Description Config) → Agent Description Config → Agent Description Config
  finish callback a = invoke callback (record a { current = none })

  -- a response to the job in work, with the calls of `on_connect`, of `on_error` or `on_message`, and
  -- of the job's callback
  unfoldable pub replied :
      Response
      → List (Call Description Config)
      → List (Call Description Config)
      → List (Call Description Config)
      → Work Description Config
      → Agent Description Config
      → Agent Description Config
  replied r on_connect handler callback w a =
      finish callback
        (enable_scheduler w.job.is_initial (process_message r handler (invoke on_connect a)))

  -- a failed attempt, with the calls of `on_connect_failed` and of the job's callback
  unfoldable pub failed :
      List (Call Description Config)
      → List (Call Description Config)
      → Work Description Config
      → Agent Description Config
      → Agent Description Config
  failed on_connect_failed callback w a =
      let a' = invoke on_connect_failed a in
      elim (fail w.job) [
        | none ↦ finish callback a'
        | some (_, job) ↦ record a' { current = some (record w { job = job }) }
      ]

pub data Event (Description Config : Type 0) : Type 0 where
  scheduler_woke : Event Description Config
  sent_on_demand : Payload Description Config → Option ℕ → Event Description Config
  job_taken : Event Description Config
  reply :
      Response
      → List (Call Description Config)
      → List (Call Description Config)
      → List (Call Description Config)
      → Event Description Config
  failure :
      List (Call Description Config) → List (Call Description Config) → Event Description Config
  abandoned : List (Call Description Config) → Event Description Config
  stop_called : Event Description Config

module _ (proto : Proto) where
  open proto use {Description, Config}

  -- the first job, without the queue behind it, and what `prepare_message` returned
  unfoldable pub begin_job :
      Job Description Config
      → List (Job Description Config)
      → Option Bytes × Client Description Config
      → Agent Description Config
      → Agent Description Config
  begin_job job rest (none, client) a = record a { queue = rest; client = client }
  begin_job job rest (some b, client) a = record a {
    queue = rest;
    client = client;
    current = some (record { job = job; prepared = b });
  }

  unfoldable pub take_next :
      Option (Work Description Config)
      → List (Job Description Config)
      → Agent Description Config
      → Agent Description Config
  take_next (some w) jobs a = a
  take_next none [] a = a
  take_next none (job ∷ rest) a = begin_job job rest (prepare_message proto job.payload a.client) a

  -- The worker takes a job, if it has none. A worker that waits for a job when the stop is signalled
  -- may still take one.
  unfoldable pub take_job : Agent Description Config → Agent Description Config
  take_job a = take_next a.current a.queue a

  -- the disconnect message, and the signal to the threads
  unfoldable pub stop : Agent Description Config → List Bytes × Agent Description Config
  stop a =
      let (prepared, client') =
        prepare_message proto (message (build_agent_disconnect_message a.client)) a.client in
      let a' : Agent Description Config = record a { client = client'; stopped = true } in
      elim prepared [ none ↦ ([], a') | some b ↦ (b ∷ [], a') ]

  -- the messages given to the transport, and the next state
  unfoldable pub step :
      Event Description Config → Agent Description Config → List Bytes × Agent Description Config
  step scheduler_woke a = ([], heartbeat a)
  step (sent_on_demand payload max_retries) a = ([], send payload max_retries a)
  step job_taken a = ([], take_job a)
  step (reply r on_connect handler callback) a = elim a.current [
    | none ↦ ([], a)
    | some w ↦ (w.prepared ∷ [], replied r on_connect handler callback w a)
  ]
  step (failure on_connect_failed callback) a = elim a.current [
    | none ↦ ([], a)
    | some w ↦ (w.prepared ∷ [], failed on_connect_failed callback w a)
  ]
  step (abandoned callback) a =
      if a.stopped
      then elim a.current [ none ↦ ([], a) | some w ↦ ([], finish callback a) ]
      else ([], a)
  step stop_called a = stop a

  unfoldable pub run :
      List (Event Description Config)
      → Agent Description Config
      → List Bytes × Agent Description Config
  run [] a = ([], a)
  run (e ∷ events) a =
      let (sent, a') = step e a in let (rest, last) = run events a' in (sent ++ rest, last)
