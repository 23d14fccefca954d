-- ===== src/Opamp/Tests.antt =====
-- Runs of the OpAMP agent on concrete events, with an encoding of messages as numbers.
mod Coding
use opentelemetry_python_con.Common.{
  ℕ, ◌≡◌, ◌↔◌, ◌⊎◌, refl, Bool, true, false, Option, none, some, List, [], ◌∷◌, map, Text, text,
  text_eq, arith,
}
use opentelemetry_python_con.Opamp.Proto.{Bytes, RemoteConfigStatus, Message, Proto}
use opentelemetry_python_con.Opamp.Client.{
  Client, Payload, message, encoded, status_changed, content, prepare_message,
  update_remote_config_status, build_heartbeat_message, build_full_state_message,
  build_agent_disconnect_message, update_effective_config,
}
use opentelemetry_python_con.Opamp.Client.Status.{reported, update_remote_config_status_lem}
use opentelemetry_python_con.Opamp.Job
use opentelemetry_python_con.Opamp.Job.{Job, should_retry, delay, fail}
use opentelemetry_python_con.Opamp.Job.Backoff.{failures, waits, failures_lem}
use opentelemetry_python_con.Opamp.Agent.{
  Agent, Work, Event, Call, Response, scheduler_woke, sent_on_demand, job_taken, reply, failure,
  abandoned, stop_called, update_status, update_config, send_payload, put, send, call, invoke,
  process_message, enable_scheduler, heartbeat, finish, replied, failed, begin_job, take_next,
  take_job, stop, step, run, start,
}
use opentelemetry_python_con.Opamp.Agent.Numbers.{number}
use opentelemetry_python_con.Opamp.Agent.Initial.{Queued, InWork}
use opentelemetry_python_con.Opamp.Agent.Report.{run-start-Queued}
use opentelemetry_python_con.Opamp.Tests.Coding.{proto}

abbrev client : Client ℕ ℕ
client = record {
  instance_uid = 1 ∷ 2 ∷ [];
  sequence_num = 0;
  capabilities = 7;
  agent_description = 5;
  remote_config_status = none;
  effective_config = none;
}

abbrev agent : Agent ℕ ℕ
agent = record {
  max_retries = 10;
  heartbeat_max_retries = 1;
  initial_backoff = 1000;
  client = client;
  queue = [];
  current = none;
  schedule = false;
  stopped = false;
}

abbrev payload : Payload ℕ ℕ
payload = message (build_heartbeat_message client)

-- the first report fails once, the server asks for the full state, and a heartbeat follows
abbrev events : List (Event ℕ ℕ)
events =
    job_taken
    ∷ scheduler_woke
    ∷ failure [] []
    ∷ sent_on_demand (encoded []) none
    ∷ reply (record { error_response = false; report_full_state = true }) []
        (update_status (3 ∷ []) 2 [] ∷ []) []
    ∷ scheduler_woke
    ∷ job_taken
    ∷ job_taken
    ∷ reply (record { error_response = true; report_full_state = true }) [] [] []
    ∷ job_taken
    ∷ failure [] []
    ∷ failure [] []
    ∷ []

numbers_example : map (number proto) (run proto events (start agent)).0 ≡ 0 ∷ 0 ∷ 1 ∷ 2 ∷ 2 ∷ []
unfolding number run step start put Job.init heartbeat send invoke call process_message
    enable_scheduler finish replied failed fail should_retry delay take_job take_next begin_job
    prepare_message content update_remote_config_status status_changed build_heartbeat_message
    build_full_state_message
numbers_example = refl

failures_example :
    failures 8 (Job.init payload 10 1000 false)
    ≡ some (1000 ∷ 2000 ∷ 4000 ∷ 8000 ∷ 16000 ∷ 32000 ∷ 60000 ∷ 60000 ∷ [])
unfolding failures Job.init fail should_retry delay
failures_example = refl

run-start-Queued_example :
    let last = (run proto events (start agent)).1 in
    (last.schedule ≡ true) ⊎ (Queued last.queue ⊎ InWork last.current)
run-start-Queued_example =
    run-start-Queued proto events agent
      (tt, (tt, (tt, (tt, (tt, (tt, (tt, (tt, (tt, (tt, (tt, (tt, tt))))))))))))
