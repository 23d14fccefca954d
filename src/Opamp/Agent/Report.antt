-- ===== src/Opamp/Agent/Report.antt =====
-- The report of the full state through a run.
use mathlib.Core.Path.{subst}
use opentelemetry_python_con.Common.{
  ◌≡◌, ◌⊎◌, refl, sym, ap, true, none, some, List, [], ◌∷◌, arith, Option-cases, inl, inr, All,
}
use opentelemetry_python_con.Opamp.Proto.{Proto}
use opentelemetry_python_con.Opamp.Client.{content}
use opentelemetry_python_con.Opamp.Job
use opentelemetry_python_con.Opamp.Job.{Job, max_delay, fail, delay}
use opentelemetry_python_con.Opamp.Agent.{
  Agent, Event, scheduler_woke, sent_on_demand, job_taken, reply, failure, abandoned, stop_called,
  take_job, step, run, start, put,
}
use opentelemetry_python_con.Opamp.Agent.Outcomes.{take_job_cases, abandoned_running}
use opentelemetry_python_con.Opamp.Agent.Numbers.{IsRunning}
use opentelemetry_python_con.Opamp.Agent.Kept.{heartbeat-Kept, send-Kept}
use opentelemetry_python_con.Opamp.Agent.Initial.{
  Queued, InWork, IsReport, Awaited, Kept-Awaited, Queued-last, replied-Awaited, failed-Awaited,
}

module _ (proto : Proto) where
  open proto use {Description, Config}

  no_error : (j : Job Description Config) → content proto j.payload ≡ none → IsReport j → ⊥
  unfolding content
  no_error j e (i, (m, f)) =
      let same : content proto j.payload ≡ some m = ap (content proto) f in ground arith

  take_job-Awaited : (a : Agent Description Config) → Awaited a → Awaited (take_job proto a)
  take_job-Awaited a p = elim (take_job_cases proto a) [
    | inl same ↦ subst Awaited (sym same) p
    | inr (job, (rest, (e, (q, inl (c, t))))) ↦ subst Awaited (sym t) (record {
      running = p.running;
      awaited = elim p.awaited [
        | inl s ↦ inl s
        | inr (inr k) ↦ absurd (subst InWork e k)
        | inr (inl k) ↦ elim (subst Queued q k) [
          | inl report ↦ absurd (no_error job c report)
          | inr k' ↦ inr (inl k')
        ]
      ];
    })
    | inr (job, (rest, (e, (q, inr (m, (c, t)))))) ↦ subst Awaited (sym t) (record {
      running = p.running;
      awaited = elim p.awaited [
        | inl s ↦ inl s
        | inr (inr k) ↦ absurd (subst InWork e k)
        | inr (inl k) ↦ elim (subst Queued q k) [
          | inl report ↦ inr (inr report)
          | inr k' ↦ inr (inl k')
        ]
      ];
    })
  ]

  step-Awaited :
      (e : Event Description Config) (a : Agent Description Config)
      → IsRunning e
      → Awaited a
      → Awaited (step proto e a).1
  unfolding step
  step-Awaited scheduler_woke a h p = Kept-Awaited (heartbeat-Kept a) p
  step-Awaited (sent_on_demand payload max_retries) a h p =
      Kept-Awaited (send-Kept payload max_retries a) p
  step-Awaited job_taken a h p = take_job-Awaited a p
  step-Awaited (reply r on_connect handler callback) a h p = elim (Option-cases a.current) [
    | inl e ↦ rw (e, step) p
    | inr (w, e) ↦ rw (e, step) (replied-Awaited r on_connect handler callback w a e p)
  ]
  step-Awaited (failure on_connect_failed callback) a h p = elim (Option-cases a.current) [
    | inl e ↦ rw (e, step) p
    | inr (w, e) ↦ rw (e, step) (failed-Awaited on_connect_failed callback w a e p)
  ]
  step-Awaited (abandoned callback) a h p =
      subst (λ r. Awaited r.1) (sym (abandoned_running proto callback a p.running)) p
  step-Awaited stop_called a h p = absurd h

  run-Awaited :
      (events : List (Event Description Config)) (a : Agent Description Config)
      → All IsRunning events
      → Awaited a
      → Awaited (run proto events a).1
  unfolding run
  run-Awaited [] a h p = p
  run-Awaited (e ∷ events) a h p =
      run-Awaited events (step proto e a).1 h.1 (step-Awaited e a h.0 p)

  -- Until `stop` is called, the report of the full state that `start` puts into the queue is never
  -- dropped, however many jobs come before it and however often it fails: as long as it has no
  -- response, and the heartbeats are not enabled, it is in the queue or in work.
  pub run-start-Queued :
      (events : List (Event Description Config)) (a : Agent Description Config)
      → All IsRunning events
      → let last = (run proto events (start a)).1 in
        (last.schedule ≡ true) ⊎ (Queued last.queue ⊎ InWork last.current)
  unfolding start put Job.init
  run-start-Queued events a h =
      (run-Awaited events (start a) h (record {
        running = refl;
        awaited = inr (inl (Queued-last a.queue _ (refl, (_, refl))));
      })).awaited
