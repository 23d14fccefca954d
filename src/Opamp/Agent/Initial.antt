-- ===== src/Opamp/Agent/Initial.antt =====
-- The first report of the full state, before which there are no heartbeats.
use mathlib.Core.Path.{subst}
use opentelemetry_python_con.Common.{
  ℕ, ◌+◌, ◌*◌, min, ◌≡◌, ◌⊎◌, refl, sym, ◌∙◌, Bool, true, false, Option, none, some, List, [], ◌∷◌,
  ◌++◌, arith, inl, inr,
}
use opentelemetry_python_con.Opamp.Proto.{Message}
use opentelemetry_python_con.Opamp.Client.{message}
use opentelemetry_python_con.Opamp.Job.{Job, max_delay, fail, delay}
use opentelemetry_python_con.Opamp.Agent.{
  Agent, Work, Call, Response, invoke, process_message, enable_scheduler, finish, replied, failed,
}
use opentelemetry_python_con.Opamp.Agent.Outcomes.{fail_cases}
use opentelemetry_python_con.Opamp.Agent.Kept.{Kept, Kept-trans, invoke-Kept, process_message-Kept}

module _ {Description Config : Type 0} where
  -- The job reports the full state for the first time.
  abbrev pub IsReport : Job Description Config → Type 0
  IsReport j = (j.is_initial ≡ true) × ((m : Message Description Config) × (j.payload ≡ message m))

  -- One of the jobs does.
  abbrev pub Queued : List (Job Description Config) → Type 0
  Queued [] = ⊥
  Queued (j ∷ l) = IsReport j ⊎ Queued l

  abbrev pub InWork : Option (Work Description Config) → Type 0
  InWork none = ⊥
  InWork (some w) = IsReport w.job

  Queued-append : (l l' : List (Job Description Config)) → Queued l → Queued (l ++ l')
  Queued-append [] l' h = absurd h
  Queued-append (j ∷ l) l' (inl h) = inl h
  Queued-append (j ∷ l) l' (inr h) = inr (Queued-append l l' h)

  pub Queued-last :
      (l : List (Job Description Config)) (j : Job Description Config)
      → IsReport j
      → Queued (l ++ j ∷ [])
  Queued-last [] j h = inl h
  Queued-last (k ∷ l) j h = inr (Queued-last l j h)

  -- The heartbeats are enabled, or the report waits in the queue or is in work.
  pub record Awaited (a : Agent Description Config) : Type 0 where
    pub running : a.stopped ≡ false
    pub awaited : (a.schedule ≡ true) ⊎ (Queued a.queue ⊎ InWork a.current)

  pub Kept-Awaited : {a b : Agent Description Config} → Kept a b → Awaited a → Awaited b
  Kept-Awaited {a} {b} h p = record {
    running = h.stopped ∙ p.running;
    awaited = elim p.awaited [
      | inl s ↦ inl (h.schedule ∙ s)
      | inr (inl q) ↦ inr (inl (subst Queued (sym h.queue) (Queued-append a.queue h.more q)))
      | inr (inr w) ↦ inr (inr (subst InWork (sym h.current) w))
    ];
  }

  -- A job that fails and is not dropped keeps its payload; the report is not dropped.
  fail-IsReport :
      (j : Job Description Config)
      → IsReport j
      → (d : ℕ) × ((j' : Job Description Config) × ((fail j ≡ some (d, j')) × IsReport j'))
  unfolding fail delay
  fail-IsReport j (i, (m, e)) = (
    min j.backoff max_delay,
    (
      record j { attempt = j.attempt + 1; backoff = min (min j.backoff max_delay * 2) max_delay },
      (rw i refl, (i, (m, e))),
    ),
  )

  no_drop : (j : Job Description Config) → fail j ≡ none → IsReport j → ⊥
  no_drop j e h = let (d, (j', (f, _))) = fail-IsReport j h in ground (arith, f)

  fail_kept :
      (j : Job Description Config) {d : ℕ} {j' : Job Description Config}
      → fail j ≡ some (d, j')
      → IsReport j
      → IsReport j'
  fail_kept j {d} {j'} e h =
      let (d', (k, (f, report))) = fail-IsReport j h in
      let same : k ≡ j' = ground (arith, f) in subst IsReport same report

  finish-Awaited :
      (callback : List (Call Description Config)) (a : Agent Description Config)
      → a.stopped ≡ false
      → (a.schedule ≡ true) ⊎ Queued a.queue
      → Awaited (finish callback a)
  unfolding finish
  finish-Awaited callback a r h =
      Kept-Awaited (invoke-Kept callback (record a { current = none }))
        (record { running = r; awaited = elim h [ inl s ↦ inl s | inr q ↦ inr (inl q) ] })

  schedule-enable_scheduler :
      (b : Bool) (a : Agent Description Config)
      → (b ≡ true) ⊎ (a.schedule ≡ true)
      → (enable_scheduler b a).schedule ≡ true
  unfolding enable_scheduler
  schedule-enable_scheduler true a h = refl
  schedule-enable_scheduler false a (inl h) = absurd (ground arith)
  schedule-enable_scheduler false a (inr h) = h

  queue-enable_scheduler :
      (b : Bool) (a : Agent Description Config)
      → ((enable_scheduler b a).queue ≡ a.queue) × ((enable_scheduler b a).stopped ≡ a.stopped)
  unfolding enable_scheduler
  queue-enable_scheduler true a = (refl, refl)
  queue-enable_scheduler false a = (refl, refl)

  -- A reply to the report enables the heartbeats.
  enabled-Awaited :
      (callback : List (Call Description Config)) (w : Work Description Config)
      (a : Agent Description Config)
      → a.current ≡ some w
      → Awaited a
      → Awaited (finish callback (enable_scheduler w.job.is_initial a))
  enabled-Awaited callback w a e p =
      let b = enable_scheduler w.job.is_initial a in
      let (same, flag) = queue-enable_scheduler w.job.is_initial a in
      finish-Awaited callback b (flag ∙ p.running) (elim p.awaited [
        | inl s ↦ inl (schedule-enable_scheduler w.job.is_initial a (inr s))
        | inr (inl q) ↦ inr (subst Queued (sym same) q)
        | inr (inr k) ↦
            inl (schedule-enable_scheduler w.job.is_initial a (inl (subst InWork e k).0))
      ])

  pub replied-Awaited :
      (r : Response) (on_connect handler callback : List (Call Description Config))
      (w : Work Description Config) (a : Agent Description Config)
      → a.current ≡ some w
      → Awaited a
      → Awaited (replied r on_connect handler callback w a)
  unfolding replied
  replied-Awaited r on_connect handler callback w a e p =
      let kept =
        Kept-trans (invoke-Kept on_connect a)
          (process_message-Kept r handler (invoke on_connect a)) in
      enabled-Awaited callback w (process_message r handler (invoke on_connect a))
        (kept.current ∙ e) (Kept-Awaited kept p)

  pub failed-Awaited :
      (on_connect_failed callback : List (Call Description Config)) (w : Work Description Config)
      (a : Agent Description Config)
      → a.current ≡ some w
      → Awaited a
      → Awaited (failed on_connect_failed callback w a)
  unfolding failed
  failed-Awaited on_connect_failed callback w a e p =
      let kept = invoke-Kept on_connect_failed a in
      let p' = Kept-Awaited kept p in
      elim (fail_cases on_connect_failed callback w a) [
        | inl (f, d) ↦ subst Awaited (sym d) (
            finish-Awaited callback (invoke on_connect_failed a) p'.running (elim p'.awaited [
              | inl s ↦ inl s
              | inr (inl q) ↦ inr q
              | inr (inr k) ↦ absurd (no_drop w.job f (subst InWork (kept.current ∙ e) k))
            ]))
        | inr (delay, (job, (f, d))) ↦ subst Awaited (sym d) (record {
          running = p'.running;
          awaited = elim p'.awaited [
            | inl s ↦ inl s
            | inr (inl q) ↦ inr (inl q)
            | inr (inr k) ↦ inr (inr (fail_kept w.job f (subst InWork (kept.current ∙ e) k)))
          ];
        })
      ]
