-- ===== src/Opamp/Agent/Outcomes.antt =====
-- The outcomes of taking a job and of a failed attempt.
use opentelemetry_python_con.Common.{
  ℕ, ◌≡◌, ◌⊎◌, refl, ap, ◌∙◌, arith, false, Option, none, some, List, [], ◌∷◌, List-cases,
  Option-cases, inl, inr,
}
use opentelemetry_python_con.Opamp.Proto.{Bytes, Message, Proto}
use opentelemetry_python_con.Opamp.Client.{Client, content, prepare_message}
use opentelemetry_python_con.Opamp.Client.Prepare.{
  numbered, next, prepare_message-none, prepare_message-some,
}
use opentelemetry_python_con.Opamp.Job.{Job, fail}
use opentelemetry_python_con.Opamp.Agent.{
  Agent, Work, Call, take_job, take_next, begin_job, finish, invoke, failed, step, abandoned,
}

module _ (proto : Proto) (a : Agent proto.Description proto.Config) where
  open proto use {Description, Config}

  -- The payload cannot be decoded, and the job is dropped.
  abbrev pub dropped : List (Job Description Config) → Agent Description Config
  dropped rest = record a { queue = rest }

  -- The job is in work, with its message.
  abbrev pub taken :
      Job Description Config
      → List (Job Description Config)
      → Message Description Config
      → Agent Description Config
  taken job rest m = record a {
    queue = rest;
    client = next proto a.client;
    current = some (record { job = job; prepared = proto.encode (numbered proto m a.client) });
  }

  -- What becomes of the first job of the queue.
  abbrev pub Outcome : Job Description Config → List (Job Description Config) → Type 0
  Outcome job rest =
      ((content proto job.payload ≡ none) × (take_job proto a ≡ dropped rest))
      ⊎ ((m : Message Description Config) × ((content proto job.payload ≡ some m)
            × (take_job proto a ≡ taken job rest m)))

  take_job-first :
      {job : Job Description Config} {rest : List (Job Description Config)}
      {result : Option Bytes × Client Description Config}
      → a.current ≡ none
      → a.queue ≡ job ∷ rest
      → prepare_message proto job.payload a.client ≡ result
      → take_job proto a ≡ begin_job proto job rest result a
  unfolding take_job take_next
  take_job-first {job} {rest} e q p =
      ap (λ c. take_next proto c a.queue a) e
      ∙ ap (λ l. take_next proto none l a) q
      ∙ ap (λ r. begin_job proto job rest r a) p

  outcome :
      (job : Job Description Config) (rest : List (Job Description Config))
      → a.current ≡ none
      → a.queue ≡ job ∷ rest
      → Outcome job rest
  unfolding begin_job
  outcome job rest e q = elim (Option-cases (content proto job.payload)) [
    | inl n ↦ inl (n, take_job-first e q (prepare_message-none proto job.payload a.client n))
    | inr (m, f) ↦
        inr (m, (f, take_job-first e q (prepare_message-some proto job.payload a.client f)))
  ]

  pub take_job_cases :
      (take_job proto a ≡ a)
      ⊎ ((job : Job Description Config) × ((rest : List (Job Description Config)) × ((a.current
                ≡ none)
              × ((a.queue ≡ job ∷ rest) × Outcome job rest))))
  unfolding take_job take_next
  take_job_cases = elim (Option-cases a.current) [
    | inr (w, e) ↦ inl (ap (λ c. take_next proto c a.queue a) e)
    | inl e ↦ elim (List-cases a.queue) [
      | inl q ↦ inl (ap (λ c. take_next proto c a.queue a) e ∙ ap (λ l. take_next proto none l a) q)
      | inr (job, (rest, q)) ↦ inr (job, (rest, (e, (q, outcome job rest e q))))
    ]
  ]

module _ {Description Config : Type 0} where
  pub fail_cases :
      (on_connect_failed callback : List (Call Description Config)) (w : Work Description Config)
      (a : Agent Description Config)
      → ((fail w.job ≡ none)
          × (failed on_connect_failed callback w a ≡ finish callback (invoke on_connect_failed a)))
        ⊎ ((d : ℕ) × ((job : Job Description Config) × ((fail w.job ≡ some (d, job))
                × (failed on_connect_failed callback w a ≡ record (invoke on_connect_failed a) {
                  current = some (record w { job = job });
                }))))
  unfolding failed
  fail_cases on_connect_failed callback w a = elim (Option-cases (fail w.job)) [
    | inl e ↦ inl (e, rw (e, failed) refl)
    | inr ((d, job), e) ↦ inr (d, (job, (e, rw (e, failed) refl)))
  ]

module _ (proto : Proto) where
  open proto use {Description, Config}

  pub abandoned_running :
      (callback : List (Call Description Config)) (a : Agent Description Config)
      → a.stopped ≡ false
      → step proto (abandoned callback) a ≡ ([], a)
  unfolding step
  abandoned_running callback a e = ground arith
