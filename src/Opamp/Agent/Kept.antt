-- ===== src/Opamp/Agent/Kept.antt =====
-- What callbacks, and the jobs that they send, leave as it is.
use opentelemetry_python_con.Common.{
  ℕ, ◌≡◌, refl, sym, ap, ◌∙◌, not, ◌&&◌, Option, none, List, [], ◌∷◌, ◌++◌, append-eq-nil, arith,
  Bool-cases, inl, inr,
}
use opentelemetry_python_con.Opamp.Client.{
  Client, Payload, update_effective_config, update_remote_config_status,
}
use opentelemetry_python_con.Opamp.Job.{Job}
use opentelemetry_python_con.Opamp.Agent.{
  Agent, Response, Call, update_status, update_config, send_payload, put, send, call, invoke,
  process_message, heartbeat,
}

module _ {Description Config : Type 0} where
  -- The number of the next message, the job in work and the flags are the same, and the queue has grown
  -- at its end.
  pub record Kept (a b : Agent Description Config) : Type 0 where
    pub number : b.client.sequence_num ≡ a.client.sequence_num
    pub current : b.current ≡ a.current
    pub schedule : b.schedule ≡ a.schedule
    pub stopped : b.stopped ≡ a.stopped
    pub more : List (Job Description Config)
    pub queue : b.queue ≡ a.queue ++ more

  pub Kept-refl : (a : Agent Description Config) → Kept a a
  Kept-refl a = record {
    number = refl;
    current = refl;
    schedule = refl;
    stopped = refl;
    more = [];
    queue = sym (append-eq-nil a.queue);
  }

  append_assoc : (xs ys zs : List (Job Description Config)) → (xs ++ ys) ++ zs ≡ xs ++ (ys ++ zs)
  append_assoc [] ys zs = refl
  append_assoc (x ∷ xs) ys zs = ap (◌∷◌ x) (append_assoc xs ys zs)

  pub Kept-trans : {a b c : Agent Description Config} → Kept a b → Kept b c → Kept a c
  Kept-trans {a} h k = record {
    number = k.number ∙ h.number;
    current = k.current ∙ h.current;
    schedule = k.schedule ∙ h.schedule;
    stopped = k.stopped ∙ h.stopped;
    more = h.more ++ k.more;
    queue = k.queue ∙ ap (λ q. q ++ k.more) h.queue ∙ append_assoc a.queue h.more k.more;
  }

  put-Kept : (job : Job Description Config) (a : Agent Description Config) → Kept a (put job a)
  unfolding put
  put-Kept job a = record {
    number = refl;
    current = refl;
    schedule = refl;
    stopped = refl;
    more = job ∷ [];
    queue = refl;
  }

  pub send-Kept :
      (payload : Payload Description Config) (max_retries : Option ℕ) (a : Agent Description Config)
      → Kept a (send payload max_retries a)
  unfolding send
  send-Kept payload max_retries a = put-Kept _ a

  updated-Kept :
      (client : Client Description Config) (a : Agent Description Config)
      → client.sequence_num ≡ a.client.sequence_num
      → Kept a (record a { client = client })
  updated-Kept client a h = record {
    number = h;
    current = refl;
    schedule = refl;
    stopped = refl;
    more = [];
    queue = sym (append-eq-nil a.queue);
  }

  call-Kept : (c : Call Description Config) (a : Agent Description Config) → Kept a (call c a)
  unfolding call update_effective_config update_remote_config_status
  call-Kept (update_status hash status error_message) a = updated-Kept _ a (ground arith)
  call-Kept (update_config config) a = updated-Kept _ a refl
  call-Kept (send_payload payload max_retries) a = send-Kept payload max_retries a

  pub invoke-Kept :
      (calls : List (Call Description Config)) (a : Agent Description Config)
      → Kept a (invoke calls a)
  unfolding invoke
  invoke-Kept [] a = Kept-refl a
  invoke-Kept (c ∷ calls) a = Kept-trans (call-Kept c a) (invoke-Kept calls (call c a))

  pub process_message-Kept :
      (r : Response) (handler : List (Call Description Config)) (a : Agent Description Config)
      → Kept a (process_message r handler a)
  unfolding process_message
  process_message-Kept r handler a = elim (Bool-cases r.error_response) [
    | inl e ↦ rw e (invoke-Kept handler a)
    | inr e ↦ elim (Bool-cases r.report_full_state) [
      | inl f ↦ rw (e, f) (Kept-trans (invoke-Kept handler a) (send-Kept _ none _))
      | inr f ↦ rw (e, f) (invoke-Kept handler a)
    ]
  ]

  pub heartbeat-Kept : (a : Agent Description Config) → Kept a (heartbeat a)
  unfolding heartbeat
  heartbeat-Kept a = elim (Bool-cases (not a.stopped && a.schedule)) [
    | inl e ↦ rw e (put-Kept _ a)
    | inr e ↦ rw e (Kept-refl a)
  ]
