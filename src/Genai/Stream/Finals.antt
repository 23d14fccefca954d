-- ===== src/Genai/Stream/Finals.antt =====
-- The finalization of a stream: the first event that ends it decides.
use opentelemetry_python_con.Common.{
  ◌≡◌, refl, sym, ap, ◌∙◌, true, false, Option, none, some, List, [], ◌∷◌, ◌++◌, append-eq-nil, inl,
  inr, Bool-cases,
}
use mathlib.Core.List.{foldl}
use opentelemetry_python_con.Genai.Stream.{
  Closing, closed, close_error, close_interrupt, chunk, stop_iteration, next_error, next_interrupt,
  Event, next, close, exit, Hooks, Wrapper, wrap, next_item, close_stream, exit_with,
  finalize_success, finalize_failure, safe_finalize_success, safe_finalize_failure, step, run,
}

-- How an event ends a stream: with success, `none`, or with an error.
abbrev pub end_of_close : {Error : Type 0} → Closing Error → Option (Option Error)
end_of_close closed = some none
end_of_close (close_error e) = some (some e)
end_of_close (close_interrupt e) = none

module _ {Chunk Error : Type 0} where
  abbrev pub end_of : Event Chunk Error → Option (Option Error)
  end_of (next (chunk c)) = none
  end_of (next stop_iteration) = some none
  end_of (next (next_error e)) = some (some e)
  end_of (next (next_interrupt e)) = none
  end_of (close closing) = end_of_close closing
  end_of (exit none closing) = end_of_close closing
  end_of (exit (some error) closing) = some (some error)

  abbrev pub first_end : List (Event Chunk Error) → List (Option Error)
  first_end [] = []
  first_end (event ∷ events) = elim (end_of event) [ none ↦ first_end events | some e ↦ e ∷ [] ]

  -- the chunks that were delivered
  abbrev pub delivered : List (Event Chunk Error) → List Chunk
  delivered [] = []
  delivered (next (chunk c) ∷ events) = c ∷ delivered events
  delivered (next stop_iteration ∷ events) = delivered events
  delivered (next (next_error e) ∷ events) = delivered events
  delivered (next (next_interrupt e) ∷ events) = delivered events
  delivered (close closing ∷ events) = delivered events
  delivered (exit error closing ∷ events) = delivered events

-- What the two final hooks leave alone is changed by the chunks that are delivered.
pub record Accumulates {Chunk Error H C : Type 0} (hooks : Hooks Chunk Error H) (content : H → C)
    (add : C → Chunk → C) : Type 0 where
  pub on_chunk : (c : Chunk) (h : H) → content (hooks.process_chunk c h).0 ≡ add (content h) c
  pub on_end : (h : H) → content (hooks.on_stream_end h).0 ≡ content h
  pub on_error : (e : Error) (h : H) → content (hooks.on_stream_error e h).0 ≡ content h

-- What counts the calls of the final hooks, in states that the hooks lead to.
pub record Counts {Chunk Error H : Type 0} (hooks : Hooks Chunk Error H) (Good : H → Type 0)
    (ends : H → List (Option Error)) : Type 0 where
  pub on_chunk :
      (c : Chunk) (h : H)
      → Good h
      → Good (hooks.process_chunk c h).0 × (ends (hooks.process_chunk c h).0 ≡ ends h)
  pub on_end :
      (h : H)
      → Good h
      → Good (hooks.on_stream_end h).0 × (ends (hooks.on_stream_end h).0 ≡ ends h ++ none ∷ [])
  pub on_error :
      (e : Error) (h : H)
      → Good h
      → Good (hooks.on_stream_error e h).0
        × (ends (hooks.on_stream_error e h).0 ≡ ends h ++ some e ∷ [])

module _ {Chunk Error H : Type 0} (hooks : Hooks Chunk Error H) where
  module _ (Good : H → Type 0) (ends : H → List (Option Error))
      (counts : Counts hooks Good ends) where
    -- the wrapper after an event, by how the event ends the stream
    abbrev After : Wrapper H → Option (Option Error) → Wrapper H → Type 0
    After w none w' = (w'.finalized ≡ false) × (Good w'.state × (ends w'.state ≡ ends w.state))
    After w (some e) w' =
        (w'.finalized ≡ true) × (Good w'.state × (ends w'.state ≡ ends w.state ++ e ∷ []))

    abbrev Same : Wrapper H → Wrapper H → Type 0
    Same w w' = (w'.finalized ≡ true) × (Good w'.state × (ends w'.state ≡ ends w.state))

    step_done :
        (event : Event Chunk Error) (h : H)
        → Good h
        → Same
            (record { finalized = true; state = h })
            (step hooks event (record { finalized = true; state = h })).0
    unfolding step next_item close_stream exit_with safe_finalize_success safe_finalize_failure
        finalize_success finalize_failure
    step_done (next (chunk c)) h g = (refl, counts.on_chunk c h g)
    step_done (next stop_iteration) h g = (refl, (g, refl))
    step_done (next (next_error e)) h g = (refl, (g, refl))
    step_done (next (next_interrupt e)) h g = (refl, (g, refl))
    step_done (close closed) h g = (refl, (g, refl))
    step_done (close (close_error e)) h g = (refl, (g, refl))
    step_done (close (close_interrupt e)) h g = (refl, (g, refl))
    step_done (exit none closed) h g = (refl, (g, refl))
    step_done (exit none (close_error e)) h g = (refl, (g, refl))
    step_done (exit none (close_interrupt e)) h g = (refl, (g, refl))
    step_done (exit (some error) closed) h g = (refl, (g, refl))
    step_done (exit (some error) (close_error e)) h g = (refl, (g, refl))
    step_done (exit (some error) (close_interrupt e)) h g = (refl, (g, refl))

    step_open :
        (event : Event Chunk Error) (h : H)
        → Good h
        → After (wrap h) (end_of event) (step hooks event (wrap h)).0
    unfolding wrap step next_item close_stream exit_with safe_finalize_success safe_finalize_failure
        finalize_success finalize_failure
    step_open (next (chunk c)) h g = (refl, counts.on_chunk c h g)
    step_open (next stop_iteration) h g = (refl, counts.on_end h g)
    step_open (next (next_error e)) h g = (refl, counts.on_error e h g)
    step_open (next (next_interrupt e)) h g = (refl, (g, refl))
    step_open (close closed) h g = (refl, counts.on_end h g)
    step_open (close (close_error e)) h g = (refl, counts.on_error e h g)
    step_open (close (close_interrupt e)) h g = (refl, (g, refl))
    step_open (exit none closed) h g = (refl, counts.on_end h g)
    step_open (exit none (close_error e)) h g = (refl, counts.on_error e h g)
    step_open (exit none (close_interrupt e)) h g = (refl, (g, refl))
    step_open (exit (some error) closed) h g = (refl, counts.on_error error h g)
    step_open (exit (some error) (close_error e)) h g = (refl, counts.on_error error h g)
    step_open (exit (some error) (close_interrupt e)) h g = (refl, counts.on_error error h g)

    run_done :
        (events : List (Event Chunk Error)) (w : Wrapper H)
        → w.finalized ≡ true
        → Good w.state
        → Good (run hooks events w).0.state × (ends (run hooks events w).0.state ≡ ends w.state)
    unfolding run
    run_done [] w h g = (g, refl)
    run_done (event ∷ events) w h g =
        let s : Same w (step hooks event w).0 = rw h (step_done event w.state g) in
        let rest = run_done events (step hooks event w).0 s.0 s.1.0 in (rest.0, rest.1 ∙ s.1.1)

    -- the rest of a run, by how the event before it ends the stream
    after :
        (events : List (Event Chunk Error)) (w w' : Wrapper H) (o : Option (Option Error))
        → (w'.finalized ≡ false
            → Good w'.state
            → Good (run hooks events w').0.state
              × (ends (run hooks events w').0.state ≡ ends w'.state ++ first_end events))
        → After w o w'
        → Good (run hooks events w').0.state
          × (ends (run hooks events w').0.state
              ≡ ends w.state ++ (elim o [ none ↦ first_end events | some e ↦ e ∷ [] ]))
    after events w w' none rest a =
        let r = rest a.0 a.1.0 in (r.0, r.1 ∙ ap (λ l. l ++ first_end events) a.1.1)
    after events w w' (some e) rest a = let r = run_done events w' a.0 a.1.0 in (r.0, r.1 ∙ a.1.1)

    run_open :
        (events : List (Event Chunk Error)) (w : Wrapper H)
        → w.finalized ≡ false
        → Good w.state
        → Good (run hooks events w).0.state
          × (ends (run hooks events w).0.state ≡ ends w.state ++ first_end events)
    unfolding run wrap
    run_open [] w h g = (g, sym (append-eq-nil (ends w.state)))
    run_open (event ∷ events) w h g =
        after events w (step hooks event w).0 (end_of event)
          (run_open events (step hooks event w).0) (rw h (step_open event w.state g))

    -- The final hooks are called at most once, for the first event that ends the stream.
    pub run-ends :
        (events : List (Event Chunk Error)) (h : H)
        → Good h
        → Good (run hooks events (wrap h)).0.state
          × (ends (run hooks events (wrap h)).0.state ≡ ends h ++ first_end events)
    unfolding wrap
    run-ends events h g = run_open events (wrap h) refl g

  module _ {C : Type 0} (content : H → C) (add : C → Chunk → C)
      (accumulates : Accumulates hooks content add) where
    safe_finalize_success-content :
        (w : Wrapper H) → content (safe_finalize_success hooks w).state ≡ content w.state
    unfolding safe_finalize_success finalize_success
    safe_finalize_success-content w = elim (Bool-cases w.finalized) [
      | inl e ↦ rw e refl
      | inr e ↦ rw e (accumulates.on_end w.state)
    ]

    safe_finalize_failure-content :
        (e : Error) (w : Wrapper H)
        → content (safe_finalize_failure hooks e w).state ≡ content w.state
    unfolding safe_finalize_failure finalize_failure
    safe_finalize_failure-content error w = elim (Bool-cases w.finalized) [
      | inl e ↦ rw e refl
      | inr e ↦ rw e (accumulates.on_error error w.state)
    ]

    step-content :
        (event : Event Chunk Error) (w : Wrapper H)
        → content (step hooks event w).0.state
          ≡ foldl add (content w.state) (delivered (event ∷ []))
    unfolding step next_item close_stream exit_with
    step-content (next (chunk c)) w = accumulates.on_chunk c w.state
    step-content (next stop_iteration) w = safe_finalize_success-content w
    step-content (next (next_error e)) w = safe_finalize_failure-content e w
    step-content (next (next_interrupt e)) w = refl
    step-content (close closed) w = safe_finalize_success-content w
    step-content (close (close_error e)) w = safe_finalize_failure-content e w
    step-content (close (close_interrupt e)) w = refl
    step-content (exit none closed) w = safe_finalize_success-content w
    step-content (exit none (close_error e)) w = safe_finalize_failure-content e w
    step-content (exit none (close_interrupt e)) w = refl
    step-content (exit (some error) closed) w = safe_finalize_failure-content error w
    step-content (exit (some error) (close_error e)) w = safe_finalize_failure-content error w
    step-content (exit (some error) (close_interrupt e)) w = safe_finalize_failure-content error w

    delivered_cons :
        (event : Event Chunk Error) (events : List (Event Chunk Error)) (c : C)
        → foldl add (foldl add c (delivered (event ∷ []))) (delivered events)
          ≡ foldl add c (delivered (event ∷ events))
    delivered_cons (next (chunk d)) events c = refl
    delivered_cons (next stop_iteration) events c = refl
    delivered_cons (next (next_error e)) events c = refl
    delivered_cons (next (next_interrupt e)) events c = refl
    delivered_cons (close closing) events c = refl
    delivered_cons (exit error closing) events c = refl

    -- Each chunk that was delivered was handed to the hook, in order.
    pub run-content :
        (events : List (Event Chunk Error)) (w : Wrapper H)
        → content (run hooks events w).0.state ≡ foldl add (content w.state) (delivered events)
    unfolding run
    run-content [] w = refl
    run-content (event ∷ events) w =
        run-content events (step hooks event w).0
        ∙ ap (λ c. foldl add c (delivered events)) (step-content event w)
        ∙ delivered_cons event events (content w.state)
