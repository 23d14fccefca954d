-- ===== src/Semconv/Status/Errors.antt =====
-- What a status code does to a span and to a metric.
use opentelemetry_python_con.Common.{
  ℕ, ◌≡◌, ◌≢◌, ◌≤◌, ◌<◌, ◌↔◌, ◌⊎◌, inl, inr, refl, ap, ◌∙◌, Bool, true, false, Option, none, some,
  Text, arith, Bool-cases, Dict, if◌then◌else◌,
}
use opentelemetry_python_con.Semconv.Modes.{
  Signal, gen_ai, Mode, default, report_old, report_new, stable_mode, dup_mode,
}
use opentelemetry_python_con.Semconv.Setters.{
  Name, Values, error_type, http_response_status_code, http_status_code,
}
use opentelemetry_python_con.Semconv.Status.{
  StatusCode, unset, error, http_status_to_status_code, Span, Code, negative, code, set_attribute,
  set_span_status, put_error, set_code, set_new_code, set_status,
}

-- which codes are errors of a server, or of a client
abbrev pub IsError : Bool → ℕ → Type 0
IsError server_span n = (n < 100) ⊎ ((500 ≤ n) ⊎ ((400 ≤ n) × (server_span ≡ false)))

error_iff :
    (n : ℕ) (server_span : Bool)
    → (http_status_to_status_code n true server_span ≡ error) ↔ IsError server_span n
unfolding http_status_to_status_code
error_iff n server_span = ground arith

StatusCode-cases : (s : StatusCode) → (s ≡ unset) ⊎ (s ≡ error)
StatusCode-cases unset = inl refl
StatusCode-cases error = inr refl

module _ {V : Type 0} (values : Values V) (of_status : ℕ → V) where
  -- in every mode for both conventions, as the next lemma for one signal
  set_status-http :
      (c : Code) (status_code_str : Text) (server_span : Bool) (span : Span V) (m : Dict V)
      → set_status values of_status c status_code_str server_span Mode.http_dup (span, m)
        ≡ set_status values of_status c status_code_str server_span Mode.http
            (set_status values of_status c status_code_str server_span default (span, m))
  unfolding set_status put_error set_code set_new_code set_attribute set_span_status report_old
      report_new
  set_status-http negative str srv span m = elim (Bool-cases span.is_recording) [
    | inl e ↦ rw e refl
    | inr e ↦ rw e refl
  ]
  set_status-http (code n) str srv span m =
      elim (StatusCode-cases (http_status_to_status_code n true srv)) [
        | inl s ↦ elim (Bool-cases span.is_recording) [
          | inl e ↦ rw (e, s, set_new_code) refl
          | inr e ↦ rw (e, s, set_new_code) refl
        ]
        | inr s ↦ elim (Bool-cases span.is_recording) [
          | inl e ↦ rw (e, s, set_new_code) refl
          | inr e ↦ rw (e, s, set_new_code) refl
        ]
      ]

  -- In the mode for both conventions of a signal, a status code sets on a span, and on a metric, what it sets in
  -- the default mode and in the stable mode together. A signal of GenAI has no such mode.
  pub set_status-dup :
      (signal : Signal) (c : Code) (status_code_str : Text) (server_span : Bool) (span : Span V)
      (m : Dict V)
      → signal ≢ gen_ai
      → set_status values of_status c status_code_str server_span (dup_mode signal) (span, m)
        ≡ set_status values of_status c status_code_str server_span
            (stable_mode signal)
            (set_status values of_status c status_code_str server_span default (span, m))
  unfolding set_status dup_mode stable_mode report_old report_new put_error
  set_status-dup Signal.http c str srv span m h = set_status-http c str srv span m
  set_status-dup Signal.database negative str srv span m h = set_status-http negative str srv span m
  set_status-dup Signal.database (code n) str srv span m h = set_status-http (code n) str srv span m
  set_status-dup Signal.messaging negative str srv span m h =
      set_status-http negative str srv span m
  set_status-dup Signal.messaging (code n) str srv span m h =
      set_status-http (code n) str srv span m
  set_status-dup gen_ai c str srv span m h = absurd (h refl)

  -- whether a span is recording stays
  set_attribute-is_recording :
      (key : Name) (v : V) (span : Span V)
      → (set_attribute values of_status key v span).is_recording ≡ span.is_recording
  unfolding set_attribute
  set_attribute-is_recording key v span = elim (Bool-cases span.is_recording) [
    | inl e ↦ rw e refl
    | inr e ↦ rw e refl
  ]

  set_new_code-is_recording :
      (n : ℕ) (str : Text) (status : StatusCode) (span : Span V) (m : Dict V)
      → (set_new_code values of_status n str status (span, m)).0.is_recording ≡ span.is_recording
  unfolding set_new_code set_code put_error
  set_new_code-is_recording n str unset span m =
      set_attribute-is_recording http_response_status_code (of_status n) span
  set_new_code-is_recording n str error span m =
      set_attribute-is_recording error_type (values.of_text str) _
      ∙ set_attribute-is_recording http_response_status_code (of_status n) span

  if-is_recording :
      (b : Bool) (changed target : Span V × Dict V)
      → changed.0.is_recording ≡ target.0.is_recording
      → (if b then changed else target).0.is_recording ≡ target.0.is_recording
  if-is_recording true changed target h = h
  if-is_recording false changed target h = refl

  set_span_status-status :
      (status : StatusCode × Option Text) (span : Span V)
      → span.is_recording ≡ true
      → (set_span_status values of_status status span).status ≡ some status
  unfolding set_span_status
  set_span_status-status status span h =
      ap (λ b. (if b then record span { status = some status } else span).status) h

  set_status-status :
      (n : ℕ) (status_code_str : Text) (server_span : Bool) (mode : Mode) (span : Span V)
      (m : Dict V)
      → span.is_recording ≡ true
      → (set_status values of_status (code n) status_code_str server_span mode (span, m)).0.status
        ≡ some (http_status_to_status_code n true server_span, none)
  unfolding set_status set_code
  set_status-status n str srv mode span m h =
      let status = http_status_to_status_code n true srv in
      let target : Span V × Dict V =
        if report_old mode
        then set_code values of_status http_status_code n (span, m)
        else (span, m) in
      let old : target.0.is_recording ≡ span.is_recording =
        if-is_recording (report_old mode) (set_code values of_status http_status_code n (span, m))
          (span, m) (set_attribute-is_recording http_status_code (of_status n) span) in
      set_span_status-status (status, none) _
        (if-is_recording (report_new mode) (set_new_code values of_status n str status target)
            target (set_new_code-is_recording n str status target.0 target.1)
          ∙ old
          ∙ h)

  -- In every mode a span that is recording gets the status of an error exactly for a code below 100, from 500
  -- on, or from 400 on if it is not the span of a server, and is unset for any other.
  pub set_status_iff :
      (n : ℕ) (status_code_str : Text) (server_span : Bool) (mode : Mode) (span : Span V)
      (m : Dict V)
      → span.is_recording ≡ true
      → let status =
          (set_status values of_status
            (code n)
            status_code_str
            server_span
            mode
            (span, m)).0.status in
        ((status ≡ some (error, none)) ↔ IsError server_span n)
        × ((status ≡ some (error, none)) ⊎ (status ≡ some (unset, none)))
  set_status_iff n str srv mode span m h =
      let e = set_status-status n str srv mode span m h in
      let both = error_iff n srv in
      elim (StatusCode-cases (http_status_to_status_code n true srv)) [
        | inl s ↦ ((λ f. absurd (ground arith), λ f. absurd (ground arith)), inr (ground arith))
        | inr s ↦ ((λ f. both.0 s, λ f. ground arith), inl (ground arith))
      ]
