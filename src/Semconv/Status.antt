-- ===== src/Semconv/Status.antt =====
-- `_set_status`, the filters of metric attributes and the schema URLs of _semconv.py, with
-- `http_status_to_status_code` of utils.py. A status code below zero stands for one that is no integer.
pub mod Errors
use opentelemetry_python_con.Common.{
  ℕ, Bool, true, false, ◌&&◌, Option, none, some, List, [], ◌∷◌, ◌++◌, Text, text, leb, ltb, Dict,
  put, if◌then◌else◌,
}
use opentelemetry_python_con.Semconv.Modes.{
  Signal, Mode, default, report_old, report_new, is_in, Stability, get_opt_in_mode,
}
use opentelemetry_python_con.Semconv.Setters.{
  Name, http_status_code, http_response_status_code, error_type, Values,
}

pub data StatusCode : Type 0 where
  unset : StatusCode
  error : StatusCode

unfoldable pub http_status_to_status_code : ℕ → Bool → Bool → StatusCode
http_status_to_status_code status allow_redirect server_span =
    if ltb status 100
    then error
    else if leb status 299
    then unset
    else if leb status 399 && allow_redirect
    then unset
    else if leb status 499 && server_span
    then unset
    else error

-- A span of the SDK: its attributes, and what the last call of `set_status` gave.
pub record Span (V : Type 0) : Type 0 where
  pub is_recording : Bool
  pub attributes : Dict V
  pub status : Option (StatusCode × Option Text)

pub data Code : Type 0 where
  negative : Code
  code : ℕ → Code

module _ {V : Type 0} (values : Values V) (of_status : ℕ → V) where
  -- `if span.is_recording(): span.set_attribute(key, value)`
  unfoldable pub set_attribute : Name → V → Span V → Span V
  set_attribute key value span =
      if span.is_recording
      then record span { attributes = put (values.name key) value span.attributes }
      else span

  unfoldable pub set_span_status : StatusCode × Option Text → Span V → Span V
  set_span_status status span =
      if span.is_recording then record span { status = some status } else span

  -- the type of an error, on the span and on the metric
  unfoldable pub put_error : Text → Span V × Dict V → Span V × Dict V
  put_error status_code_str (span, metrics_attributes) = (
    set_attribute error_type (values.of_text status_code_str) span,
    put (values.name error_type) (values.of_text status_code_str) metrics_attributes,
  )

  -- a status code under a name, on the span and on the metric
  unfoldable pub set_code : Name → ℕ → Span V × Dict V → Span V × Dict V
  set_code key status (span, metrics_attributes) = (
    set_attribute key (of_status status) span,
    put (values.name key) (of_status status) metrics_attributes,
  )

  unfoldable pub set_new_code : ℕ → Text → StatusCode → Span V × Dict V → Span V × Dict V
  set_new_code n status_code_str unset target = set_code http_response_status_code n target
  set_new_code n status_code_str error target =
      put_error status_code_str (set_code http_response_status_code n target)

  unfoldable pub set_status : Code → Text → Bool → Mode → Span V × Dict V → Span V × Dict V
  set_status negative status_code_str server_span mode target =
      let (span, metrics_attributes) =
        if report_new mode then put_error status_code_str target else target in
      (
        set_span_status (error, some (text "Non-integer HTTP status: " ++ status_code_str)) span,
        metrics_attributes,
      )
  set_status (code n) status_code_str server_span mode target =
      let status = http_status_to_status_code n true server_span in
      let target1 = if report_old mode then set_code http_status_code n target else target in
      let (span, metrics_attributes) =
        if report_new mode then set_new_code n status_code_str status target1 else target1 in
      (set_span_status (status, none) span, metrics_attributes)

-- The attributes with a key in a list.
unfoldable pub restrict : {V : Type 0} → List Text → Dict V → Dict V
restrict keys [] = []
restrict keys ((key, value) ∷ attrs) =
    let rest = restrict keys attrs in if is_in key keys then (key, value) ∷ rest else rest

unfoldable pub is_http : Mode → Bool
is_http Mode.http = true
is_http mode = false

unfoldable pub filter_semconv_duration_attrs :
    {V : Type 0} → Dict V → List Text → List Text → Mode → Dict V
filter_semconv_duration_attrs attrs old_attrs new_attrs mode =
    restrict (if is_http mode then new_attrs else old_attrs) attrs

-- `for key, val in attrs.items(): filtered[key] = val`, for the keys in a list
unfoldable pub put_restricted : {V : Type 0} → List Text → Dict V → Dict V → Dict V
put_restricted keys [] filtered = filtered
put_restricted keys ((key, value) ∷ attrs) filtered =
    put_restricted keys attrs (if is_in key keys then put key value filtered else filtered)

unfoldable pub filter_semconv_active_request_count_attr :
    {V : Type 0} → Dict V → List Text → List Text → Mode → Dict V
filter_semconv_active_request_count_attr attrs old_attrs new_attrs mode =
    let filtered = if report_old mode then put_restricted old_attrs attrs [] else [] in
    if report_new mode then put_restricted new_attrs attrs filtered else filtered

unfoldable pub legacy_schema_version : Text
legacy_schema_version = text "1.11.0"

-- `_get_schema_version_for_opt_in_mode`, with the last part of the path of the schema's URL for a signal
unfoldable pub schema_version : (Signal → Text) → Signal → Mode → Text
schema_version last_part signal default = legacy_schema_version
schema_version last_part signal mode = elim (last_part signal) [
  | [] ↦ legacy_schema_version
  | c ∷ cs ↦ c ∷ cs
]

-- `_get_schema_url_for_signal_types`, with the `>` of `package_version.Version`
unfoldable pub highest_version :
    (Text → Text → Bool) → (Signal → Text) → Stability → List Signal → Text → Text
highest_version higher last_part s [] highest = highest
highest_version higher last_part s (signal ∷ signals) highest =
    let version = schema_version last_part signal (get_opt_in_mode s signal) in
    highest_version higher last_part s signals (if higher version highest then version else highest)

unfoldable pub schema_url_for_signal_types :
    (Text → Text → Bool) → (Signal → Text) → Stability → List Signal → Text
schema_url_for_signal_types higher last_part s signals =
    text "https://opentelemetry.io/schemas/"
    ++ highest_version higher last_part s signals legacy_schema_version
