-- ===== src/Semconv/Tests.antt =====
-- Modes and attributes for concrete values of the variable.
use opentelemetry_python_con.Common.{
  ℕ, ◌≡◌, ◌↔◌, ◌⊎◌, refl, true, false, not, none, some, [], ◌∷◌, text, text_eq, ◌==◌,
}
use opentelemetry_python_con.Words.{
  split, strip, extend, strip_left, strip_right, keep_left, is_space,
}
use opentelemetry_python_con.Semconv.Modes.{
  Signal, Mode, default, http_dup, new, initialize, initial_mapping, filter_mode, get_opt_in_mode,
  stable_mode, dup_mode, mode_value, is_in,
}
use opentelemetry_python_con.Semconv.Modes.Fixed.{initialize_all, get_opt_in_mode-initialize_all}
use opentelemetry_python_con.Semconv.Setters.{Values}
use opentelemetry_python_con.Semconv.Status.{error, unset, Span, code, set_status}
use opentelemetry_python_con.Semconv.Status.Errors.{IsError, set_status_iff}

http_dup_and_database :
    get_opt_in_mode (initialize (some (text "http/dup, database")) new) Signal.http ≡ http_dup
unfolding get_opt_in_mode initialize new initial_mapping filter_mode is_in split strip extend
    strip_left strip_right keep_left is_space stable_mode dup_mode mode_value text_eq
http_dup_and_database = refl

get_opt_in_mode-initialize_all_example :
    get_opt_in_mode
      (initialize_all (some (text "database") ∷ some (text "http") ∷ none ∷ []) new)
      Signal.database
    ≡ Mode.database
unfolding is_in split strip extend strip_left strip_right keep_left is_space stable_mode dup_mode
    mode_value text_eq
get_opt_in_mode-initialize_all_example =
    get_opt_in_mode-initialize_all (some (text "database")) (some (text "http") ∷ none ∷ [])
      Signal.database

-- Values as numbers; the names do not matter.
abbrev values : Values ℕ
values = record {
  is_true = λ v. not (v == 0);
  to_int = λ v. some v;
  of_text = λ t. 1;
  name = λ n. text "n";
  publish = text "publish";
  send = text "send";
}

abbrev span : Span ℕ
span = record { is_recording = true; attributes = []; status = none }

set_status_iff_example :
    let status =
      (set_status values (λ n. n) (code 404) (text "404") false default (span, [])).0.status in
    ((status ≡ some (error, none)) ↔ IsError false 404)
    × ((status ≡ some (error, none)) ⊎ (status ≡ some (unset, none)))
set_status_iff_example = set_status_iff values (λ n. n) 404 (text "404") false default span [] refl
