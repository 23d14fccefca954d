-- ===== src/Semconv/Modes/Fixed.antt =====
-- The modes after any number of initializations.
use opentelemetry_python_con.Common.{
  ◌≡◌, refl, ap, ◌∙◌, true, Option, none, some, List, [], ◌∷◌, map, Text, if◌then◌else◌, or_default,
}
use opentelemetry_python_con.Words.{split, strip}
use opentelemetry_python_con.Semconv.Modes.{
  Signal, default, mode_value, Stability, new, is_in, filter_mode, stable_mode, dup_mode,
  initial_mapping, initialize, get_opt_in_mode,
}

-- the options that a variable lists
abbrev pub options : Option Text → List Text
options none = []
options (some []) = []
options (some (c ∷ cs)) = map strip (split b',' (c ∷ cs))

-- each with the variable as it is then
unfoldable pub initialize_all : List (Option Text) → Stability → Stability
initialize_all [] s = s
initialize_all (opt_in ∷ opt_ins) s = initialize_all opt_ins (initialize opt_in s)

initialize_all-same :
    (opt_ins : List (Option Text)) (s : Stability)
    → s.initialized ≡ true
    → initialize_all opt_ins s ≡ s
unfolding initialize_all initialize
initialize_all-same [] s h = refl
initialize_all-same (opt_in ∷ opt_ins) s h =
    let same : initialize opt_in s ≡ s =
      ap
        (λ b.
          if b then s else record { initialized = true; signal_mapping = initial_mapping opt_in })
        h in
    ap (initialize_all opt_ins) same ∙ initialize_all-same opt_ins s h

initial_mapping_lem :
    (opt_in : Option Text) (signal : Signal)
    → or_default (initial_mapping opt_in signal) default
      ≡ filter_mode (options opt_in) (stable_mode signal) (dup_mode signal)
unfolding initial_mapping filter_mode is_in
initial_mapping_lem none signal = refl
initial_mapping_lem (some []) signal = refl
initial_mapping_lem (some (c ∷ cs)) signal = refl

-- However often the conventions are initialized, and whatever the variable is changed to in between: the mode
-- of a signal is decided by the first value of the variable. It is the signal's mode for both conventions
-- if that value lists it, else its stable mode if it is listed, else the default; an unset or an empty
-- variable lists nothing.
pub get_opt_in_mode-initialize_all :
    (opt_in : Option Text) (opt_ins : List (Option Text)) (signal : Signal)
    → get_opt_in_mode (initialize_all (opt_in ∷ opt_ins) new) signal ≡ (
        if is_in (mode_value (dup_mode signal)) (options opt_in)
        then dup_mode signal
        else if is_in (mode_value (stable_mode signal)) (options opt_in)
        then stable_mode signal
        else default)
unfolding initialize_all initialize new get_opt_in_mode filter_mode
get_opt_in_mode-initialize_all opt_in opt_ins signal =
    ap (λ s. get_opt_in_mode s signal) (initialize_all-same opt_ins (initialize opt_in new) refl)
    ∙ initial_mapping_lem opt_in signal
