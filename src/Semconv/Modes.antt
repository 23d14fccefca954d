-- ===== src/Semconv/Modes.antt =====
-- `_StabilityMode` and `_OpenTelemetrySemanticConventionStability` of _semconv.py. The lock makes
-- `_initialize` one step; the environment is an argument of each call.
pub mod Fixed
use opentelemetry_python_con.Common.{
  Bool, true, false, Option, none, some, List, [], ◌∷◌, map, Text, text, text_eq, if◌then◌else◌,
  or_default,
}
use opentelemetry_python_con.Words.{split, strip}

-- `_OpenTelemetryStabilitySignalType`
pub data Signal : Type 0 where
  http : Signal
  database : Signal
  messaging : Signal
  gen_ai : Signal

-- `_StabilityMode`
pub data Mode : Type 0 where
  default : Mode
  http : Mode
  http_dup : Mode
  database : Mode
  database_dup : Mode
  messaging : Mode
  messaging_dup : Mode
  gen_ai_latest_experimental : Mode

unfoldable pub mode_value : Mode → Text
mode_value default = text "default"
mode_value Mode.http = text "http"
mode_value http_dup = text "http/dup"
mode_value Mode.database = text "database"
mode_value database_dup = text "database/dup"
mode_value Mode.messaging = text "messaging"
mode_value messaging_dup = text "messaging/dup"
mode_value gen_ai_latest_experimental = text "gen_ai_latest_experimental"

unfoldable pub report_new : Mode → Bool
report_new default = false
report_new mode = true

unfoldable pub report_old : Mode → Bool
report_old Mode.http = false
report_old Mode.database = false
report_old Mode.messaging = false
report_old mode = true

-- the class attributes, the mapping as a function
pub record Stability : Type 0 where
  pub initialized : Bool
  pub signal_mapping : Signal → Option Mode

unfoldable pub new : Stability
new = record { initialized = false; signal_mapping = λ s. none }

-- `t in opt_in_list`
unfoldable pub is_in : Text → List Text → Bool
is_in t [] = false
is_in t (s ∷ ss) = if text_eq t s then true else is_in t ss

unfoldable pub filter_mode : List Text → Mode → Mode → Mode
filter_mode opt_in_list stable_mode dup_mode =
    if is_in (mode_value dup_mode) opt_in_list
    then dup_mode
    else if is_in (mode_value stable_mode) opt_in_list
    then stable_mode
    else default

-- the arguments that `_initialize` gives for each signal
unfoldable pub stable_mode : Signal → Mode
stable_mode Signal.http = Mode.http
stable_mode Signal.database = Mode.database
stable_mode Signal.messaging = Mode.messaging
stable_mode gen_ai = default

unfoldable pub dup_mode : Signal → Mode
dup_mode Signal.http = http_dup
dup_mode Signal.database = database_dup
dup_mode Signal.messaging = messaging_dup
dup_mode gen_ai = gen_ai_latest_experimental

-- `if not opt_in`: the variable is not set, or empty
unfoldable pub initial_mapping : Option Text → Signal → Option Mode
initial_mapping none signal = some default
initial_mapping (some []) signal = some default
initial_mapping (some (c ∷ cs)) signal =
    some (filter_mode (map strip (split b',' (c ∷ cs))) (stable_mode signal) (dup_mode signal))

unfoldable pub initialize : Option Text → Stability → Stability
initialize opt_in s =
    if s.initialized
    then s
    else record { initialized = true; signal_mapping = initial_mapping opt_in }

unfoldable pub get_opt_in_mode : Stability → Signal → Mode
get_opt_in_mode s signal = or_default (s.signal_mapping signal) default

-- `_get_semconv_opt_in_modes`
unfoldable pub get_semconv_opt_in_modes :
    Option Text → List Signal → Stability → Stability × List (Signal × Mode)
get_semconv_opt_in_modes opt_in signals s =
    let s' = initialize opt_in s in
    (s', map (λ signal. (signal, get_opt_in_mode s' signal)) signals)
