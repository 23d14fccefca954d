-- ===== src/Prometheus/Names.antt =====
-- `_sanitize_string` of prometheus_remote_write/__init__.py. A pattern `^\d|[^\w:]` is replaced character by
-- character: one that is not in the class, or a digit that stands first.
pub mod Valid
use opentelemetry_python_con.Common.{
  ℕ, Bool, true, false, not, ◌&&◌, ◌||◌, List, [], ◌∷◌, Text, ◌==◌, if◌then◌else◌,
}
use opentelemetry_python_con.Prometheus.Sdk.{Classes}

pub data Kind : Type 0 where
  name : Kind
  label : Kind

module _ (classes : Classes) where
  -- the characters that stay: `[\w:]` in PROMETHEUS_NAME_REGEX, `[\w]` in PROMETHEUS_LABEL_REGEX
  unfoldable pub stays : Kind → ℕ → Bool
  stays name c = classes.is_word c || (c == b':')
  stays label c = classes.is_word c

  unfoldable pub replace_rest : Kind → Text → Text
  replace_rest kind [] = []
  replace_rest kind (c ∷ s) = (if stays kind c then c else b'_') ∷ replace_rest kind s

  unfoldable pub sanitize_string : Text → Kind → Text
  sanitize_string [] kind = []
  sanitize_string (c ∷ s) kind =
      (if stays kind c && not (classes.is_digit c) then c else b'_') ∷ replace_rest kind s
