-- ===== src/Prometheus/Tests.antt =====
-- Metrics and exporters with concrete settings.
use opentelemetry_python_con.Common.{
  ℕ, ◌+◌, ◌≡◌, refl, true, false, ◌&&◌, ◌||◌, none, List, [], ◌∷◌, text, text_eq, get, ◌==◌, ltb,
  leb, not, arith,
}
use opentelemetry_python_con.Prometheus.Sdk.{
  Values, Classes, gauge_or_sum, histogram, ResourceMetrics,
}
use opentelemetry_python_con.Prometheus.Names.{name, stays, replace_rest, sanitize_string}
use opentelemetry_python_con.Prometheus.Translate.{Entry}
use opentelemetry_python_con.Prometheus.Translate.Grouped.{IsEquality}
use opentelemetry_python_con.Prometheus.Exporter.{
  raise_error, value_error, Exporter, create, check_endpoint, check_timeout, check_basic_auth,
  check_tls_config, has, Request, Response, response,
}

-- Values and numbers as numbers, and the classes of ASCII.
abbrev values : Values ℕ ℕ
values = record {
  str = λ n. (n + b'0') ∷ [];
  of_text = λ t. 0;
  eq = λ n m. n == m;
  lt = ltb;
  str_number = λ n. (n + b'0') ∷ [];
  is_true = λ n. not (n == 0);
  of_count = λ n. n;
}

abbrev classes : Classes
classes = record {
  is_word = λ c. (leb b'a' c && leb c b'z') || (leb b'0' c && leb c b'9') || (c == b'_');
  is_digit = λ c. leb b'0' c && leb c b'9';
}

sanitize_example : sanitize_string classes (text "2a:b-c") name ≡ text "_a:b_c"
unfolding sanitize_string replace_rest stays
sanitize_example = refl

word_lem : classes.is_word b'_' ≡ true
word_lem = refl

no_digit_lem : classes.is_digit b'_' ≡ false
no_digit_lem = refl

abbrev requests : ResourceMetrics ℕ ℕ
requests = record {
  attributes = (text "job", 3) ∷ [];
  scope_metrics =
      (record {
        name = text "n";
        unit = [];
        points =
            gauge_or_sum (
              record { attributes = (text "k", 1) ∷ []; time_unix_nano = 5000000; value = 7 } ∷ []);
      }
        ∷ record {
          name = text "h";
          unit = text "s";
          points = histogram (
              record {
                attributes = [];
                time_unix_nano = 5000000;
                count = 3;
                sum = 9;
                bucket_counts = 1 ∷ 2 ∷ [];
                explicit_bounds = 4 ∷ [];
              }
              ∷ []);
        }
        ∷ [])
      ∷ [];
}

equality : IsEquality (λ n m. n == m)
equality = record { symmetric = λ u v. ground arith; same = λ u v w h. ground arith }

abbrev entries : List (Entry values classes)
entries =
    ((text "k", 1) ∷ [], record { value = 7; timestamp = 0 })
    ∷ ((text "k", 2) ∷ [], record { value = 8; timestamp = 1 })
    ∷ ((text "k", 1) ∷ [], record { value = 9; timestamp = 2 })
    ∷ []

abbrev settings : Exporter ℕ
settings = record {
  endpoint = text "http://p";
  basic_auth = (text "username", text "u") ∷ (text "password_file", text "f") ∷ [];
  headers = [];
  timeout = 30;
  tls_config = [];
  resources_as_labels = true;
}

abbrev created : Exporter ℕ
created = record settings {
  basic_auth =
      (text "username", text "u")
      ∷ (text "password_file", text "f")
      ∷ (text "password", text "p")
      ∷ [];
}

half_tls_refused :
    create
      (λ file. none)
      (record settings { basic_auth = []; tls_config = (text "cert_file", 1) ∷ [] })
    ≡ raise_error value_error
unfolding create check_endpoint check_basic_auth check_timeout check_tls_config has get text_eq
half_tls_refused = refl

abbrev post : Request ℕ ℕ → Response
post r = response true
