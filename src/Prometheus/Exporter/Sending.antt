-- ===== src/Prometheus/Exporter/Sending.antt =====
-- What an exporter that was created sends.
use opentelemetry_python_con.Common.{
  ◌≡◌, Bool, Option, none, some, List, [], ◌∷◌, Text, text, Dict, get,
}
use opentelemetry_python_con.Prometheus.Sdk.{TimeSeries}
use opentelemetry_python_con.Prometheus.Exporter.{
  Exporter, Request, ExportResult, success, failure, Response, result_of,
}

abbrev HasCredentials : Dict Text → Type 0
HasCredentials d =
    (u : Text) × (p : Text) × (get d (text "username") ≡ some u)
    × (get d (text "password") ≡ some p)

module _ {Bytes T N : Type 0} (is_true : T → Bool) (build_message : List (TimeSeries N) → Bytes)
    (post : Request Bytes T → Response) where
  -- what an export gives, with the request that it sends if there are series
  abbrev pub expected :
      Option (List (TimeSeries N)) → Request Bytes T → ExportResult × List (Request Bytes T)
  expected none request = (success, [])
  expected (some []) request = (failure, [])
  expected (some (t ∷ ts)) request = (result_of (post request), request ∷ [])
