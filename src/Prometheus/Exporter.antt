-- ===== src/Prometheus/Exporter.antt =====
-- The settings of `PrometheusRemoteWriteMetricsExporter` and `export`, from
-- prometheus_remote_write/__init__.py. The file system, `snappy`, the generated `WriteRequest` and
-- `requests` are parameters. A timeout below zero is refused as zero is, and left out.
pub mod Sending
use opentelemetry_python_con.Common.{
  ℕ, zero, suc, Bool, true, false, not, ◌&&◌, ◌||◌, Option, none, some, List, [], ◌∷◌, Text, text,
  Dict, get, put, if◌then◌else◌,
}
use opentelemetry_python_con.Prometheus.Sdk.{TimeSeries}

pub data Error : Type 0 where
  value_error : Error
  os_error : Error
  key_error : Error

pub data Result (A : Type 0) : Type 0 where
  ok : A → Result A
  raise_error : Error → Result A

infixl 5 ◌>>=◌
abbrev pub ◌>>=◌ : {A B : Type 0} → Result A → (A → Result B) → Result B
ok a >>= f = f a
raise_error e >>= f = raise_error e

-- `key in d`
unfoldable pub has : {V : Type 0} → Text → Dict V → Bool
has key d = elim (get d key) [ none ↦ false | some v ↦ true ]

-- `d[key]`
unfoldable pub item : {V : Type 0} → Dict V → Text → Result V
item d key = elim (get d key) [ none ↦ raise_error key_error | some v ↦ ok v ]

unfoldable pub check_endpoint : Text → Result Text
check_endpoint [] = raise_error value_error
check_endpoint (c ∷ cs) = ok (c ∷ cs)

unfoldable pub check_timeout : ℕ → Result ℕ
check_timeout zero = raise_error value_error
check_timeout (suc n) = ok (suc n)

-- the first line of a file, stripped, or `none` where `open` raises
unfoldable pub read_password : (Text → Option Text) → Dict Text → Text → Result (Dict Text)
read_password read_line auth file = elim (read_line file) [
  | none ↦ raise_error os_error
  | some password ↦ ok (put (text "password") password auth)
]

unfoldable pub check_basic_auth : (Text → Option Text) → Dict Text → Result (Dict Text)
check_basic_auth read_line [] = ok []
check_basic_auth read_line (entry ∷ entries) =
    let auth = entry ∷ entries in
    if not (has (text "username") auth)
    then raise_error value_error
    else if has (text "password_file") auth
    then if has (text "password") auth
      then raise_error value_error
      else item auth (text "password_file") >>= read_password read_line auth
    else if not (has (text "password") auth)
    then raise_error value_error
    else ok auth

-- The checked copy, `new_config`, is built and dropped: the argument is stored.
unfoldable pub check_tls_config : {T : Type 0} → Dict T → Result (Dict T)
check_tls_config tls =
    if has (text "cert_file") tls && has (text "key_file") tls
    then ok tls
    else if has (text "cert_file") tls || has (text "key_file") tls
    then raise_error value_error
    else ok tls

-- The settings; a dict that is `None` is an empty one.
pub record Exporter (T : Type 0) : Type 0 where
  pub endpoint : Text
  pub basic_auth : Dict Text
  pub headers : Dict Text
  pub timeout : ℕ
  pub tls_config : Dict T
  pub resources_as_labels : Bool

-- `__init__`, with the settings as they are given
unfoldable pub create : {T : Type 0} → (Text → Option Text) → Exporter T → Result (Exporter T)
create read_line e = do
  endpoint ← check_endpoint e.endpoint
  basic_auth ← check_basic_auth read_line e.basic_auth
  timeout ← check_timeout e.timeout
  tls_config ← check_tls_config e.tls_config
  ok (record e {
    endpoint = endpoint;
    basic_auth = basic_auth;
    timeout = timeout;
    tls_config = tls_config;
  })

unfoldable pub add_headers : Dict Text → Dict Text → Dict Text
add_headers [] headers = headers
add_headers ((key, value) ∷ more) headers = add_headers more (put key value headers)

unfoldable pub build_headers : {T : Type 0} → Exporter T → Dict Text
build_headers e = add_headers e.headers (
    (text "Content-Encoding", text "snappy")
    ∷ (text "Content-Type", text "application/x-protobuf")
    ∷ (text "X-Prometheus-Remote-Write-Version", text "0.1.0")
    ∷ [])

-- `verify` of a request: a file of certificates, or whether to verify
pub data Verify (T : Type 0) : Type 0 where
  ca_file : T → Verify T
  verify_if : Bool → Verify T

pub record Request (Bytes T : Type 0) : Type 0 where
  pub endpoint : Text
  pub body : Bytes
  pub headers : Dict Text
  pub auth : Option (Text × Text)
  pub timeout : ℕ
  pub cert : Option (T × T)
  pub verify : Verify T

pub data ExportResult : Type 0 where
  success : ExportResult
  failure : ExportResult

unfoldable pub credentials : Dict Text → Result (Option (Text × Text))
credentials [] = ok none
credentials (entry ∷ entries) = do
  username ← item (entry ∷ entries) (text "username")
  password ← item (entry ∷ entries) (text "password")
  ok (some (username, password))

-- with the truth of a value
unfoldable pub verification : {T : Type 0} → (T → Bool) → Dict T → Verify T
verification is_true tls = elim (get tls (text "ca_file")) [
  | some file ↦ ca_file file
  | none ↦ elim (get tls (text "insecure_skip_verify")) [
    | some skip ↦ verify_if (not (is_true skip))
    | none ↦ verify_if true
  ]
]

unfoldable pub certificate : {T : Type 0} → Dict T → Option (T × T)
certificate tls = elim (get tls (text "cert_file")) [
  | none ↦ none
  | some cert ↦ elim (get tls (text "key_file")) [ none ↦ none | some key ↦ some (cert, key) ]
]

-- what `requests.post` gives: `response.ok`, or a `RequestException`
pub data Response : Type 0 where
  response : Bool → Response
  request_exception : Response

-- `raise_for_status` raises a `RequestException` where the response is not ok.
unfoldable pub result_of : Response → ExportResult
result_of (response true) = success
result_of (response false) = failure
result_of request_exception = failure

unfoldable pub request_of :
    {Bytes T : Type 0}
    → (T → Bool)
    → Exporter T
    → Bytes
    → Dict Text
    → Option (Text × Text)
    → Request Bytes T
request_of is_true e body headers auth = record {
  endpoint = e.endpoint;
  body = body;
  headers = headers;
  auth = auth;
  timeout = e.timeout;
  cert = certificate e.tls_config;
  verify = verification is_true e.tls_config;
}

-- with the request that was sent
unfoldable pub send_message :
    {Bytes T : Type 0}
    → (T → Bool)
    → (Request Bytes T → Response)
    → Exporter T
    → Bytes
    → Dict Text
    → Result (ExportResult × List (Request Bytes T))
send_message is_true post e body headers = do
  auth ← credentials e.basic_auth
  let request = request_of is_true e body headers auth
  ok (result_of (post request), request ∷ [])

-- `export`, with the time series of the data, if there is data
unfoldable pub export :
    {Bytes T N : Type 0}
    → (T → Bool)
    → (List (TimeSeries N) → Bytes)
    → (Request Bytes T → Response)
    → Exporter T
    → Option (List (TimeSeries N))
    → Result (ExportResult × List (Request Bytes T))
export is_true build_message post e none = ok (success, [])
export is_true build_message post e (some []) = ok (failure, [])
export is_true build_message post e (some (t ∷ ts)) =
    send_message is_true post e (build_message (t ∷ ts)) (build_headers e)
