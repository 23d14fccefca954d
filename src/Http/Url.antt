-- ===== src/Http/Url.antt =====
-- util/http/__init__.py: redaction of URLs, excluded URLs, methods and user agents. `urllib.parse`, regular
-- expressions and the case of letters are parameters.
pub mod Credentials
use opentelemetry_python_con.Common.{
  ℕ, ◌==◌, Bool, true, false, ◌&&◌, ◌||◌, Option, none, some, List, [], ◌∷◌, ◌++◌, map, Text, text,
  text_eq, if◌then◌else◌, Dict, get, put,
}
use opentelemetry_python_con.Words.{split, strip}

-- what `urlparse` gives
pub record Parsed : Type 0 where
  pub scheme : Text
  pub netloc : Text
  pub path : Text
  pub params : Text
  pub query : Text
  pub fragment : Text

-- `parse` is none for a ValueError; `parse_qs` and `urlencode` with `doseq`
pub record Urls : Type 0 where
  pub urlparse : Text → Option Parsed
  pub urlunparse : Parsed → Text
  pub parse_qs : Text → Dict (List Text)
  pub urlencode : Dict (List Text) → Text

unfoldable pub is_empty : Text → Bool
is_empty [] = true
is_empty (c ∷ t) = false

unfoldable pub has_char : ℕ → Text → Bool
has_char c [] = false
has_char c (d ∷ t) = (d == c) || has_char c t

-- the text after the last `c` of one that has it: the third part of `rpartition`
unfoldable pub after_last : ℕ → Text → Text
after_last c [] = []
after_last c (d ∷ t) =
    let rest = after_last c t in if has_char c t then rest else if d == c then t else d ∷ t

module _ (urls : Urls) where
  unfoldable pub redact_netloc : Text → Parsed → Text
  redact_netloc url parsed =
      if is_empty parsed.scheme || is_empty parsed.netloc
      then url
      else if has_char b'@' parsed.netloc
      then urls.urlunparse
          (record parsed { netloc = text "REDACTED:REDACTED@" ++ after_last b'@' parsed.netloc })
      else url

  unfoldable pub remove_url_credentials : Text → Text
  remove_url_credentials url = elim (urls.urlparse url) [
    | none ↦ url
    | some parsed ↦ redact_netloc url parsed
  ]

  -- `_parse_url_query`
  unfoldable pub parse_url_query : Text → Text × Text
  parse_url_query url = elim (urls.urlparse url) [
    | none ↦ ([], [])
    | some parsed ↦ (parsed.path, parsed.query)
  ]

  -- `PARAMS_TO_REDACT`
  unfoldable pub params_to_redact : List Text
  params_to_redact =
      text "AWSAccessKeyId" ∷ text "Signature" ∷ text "sig" ∷ text "X-Goog-Signature" ∷ []

  unfoldable pub has_param : Dict (List Text) → Text → Bool
  has_param params key = elim (get params key) [ none ↦ false | some values ↦ true ]

  unfoldable pub any_param : Dict (List Text) → List Text → Bool
  any_param params [] = false
  any_param params (key ∷ keys) = has_param params key || any_param params keys

  unfoldable pub redact_params : List Text → Dict (List Text) → Dict (List Text)
  redact_params [] params = params
  redact_params (key ∷ keys) params =
      redact_params keys
        (if has_param params key then put key (text "REDACTED" ∷ []) params else params)

  unfoldable pub redact_query : Text → Parsed → Text
  redact_query url parsed =
      if is_empty parsed.query
      then url
      else if any_param (urls.parse_qs parsed.query) params_to_redact
      then urls.urlunparse (record parsed {
        query = urls.urlencode (redact_params params_to_redact (urls.parse_qs parsed.query));
      })
      else url

  unfoldable pub redact_query_parameters : Text → Text
  redact_query_parameters url = elim (urls.urlparse url) [
    | none ↦ url
    | some parsed ↦ redact_query url parsed
  ]

  unfoldable pub redact_url : Text → Text
  redact_url url = redact_query_parameters (remove_url_credentials url)

-- a variable with pieces between commas, which is unset or empty, or has at least one
unfoldable pub stripped_pieces : Option Text → List Text
stripped_pieces none = []
stripped_pieces (some []) = []
stripped_pieces (some (c ∷ cs)) = map strip (split b',' (c ∷ cs))

-- `get_custom_headers` and `get_traced_request_attrs`, by the value of the variable
unfoldable pub get_custom_headers : Option Text → List Text
get_custom_headers value = stripped_pieces value

unfoldable pub get_traced_request_attrs : Option Text → List Text
get_traced_request_attrs value = stripped_pieces value

-- `parse_excluded_urls`: the regular expressions of an `ExcludeList`
unfoldable pub parse_excluded_urls : Text → List Text
parse_excluded_urls value = stripped_pieces (some value)

-- `get_excluded_urls`, by the values of the specific variable and of the generic one
unfoldable pub get_excluded_urls : Option Text → Option Text → List Text
get_excluded_urls (some specific) generic = parse_excluded_urls specific
get_excluded_urls none (some generic) = parse_excluded_urls generic
get_excluded_urls none none = parse_excluded_urls []

-- `ExcludeList.url_disabled`, by `search` for the alternatives of a list
unfoldable pub url_disabled : (List Text → Text → Bool) → List Text → Text → Bool
url_disabled search [] url = false
url_disabled search (excluded ∷ excluded_urls) url = search (excluded ∷ excluded_urls) url

unfoldable pub is_listed : Text → List Text → Bool
is_listed t [] = false
is_listed t (u ∷ us) = text_eq t u || is_listed t us

unfoldable pub http_methods : List Text
http_methods =
    text "GET"
    ∷ text "HEAD"
    ∷ text "POST"
    ∷ text "PUT"
    ∷ text "DELETE"
    ∷ text "CONNECT"
    ∷ text "OPTIONS"
    ∷ text "TRACE"
    ∷ text "PATCH"
    ∷ text "QUERY"
    ∷ []

-- by `str.upper`, and by whether the variable that captures all methods is set and not empty
unfoldable pub sanitize_method : (Text → Text) → Bool → Option Text → Option Text
sanitize_method upper capture_all none = none
sanitize_method upper capture_all (some method) =
    if capture_all || is_listed (upper method) http_methods
    then some (upper method)
    else some (text "_OTHER")

-- `UserAgentSyntheticTypeValues`
pub data SyntheticType : Type 0 where
  test : SyntheticType
  bot : SyntheticType

unfoldable pub any_part : (Text → Text → Bool) → List Text → Text → Bool
any_part has_part [] t = false
any_part has_part (pattern_text ∷ patterns) t =
    has_part pattern_text t || any_part has_part patterns t

-- by `str.lower` and `in` for `str`
unfoldable pub detect_synthetic_user_agent :
    (Text → Text) → (Text → Text → Bool) → Option Text → Option SyntheticType
detect_synthetic_user_agent lower has_part none = none
detect_synthetic_user_agent lower has_part (some []) = none
detect_synthetic_user_agent lower has_part (some (c ∷ cs)) =
    if any_part has_part (text "alwayson" ∷ []) (lower (c ∷ cs))
    then some test
    else if any_part has_part (text "googlebot" ∷ text "bingbot" ∷ []) (lower (c ∷ cs))
    then some bot
    else none
