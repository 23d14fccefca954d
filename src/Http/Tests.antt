-- ===== src/Http/Tests.antt =====
-- Runs of the HTTP helpers on concrete inputs.
use opentelemetry_python_con.Common.{
  ◌≡◌, refl, Bool, false, some, List, [], ◌∷◌, All, here, Text, text, text_eq,
}
use opentelemetry_python_con.Http.Url.{
  Parsed, Urls, is_empty, has_char, after_last, redact_netloc, remove_url_credentials, is_listed,
  http_methods, sanitize_method,
}
use opentelemetry_python_con.Http.Headers.{HeaderValue, one, Regexes, get_custom_header_attributes}
use opentelemetry_python_con.Http.Headers.Captured.{
  IsCaptured, IsGiven, get_custom_header_attributes-IsCaptured,
}

-- URLs that are a location alone
abbrev parsed : Text → Parsed
parsed url = record {
  scheme = text "http";
  netloc = url;
  path = [];
  params = [];
  query = [];
  fragment = [];
}

abbrev urls : Urls
urls = record {
  urlparse = λ url. some (parsed url);
  urlunparse = λ p. p.netloc;
  parse_qs = λ query. [];
  urlencode = λ params. [];
}

credentials_removed :
    remove_url_credentials urls (text "me:p@ss@host") ≡ text "REDACTED:REDACTED@host"
unfolding remove_url_credentials redact_netloc is_empty has_char after_last
credentials_removed = refl

unknown_method : sanitize_method (λ t. t) false (some (text "FOO")) ≡ some (text "_OTHER")
unfolding sanitize_method is_listed http_methods text_eq
unknown_method = refl

-- expressions that match themselves
abbrev any_equal : List Text → Text → Bool
any_equal [] t = false
any_equal (p ∷ ps) t = text_eq p t

abbrev regexes : Regexes
regexes = record { search = any_equal; fullmatch = any_equal; lower = λ t. t }

abbrev headers : List (Text × HeaderValue)
headers = (text "cookie", one (text "secret")) ∷ (text "accept", one (text "text")) ∷ []

get_custom_header_attributes-IsCaptured_example :
    IsGiven
      (get_custom_header_attributes regexes headers
        (text "cookie" ∷ [])
        (text "cookie" ∷ [])
        (λ t. t))
      (text "cookie")
    × All (IsCaptured regexes headers (text "cookie" ∷ []) (text "cookie" ∷ []) (λ t. t)) (
        get_custom_header_attributes regexes headers
          (text "cookie" ∷ [])
          (text "cookie" ∷ [])
          (λ t. t))
unfolding text_eq
get_custom_header_attributes-IsCaptured_example =
    get_custom_header_attributes-IsCaptured regexes headers (text "cookie") [] (text "cookie" ∷ [])
      (λ t. t) (text "cookie") (one (text "secret")) here refl
