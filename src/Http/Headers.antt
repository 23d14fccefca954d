-- ===== src/Http/Headers.antt =====
-- util/http/__init__.py: the headers that are captured as attributes of a span. Regular expressions and the
-- case of letters are parameters.
pub mod Captured
use opentelemetry_python_con.Common.{
  ℕ, ◌==◌, Bool, true, false, Option, none, some, List, [], ◌∷◌, ◌++◌, map, Text, text,
  if◌then◌else◌, Dict, put,
}

-- a header's value, `str` or a list of them
pub data HeaderValue : Type 0 where
  one : Text → HeaderValue
  several : List Text → HeaderValue

-- `search` and `fullmatch` for the alternatives of a list, without regard to case
pub record Regexes : Type 0 where
  pub search : List Text → Text → Bool
  pub fullmatch : List Text → Text → Bool
  pub lower : Text → Text

module _ (regexes : Regexes) where
  -- `SanitizeValue.sanitize_header_value`
  unfoldable pub sanitize_header_value : List Text → Text → Text → Text
  sanitize_header_value [] header value = value
  sanitize_header_value (field ∷ fields) header value =
      if regexes.search (field ∷ fields) header then text "[REDACTED]" else value

  unfoldable pub sanitize_values : List Text → Text → HeaderValue → List Text
  sanitize_values fields header (one value) = sanitize_header_value fields header value ∷ []
  sanitize_values fields header (several values) = map (sanitize_header_value fields header) values

  -- `SanitizeValue.sanitize_header_values`: the loop, with the dict of values
  unfoldable pub header_loop :
      List Text
      → List Text
      → (Text → Text)
      → List (Text × HeaderValue)
      → Dict (List Text)
      → Dict (List Text)
  header_loop fields captured normalize [] values = values
  header_loop fields captured normalize ((name, value) ∷ headers) values =
      header_loop fields captured normalize headers (
        if regexes.fullmatch captured name
        then put (normalize (regexes.lower name)) (sanitize_values fields name value) values
        else values)

  unfoldable pub sanitize_header_values :
      List Text → List (Text × HeaderValue) → List Text → (Text → Text) → Dict (List Text)
  sanitize_header_values fields headers [] normalize = []
  sanitize_header_values fields headers (regex ∷ captured) normalize =
      header_loop fields (regex ∷ captured) normalize headers []

  -- Headers that are absent are none, and so are absent lists of regular expressions.
  unfoldable pub get_custom_header_attributes :
      List (Text × HeaderValue) → List Text → List Text → (Text → Text) → Dict (List Text)
  get_custom_header_attributes [] captured sensitive normalize = []
  get_custom_header_attributes (header ∷ headers) [] sensitive normalize = []
  get_custom_header_attributes (header ∷ headers) (regex ∷ captured) sensitive normalize =
      sanitize_header_values sensitive (header ∷ headers) (regex ∷ captured) normalize

  unfoldable pub replace_dashes : Text → Text
  replace_dashes [] = []
  replace_dashes (c ∷ t) = (if c == b'-' then b'_' else c) ∷ replace_dashes t

  unfoldable pub normalise_request_header_name : Text → Text
  normalise_request_header_name header =
      text "http.request.header." ++ replace_dashes (regexes.lower header)

  unfoldable pub normalise_response_header_name : Text → Text
  normalise_response_header_name header =
      text "http.response.header." ++ replace_dashes (regexes.lower header)
