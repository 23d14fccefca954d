-- ===== src/Http/Url/Credentials.antt =====
-- No credentials are left in a URL.
use opentelemetry_python_con.Common.{◌≡◌, true, false, ◌||◌, ◌∷◌, ◌++◌, Text, text}
use opentelemetry_python_con.Http.Url.{Parsed, Urls, is_empty, has_char}

module _ (urls : Urls) where
  -- what a URL becomes that is parsed
  pub data Redacted (url : Text) (parsed : Parsed) : Text → Type 0 where
    not_valid : (is_empty parsed.scheme || is_empty parsed.netloc) ≡ true → Redacted url parsed url
    without_credentials : has_char b'@' parsed.netloc ≡ false → Redacted url parsed url
    redacted :
        (before host : Text)
        → parsed.netloc ≡ before ++ b'@' ∷ host
        → has_char b'@' host ≡ false
        → Redacted url parsed
            (urls.urlunparse (record parsed { netloc = text "REDACTED:REDACTED@" ++ host }))
