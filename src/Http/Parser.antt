-- ===== src/Http/Parser.antt =====
-- What src/http/http_request.cpp and src/server.cpp call of the third-party parsers in
-- src/http/httpparser, as a parameter.
use spx.Prelude.{ℕ, Bool, List, Option, Str}

-- The fields of `httpparser::Request` that the code reads; the versions are patterns of an `int`.
pub record Request : Type 0 where
  pub version_major : ℕ
  pub version_minor : ℕ
  pub method : Str
  pub uri : Str
  pub headers : List (Str × Str)

pub record Parser : Type 1 where
  -- `HttpRequestParser().parse`: the request, if the result is `ParsingCompleted`.
  pub parse_request : Str → Option Request
  -- `UrlParser`: the object, the default one, and `parse`, which may abort the process.
  pub Url : Type 0
  pub no_url : Url
  pub parse_url : Str → Option Url
  pub is_valid : Url → Bool
  -- What `hostname()`, `path()` and `httpPort()` return for a valid object.
  pub hostname : Url → Str
  pub path : Url → Str
  pub http_port : Url → ℕ
