-- ===== src/Http/HttpRequest.antt =====
-- src/http/http_request.cpp and src/http/http_request.h: the request with the headers that the proxy
-- changes, and its text. The `std::map` of headers is a list in the order of the names.
use spx.Prelude.{
  ℕ, Bool, true, false, ◌||◌, List, [], ◌∷◌, ◌++◌, none, some, Str, str_discrete, codes,
  if◌then◌else◌, ltb,
}
use spx.Prelude.Decimal.{int_to_string}
use spx.Outcome.{M, exception, assertion_failed, pure, throw, fail, ◌>>=◌}
use spx.Http.Parser.{Parser, Request}

abbrev pub Headers : Type 0
Headers = List (Str × Str)

-- `operator<` on `std::string`.
unfoldable pub str_lt : Str → Str → Bool
str_lt s [] = false
str_lt [] (b ∷ t) = true
str_lt (a ∷ s) (b ∷ t) =
    let rest = str_lt s t in if ltb a b then true else if ltb b a then false else rest

-- `std::map::insert_or_assign`.
unfoldable pub insert_or_assign : Str → Str → Headers → Headers
insert_or_assign name value [] = (name, value) ∷ []
insert_or_assign name value ((n, v) ∷ l) =
    if str_lt name n
    then (name, value) ∷ (n, v) ∷ l
    else if str_lt n name
    then (n, v) ∷ insert_or_assign name value l
    else (name, value) ∷ l

abbrev pub crlf : Str
crlf = 13 ∷ 10 ∷ []

abbrev pub headers_to_remove : List Str
headers_to_remove =
    codes "Proxy-Connection" ∷ codes "Upgrade-Insecure-Requests" ∷ codes "Range" ∷ []

abbrev pub connection : Str
connection = codes "Connection"

abbrev pub close_value : Str
close_value = codes "close"

unfoldable pub str_eq : Str → Str → Bool
str_eq s t = elim (str_discrete s t) [ yes _ ↦ true | no _ ↦ false ]

-- `std::find` over the array, against its end.
unfoldable pub is_listed : Str → List Str → Bool
is_listed name [] = false
is_listed name (n ∷ l) = str_eq n name || is_listed name l

-- The body of the loop of `parse` over the headers, and the loop.
unfoldable pub add_header : Str × Str → Headers → Headers
unfolding str_eq is_listed
add_header (name, value) headers =
    if is_listed name headers_to_remove
    then headers
    else insert_or_assign name (if str_eq name connection then close_value else value) headers

unfoldable pub add_headers : List (Str × Str) → Headers → Headers
add_headers [] headers = headers
add_headers (h ∷ l) headers = add_headers l (add_header h headers)

-- The text of the headers.
unfoldable pub headers_to_string : Headers → Str
headers_to_string [] = []
headers_to_string ((name, value) ∷ l) = name ++ codes ": " ++ value ++ crlf ++ headers_to_string l

module _ (lib : Parser) where
  open lib use {Url}

  pub record HttpRequest : Type 0 where
    pub version_major : ℕ
    pub version_minor : ℕ
    pub method : Str
    pub url : Url
    pub headers : Headers

  -- The default constructor.
  unfoldable pub empty : HttpRequest
  empty = record {
    version_major = 1;
    version_minor = 0;
    method = [];
    url = lib.no_url;
    headers = [];
  }

  module _ {ℓ} {S : Type ℓ} where
    unfoldable pub parse_request_str : Str → M S Request
    parse_request_str text = elim (lib.parse_request text) [
      | none ↦ throw exception
      | some r ↦ pure r
    ]

    -- `url.parse(r.uri)`.
    unfoldable pub parse_url : Str → M S Url
    parse_url uri = elim (lib.parse_url uri) [ none ↦ fail assertion_failed | some u ↦ pure u ]

    unfoldable pub parse : HttpRequest → Str → M S HttpRequest
    parse self text = do
      r ← parse_request_str text
      url ← parse_url r.uri
      pure (record self {
        version_major = r.version_major;
        version_minor = r.version_minor;
        method = r.method;
        url = url;
        headers = add_headers r.headers self.headers;
      })

    -- The constructor from a text.
    unfoldable pub create : Str → M S HttpRequest
    create text = parse empty text

    -- `url.path()`, `url.hostname()` and `url.httpPort()` assert that the URL is valid.
    unfoldable pub valid_url : {A : Type 0} → (Url → A) → Url → M S A
    valid_url f u = if lib.is_valid u then pure (f u) else fail assertion_failed

    unfoldable pub to_string : HttpRequest → M S Str
    to_string self = do
      path ← valid_url lib.path self.url
      pure (
          self.method
          ++ codes " "
          ++ path
          ++ codes " HTTP/"
          ++ int_to_string self.version_major
          ++ codes "."
          ++ int_to_string self.version_minor
          ++ crlf
          ++ headers_to_string self.headers
          ++ crlf
          ++ crlf)
