-- ===== src/Http/Tests.antt =====
-- A request with headers that the proxy removes and changes.
use spx.Prelude.{arith, ℕ, ℕ_discrete, str_discrete, ◌≡◌, refl, [], ◌∷◌, some, Str, true, codes}
use spx.Outcome.{returns}
use spx.Http.Parser.{Parser, Request}
use spx.Http.HttpRequest
use spx.Http.HttpRequest.{HttpRequest}
use spx.Dict.{lookup}
use spx.Http.HeaderMap.{IsSorted, forwarded_value}
use spx.Http.Text.{create-lookup, to_string-create}
use spx.Http.Headers.{AllForwardable, create-AllForwardable}

abbrev browser_request : Request
browser_request = record {
  version_major = 1;
  version_minor = 1;
  method = codes "GET";
  uri = codes "http://example.org/";
  headers =
      (codes "Host", codes "example.org")
      ∷ (codes "Range", codes "bytes=0-99")
      ∷ (codes "Connection", codes "keep-alive")
      ∷ [];
}

-- The same request with a query, and with an older value of a header.
abbrev query_request : Request
query_request = record {
  version_major = 1;
  version_minor = 1;
  method = codes "GET";
  uri = codes "http://example.org/?page=2";
  headers =
      (codes "Host", codes "old.example.org")
      ∷ (codes "Host", codes "example.org")
      ∷ (codes "Range", codes "bytes=0-99")
      ∷ (codes "Connection", codes "keep-alive")
      ∷ [];
}

abbrev one_request : Parser
one_request = record {
  parse_request = λ s. elim s [ [] ↦ some browser_request | b ∷ t ↦ some query_request ];
  Url = Str;
  no_url = [];
  parse_url = λ s. some s;
  is_valid = λ u. true;
  hostname = λ u. codes "example.org";
  path = λ u. codes "/";
  http_port = λ u. 80;
}

abbrev forwarded : HttpRequest one_request
forwarded = record {
  version_major = 1;
  version_minor = 1;
  method = codes "GET";
  url = codes "http://example.org/";
  headers = (codes "Connection", codes "close") ∷ (codes "Host", codes "example.org") ∷ [];
}

built : HttpRequest.create one_request {S = ℕ} [] 0 ≡ returns forwarded 0
unfolding HttpRequest.create HttpRequest.parse HttpRequest.empty HttpRequest.parse_request_str
    HttpRequest.parse_url HttpRequest.add_headers HttpRequest.add_header HttpRequest.is_listed
    HttpRequest.str_eq HttpRequest.insert_or_assign HttpRequest.str_lt str_discrete ℕ_discrete
built = refl

create-AllForwardable_example : AllForwardable forwarded.headers
create-AllForwardable_example = create-AllForwardable one_request {S = ℕ} [] 0 0 forwarded built

abbrev forwarded_query : HttpRequest one_request
forwarded_query = record forwarded { url = codes "http://example.org/?page=2" }

built_query : HttpRequest.create one_request {S = ℕ} (codes "?") 0 ≡ returns forwarded_query 0
unfolding HttpRequest.create HttpRequest.parse HttpRequest.empty HttpRequest.parse_request_str
    HttpRequest.parse_url HttpRequest.add_headers HttpRequest.add_header HttpRequest.is_listed
    HttpRequest.str_eq HttpRequest.insert_or_assign HttpRequest.str_lt str_discrete ℕ_discrete
built_query = refl

create-lookup_example :
    IsSorted forwarded.headers
    × (lookup (codes "Connection") forwarded.headers
        ≡ forwarded_value (codes "Connection") browser_request.headers)
create-lookup_example =
    create-lookup one_request {S = ℕ} [] (codes "Connection") 0 0 forwarded browser_request built
      refl

same_values :
    (k : Str) → forwarded_value k browser_request.headers ≡ forwarded_value k query_request.headers
same_values k = ground arith

to_string-create_example :
    HttpRequest.to_string one_request {S = ℕ} forwarded 0
    ≡ HttpRequest.to_string one_request forwarded_query 0
to_string-create_example =
    to_string-create one_request {S = ℕ} [] (codes "?") 0 0 0 forwarded forwarded_query
      browser_request query_request built built_query refl refl refl refl refl refl refl same_values
