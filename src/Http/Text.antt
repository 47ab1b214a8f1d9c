-- ===== src/Http/Text.antt =====
-- The request that src/http/http_request.cpp builds from a text, and the text it makes of it, which is
-- forwarded and is the key of the cache.
use spx.Prelude.{◌≡◌, refl, sym, ◌∙◌, ap, [], some, Str, Option-cases, inl, inr, arith}
use spx.Outcome.{returns}
use spx.Dict.{lookup}
use spx.Http.Parser.{Parser, Request}
use spx.Http.HttpRequest
use spx.Http.HttpRequest.{Headers, HttpRequest, add_headers}
use spx.Http.HeaderMap.{
  IsSorted, forwarded_value, add_headers-IsSorted, lookup-add_headers, eq_of_lookup,
}

module _ (lib : Parser) where
  -- What a request is built of.
  pub record Built (text : Str) (r : HttpRequest lib) : Type 0 where
    pub parsed : Request
    pub parsed_eq : lib.parse_request text ≡ some parsed
    pub url_eq : lib.parse_url parsed.uri ≡ some r.url
    pub version_major : r.version_major ≡ parsed.version_major
    pub version_minor : r.version_minor ≡ parsed.version_minor
    pub method : r.method ≡ parsed.method
    pub headers : r.headers ≡ add_headers parsed.headers []

module _ (lib : Parser) {S : Type 0} where
  pub create-Built :
      (text : Str) (s t : S) (r : HttpRequest lib)
      → HttpRequest.create lib text s ≡ returns r t
      → Built lib text r
  unfolding HttpRequest.create HttpRequest.parse HttpRequest.empty HttpRequest.parse_request_str
      HttpRequest.parse_url
  create-Built text s t r e = elim (Option-cases (lib.parse_request text)) [
    | inl p ↦ cc
    | inr (q, p) ↦ elim (Option-cases (lib.parse_url q.uri)) [
      | inl u ↦ cc
      | inr (v, u) ↦ record {
        parsed = q;
        parsed_eq = p;
        url_eq = ground arith;
        version_major = ground arith;
        version_minor = ground arith;
        method = ground arith;
        headers = ground arith;
      }
    ]
  ]

  -- The headers of a request that is built from a text have ascending names, and the value under each
  -- name is that of its last occurrence in the text, but `close` for `Connection` and none for a name
  -- that is to be removed.
  pub create-lookup :
      (text k : Str) (s t : S) (r : HttpRequest lib) (q : Request)
      → HttpRequest.create lib text s ≡ returns r t
      → lib.parse_request text ≡ some q
      → IsSorted r.headers × (lookup k r.headers ≡ forwarded_value k q.headers)
  create-lookup text k s t r q e p =
      let b = create-Built text s t r e in
      let h : r.headers ≡ add_headers q.headers [] = ground (arith, b.headers, b.parsed_eq) in
      (
        rw h (add_headers-IsSorted q.headers [] tt),
        ap (lookup k) h ∙ lookup-add_headers k q.headers,
      )

  same_text :
      (r r' : HttpRequest lib) (s : S)
      → r.method ≡ r'.method
      → r.version_major ≡ r'.version_major
      → r.version_minor ≡ r'.version_minor
      → lib.is_valid r.url ≡ lib.is_valid r'.url
      → lib.path r.url ≡ lib.path r'.url
      → r.headers ≡ r'.headers
      → HttpRequest.to_string lib r s ≡ HttpRequest.to_string lib r' s
  unfolding HttpRequest.to_string HttpRequest.valid_url
  same_text r r' s m ma mi v pa h = rw (v, pa, HttpRequest.to_string, m, ma, mi, h) refl

  -- Two texts with the same method and version, URLs that are as valid as each other and have the same
  -- path, and the same value to forward under every name give requests with the same text: neither the
  -- order of the headers, nor those that are removed, nor the rest of the URL counts.
  pub to_string-create :
      (text text' : Str) (s t t' : S) (r r' : HttpRequest lib) (q q' : Request)
      → HttpRequest.create lib text s ≡ returns r t
      → HttpRequest.create lib text' s ≡ returns r' t'
      → lib.parse_request text ≡ some q
      → lib.parse_request text' ≡ some q'
      → q.method ≡ q'.method
      → q.version_major ≡ q'.version_major
      → q.version_minor ≡ q'.version_minor
      → lib.is_valid r.url ≡ lib.is_valid r'.url
      → lib.path r.url ≡ lib.path r'.url
      → ((k : Str) → forwarded_value k q.headers ≡ forwarded_value k q'.headers)
      → HttpRequest.to_string lib r s ≡ HttpRequest.to_string lib r' s
  to_string-create text text' s t t' r r' q q' e e' p p' m ma mi v pa h =
      let b = create-Built text s t r e in
      let b' = create-Built text' s t' r' e' in
      let x : b.parsed ≡ q = ground (arith, b.parsed_eq) in
      let x' : b'.parsed ≡ q' = ground (arith, b'.parsed_eq) in
      let g : r.headers ≡ r'.headers =
        eq_of_lookup r.headers r'.headers (create-lookup text [] s t r q e p).0
          (create-lookup text' [] s t' r' q' e' p').0
          (λ k.
            (create-lookup text k s t r q e p).1
            ∙ h k
            ∙ sym (create-lookup text' k s t' r' q' e' p').1) in
      same_text r r' s (ground (arith, b.method, b'.method))
        (ground (arith, b.version_major, b'.version_major))
        (ground (arith, b.version_minor, b'.version_minor)) v pa g
