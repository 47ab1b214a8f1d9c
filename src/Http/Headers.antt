-- ===== src/Http/Headers.antt =====
-- The headers that src/http/http_request.cpp keeps of a request.
use spx.Prelude.{◌≡◌, refl, true, false, [], ◌∷◌, Str, Bool-cases, inl, inr, arith}
use spx.Outcome.{returns}
use spx.Http.Parser.{Parser}
use spx.Http.Text.{create-Built}
use spx.Http.HttpRequest
use spx.Http.HttpRequest.{
  Headers, HttpRequest, headers_to_remove, connection, close_value, is_listed, str_eq, str_lt,
  insert_or_assign, add_header, add_headers,
}

-- A header that the proxy may forward: none of those to remove, and a `Connection` that closes.
abbrev pub Forwardable : Str → Str → Type 0
Forwardable name value =
    (is_listed name headers_to_remove ≡ false)
    × (str_eq name connection ≡ true → value ≡ close_value)

abbrev pub AllForwardable : Headers → Type 0
AllForwardable [] = Unit
AllForwardable ((name, value) ∷ l) = Forwardable name value × AllForwardable l

insert_or_assign-AllForwardable :
    (name value : Str) (l : Headers)
    → Forwardable name value
    → AllForwardable l
    → AllForwardable (insert_or_assign name value l)
unfolding insert_or_assign
insert_or_assign-AllForwardable name value [] f a = (f, tt)
insert_or_assign-AllForwardable name value ((n, v) ∷ l) f a = elim (Bool-cases (str_lt name n)) [
  | inl e ↦ rw (e, insert_or_assign) (f, a)
  | inr e ↦ elim (Bool-cases (str_lt n name)) [
    | inl q ↦ rw (e, insert_or_assign, q) (a.0, insert_or_assign-AllForwardable name value l f a.1)
    | inr q ↦ rw (e, insert_or_assign, q) (f, a.1)
  ]
]

add_header-AllForwardable :
    (name value : Str) (l : Headers)
    → AllForwardable l
    → AllForwardable (add_header (name, value) l)
unfolding add_header
add_header-AllForwardable name value l a = elim (Bool-cases (is_listed name headers_to_remove)) [
  | inl e ↦ rw (e, add_header) a
  | inr e ↦ elim (Bool-cases (str_eq name connection)) [
    | inl q ↦
        rw (e, add_header, q) (insert_or_assign-AllForwardable name close_value l (e, λ h. refl) a)
    | inr q ↦
        rw (e, add_header, q)
          (insert_or_assign-AllForwardable name value l (e, λ h. ground arith) a)
  ]
]

add_headers-AllForwardable : (hs l : Headers) → AllForwardable l → AllForwardable (add_headers hs l)
unfolding add_headers
add_headers-AllForwardable [] l a = a
add_headers-AllForwardable ((name, value) ∷ hs) l a =
    add_headers-AllForwardable hs (add_header (name, value) l)
      (add_header-AllForwardable name value l a)

module _ (lib : Parser) {S : Type 0} where
  -- A request that is built from a text has no header that is to be removed, and each of its
  -- `Connection` headers says `close`, whatever the parser found in the text.
  pub create-AllForwardable :
      (text : Str) (s t : S) (r : HttpRequest lib)
      → HttpRequest.create lib text s ≡ returns r t
      → AllForwardable r.headers
  create-AllForwardable text s t r e =
      let b = create-Built lib text s t r e in
      rw b.headers (add_headers-AllForwardable b.parsed.headers [] tt)
