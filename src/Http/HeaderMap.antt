-- ===== src/Http/HeaderMap.antt =====
-- The map of headers of src/http/http_request.cpp: its order, and the value under each name.
use spx.Prelude.{
  ◌≡◌, refl, sym, ◌∙◌, true, [], ◌∷◌, Option, none, some, ite, if◌then◌else◌, Str, str_discrete,
  Bool-cases, inl, inr, arith,
}
use spx.Dict.{lookup}
use spx.Http.HttpRequest.{
  Headers, headers_to_remove, connection, close_value, is_listed, str_eq, str_lt, insert_or_assign,
  add_header, add_headers,
}
use spx.Http.Order.{str_lt_irrefl, str_lt_trans, str_eq_of_lt}

-- All names come after that one; the names ascend.
abbrev pub Above : Str → Headers → Type 0
Above name [] = Unit
Above name ((n, v) ∷ l) = (str_lt name n ≡ true) × Above name l

abbrev pub IsSorted : Headers → Type 0
IsSorted [] = Unit
IsSorted ((n, v) ∷ l) = Above n l × IsSorted l

Above-trans : (m n : Str) (l : Headers) → str_lt m n ≡ true → Above n l → Above m l
Above-trans m n [] h a = tt
Above-trans m n ((k, v) ∷ l) h a = (str_lt_trans m n k h a.0, Above-trans m n l h a.1)

insert_or_assign-Above :
    (m name value : Str) (l : Headers)
    → str_lt m name ≡ true
    → Above m l
    → Above m (insert_or_assign name value l)
unfolding insert_or_assign
insert_or_assign-Above m name value [] h a = (h, tt)
insert_or_assign-Above m name value ((n, v) ∷ l) h a =
    ground (arith, insert_or_assign-Above m name value l)

insert_or_assign-IsSorted :
    (name value : Str) (l : Headers) → IsSorted l → IsSorted (insert_or_assign name value l)
unfolding insert_or_assign
insert_or_assign-IsSorted name value [] s = (tt, tt)
insert_or_assign-IsSorted name value ((n, v) ∷ l) s = elim (Bool-cases (str_lt name n)) [
  | inl e ↦ rw (e, insert_or_assign) ((e, Above-trans name n l e s.0), s)
  | inr e ↦ elim (Bool-cases (str_lt n name)) [
    | inl f ↦
        rw (e, insert_or_assign, f)
          (insert_or_assign-Above n name value l f s.0, insert_or_assign-IsSorted name value l s.1)
    | inr f ↦
        let same : n ≡ name = str_eq_of_lt n name f e in rw (e, insert_or_assign, f) (rw same at s)
  ]
]

lookup-insert_or_assign :
    (k name value : Str) (l : Headers)
    → lookup k (insert_or_assign name value l) ≡ ite (str_discrete name k) (some value) (lookup k l)
unfolding insert_or_assign lookup
lookup-insert_or_assign k name value [] = refl
lookup-insert_or_assign k name value ((n, v) ∷ l) =
    ground (arith, lookup-insert_or_assign k name value l, str_eq_of_lt name n)

pub add_headers-IsSorted : (hs l : Headers) → IsSorted l → IsSorted (add_headers hs l)
unfolding add_headers add_header
add_headers-IsSorted [] l s = s
add_headers-IsSorted ((name, value) ∷ hs) l s =
    add_headers-IsSorted hs (add_header (name, value) l)
      (elim (Bool-cases (is_listed name headers_to_remove)) [
        | inl e ↦ rw (e, add_header) s
        | inr e ↦ rw (e, add_header) (insert_or_assign-IsSorted name _ l s)
      ])

-- The reference: the last value of a name in the text, unless the name is to be removed; that of
-- `Connection` is `close`.
abbrev pub or_else : Option Str → Option Str → Option Str
or_else none d = d
or_else (some v) d = some v

abbrev pub last_value : Str → Headers → Option Str
last_value k [] = none
last_value k ((n, v) ∷ l) = or_else (last_value k l) (if str_eq n k then some v else none)

abbrev pub kept_value : Str → Option Str → Option Str
kept_value k none = none
kept_value k (some v) = some (if str_eq k connection then close_value else v)

abbrev pub forwarded_value : Str → Headers → Option Str
forwarded_value k hs =
    if is_listed k headers_to_remove then none else kept_value k (last_value k hs)

str_eq_same : (s t : Str) → str_eq s t ≡ true → s ≡ t
unfolding str_eq
str_eq_same s t e = elim (str_discrete s t) [ yes p ↦ p | no n ↦ ground arith ]

str_eq_refl : (s : Str) → str_eq s s ≡ true
unfolding str_eq
str_eq_refl s = ground arith

lookup-insert :
    (k name value : Str) (l : Headers)
    → lookup k (insert_or_assign name value l)
      ≡ or_else (if str_eq name k then some value else none) (lookup k l)
unfolding str_eq
lookup-insert k name value l = ground (arith, lookup-insert_or_assign k name value l)

lookup-add_header :
    (k name value : Str) (l : Headers)
    → lookup k (add_header (name, value) l)
      ≡ or_else (forwarded_value k ((name, value) ∷ [])) (lookup k l)
unfolding add_header
lookup-add_header k name value l = elim (Bool-cases (str_eq name k)) [
  | inl e ↦
      let same : name ≡ k = str_eq_same name k e in
      elim (Bool-cases (is_listed k headers_to_remove)) [
        | inl r ↦ rw (same, add_header, r) refl
        | inr r ↦ rw (same, add_header, r, lookup-insert k k _ l, str_eq_refl k) refl
      ]
  | inr e ↦ elim (Bool-cases (is_listed name headers_to_remove)) [
    | inl r ↦ rw (e, add_header, r) (ground arith)
    | inr r ↦ rw (add_header, r, lookup-insert k name _ l, e) (ground arith)
  ]
]

lookup-add_headers_from :
    (k : Str) (hs l : Headers)
    → lookup k (add_headers hs l) ≡ or_else (forwarded_value k hs) (lookup k l)
unfolding add_headers
lookup-add_headers_from k [] l = ground arith
lookup-add_headers_from k ((name, value) ∷ hs) l =
    lookup-add_headers_from k hs (add_header (name, value) l)
    ∙ ground (arith, lookup-add_header k name value l)

pub lookup-add_headers :
    (k : Str) (hs : Headers) → lookup k (add_headers hs []) ≡ forwarded_value k hs
unfolding lookup
lookup-add_headers k hs = ground (arith, lookup-add_headers_from k hs [])

lookup-Above : (n : Str) (l : Headers) → Above n l → lookup n l ≡ none
unfolding lookup
lookup-Above n [] a = refl
lookup-Above n ((m, v) ∷ l) a = ground (arith, lookup-Above n l, str_lt_irrefl n)

tail_lookup :
    (n p v w : Str) (l m : Headers)
    → n ≡ p
    → Above n l
    → Above p m
    → ((k : Str) → lookup k ((n, v) ∷ l) ≡ lookup k ((p, w) ∷ m))
    → (k : Str) → lookup k l ≡ lookup k m
unfolding lookup
tail_lookup n p v w l m e a b h k = elim (str_discrete n k) [
  | yes q ↦
      let qa : lookup k l ≡ none = rw (← q) (lookup-Above n l a) in
      let qb : lookup k m ≡ none = rw (← q, e) (lookup-Above p m b) in qa ∙ sym qb
  | no q ↦ ground (arith, h k)
]

-- A sorted map is its lookups.
pub eq_of_lookup :
    (l m : Headers) → IsSorted l → IsSorted m → ((k : Str) → lookup k l ≡ lookup k m) → l ≡ m
unfolding lookup
eq_of_lookup [] [] s t h = refl
eq_of_lookup [] ((n, v) ∷ m) s t h = ground (arith, h n)
eq_of_lookup ((n, v) ∷ l) [] s t h = ground (arith, h n)
eq_of_lookup ((n, v) ∷ l) ((p, w) ∷ m) s t h = elim (Bool-cases (str_lt n p)) [
  | inl e ↦ ground (arith, h n, lookup-Above n ((p, w) ∷ m) (e, Above-trans n p m e t.0))
  | inr e ↦ elim (Bool-cases (str_lt p n)) [
    | inl f ↦ ground (arith, h p, lookup-Above p ((n, v) ∷ l) (f, Above-trans p n l f s.0))
    | inr f ↦
        let same : n ≡ p = str_eq_of_lt n p e f in
        let rest : l ≡ m = eq_of_lookup l m s.1 t.1 (tail_lookup n p v w l m same s.0 t.0 h) in
        let value : v ≡ w = ground (arith, h n) in ground arith
  ]
]
