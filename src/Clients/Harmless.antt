-- ===== src/Clients/Harmless.antt =====
-- What the methods of `Client` of src/clients_list.cpp leave of the client, and that they know of no
-- other.
use spx.Prelude.{
  ℕ, zero, suc, ◌+◌, ◌≡◌, refl, ◌∙◌, ◌==◌, ltb, length, take, Bool, List, [], ◌∷◌, Option, none,
  some, Str, inl, inr, Option-cases, Bool-cases, if◌then◌else◌,
}
use spx.Outcome.{exception, pure, fail, out_of_bounds, throw}
use spx.Outcome.Ends.{
  Harmless, Ends, if-Ends, returned, threw, faulted, and_then-Ends, within-Ends, and_then-Harmless,
  if-Harmless,
}
use spx.Net.Sys.{Sys, Host}
use spx.Net.ActiveSocket
use spx.Net.ActiveSocket.{ActiveSocket}
use spx.Net.Harmless.{send-Harmless, receive-Harmless, destroy-Harmless, destroy-Ends}
use spx.Http.Parser.{Parser}
use spx.Http.HttpRequest
use spx.Http.HttpRequest.{HttpRequest}
use spx.Clients.Reading
use spx.Clients.Reading.{
  read_loop, read_http_request, overwrite, strncpy, strstr_terminator, max_request_size,
}
use spx.Clients.Client
use spx.Clients.Client.{Client, Self, State}

module _ {W : Type 0} (sys : Sys W) where
  search-Harmless :
      (s : ActiveSocket) (array : List ℕ) (h : Host W) → Harmless (Reading.search sys s array h)
  unfolding Reading.search
  search-Harmless s array h = elim (Option-cases (strstr_terminator array)) [
    | inl e ↦ rw (e, Reading.search) tt
    | inr (b, e) ↦ rw (e, Reading.search) tt
  ]

  read_loop-Harmless :
      (s : ActiveSocket) (fuel : ℕ) (array : List ℕ) (written : ℕ) (h : Host W)
      → Harmless (read_loop sys s fuel array written h)
  unfolding read_loop
  read_loop-Harmless s zero array written h = tt
  read_loop-Harmless s (suc fuel) array written h =
      and_then-Harmless _ _ (receive-Harmless sys s Reading.bufsiz h) λ message d.
        let size = length message in
        let next = overwrite written (strncpy message) array in
        let again = read_loop sys s fuel next (written + size) in
        let found_or_again =
          λ (found : Bool). if found then pure (take (written + size) next) else again in
        if-Harmless (size == 0) (pure (take written array)) _ d tt (
          if-Harmless (ltb max_request_size (written + size)) (throw exception) _ d tt (
            and_then-Harmless (Reading.search sys s next d) found_or_again
              (search-Harmless s next d)
              λ found e.
                if-Harmless found (pure (take (written + size) next)) again e tt
                  (read_loop-Harmless s fuel next (written + size) e)))

  pub read_http_request-Harmless :
      (s : ActiveSocket) (h : Host W) → Harmless (read_http_request sys s h)
  unfolding read_http_request
  read_http_request-Harmless s h =
      read_loop-Harmless s (suc (suc max_request_size)) (sys.stack h.world) 0 h

  pub destroy_connection-Harmless :
      (s : Option ActiveSocket) (h : Host W) → Harmless (Client.destroy_connection sys s h)
  destroy_connection-Harmless none h = tt
  destroy_connection-Harmless (some s) h = destroy-Harmless sys s h

  destroy_connection-Ends :
      (s : Option ActiveSocket) (h : Host W)
      → Ends (λ u t. Unit {0}) (λ t. ⊥) (Client.destroy_connection sys s h)
  destroy_connection-Ends none h = returned tt
  destroy_connection-Ends (some s) h = destroy-Ends sys s h

  pub destroy_client-Ends :
      {lib : Parser} (c : Client lib) (h : Host W)
      → Ends (λ u t. Unit {0}) (λ t. ⊥) (Client.destroy sys c h)
  unfolding Client.destroy
  destroy_client-Ends c h =
      and_then-Ends _ (destroy_connection-Ends c.server_connection h)
        λ u d q. destroy-Ends sys c.client_connection d

-- Building and printing a request leave the state as it is.
module _ (lib : Parser) {S : Type 0} (P : S → Type 0) where
  parse_request_str-Ends :
      (text : Str) (s : S) → P s → Ends (λ r t. P t) P (HttpRequest.parse_request_str lib text s)
  unfolding HttpRequest.parse_request_str
  parse_request_str-Ends text s p = elim (Option-cases (lib.parse_request text)) [
    | inl e ↦ rw (e, HttpRequest.parse_request_str) (threw p)
    | inr (r, e) ↦ rw (e, HttpRequest.parse_request_str) (returned p)
  ]

  parse_url-Ends : (uri : Str) (s : S) → P s → Ends (λ u t. P t) P (HttpRequest.parse_url lib uri s)
  unfolding HttpRequest.parse_url
  parse_url-Ends uri s p = elim (Option-cases (lib.parse_url uri)) [
    | inl e ↦ rw (e, HttpRequest.parse_url) (faulted tt)
    | inr (u, e) ↦ rw (e, HttpRequest.parse_url) (returned p)
  ]

  pub create-Ends : (text : Str) (s : S) → P s → Ends (λ r t. P t) P (HttpRequest.create lib text s)
  unfolding HttpRequest.create HttpRequest.parse
  create-Ends text s p =
      and_then-Ends _ (parse_request_str-Ends text s p)
        λ r t q. and_then-Ends _ (parse_url-Ends r.uri t q) λ u v k. returned k

  pub valid_url-Ends :
      {A : Type 0} (f : lib.Url → A) (u : lib.Url) (s : S)
      → P s
      → Ends (λ a t. P t) P (HttpRequest.valid_url lib f u s)
  unfolding HttpRequest.valid_url
  valid_url-Ends f u s p = elim (Bool-cases (lib.is_valid u)) [
    | inl e ↦ rw (e, HttpRequest.valid_url) (returned p)
    | inr e ↦ rw (e, HttpRequest.valid_url) (faulted tt)
  ]

  pub to_string-Ends :
      (r : HttpRequest lib) (s : S) → P s → Ends (λ a t. P t) P (HttpRequest.to_string lib r s)
  unfolding HttpRequest.to_string
  to_string-Ends r s p = and_then-Ends _ (valid_url-Ends lib.path r.url s p) λ path t q. returned q

-- A method keeps the object, its connection and its state; `SameRequest` also the request.
pub record Same {lib : Parser} (c d : Client lib) : Type 0 where
  pub id : d.id ≡ c.id
  pub client_connection : d.client_connection ≡ c.client_connection
  pub state : d.state ≡ c.state
  pub server_connection : d.server_connection ≡ c.server_connection

pub record SameRequest {lib : Parser} (c d : Client lib) : Type 0 where
  pub same : Same c d
  pub request_str : d.request_str ≡ c.request_str

abbrev pub Keeps : {lib : Parser} {W : Type 0} → Client lib → Self lib W → Type 0
Keeps c s = SameRequest c s.client

abbrev pub itself : {lib : Parser} (c : Client lib) → SameRequest c c
itself c = record {
  same = record { id = refl; client_connection = refl; state = refl; server_connection = refl };
  request_str = refl;
}

-- A change to other fields.
edit :
    {lib : Parser} {c d e : Client lib}
    → SameRequest c d
    → e.id ≡ d.id
    → e.client_connection ≡ d.client_connection
    → e.state ≡ d.state
    → e.server_connection ≡ d.server_connection
    → e.request_str ≡ d.request_str
    → SameRequest c e
edit k i n a v r = record {
  same = record {
    id = i ∙ k.same.id;
    client_connection = n ∙ k.same.client_connection;
    state = a ∙ k.same.state;
    server_connection = v ∙ k.same.server_connection;
  };
  request_str = r ∙ k.request_str;
}

module _ {lib : Parser} {W : Type 0} (sys : Sys W) where
  pub get_http_request-Ends :
      (s : Self lib W)
      → Ends
          (λ u t. Same s.client t.client)
          (λ t. Same s.client t.client)
          (Client.get_http_request sys s)
  unfolding Client.get_http_request
  get_http_request-Ends s =
      and_then-Ends _
        (within-Ends {P = P} _ (read_http_request sys s.client.client_connection s.host)
          (read_http_request-Harmless sys s.client.client_connection s.host)
          (λ t. (itself s.client).same))
        λ text t q. and_then-Ends _ (create-Ends lib P text t q) λ r v k.
          and_then-Ends _
            (to_string-Ends lib P r _ (record {
              id = k.id;
              client_connection = k.client_connection;
              state = k.state;
              server_connection = k.server_connection;
            }))
            λ a w l. returned (record {
              id = l.id;
              client_connection = l.client_connection;
              state = l.state;
              server_connection = l.server_connection;
            })
    where
      P : Self lib W → Type 0
      P t = Same s.client t.client

  pub send_to_client-Ends :
      (chunk : List ℕ) (c : Client lib) (s : Self lib W)
      → Keeps c s
      → Ends (λ n t. Keeps c t) (Keeps c) (Client.send_to_client sys chunk s)
  unfolding Client.send_to_client
  send_to_client-Ends chunk c s k =
      and_then-Ends _
        (within-Ends {P = Keeps c} _ (ActiveSocket.send sys s.client.client_connection chunk s.host)
          (send-Harmless sys s.client.client_connection chunk s.host)
          (λ t. edit k refl refl refl refl refl))
        λ n t q. returned (edit q refl refl refl refl refl)

  front-Ends :
      (chunks : List (List ℕ)) (c : Client lib) (s : Self lib W)
      → Keeps c s
      → Ends (λ chunk t. Keeps c t) (Keeps c) (Client.front sys chunks s)
  unfolding Client.front
  front-Ends [] c s k = faulted tt
  front-Ends (chunk ∷ rest) c s k = returned k

  pub send_to_client_from_chunks-Ends :
      (c : Client lib) (s : Self lib W)
      → Keeps c s
      → Ends (λ u t. Keeps c t) (Keeps c) (Client.send_to_client_from_chunks sys s)
  unfolding Client.send_to_client_from_chunks
  send_to_client_from_chunks-Ends c s h =
      and_then-Ends _ (front-Ends s.client.chunks c s h) λ chunk t q.
        and_then-Ends _ (send_to_client-Ends chunk c _ (edit q refl refl refl refl refl)) λ n v k.
          if-Ends (n == length chunk) (pure tt) _ v (λ e. returned k)
            (λ e.
              if-Ends (ltb n (length chunk)) _ (fail out_of_bounds) v
                (λ e'. returned (edit k refl refl refl refl refl)) (λ e'. faulted tt))
