-- ===== src/Clients/Onward.antt =====
-- The allocator goes on in the methods of src/clients_list.cpp too, and a method keeps its object.
use spx.Prelude.{
  ◌==◌, ltb, ◌≤◌, ◌<◌, arith, take, ℕ, zero, suc, ◌≡◌, List, [], ◌∷◌, Option, none, some, Str,
  length, ◌+◌,
}
use spx.Outcome.{pure, throw, exception, M}
use spx.Outcome.Kept.{
  Kept, kept_returns, kept_throws, kept_fault, kept_rules, Kept-and_then, Kept-option, Kept-within,
  Kept-test, Kept-if,
}
use spx.Net.Sys.{Sys, Host}
use spx.Net.ActiveSocket
use spx.Net.ActiveSocket.{ActiveSocket}
use spx.Net.Onward.{From, destroy-Onward, send-Onward, receive-Onward}
use spx.Http.Parser.{Parser}
use spx.Http.HttpRequest
use spx.Http.HttpRequest.{HttpRequest}
use spx.Clients.Reading
use spx.Clients.Reading.{
  read_loop, read_http_request, overwrite, strncpy, strstr_terminator, max_request_size,
}
use spx.Clients.Client
use spx.Clients.Client.{Client, Self}

module _ {W : Type 0} (sys : Sys W) (n : ℕ) where
  pub destroy_connection-Onward :
      (s : Option ActiveSocket) (h : Host W)
      → From n h
      → Kept (From n) (Client.destroy_connection sys s h)
  destroy_connection-Onward none h k = kept_returns k
  destroy_connection-Onward (some s) h k = destroy-Onward sys n s h k

  pub destroy_client-Onward :
      {lib : Parser} (c : Client lib) (h : Host W)
      → From n h
      → Kept (From n) (Client.destroy sys c h)
  unfolding Client.destroy
  destroy_client-Onward c h k = search (kept_rules, destroy_connection-Onward, destroy-Onward)

  search-Onward :
      (s : ActiveSocket) (array : List ℕ) (h : Host W)
      → From n h
      → Kept (From n) (Reading.search sys s array h)
  unfolding Reading.search
  search-Onward s array h k =
      Kept-option (strstr_terminator array) _ _ _ (kept_fault tt) (λ b. kept_returns k)

  read_loop-Onward :
      (s : ActiveSocket) (fuel : ℕ) (array : List ℕ) (written : ℕ) (h : Host W)
      → written ≤ max_request_size
      → max_request_size < written + fuel
      → From n h
      → Kept (From n) (read_loop sys s fuel array written h)
  unfolding read_loop
  read_loop-Onward s zero array written h l f k = absurd (omega arith)
  read_loop-Onward s (suc fuel) array written h l f k =
      Kept-and_then _ _ (receive-Onward sys n s Reading.bufsiz h k) λ message d q.
        let size = length message in
        let next = overwrite written (strncpy message) array in
        let again = read_loop sys s fuel next (written + size) in
        Kept-test (size == 0) (pure (take written array)) _ d (λ e. kept_returns q)
          λ e.
            Kept-test (ltb max_request_size (written + size)) (throw exception) _ d
              (λ r. kept_throws q)
              λ r. Kept-and_then _ _ (search-Onward s next d q) λ found t v.
                Kept-if found (pure (take (written + size) next)) again t (kept_returns v)
                  (read_loop-Onward s fuel next (written + size) t (ground arith) (ground arith) v)

  read_http_request-Onward :
      (s : ActiveSocket) (h : Host W) → From n h → Kept (From n) (read_http_request sys s h)
  unfolding read_http_request
  read_http_request-Onward s h k =
      read_loop-Onward s (suc (suc max_request_size)) (sys.stack h.world) 0 h (omega arith)
        (omega arith) k

-- Building and printing a request leave the state as it is.
module _ (lib : Parser) {S : Type 0} (P : S → Type 0) where
  create-Kept : (text : Str) (s : S) → P s → Kept P (HttpRequest.create lib text s)
  unfolding HttpRequest.create HttpRequest.parse HttpRequest.parse_request_str HttpRequest.parse_url
  create-Kept text s p =
      Kept-and_then _ _
        (Kept-option (lib.parse_request text) _ _ _ (kept_throws p) (λ r. kept_returns p))
        λ r t q.
          Kept-and_then _ _
            (Kept-option (lib.parse_url r.uri) _ _ _ (kept_fault tt) (λ u. kept_returns q))
            λ u v k. kept_returns k

  pub valid_url-Kept :
      {A : Type 0} (f : lib.Url → A) (u : lib.Url) (s : S)
      → P s
      → Kept P (HttpRequest.valid_url lib f u s)
  unfolding HttpRequest.valid_url
  valid_url-Kept f u s p = search kept_rules

  to_string-Kept : (r : HttpRequest lib) (s : S) → P s → Kept P (HttpRequest.to_string lib r s)
  unfolding HttpRequest.to_string
  to_string-Kept r s p = search (kept_rules, valid_url-Kept)

-- The object is the one at the address `i`.
abbrev pub At : {lib : Parser} {W : Type 0} → ℕ → ℕ → Self lib W → Type 0
At n i s = (s.client.id ≡ i) × From n s.host

module _ {lib : Parser} {W : Type 0} (sys : Sys W) (n i : ℕ) where
  on_host-At :
      {A : Type 0} (m : M (Host W) A) (s : Self lib W)
      → ((h : Host W) → From n h → Kept (From n) (m h))
      → At n i s
      → Kept (At n i) (Client.on_host sys m s)
  on_host-At m s go k = Kept-within _ (m s.host) (go s.host k.1) (λ t q. (k.0, q))

  pub get_http_request-At :
      (s : Self lib W) → At n i s → Kept (At n i) (Client.get_http_request sys s)
  unfolding Client.get_http_request
  get_http_request-At s k =
      Kept-and_then _ _
        (on_host-At (read_http_request sys s.client.client_connection) s
          (read_http_request-Onward sys n s.client.client_connection) k)
        λ text t q. Kept-and_then _ _ (create-Kept lib (At n i) text t q) λ r v j.
          Kept-and_then _ _ (to_string-Kept lib (At n i) r _ (j.0, j.1))
            λ a w l. kept_returns (l.0, l.1)

  pub send_to_client-At :
      (chunk : List ℕ) (s : Self lib W)
      → At n i s
      → Kept (At n i) (Client.send_to_client sys chunk s)
  unfolding Client.send_to_client
  send_to_client-At chunk s k =
      Kept-and_then _ _
        (on_host-At (ActiveSocket.send sys s.client.client_connection chunk) s
          (send-Onward sys n s.client.client_connection chunk) k)
        λ m t q. kept_returns (q.0, q.1)

  front-At :
      (chunks : List (List ℕ)) (s : Self lib W)
      → At n i s
      → Kept (At n i) (Client.front sys chunks s)
  unfolding Client.front
  front-At [] s k = (kept_fault tt)
  front-At (chunk ∷ rest) s k = kept_returns k

  pub send_to_client_from_chunks-At :
      (s : Self lib W) → At n i s → Kept (At n i) (Client.send_to_client_from_chunks sys s)
  unfolding Client.send_to_client_from_chunks
  send_to_client_from_chunks-At s k = Kept-and_then _ _ (front-At s.client.chunks s k) λ chunk t q.
      Kept-and_then _ _ (send_to_client-At chunk _ (q.0, q.1)) λ m v j. search kept_rules
