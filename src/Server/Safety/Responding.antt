-- ===== src/Server/Safety/Responding.antt =====
-- Lemmas on the handlers of src/server.cpp that read and send the request.
use spx.Prelude.{Str, ℕ, ◌≡◌, refl, true, some, if◌then◌else◌, arith}
use spx.Outcome.{◌>>=◌, ◌>>◌, Outcome, throw, is_exception, or_handle, catch_exception}
use spx.Outcome.Ends.{Ends, Ends-mono, threw, and_then-Ends, or_handle-Ends, if-Ends}
use spx.Cache.Methods
use spx.Net.Sys.{Sys}
use spx.Net.Harmless.{send_string-Harmless, shutdown_write-Harmless}
use spx.Http.Parser.{Parser}
use spx.Clients.Client
use spx.Clients.Client.{Client, State, same_client}
use spx.Clients.ClientsList.{find_client}
use spx.Clients.Harmless.{get_http_request-Ends, Same}
use spx.Server.State.{on_host, Server, change}
use spx.Server.Requests.{has_clients_with_request}
use spx.Server.Connect.{prepare_for_sending_request}
use spx.Server.Discard.{discard_client}
use spx.Server.Sharing.{set_client_to_get_response_from_cache}
use spx.Server.Response.{read_request_from_client, send_request_to_server}
use spx.Server.Safety.Slots.{Live}
use spx.Server.Safety.Invariant.{Inv, After, After-refl}
use spx.Net.ActiveSocket
use spx.Server.Safety.Tame.{
  Tame, needs_server, Wired, Wired-Live, Wired-found, advance-Tame, Ready, is_new,
}
use spx.Server.Safety.Steps.{
  Safe, on_host-Safe, on_client-Safe, load-Safe, change-Safe, change-Ready, keep-Wired, rebase,
}
use spx.Server.Safety.Connecting.{prepare_for_sending_request-Ready, server_connection-Safe}
use spx.Server.Safety.Listing.{add_to_request_clients-Safe}
use spx.Server.Safety.Discarding.{discard_client-Ends}
use spx.Server.Safety.Sharing.{set_client_to_get_response_from_cache-Ready}

-- A call that ends with the invariant, whether it returns or throws.
abbrev pub Handled : {lib : Parser} {W : Type 0} {A : Type 0} → Outcome (Server lib W) A → Type 0
Handled = Ends (λ a t. Inv t) Inv

-- A client that has not read its request is in no list, and reading it keeps its state.
new-Tame : {lib : Parser} {c d : Client lib} → Same c d → is_new c.state ≡ true → Tame c d
new-Tame k n = record {
  steady = record {
    id = k.id;
    client_connection = k.client_connection;
    listed = λ m. ground arith;
  };
  joined = λ j m. ground (arith, k.state, k.server_connection, j (ground (arith, k.state)));
  wired = λ w. ground (arith, k.server_connection);
}

module _ {lib : Parser} {W : Type 0} (sys : Sys W) {base : Server lib W} where
  -- The handler that discards the client, after a throw that left it alive.
  pub or_discard-Handled :
      (id : ℕ) {m : Outcome (Server lib W) (Unit {0})}
      → Live id base.clients.slots
      → Ends (λ u t. Inv t) (After base) m
      → Handled (or_handle m (catch_exception (discard_client sys id)))
  or_discard-Handled id l h = or_handle-Ends _ h λ e t a.
      if-Ends (is_exception e) (discard_client sys id) (throw e) t
        (λ q. Ends-mono (discard_client-Ends sys id t l a) (λ u v k. k) (λ v k. k.inv))
        (λ q. threw a.inv)

  abbrev pub after_inv :
      {m : Outcome (Server lib W) (Unit {0})} → Safe base m → Ends (λ u t. Inv t) (After base) m
  after_inv h = Ends-mono h (λ u t k. k.inv) (λ t k. k)

  -- The branches on where the response comes from.
  choose_source-Ready :
      (id : ℕ) (client : Client lib) (s t : Server lib W)
      → Live id base.clients.slots
      → After base t
      → Ends
          (λ u v. After base v × Ready id v.clients.slots)
          (After base)
          ((if Methods.contains client.request_str s.cache
              then set_client_to_get_response_from_cache id
              else if has_clients_with_request client.request_str s
              then change id
                  (λ c. record c { state = State.waiting_for_response_for_another_client })
              else prepare_for_sending_request sys id)
            t)
  unfolding is_new needs_server
  choose_source-Ready id client s t l a =
      if-Ends (Methods.contains client.request_str s.cache) _ _ t
        (λ e. set_client_to_get_response_from_cache-Ready id t l a)
        (λ e.
          if-Ends (has_clients_with_request client.request_str s) _ _ t
            (λ q.
              change-Ready id _ t (λ c e. advance-Tame refl refl refl refl (λ m. cc) (λ w. w))
                (λ c. refl) l a)
            (λ q. prepare_for_sending_request-Ready sys id t l a))

module _ {lib : Parser} {W : Type 0} (sys : Sys W) where
  pub read_request_from_client-Handled :
      (id : ℕ) (s : Server lib W) (c : Client lib)
      → find_client id s.clients.slots ≡ some c
      → is_new c.state ≡ true
      → Inv s
      → Handled (read_request_from_client sys id s)
  unfolding read_request_from_client
  read_request_from_client-Handled id s c f n v =
      or_discard-Handled sys {base = s} id (c, f)
        (after_inv sys (
          and_then-Ends _
            (on_client-Safe {base = s} id (Client.get_http_request sys) s
              (λ d h g.
                let new : is_new d.state ≡ true = ground arith in
                Ends-mono (get_http_request-Ends sys (record { client = d; host = h }))
                  (λ u t k. new-Tame k new) (λ t k. new-Tame k new))
              (c, f) (After-refl s v))
            λ u t a. and_then-Ends _ (load-Safe id t (a.alive id (c, f)) a) λ client t1 q.
              and_then-Ends _ (choose_source-Ready sys id client t1 t1 (c, f) q.0) λ u1 t2 k.
                rebase k.0 (add_to_request_clients-Safe id t2 k.1 (After-refl t2 k.0.inv))))

  sent_request-Safe :
      {base : Server lib W} (id : ℕ) (conn : ActiveSocket.ActiveSocket) (text : Str)
      (s : Server lib W)
      → Wired id s.clients.slots
      → After base s
      → Safe base (
          (do
            _ ← on_host (ActiveSocket.send_string sys conn text)
            on_host (ActiveSocket.shutdown_write sys conn)
            change id (λ c. record c { state = State.waiting_response_status_code }))
            s)
  unfolding is_new needs_server
  sent_request-Safe id conn text s w a =
      and_then-Ends _
        (keep-Wired id a w
          (on_host-Safe _ s (send_string-Harmless sys conn text) (After-refl s a.inv)))
        λ n t b.
          and_then-Ends _
            (keep-Wired id b.0 b.1
              (on_host-Safe _ t (shutdown_write-Harmless sys conn) (After-refl t b.0.inv)))
            λ u v k.
              change-Safe id _ v
                (λ c e. advance-Tame refl refl refl refl (λ m. Wired-found id _ c k.1 e) (λ w'. w'))
                (Wired-Live _ _ k.1) k.0

  pub send_request_to_server-Handled :
      (id : ℕ) (s : Server lib W)
      → Wired id s.clients.slots
      → Inv s
      → Handled (send_request_to_server sys id s)
  unfolding send_request_to_server
  send_request_to_server-Handled id s w v =
      let l = Wired-Live id s.clients.slots w in
      or_discard-Handled sys {base = s} id l (
        after_inv sys (
          and_then-Ends _ (load-Safe id s l (After-refl s v)) λ client t q.
            and_then-Ends _ (server_connection-Safe sys client.server_connection t q.0)
              λ conn t1 a. sent_request-Safe id conn client.request_str t1 (a.wired id w) a))
