-- ===== src/Server/Safety/Connecting.antt =====
-- Lemmas on `connectToHost` and `prepareForSendingRequest` of src/server.cpp.
use spx.Prelude.{
  arith, true, ◌≡◌, ℕ, refl, ◌∷◌, [], List, Option, none, some, Str, inl, inr, Option-cases,
}
use spx.Prelude.Decimal.{to_string}
use spx.Outcome.{
  ◌>>◌, M, Exn, pure, catch_exception, exception, zero_length_message, all_in_use, key_not_found,
  invalid_argument, out_of_range,
}
use spx.Outcome.Ends.{
  threw, if-Ends, Harmless-Ends, within-Ends_post, Ends, Ends-mono, returned, faulted, Harmless,
  and_then-Ends, and_then-Harmless, or_handle-Harmless,
}
use spx.Net.Sys.{Addrinfo, Sys, Host}
use spx.Net.TcpSocket
use spx.Net.TcpSocket.{TcpSocket}
use spx.Net.ActiveSocket.{ActiveSocket}
use spx.Net.Harmless.{create_for-Harmless, connect-Harmless, destroy-Harmless, receive-Harmless}
use spx.Http.Parser.{Parser}
use spx.Clients.Client.{State, destroy_connection}
use spx.Clients.Harmless.{destroy_connection-Harmless, valid_url-Ends}
use spx.Server.State.{change, on_host, Server}
use spx.Server.Connect
use spx.Server.Connect.{
  connect_to, connect_to_first, connect_to_host, prepare_for_sending_request, read_response_chunk,
  max_chunk_size,
}
use spx.Server.Safety.Slots.{Live}
use spx.Server.Safety.Invariant.{After-refl, After}
use spx.Cache.Methods.{is_some}
use spx.Server.Safety.Tame.{needs_server, Wired-found, edit-Tame, advance-Tame, Ready, is_new}
use spx.Server.Safety.Steps.{
  host-After, Safe, on_host-Safe, load-Safe, change-Ready, change-Wired, keep-Wired,
}

module _ {W : Type 0} (sys : Sys W) where
  connect_to-Harmless : (p : Addrinfo) (h : Host W) → Harmless (connect_to sys p h)
  unfolding connect_to
  connect_to-Harmless p h = and_then-Harmless _ _ (create_for-Harmless sys p h) λ socket d.
      and_then-Harmless _ _
        (or_handle-Harmless _ _ (connect-Harmless sys socket p.ai_addr d)
          (λ e t. and_then-Harmless _ _ (destroy-Harmless sys socket t) λ u v. tt))
        λ u v. tt

  caught-Harmless :
      (e : Exn) (h : Host W) → Harmless (catch_exception {A = Option ActiveSocket} (pure none) e h)
  caught-Harmless exception h = tt
  caught-Harmless zero_length_message h = tt
  caught-Harmless all_in_use h = tt
  caught-Harmless key_not_found h = tt
  caught-Harmless invalid_argument h = tt
  caught-Harmless out_of_range h = tt

  next-Harmless :
      (res : Option ActiveSocket) (next : M (Host W) (Option ActiveSocket)) (h : Host W)
      → Harmless (next h)
      → Harmless (
          (elim res as (λ _. M (Host W) (Option ActiveSocket)) [
            | none ↦ next
            | some socket ↦ pure (some socket)
          ])
            h)
  next-Harmless none next h k = k
  next-Harmless (some socket) next h k = tt

  connect_to_first-Harmless : (l : List Addrinfo) (h : Host W) → Harmless (connect_to_first sys l h)
  unfolding connect_to_first
  connect_to_first-Harmless [] h = tt
  connect_to_first-Harmless (p ∷ rest) h =
      and_then-Harmless _ _ (or_handle-Harmless _ _ (connect_to-Harmless p h) caught-Harmless)
        λ res d. next-Harmless res _ d (connect_to_first-Harmless rest d)

  valid-fd : (s : TcpSocket) → TcpSocket.is_valid s ≡ true → is_some s.fd ≡ true
  unfolding TcpSocket.is_valid
  valid-fd s e = ground arith

  require_valid-Ends :
      (o : Option ActiveSocket) (h : Host W)
      → Ends (λ s t. is_some s.fd ≡ true) (λ t. Unit {0}) (Connect.require_valid sys o h)
  require_valid-Ends none h = threw tt
  require_valid-Ends (some s) h =
      if-Ends (TcpSocket.is_valid s.socket) (pure s) _ h (λ e. returned (valid-fd s.socket e))
        (λ e.
          and_then-Ends {Q = λ u t. Unit {0}} _ (Harmless-Ends (destroy-Harmless sys s h))
            λ u d q. threw tt)

  connect_to_host-Ends :
      (hostname port : Str) (h : Host W)
      → Ends (λ s t. is_some s.fd ≡ true) (λ t. Unit {0}) (connect_to_host sys hostname port h)
  unfolding connect_to_host
  connect_to_host-Ends hostname port h =
      elim (Option-cases (sys.getaddrinfo (some hostname) port h.world).0) [
        | inl e ↦ rw (e, connect_to_host) (threw tt)
        | inr (infos, e) ↦
            rw (e, connect_to_host)
              (and_then-Ends {Q = λ o t. Unit {0}} _
                (Harmless-Ends (connect_to_first-Harmless infos _)) λ o d q. require_valid-Ends o d)
      ]

  module _ {lib : Parser} {base : Server lib W} where
    connected-Ends :
        (hostname port : Str) (s : Server lib W)
        → After base s
        → Ends
            (λ conn t. After base t × (is_some conn.fd ≡ true))
            (After base)
            (on_host (connect_to_host sys hostname port) s)
    connected-Ends hostname port s a =
        within-Ends_post _ (connect_to_host-Ends hostname port s.clients.host)
          (λ conn h q. (host-After h s a, q)) (λ h q. host-After h s a)

    -- The new connection takes the place of the old one, and the client goes on.
    settle-Ready :
        (id : ℕ) (old : Option ActiveSocket) (connection : ActiveSocket) (s : Server lib W)
        → is_some connection.fd ≡ true
        → Live id base.clients.slots
        → After base s
        → Ends
            (λ u t. After base t × Ready id t.clients.slots)
            (After base)
            ((do
              change id (λ c. record c { server_connection = some connection })
              on_host (destroy_connection sys old)
              change id (λ c. record c { state = State.sending_request }))
              s)
    unfolding is_new needs_server
    settle-Ready id old connection s valid l a =
        and_then-Ends _
          (change-Wired id _ s (λ c e. edit-Tame refl refl refl refl (λ w. valid)) (λ c. valid) l a)
          λ u t b.
            and_then-Ends _
              (keep-Wired id b.0 b.1
                (on_host-Safe _ t (destroy_connection-Harmless sys old) (After-refl t b.0.inv)))
              λ u' v k.
                change-Ready id _ v
                  (λ c e. advance-Tame refl refl refl refl (λ m. Wired-found id _ c k.1 e) (λ w. w))
                  (λ c. refl) l k.0

    pub prepare_for_sending_request-Ready :
        (id : ℕ) (s : Server lib W)
        → Live id base.clients.slots
        → After base s
        → Ends
            (λ u t. After base t × Ready id t.clients.slots)
            (After base)
            (prepare_for_sending_request sys id s)
    unfolding prepare_for_sending_request is_new needs_server
    prepare_for_sending_request-Ready id s l a =
        and_then-Ends _ (load-Safe id s (a.alive id l) a) λ client t q.
          and_then-Ends _ (valid_url-Ends lib (After base) lib.hostname client.request.url t q.0)
            λ hostname t1 b.
              and_then-Ends _
                (valid_url-Ends lib (After base) lib.http_port client.request.url t1 b)
                λ port t2 c.
                  and_then-Ends _ (connected-Ends hostname (to_string port) t2 c) λ connection t3 d.
                    settle-Ready id client.server_connection connection t3 d.1 l d.0

    pub prepare_for_sending_request-Safe :
        (id : ℕ) (s : Server lib W)
        → Live id base.clients.slots
        → After base s
        → Safe base (prepare_for_sending_request sys id s)
    prepare_for_sending_request-Safe id s l a =
        Ends-mono (prepare_for_sending_request-Ready id s l a) (λ u t k. k.0) (λ t k. k)

    pub server_connection-Safe :
        (o : Option ActiveSocket) (s : Server lib W)
        → After base s
        → Safe base (Connect.server_connection sys {lib = lib} o s)
    server_connection-Safe none s a = faulted tt
    server_connection-Safe (some c) s a = returned a

    pub read_response_chunk-Safe :
        (id : ℕ) (s : Server lib W)
        → Live id base.clients.slots
        → After base s
        → Safe base (read_response_chunk sys id s)
    unfolding read_response_chunk
    read_response_chunk-Safe id s l a =
        and_then-Ends _ (load-Safe id s (a.alive id l) a) λ client t q.
          and_then-Ends _ (server_connection-Safe client.server_connection t q.0)
            λ connection t1 b. on_host-Safe _ t1 (receive-Harmless sys connection max_chunk_size) b
