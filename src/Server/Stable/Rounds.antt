-- ===== src/Server/Stable/Rounds.antt =====
-- What the rounds of the event loop of src/server.cpp keep.
use spx.Prelude.{
  ℕ, ◌==◌, Bool, true, false, List, [], ◌∷◌, Option, none, some, Option-cases, inl, inr,
}
use spx.Outcome.{exception, pure, throw}
use spx.Outcome.Kept.{
  Kept, kept_returns, kept_throws, kept_fault, Kept-and_then, Kept-if, Kept-option, Kept-try,
  Kept-within,
}
use spx.Net.Sys.{Sys, Pollfd, Fd, syscall}
use spx.Net.TcpSocket.{same_fd}
use spx.Http.Parser.{Parser}
use spx.Clients.Client
use spx.Clients.Client.{State, is_got_response}
use spx.Clients.ClientsList
use spx.Clients.ClientsList.{ClientsList, get_client, search_fd, slot, get_pollfds}
use spx.Net.Onward.{poll-Onward, listen-Onward}
use spx.Server.State.{Server, on_clients, on_host}
use spx.Server.Events
use spx.Server.Events.{
  has_pollin, has_pollout, has_pollhup, has_error, pollhup, with_events, send_or_hang_up, dispatch,
  handle_client_socket_events, handle_server_socket_events, handle_event, handle_events,
  server_pollfds, poll, timeout, stop, run, start,
}
use spx.Server.Stable.{IsStable, load-Kept}
use spx.Server.Stable.Requests.{discard_client-Kept}
use spx.Server.Stable.Send.{send_response_to_client-Kept}
use spx.Server.Stable.Respond.{
  read_request_from_client-Kept, send_request_to_server-Kept,
  read_response_status_code_from_server-Kept, read_response_from_server-Kept,
}

module _ {lib : Parser} {W : Type 0} (sys : Sys W) (P : Server lib W → Type 0)
    (stable : IsStable sys P) where
  send_or_hang_up-Kept :
      (id revents : ℕ) (s : Server lib W) → P s → Kept P (send_or_hang_up sys id revents s)
  unfolding send_or_hang_up
  send_or_hang_up-Kept id revents s p =
      Kept-if (revents == pollhup) _ _ s (discard_client-Kept sys P stable id s p) (
        Kept-if (has_pollout revents) _ _ s (send_response_to_client-Kept sys P stable id s p)
          (kept_returns p))

  dispatch-Kept :
      (state : State) (id revents : ℕ) (s : Server lib W)
      → P s
      → Kept P (dispatch sys state id revents s)
  unfolding dispatch
  dispatch-Kept State.waiting_for_request id revents s p =
      read_request_from_client-Kept sys P stable id s p
  dispatch-Kept State.waiting_for_response_for_another_client id revents s p = kept_returns p
  dispatch-Kept State.sending_request id revents s p =
      Kept-if (has_pollhup revents) _ _ s (discard_client-Kept sys P stable id s p)
        (send_request_to_server-Kept sys P stable id s p)
  dispatch-Kept State.waiting_response_status_code id revents s p =
      read_response_status_code_from_server-Kept sys P stable id s p
  dispatch-Kept State.waiting_response id revents s p =
      Kept-and_then _ _
        (Kept-if (has_pollin revents) _ _ s (read_response_from_server-Kept sys P stable id s p)
          (kept_returns p))
        λ _ t q. send_or_hang_up-Kept id revents t q
  dispatch-Kept State.getting_response_from_another_client id revents s p =
      send_or_hang_up-Kept id revents s p
  dispatch-Kept State.got_response id revents s p = send_or_hang_up-Kept id revents s p

  handle_client_socket_events-Kept :
      (id revents : ℕ) (s : Server lib W)
      → P s
      → Kept P (handle_client_socket_events sys id revents s)
  unfolding handle_client_socket_events
  handle_client_socket_events-Kept id revents s p =
      Kept-try _ _
        (Kept-and_then _ _ (load-Kept sys P stable id s p) λ c t q.
          Kept-if (has_error revents) _ _ t (discard_client-Kept sys P stable id t q)
            (dispatch-Kept c.state id revents t q))
        λ t q. kept_returns q

  handle_server_socket_events-Kept :
      (events : ℕ) (s : Server lib W) → P s → Kept P (handle_server_socket_events sys events s)
  unfolding handle_server_socket_events
  handle_server_socket_events-Kept events s p = Kept-if (has_error events) _ _ s (kept_throws p) (
      Kept-if (has_pollin events) _ _ s
        (Kept-try _ _ (stable.accepting s p) (λ t q. kept_returns q)) (kept_returns p))

  get_client-Kept : (fd : Fd) (s : Server lib W) → P s → Kept P (on_clients (get_client fd) s)
  unfolding get_client
  get_client-Kept fd s p =
      let Q : ClientsList lib W → Type 0 = (λ t. P (record s { clients = t })) in
      Kept-within _ (get_client fd s.clients) (found Q p) (λ t q. q)
    where
      at_slot-Kept :
          {S : Type 0} (Q : S → Type 0) (o : Option (Option (Client.Client lib))) (t : S)
          → Q t
          → Kept Q (ClientsList.at_slot o t)
      at_slot-Kept Q none t q = (kept_fault tt)
      at_slot-Kept Q (some none) t q = (kept_fault tt)
      at_slot-Kept Q (some (some c)) t q = kept_returns q

      at_fd-Kept :
          {S : Type 0} (Q : S → Type 0) (fd : Fd) (t : S)
          → Q t
          → Kept Q (ClientsList.at_fd fd s.clients.slots t)
      at_fd-Kept Q none t q = (kept_fault tt)
      at_fd-Kept Q (some i) t q = at_slot-Kept Q (slot s.clients.slots i) t q

      found : (Q : ClientsList lib W → Type 0) → Q s.clients → Kept Q (get_client fd s.clients)
      found Q q = elim (Option-cases (search_fd fd s.clients.slots)) [
        | inl e ↦ rw (get_client, e) (at_fd-Kept Q fd s.clients q)
        | inr (c, e) ↦ rw (get_client, e) (kept_returns q)
      ]

  pub handle_event-Kept : (p : Pollfd) (s : Server lib W) → P s → Kept P (handle_event sys p s)
  unfolding handle_event
  handle_event-Kept p s h =
      Kept-if (same_fd s.server_socket.socket.fd p.fd) _ _ s
        (handle_server_socket_events-Kept p.revents s h)
        (Kept-and_then _ _ (get_client-Kept p.fd s h)
          λ id t q. handle_client_socket_events-Kept id p.revents t q)

  pub handle_events-Kept :
      (l : List Pollfd) (s : Server lib W) → P s → Kept P (handle_events sys l s)
  unfolding handle_events
  handle_events-Kept [] s h = kept_returns h
  handle_events-Kept (p ∷ l) s h =
      Kept-and_then _ _ (handle_event-Kept p s h) λ _ t q. handle_events-Kept l t q

  asserted-Kept :
      (o : Option (List Pollfd)) (s : Server lib W) → P s → Kept P (Events.asserted sys o s)
  asserted-Kept none s p = (kept_fault tt)
  asserted-Kept (some pfds) s p = kept_returns p

  server_pollfds-Kept : (s : Server lib W) → P s → Kept P (server_pollfds sys s)
  unfolding server_pollfds
  server_pollfds-Kept s p =
      Kept-and_then _ _ (asserted-Kept (get_pollfds s.clients.slots) s p) λ pfds t q. kept_returns q

  pub poll-Kept : (s : Server lib W) → P s → Kept P (poll sys s)
  unfolding poll
  poll-Kept s p = Kept-and_then _ _ (server_pollfds-Kept s p) λ pfds t q.
      Kept-and_then (on_host (syscall (sys.poll pfds timeout)) t) _
        (stable.hosting (syscall (sys.poll pfds timeout)) t (λ n. poll-Onward sys n pfds timeout) q)
        λ res u r.
          Kept-option res (throw exception) (λ polled. pure (with_events polled)) u (kept_throws r)
            λ polled. kept_returns r

  signalled-Kept : (b : Bool) (s : Server lib W) → P s → Kept P (Events.signalled sys b s)
  unfolding stop
  signalled-Kept true s p = kept_returns (stable.switching false s p)
  signalled-Kept false s p = kept_returns p

  run-Kept : (rounds : List Bool) (s : Server lib W) → P s → Kept P (run sys rounds s)
  unfolding run
  run-Kept [] s p = kept_returns p
  run-Kept (signal ∷ rest) s p =
      let again = run-Kept rest in
      Kept-if s.is_running _ _ s
        (Kept-and_then _ _ (poll-Kept s p) λ pfds t q.
          Kept-and_then _ _ (handle_events-Kept pfds t q)
            λ _ u r. Kept-and_then _ _ (signalled-Kept signal u r) λ _ v k. again v k)
        (kept_returns p)

  pub start-Kept : (rounds : List Bool) (s : Server lib W) → P s → Kept P (start sys rounds s)
  unfolding start
  start-Kept rounds s p =
      Kept-and_then _ _
        (stable.hosting _ s
          (λ n. listen-Onward sys n s.server_socket Events.pending_connections_queue_len) p)
        λ _ t q. run-Kept rounds _ (stable.switching true t q)
