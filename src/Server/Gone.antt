-- ===== src/Server/Gone.antt =====
-- Events of one round that follow the end of their client, in the loop over the ready descriptors of
-- src/server.cpp.
use spx.Prelude.{ℕ, ◌≡◌, refl, ap, ◌∙◌, ◌&&◌, true, false, List, [], ◌∷◌, none, some, arith}
use spx.Outcome.{returns, fault, null_reference}
use spx.Dict.{lookup, assign, lookup-assign_self}
use spx.Cache.Invariant.{IsValid}
use spx.Net.Sys.{Sys, Pollfd}
use spx.Net.TcpSocket.{same_fd}
use spx.Http.Parser.{Parser}
use spx.Clients.Client.{Client}
use spx.Clients.ClientsList
use spx.Clients.ClientsList.{find_client, search_fd, slot, set_slot}
use spx.Server.State.{Server, load, request_clients}
use spx.Server.Requests.{has_clients_with_request}
use spx.Server.Discard.{discard_client, is_waiting_response}
use spx.Server.Events.{has_error, handle_event, handle_events, handle_client_socket_events}
use spx.Server.Safety.Slots.{Placed, find_client-id, remove_client}
use spx.Server.Discarding.{removed, nothing_passed, disused, cleared}

module _ {lib : Parser} {W : Type 0} (sys : Sys W) where
  -- The only client with its request goes: its slot is empty.
  discarded :
      (id k : ℕ) (s : Server lib W) (c : Client lib)
      → find_client id s.clients.slots ≡ some c
      → Placed 0 s.clients.slots
      → IsValid s.cache
      → lookup c.request_str s.request_clients_map ≡ some (id ∷ [])
      → c.client_connection.fd ≡ some k
      → (t : Server lib W) × (discard_client sys id s ≡ returns tt t)
        × (t.server_socket ≡ s.server_socket)
        × (slot t.clients.slots k ≡ some none)
        × (t.clients.slots ≡ remove_client id s.clients.slots)
  unfolding discard_client load request_clients has_clients_with_request
  discarded id k s c f p v l e =
      let r = c.request_str in
      let listed = record s { request_clients_map = assign r (id ∷ []) s.request_clients_map } in
      let (m, rem, none_left) =
        removed sys id listed c f (lookup-assign_self r (id ∷ []) s.request_clients_map) in
      let unlisted = record s { request_clients_map = m } in
      let quiet : (is_waiting_response c.state && has_clients_with_request r unlisted) ≡ false =
        ground arith in
      let (d, dis) = disused r s.cache v in
      let (g, slots, clr, empty, rest, _) =
        cleared sys id (record unlisted { cache = d }) c f k p e in
      (
        record unlisted { cache = d; clients = record { slots = slots; host = g } },
        rw
            (
              discard_client,
              load,
              f,
              request_clients,
              l,
              rem,
              nothing_passed sys id unlisted c f quiet,
              dis,
              clr,
            )
            refl,
        refl,
        empty,
        rest,
      )

  -- Two events of one round: the first is an error on a descriptor of a client, the only one with its
  -- request, and the second is on the descriptor of its connection, which no other client has. In a
  -- valid state, the first discards the client, and the second then goes through the null pointer that
  -- is left in its slot.
  pub handle_events_gone :
      (id k : ℕ) (p q : Pollfd) (later : List Pollfd) (s : Server lib W) (c : Client lib)
      → find_client id s.clients.slots ≡ some c
      → Placed 0 s.clients.slots
      → IsValid s.cache
      → lookup c.request_str s.request_clients_map ≡ some (id ∷ [])
      → c.client_connection.fd ≡ some k
      → same_fd s.server_socket.socket.fd p.fd ≡ false
      → search_fd p.fd s.clients.slots ≡ some c
      → has_error p.revents ≡ true
      → q.fd ≡ some k
      → same_fd s.server_socket.socket.fd q.fd ≡ false
      → search_fd q.fd (remove_client id s.clients.slots) ≡ none
      → handle_events sys (p ∷ q ∷ later) s ≡ fault null_reference
  unfolding handle_events handle_event ClientsList.get_client handle_client_socket_events load
  handle_events_gone id k p q later s c f pl v l e ns hit err qk ns' alone =
      let (t, run, sock, empty, rest) = discarded id k s c f pl v l e in
      let self = find_client-id id s.clients.slots c f in
      let other : same_fd t.server_socket.socket.fd q.fd ≡ false =
        ap (λ x. same_fd x.socket.fd q.fd) sock ∙ ns' in
      let missed : search_fd q.fd t.clients.slots ≡ none = ap (search_fd q.fd) rest ∙ alone in
      let first : handle_event sys p s ≡ returns tt t =
        rw
          (
            handle_event, ns, ClientsList.get_client, hit, self, handle_client_socket_events, load,
            f, err, run,
          )
          refl in
      let slot_k : handle_event sys q t ≡ fault null_reference =
        rw (handle_event, other, ClientsList.get_client, missed, qk, empty) refl in
      rw (handle_events, first, handle_events, slot_k) refl
