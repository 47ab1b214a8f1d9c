-- ===== src/Server/Orphans.antt =====
-- A client that waits for the response to another client's request, when that request fails before it
-- is sent: `handleClientSocketEvents` and `getPollfds` of src/server.cpp and src/clients_list.cpp.
use spx.Prelude.{
  ℕ, ◌≡◌, ◌≢◌, refl, sym, ap, ◌∙◌, ◌==◌, ◌&&◌, true, false, Bool-cases, inl, inr, List, [], ◌∷◌,
  none, some, Option, Option-cases, arith,
}
use spx.Outcome.{returns}
use spx.Dict.{lookup, assign, lookup-assign_self}
use spx.Cache.Invariant.{IsValid}
use spx.Net.Sys.{Sys}
use spx.Http.Parser.{Parser}
use spx.Clients.Client.{Client, same_client}
use spx.Clients.ClientsList.{find_client, slot}
use spx.Server.State.{Server, load, request_clients}
use spx.Server.Requests.{has_clients_with_request}
use spx.Server.Discard.{discard_client, is_waiting_response}
use spx.Server.Events.{has_error, handle_client_socket_events}
use spx.Server.Safety.Slots.{Placed, remove_client}
use spx.Clients.ClientsList.{get_pollfds, client_pollfds}
use spx.Clients.Client.{State}
use spx.Server.Events.{has_pollhup, dispatch}
use spx.Server.Discarding.{removed_first, nothing_passed, disused, cleared}

module _ {lib : Parser} where
  -- A client that waits for another is not polled.
  pub unpolled :
      (o : ℕ) (l : List (Option (Client lib))) (d : Client lib)
      → find_client o l ≡ some d
      → d.state ≡ State.waiting_for_response_for_another_client
      → get_pollfds l ≡ get_pollfds (remove_client o l)
  unfolding find_client get_pollfds client_pollfds
  unpolled o [] d f w = cc
  unpolled o (none ∷ l) d f w = unpolled o l d f w
  unpolled o (some x ∷ l) d f w = elim (Bool-cases (x.id == o)) [
    | inl hit ↦
        let same : x ≡ d = ground arith in
        let idle : x.state ≡ State.waiting_for_response_for_another_client =
          ap (λ y. y.state) same ∙ w in
        elim (Option-cases (get_pollfds l)) [ inl e ↦ ground arith | inr (ps, e) ↦ ground arith ]
    | inr miss ↦ ground (arith, unpolled o l d (ground arith) w)
  ]

  two_clients :
      (id o : ℕ) (l : List (Option (Client lib))) (c d : Client lib)
      → find_client id l ≡ some c
      → find_client o l ≡ some d
      → same_client c d ≡ false
      → o ≢ id
  unfolding same_client
  two_clients id o l c d f g n e =
      let one : find_client id l ≡ some d = ap (λ i. find_client i l) (sym e) ∙ g in
      let same : c ≡ d = ground (arith, f, one) in
      let alone : same_client d d ≡ false = ap (λ x. same_client x d) (sym same) ∙ n in
      ground (arith, alone)

module _ {lib : Parser} {W : Type 0} (sys : Sys W) where
  -- A client `c` is sending its request, one other client `d` waits for the response to it, and the
  -- server hangs up. In a valid state, the event handler returns, `c` is gone, and `d` is left as it
  -- was: it waits for another client, is alone on the list of the request, which later clients with
  -- the request still wait on, and has no descriptor polled.
  pub handle_client_socket_events_orphan :
      (id o k revents : ℕ) (s : Server lib W) (c d : Client lib)
      → find_client id s.clients.slots ≡ some c
      → find_client o s.clients.slots ≡ some d
      → same_client c d ≡ false
      → Placed 0 s.clients.slots
      → IsValid s.cache
      → lookup c.request_str s.request_clients_map ≡ some (id ∷ o ∷ [])
      → c.client_connection.fd ≡ some k
      → c.state ≡ State.sending_request
      → d.state ≡ State.waiting_for_response_for_another_client
      → has_error revents ≡ false
      → has_pollhup revents ≡ true
      → (t : Server lib W) × (handle_client_socket_events sys id revents s ≡ returns tt t)
        × (slot t.clients.slots k ≡ some none)
        × (find_client o t.clients.slots ≡ some d)
        × (lookup c.request_str t.request_clients_map ≡ some (o ∷ []))
        × (has_clients_with_request c.request_str t ≡ true)
        × (get_pollfds t.clients.slots ≡ get_pollfds (remove_client o t.clients.slots))
  unfolding handle_client_socket_events is_waiting_response dispatch discard_client load
      request_clients has_clients_with_request
  handle_client_socket_events_orphan id o k revents s c d f g n p v l e sending waiting ok hup =
      let r = c.request_str in
      let listed = record s {
        request_clients_map = assign r (id ∷ o ∷ []) s.request_clients_map;
      } in
      let (m, rem, left) =
        removed_first sys id listed c f o d g n
          (lookup-assign_self r (id ∷ o ∷ []) s.request_clients_map) in
      let unlisted = record s { request_clients_map = m } in
      let quiet : (is_waiting_response c.state && has_clients_with_request r unlisted) ≡ false =
        rw (sending, is_waiting_response) refl in
      let (d', dis) = disused r s.cache v in
      let (h, slots, clr, empty, _, others) =
        cleared sys id (record unlisted { cache = d' }) c f k p e in
      let t = record unlisted { cache = d'; clients = record { slots = slots; host = h } } in
      let run : discard_client sys id s ≡ returns tt t =
        rw
          (
            discard_client,
            load,
            f,
            request_clients,
            l,
            rem,
            nothing_passed sys id unlisted c f quiet,
            dis,
            clr,
          )
          refl in
      let apart = two_clients id o s.clients.slots c d f g n in
      let stays : find_client o slots ≡ some d = others o apart ∙ g in
      (
        t,
        rw (handle_client_socket_events, load, f, ok, dispatch, sending, hup, run) refl,
        empty,
        stays,
        left,
        rw (has_clients_with_request, left) refl,
        unpolled o slots d stays waiting,
      )
