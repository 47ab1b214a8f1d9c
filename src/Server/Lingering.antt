-- ===== src/Server/Lingering.antt =====
-- A response that fails while another client waits for it, and the connection for that client fails as
-- well: the handler of `readResponseStatusCodeFromServer` of src/server.cpp throws.
mod Tests
use spx.Prelude.{
  ℕ, ◌≡◌, refl, ◌==◌, true, false, List, [], ◌∷◌, none, some, Option, Str, arith, if◌then◌else◌,
}
use spx.Prelude.Decimal.{to_string}
use spx.Outcome.{returns, throws, exception, ◌>>=◌, ◌>>◌}
use spx.Dict.{lookup, assign, lookup-assign_self}
use spx.Net.Sys.{Sys}
use spx.Net.ActiveSocket
use spx.Net.ActiveSocket.{ActiveSocket}
use spx.Http.Parser.{Parser}
use spx.Http.HttpRequest.{valid_url}
use spx.Clients.Client.{Client, State}
use spx.Clients.ClientsList.{find_client, get_pollfds}
use spx.Server.State
use spx.Server.State.{Server, request_clients, for_each}
use spx.Server.Connect.{
  max_chunk_size, read_response_chunk, connect_to_host, prepare_for_sending_request,
}
use spx.Server.Requests.{
  prepare_all_waiting_clients_for_sending, is_waiting_for_response_for_another_client,
}
use spx.Server.Response.{read_response_status_code_from_server}
use spx.Server.Events.{has_error, handle_client_socket_events, dispatch}
use spx.Server.Errors.{in_world}

module _ {lib : Parser} {W : Type 0} (sys : Sys W) where
  read_response_chunk_failed :
      (id : ℕ) (w : W) (s : Server lib W) (c : Client lib) (conn : ActiveSocket)
      → find_client id s.clients.slots ≡ some c
      → c.server_connection ≡ some conn
      → sys.recv conn.fd max_chunk_size s.clients.host.world ≡ (none, w)
      → read_response_chunk sys id s ≡ throws exception (in_world sys w s)
  unfolding read_response_chunk State.load ActiveSocket.receive
  read_response_chunk_failed id w s c conn f k r = ground arith

  prepare_for_sending_request_failed :
      (o : ℕ) (w : W) (s : Server lib W) (d : Client lib)
      → find_client o s.clients.slots ≡ some d
      → lib.is_valid d.request.url ≡ true
      → sys.getaddrinfo
          (some (lib.hostname d.request.url))
          (to_string (lib.http_port d.request.url))
          s.clients.host.world
        ≡ (none, w)
      → prepare_for_sending_request sys o s ≡ throws exception (in_world sys w s)
  unfolding prepare_for_sending_request State.load connect_to_host valid_url
  prepare_for_sending_request_failed o w s d f v r =
      rw (prepare_for_sending_request, State.load, f, valid_url, v, connect_to_host, r) refl

  -- The state in which the handler throws.
  abbrev asked : Str → List ℕ → W → Server lib W → Server lib W
  asked q ids w s =
      in_world sys w (record s { request_clients_map = assign q ids s.request_clients_map })

  prepare_all_waiting_clients_for_sending_failed :
      (id o : ℕ) (ids : List ℕ) (q : Str) (w : W) (s : Server lib W) (c d : Client lib)
      → find_client id s.clients.slots ≡ some c
      → find_client o s.clients.slots ≡ some d
      → c.state ≡ State.waiting_response_status_code
      → d.state ≡ State.waiting_for_response_for_another_client
      → lookup q s.request_clients_map ≡ some (id ∷ o ∷ ids)
      → lib.is_valid d.request.url ≡ true
      → sys.getaddrinfo
          (some (lib.hostname d.request.url))
          (to_string (lib.http_port d.request.url))
          s.clients.host.world
        ≡ (none, w)
      → prepare_all_waiting_clients_for_sending sys q s
        ≡ throws exception (asked q (id ∷ o ∷ ids) w s)
  unfolding prepare_all_waiting_clients_for_sending request_clients for_each State.load
      is_waiting_for_response_for_another_client
  prepare_all_waiting_clients_for_sending_failed id o ids q w s c d f g st wait l valid r =
      let u = record s { request_clients_map = assign q (id ∷ o ∷ ids) s.request_clients_map } in
      rw
        (
          prepare_all_waiting_clients_for_sending,
          request_clients,
          l,
          for_each,
          State.load,
          f,
          st,
          is_waiting_for_response_for_another_client,
          g,
          wait,
          is_waiting_for_response_for_another_client,
          prepare_for_sending_request_failed o w u d g valid r,
        )
        refl

  -- A client `c`, the first on the list of its request, waits for the status code of a response
  -- whose connection fails; the next client on the list waits for that response too, and its host
  -- has no address. The event handler returns, and has discarded no client and changed none: `c`
  -- keeps its state and its dead connection, and the list of the request is the same.
  pub handle_client_socket_events_lingering :
      (id o revents : ℕ) (ids : List ℕ) (v w : W) (s : Server lib W) (c d : Client lib)
      (conn : ActiveSocket)
      → find_client id s.clients.slots ≡ some c
      → find_client o s.clients.slots ≡ some d
      → c.state ≡ State.waiting_response_status_code
      → d.state ≡ State.waiting_for_response_for_another_client
      → c.server_connection ≡ some conn
      → lookup c.request_str s.request_clients_map ≡ some (id ∷ o ∷ ids)
      → has_error revents ≡ false
      → sys.recv conn.fd max_chunk_size s.clients.host.world ≡ (none, v)
      → lib.is_valid d.request.url ≡ true
      → sys.getaddrinfo
          (some (lib.hostname d.request.url))
          (to_string (lib.http_port d.request.url))
          v
        ≡ (none, w)
      → (t : Server lib W) × (handle_client_socket_events sys id revents s ≡ returns tt t)
        × (t.clients.slots ≡ s.clients.slots)
        × (lookup c.request_str t.request_clients_map ≡ some (id ∷ o ∷ ids))
  unfolding handle_client_socket_events dispatch read_response_status_code_from_server State.load
  handle_client_socket_events_lingering id o revents ids v w s c d conn f g st wait k l ok r valid
        none' =
      let q = c.request_str in
      let again =
        prepare_all_waiting_clients_for_sending_failed id o ids q w (in_world sys v s) c d f g st
          wait l valid none' in
      (
        asked q (id ∷ o ∷ ids) w (in_world sys v s),
        rw
            (
              handle_client_socket_events,
              State.load,
              f,
              ok,
              dispatch,
              st,
              read_response_status_code_from_server,
              read_response_chunk_failed id v s c conn f k r,
              State.load,
              f,
              again,
            )
            refl,
        refl,
        lookup-assign_self q (id ∷ o ∷ ids) s.request_clients_map,
      )
