-- ===== src/Server/Latecomer.antt =====
-- A client that asks for what another client is being sent without the cache: `readRequestFromClient`
-- has it wait for that client, and `readResponseFromServer` of src/server.cpp does not start it.
mod Tests
use spx.Prelude.{
  List, ◌++◌, ℕ, ◌≡◌, ◌≢◌, refl, ap, ◌∙◌, ◌==◌, true, false, [], ◌∷◌, none, some, Option, arith,
  if◌then◌else◌,
}
use spx.Outcome.{◌>>◌, ◌>>=◌, returns, throws, zero_length_message}
use spx.Dict.{lookup, assign, lookup-assign_self}
use spx.Cache.Methods
use spx.Net.Sys.{Sys}
use spx.Net.ActiveSocket
use spx.Net.ActiveSocket.{ActiveSocket}
use spx.Http.Parser.{Parser}
use spx.Clients.Client
use spx.Clients.Client.{Client, State}
use spx.Clients.ClientsList.{find_client, store_client, get_pollfds}
use spx.Server.State
use spx.Server.State.{Server, on_client}
use spx.Server.Connect.{max_chunk_size, read_response_chunk}
use spx.Server.Requests.{has_clients_with_request, add_to_request_clients}
use spx.Server.Response.{read_request_from_client, read_response_from_server, finish_response}
use spx.Server.Errors.{in_world}
use spx.Server.Fallen.{changed, put_client, store_client-Edited}
use spx.Server.Orphans.{unpolled}
use spx.Server.Safety.Slots.{Slots, remove_client}

module _ {lib : Parser} {W : Type 0} (sys : Sys W) where
  read_response_chunk_closed :
      (id : ℕ) (w : W) (s : Server lib W) (c : Client lib) (conn : ActiveSocket)
      → find_client id s.clients.slots ≡ some c
      → c.server_connection ≡ some conn
      → sys.recv conn.fd max_chunk_size s.clients.host.world ≡ (some [], w)
      → read_response_chunk sys id s ≡ throws zero_length_message (in_world sys w s)
  unfolding read_response_chunk State.load ActiveSocket.receive ActiveSocket.received
  read_response_chunk_closed id w s c conn f k r = ground arith

  abbrev done : Client lib → Client lib
  done c = record c { state = State.got_response }

  finish_response_private :
      (id : ℕ) (s : Server lib W) (c : Client lib)
      → find_client id s.clients.slots ≡ some c
      → c.should_write_to_cache ≡ false
      → c.should_write_to_all ≡ false
      → finish_response sys id s ≡ returns tt (put_client (done c) s)
  unfolding finish_response State.load
  finish_response_private id s c f cache all =
      let now = (store_client-Edited id s.clients.slots c (done c) f refl).0 in
      rw (finish_response, changed id done s c f, State.load, now, cache, all) refl

  -- The end of a private response, with a client that waits.
  private_end :
      (id o : ℕ) (w : W) (s : Server lib W) (c d : Client lib) (conn : ActiveSocket)
      → find_client id s.clients.slots ≡ some c
      → find_client o s.clients.slots ≡ some d
      → o ≢ id
      → c.server_connection ≡ some conn
      → c.should_write_to_cache ≡ false
      → c.should_write_to_all ≡ false
      → d.state ≡ State.waiting_for_response_for_another_client
      → sys.recv conn.fd max_chunk_size s.clients.host.world ≡ (some [], w)
      → (t : Server lib W) × (read_response_from_server sys id s ≡ returns tt t)
        × (find_client id t.clients.slots ≡ some (done c))
        × (find_client o t.clients.slots ≡ some d)
        × (t.request_clients_map ≡ s.request_clients_map)
        × (get_pollfds t.clients.slots ≡ get_pollfds (remove_client o t.clients.slots))
  unfolding read_response_from_server
  private_end id o w s c d conn f g n k cache all idle r =
      let slots = store_client (done c) s.clients.slots in
      let (now, others) = store_client-Edited id s.clients.slots c (done c) f refl in
      let stays : find_client o slots ≡ some d = ground (arith, others o d g) in
      (
        put_client (done c) (in_world sys w s),
        rw
            (
              read_response_from_server,
              read_response_chunk_closed id w s c conn f k r,
              finish_response_private id (in_world sys w s) c f cache all,
            )
            refl,
        now,
        stays,
        refl,
        unpolled o slots d stays idle,
      )

  abbrev waiting : Client lib → Client lib
  waiting d = record d { state = State.waiting_for_response_for_another_client }

  -- The server when the client `d` has been put on the list of its request.
  abbrev joined : ℕ → List ℕ → Client lib → Server lib W → Server lib W
  joined o ids d s = record (put_client (waiting d) s) {
    request_clients_map = assign d.request_str (ids ++ o ∷ []) s.request_clients_map;
  }

  added :
      (o : ℕ) (ids : List ℕ) (s : Server lib W) (d : Client lib)
      → find_client o s.clients.slots ≡ some d
      → lookup d.request_str s.request_clients_map ≡ some ids
      → add_to_request_clients o s
        ≡ returns tt (record s {
          request_clients_map = assign d.request_str (ids ++ o ∷ []) s.request_clients_map;
        })
  unfolding add_to_request_clients State.load
  added o ids s d f l = ground arith

  read_request_from_client_waits :
      (id o : ℕ) (ids : List ℕ) (s u : Server lib W) (d : Client lib)
      → on_client o (Client.get_http_request sys) s ≡ returns tt u
      → find_client o u.clients.slots ≡ some d
      → Methods.contains d.request_str u.cache ≡ false
      → lookup d.request_str u.request_clients_map ≡ some (id ∷ ids)
      → read_request_from_client sys o s ≡ returns tt (joined o (id ∷ ids) d u)
  unfolding read_request_from_client has_clients_with_request State.load
  read_request_from_client_waits id o ids s u d got f absent l =
      let now = (store_client-Edited o u.clients.slots d (waiting d) f refl).0 in
      rw
        (
          read_request_from_client,
          got,
          State.load,
          f,
          absent,
          has_clients_with_request,
          l,
          changed o waiting u d f,
          added o (id ∷ ids) (put_client (waiting d) u) (waiting d) now l,
        )
        refl

  -- A client `c` gets its response without the cache and alone. Another client `d` sends the same
  -- request, of which the cache has no entry, and then the server of `c` ends its response. Both events
  -- return, and `c` has got its response; `d` waits for another client, stands behind `c` on the list
  -- of the request, on which later clients wait too, and no descriptor is polled for it.
  pub read_request_from_client_latecomer :
      (id o : ℕ) (ids : List ℕ) (w : W) (s u : Server lib W) (c d : Client lib)
      (conn : ActiveSocket)
      → on_client o (Client.get_http_request sys) s ≡ returns tt u
      → find_client id u.clients.slots ≡ some c
      → find_client o u.clients.slots ≡ some d
      → o ≢ id
      → c.server_connection ≡ some conn
      → c.should_write_to_cache ≡ false
      → c.should_write_to_all ≡ false
      → Methods.contains d.request_str u.cache ≡ false
      → lookup d.request_str u.request_clients_map ≡ some (id ∷ ids)
      → sys.recv conn.fd max_chunk_size u.clients.host.world ≡ (some [], w)
      → (t : Server lib W) × ((read_request_from_client sys o >> read_response_from_server sys id) s
          ≡ returns tt t)
        × (find_client id t.clients.slots ≡ some (done c))
        × (find_client o t.clients.slots ≡ some (waiting d))
        × (lookup d.request_str t.request_clients_map ≡ some (id ∷ ids ++ o ∷ []))
        × (get_pollfds t.clients.slots ≡ get_pollfds (remove_client o t.clients.slots))
  read_request_from_client_latecomer id o ids w s u c d conn got f g n k cache all absent l r =
      let v = joined o (id ∷ ids) d u in
      let (now, others) = store_client-Edited o u.clients.slots d (waiting d) g refl in
      let reader : find_client id v.clients.slots ≡ some c = ground (arith, others id c f) in
      let (t, run, ended, stays, same, silent) =
        private_end id o w v c (waiting d) conn reader now n k cache all refl r in
      (
        t,
        rw (read_request_from_client_waits id o ids s u d got g absent l, run) refl,
        ended,
        stays,
        ap (λ m. lookup d.request_str m) same
            ∙ lookup-assign_self d.request_str (id ∷ ids ++ o ∷ []) u.request_clients_map,
        silent,
      )
