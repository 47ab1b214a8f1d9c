-- ===== src/Server/Takeover.antt =====
-- A reader of the cache that takes over the server connection of a client that goes, in
-- `discardClient` of src/server.cpp.
mod Tests
use spx.Prelude.{
  ℕ, ◌≡◌, ◌≢◌, refl, sym, ap, ◌∙◌, ◌==◌, ◌&&◌, true, false, List, [], ◌∷◌, ◌++◌, some, none,
  if◌then◌else◌, arith,
}
use spx.Outcome.{returns, ◌>>=◌, ◌>>◌, pure}
use spx.Dict.{lookup, assign}
use spx.Net.Sys.{Sys}
use spx.Http.Parser.{Parser}
use spx.Clients.Client.{Client, State, is_reading_from_cache, obtain_server_connection}
use spx.Clients.ClientsList.{find_client}
use spx.Server.State.{Server, load, request_clients}
use spx.Server.Requests.{has_clients_with_request}
use spx.Server.Discard.{
  is_waiting_response, find_reading_from_cache, hand_over_connection, pass_on_connection,
}
use spx.Server.Fallen.{Edited, put_client, store_client-Edited, changed}
use spx.Server.Safety.Slots.{Slots}

module _ {lib : Parser} where
  -- The clients on the list are alive, and none reads from the cache alone.
  abbrev pub AllBusy : List ℕ → Slots lib → Type 0
  AllBusy [] l = Unit
  AllBusy (i ∷ ids) l =
      ((c : Client lib) × (find_client i l ≡ some c) × (is_reading_from_cache c ≡ false))
      × AllBusy ids l

  -- The reader with the connection.
  abbrev pub heir : Client lib → Client lib → Client lib
  heir r c = record r {
    server_connection = c.server_connection;
    state = State.waiting_response;
    should_write_to_cache = true;
  }

module _ {lib : Parser} {W : Type 0} where
  first_reader :
      (before : List ℕ) (o : ℕ) (rest : List ℕ) (s : Server lib W) (r : Client lib)
      → AllBusy before s.clients.slots
      → find_client o s.clients.slots ≡ some r
      → is_reading_from_cache r ≡ true
      → find_reading_from_cache (before ++ o ∷ rest) s ≡ returns (some o) s
  unfolding find_reading_from_cache load
  first_reader [] o rest s r b f q = rw (find_reading_from_cache, load, f, q) refl
  first_reader (i ∷ before) o rest s r b f q =
      let (c, g, n) = b.0 in
      rw (find_reading_from_cache, load, g, n) (first_reader before o rest s r b.1 f q)

  nonempty :
      (before : List ℕ) (o : ℕ) (rest : List ℕ) (s : Server lib W) (c : Client lib)
      → lookup c.request_str s.request_clients_map ≡ some (before ++ o ∷ rest)
      → has_clients_with_request c.request_str s ≡ true
  unfolding has_clients_with_request
  nonempty [] o rest s c l = rw (has_clients_with_request, l) refl
  nonempty (i ∷ before) o rest s c l = rw (has_clients_with_request, l) refl

module _ {lib : Parser} {W : Type 0} (sys : Sys W) where
  -- A client that reads the response goes, and on the list of its request, after clients that do not
  -- read from the cache alone, stands one that does. Then that one, and no other, gets the connection
  -- to the server, with the duty to write to the cache; it keeps its place in the response, and the
  -- cache is as it was.
  pub pass_on_connection-heir :
      (id o : ℕ) (before rest : List ℕ) (s : Server lib W) (c r : Client lib)
      → find_client id s.clients.slots ≡ some c
      → c.state ≡ State.waiting_response
      → lookup c.request_str s.request_clients_map ≡ some (before ++ o ∷ rest)
      → AllBusy before s.clients.slots
      → find_client o s.clients.slots ≡ some r
      → is_reading_from_cache r ≡ true
      → (o == id) ≡ false
      → (t : Server lib W) × (pass_on_connection sys id s ≡ returns tt t)
        × (t.cache ≡ s.cache)
        × (find_client o t.clients.slots ≡ some (heir r c))
        × (find_client id t.clients.slots ≡ some (record c { server_connection = none }))
        × ((j : ℕ) (x : Client lib)
            → (o == j) ≡ false
            → (id == j) ≡ false
            → find_client j s.clients.slots ≡ some x
            → find_client j t.clients.slots ≡ some x)
  unfolding pass_on_connection hand_over_connection load request_clients is_waiting_response
      obtain_server_connection
  pass_on_connection-heir id o before rest s c r f st l busy g q apart =
      let ids = before ++ o ∷ rest in
      let slots = s.clients.slots in
      let s1 = record s { request_clients_map = assign c.request_str ids s.request_clients_map } in
      let give = λ (x : Client lib). (obtain_server_connection x c).0 in
      let take = λ (x : Client lib). (obtain_server_connection r x).1 in
      let gone : Client lib = record c { server_connection = none } in
      let e1 = store_client-Edited o slots r (heir r c) g refl in
      let s2 = put_client (heir r c) s1 in
      let still : find_client id s2.clients.slots ≡ some c =
        e1.1 id c f ∙ ap (λ b. some (if b then heir r c else c)) apart in
      let e2 = store_client-Edited id s2.clients.slots c gone still refl in
      let handed : hand_over_connection o id s1 ≡ returns tt (put_client gone s2) =
        rw
          (
            hand_over_connection,
            load,
            g,
            load,
            f,
            changed o give s1 r g,
            changed id take s2 c still,
          )
          refl in
      let some_left = nonempty before o rest s c l in
      let waits : is_waiting_response c.state ≡ true = ap is_waiting_response st in
      let other : (id == o) ≡ false = ground arith in
      (
        put_client gone s2,
        rw
            (
              pass_on_connection,
              load,
              f,
              waits,
              some_left,
              request_clients,
              l,
              first_reader before o rest s1 r busy g q,
              handed,
            )
            refl,
        refl,
        e2.1 o (heir r c) e1.0 ∙ ap (λ b. some (if b then gone else heir r c)) other,
        e2.0,
        λ j x n m h.
            e2.1 j x (e1.1 j x h ∙ ap (λ b. some (if b then heir r c else x)) n)
            ∙ ap (λ b. some (if b then gone else x)) m,
      )
