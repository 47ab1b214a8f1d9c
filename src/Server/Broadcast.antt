-- ===== src/Server/Broadcast.antt =====
-- A chunk of a response that the clients of one request share without the cache, in
-- `readResponseFromServer` of src/server.cpp.
mod Tests
use spx.Prelude.{
  ℕ, ◌≡◌, refl, sym, ap, ◌∙◌, ◌==◌, true, false, Bool, Bool-cases, inl, inr, List, [], ◌∷◌, ◌++◌,
  none, some, if◌then◌else◌, Option, Str, arith,
}
use spx.Outcome.{M, returns, ◌>>=◌, ◌>>◌, pure, try_catch}
use spx.Dict.{lookup, assign}
use spx.Net.Sys.{Sys}
use spx.Net.ActiveSocket.{ActiveSocket}
use spx.Http.Parser.{Parser}
use spx.Clients.Client.{Client}
use spx.Clients.ClientsList
use spx.Clients.ClientsList.{find_client, store_client}
use spx.Server.State.{Server, load, change, request_clients, for_each}
use spx.Server.Connect.{max_chunk_size, read_response_chunk}
use spx.Server.Sharing.{write_response_chunk_to_client_buffer}
use spx.Server.Response.{deliver, read_response_from_server}
use spx.Server.Errors.{read_response_chunk_received, in_world}
use spx.Server.Safety.Slots.{Slots, Live, find_client-id, find_client-store_client}

abbrev pub is_listed : ℕ → List ℕ → Bool
is_listed j [] = false
is_listed j (i ∷ ids) = if i == j then true else is_listed j ids

-- No client stands twice on the list.
abbrev pub Once : List ℕ → Type 0
Once [] = Unit
Once (i ∷ ids) = (is_listed i ids ≡ false) × Once ids

module _ {lib : Parser} where
  abbrev pub AllLive : List ℕ → Slots lib → Type 0
  AllLive [] l = Unit
  AllLive (i ∷ ids) l = Live i l × AllLive ids l

  abbrev pub with_chunk : List ℕ → Client lib → Client lib
  with_chunk chunk c = record c { chunks = c.chunks ++ chunk ∷ [] }

  -- The tables before and after the clients on the list have got the chunk.
  abbrev pub Shared : List ℕ → List ℕ → Slots lib → Slots lib → Type 0
  Shared chunk ids l l' =
      (j : ℕ) (c : Client lib)
      → find_client j l ≡ some c
      → find_client j l' ≡ some (if is_listed j ids then with_chunk chunk c else c)

  module _ (i : ℕ) (l : Slots lib) (c d : Client lib) (f : find_client i l ≡ some c)
      (e : d.id ≡ c.id) where
    pub stored :
        (j : ℕ) → find_client j (store_client d l) ≡ (if i == j then some d else find_client j l)
    stored j =
        let same : d.id ≡ i = e ∙ find_client-id i l c f in
        find_client-store_client j l c d (ap (λ k. find_client k l) same ∙ f)
        ∙ ap (λ k. if k == j then some d else find_client j l) same

    AllLive-stored : (ids : List ℕ) → AllLive ids l → AllLive ids (store_client d l)
    AllLive-stored [] a = tt
    AllLive-stored (j ∷ ids) a =
        let (b, g) = a.0 in
        (
          elim (Bool-cases (i == j)) [
            | inl hit ↦ (d, ground (arith, stored j))
            | inr miss ↦ (b, ground (arith, stored j))
          ],
          AllLive-stored ids a.1,
        )

module _ {lib : Parser} {W : Type 0} where
  chunk_written :
      (i : ℕ) (chunk : List ℕ) (s : Server lib W) (c : Client lib)
      → find_client i s.clients.slots ≡ some c
      → write_response_chunk_to_client_buffer i chunk s
        ≡ returns tt (record s {
          clients = record (s.clients) {
            slots = store_client (with_chunk chunk c) s.clients.slots;
          };
        })
  unfolding write_response_chunk_to_client_buffer change ClientsList.on_client
  chunk_written i chunk s c f =
      rw (write_response_chunk_to_client_buffer, change, ClientsList.on_client, f) refl

  all_written :
      (ids chunk : List ℕ) (s : Server lib W)
      → AllLive ids s.clients.slots
      → Once ids
      → (l : Slots lib) × (for_each
            (λ other. write_response_chunk_to_client_buffer other chunk)
            ids
            s
          ≡ returns tt (record s { clients = record (s.clients) { slots = l } }))
        × Shared chunk ids s.clients.slots l
  unfolding for_each
  all_written [] chunk s a o = (s.clients.slots, refl, λ j c f. f)
  all_written (i ∷ ids) chunk s a o =
      let (c, f) = a.0 in
      let d = with_chunk chunk c in
      let l = s.clients.slots in
      let s' = record s { clients = record (s.clients) { slots = store_client d l } } in
      let (l', run, share) = all_written ids chunk s' (AllLive-stored i l c d f refl ids a.1) o.1 in
      (
        l',
        rw (for_each, chunk_written i chunk s c f) run,
        λ j b g. elim (Bool-cases (i == j)) [
          | inl hit ↦ ground (arith, stored i l c d f refl j, share j d, o.0)
          | inr miss ↦ ground (arith, stored i l c d f refl j, share j b)
        ],
      )

module _ {lib : Parser} {W : Type 0} (sys : Sys W) where
  -- A client that shares its response without the cache gets a chunk of it from its server, and the
  -- clients with its request are alive and stand once each on its list. Then the handler returns, each
  -- client on the list, and no other, has the chunk after those that wait for it, no client is changed
  -- otherwise, and the cache is as it was.
  pub read_response_from_server-Shared :
      (id b : ℕ) (rest ids : List ℕ) (w : W) (s : Server lib W) (c : Client lib)
      (conn : ActiveSocket)
      → find_client id s.clients.slots ≡ some c
      → c.server_connection ≡ some conn
      → sys.recv conn.fd max_chunk_size s.clients.host.world ≡ (some (b ∷ rest), w)
      → c.should_write_to_cache ≡ false
      → c.should_write_to_all ≡ true
      → lookup c.request_str s.request_clients_map ≡ some ids
      → AllLive ids s.clients.slots
      → Once ids
      → (t : Server lib W) × (read_response_from_server sys id s ≡ returns tt t)
        × Shared (b ∷ rest) ids s.clients.slots t.clients.slots
        × (t.cache ≡ s.cache)
  unfolding read_response_from_server deliver load request_clients
  read_response_from_server-Shared id b rest ids w s c conn f k r cache all l live once =
      let s' = record (in_world sys w s) {
        request_clients_map = assign c.request_str ids s.request_clients_map;
      } in
      let (slots, run, share) = all_written ids (b ∷ rest) s' live once in
      (
        record s' { clients = record (s'.clients) { slots = slots } },
        rw
            (
              read_response_from_server,
              read_response_chunk_received sys id b rest w s c conn f k r,
              deliver,
              load,
              f,
              cache,
              all,
              request_clients,
              l,
              run,
            )
            refl,
        share,
        refl,
      )
