-- ===== src/Server/Leaving.antt =====
-- A client that has been sent all bytes of its cached entry: `sendCachedResponseToClient` and
-- `discardClient` of src/server.cpp.
mod Tests
use spx.Prelude.{
  ℕ, ◌≡◌, ◌≢◌, ◌⊎◌, refl, ◌==◌, ◌&&◌, ltb, true, false, Bool-cases, inl, inr, List, [], ◌∷◌, none,
  some, length, arith, Str, if◌then◌else◌,
}
use spx.Outcome.{returns}
use spx.Dict.{lookup, assign, lookup-assign_self}
use spx.Cache.Entry
use spx.Cache.Entry.{Entry}
use spx.Cache.Holding.{Holds, disuse_entry_complete}
use spx.Net.Sys.{Sys, Fd}
use spx.Http.Parser.{Parser}
use spx.Clients.Client.{Client, same_client}
use spx.Clients.ClientsList.{find_client, slot}
use spx.Clients.Wire.{SendContract}
use spx.Server.State.{Server, load, request_clients}
use spx.Server.Requests.{without_client, remove_from_request_clients, has_clients_with_request}
use spx.Server.Discard.{discard_client, is_waiting_response}
use spx.Server.Sending.{send_cached_response_to_client}
use spx.Server.Broadcast.{is_listed, AllLive}
use spx.Server.Safety.Slots.{Placed}
use spx.Server.Discarding.{nothing_passed, cleared}
use spx.Server.Synced.{Synced, found}

module _ {lib : Parser} {W : Type 0} (id : ℕ) (s : Server lib W) (c : Client lib)
    (f : find_client id s.clients.slots ≡ some c) where
  -- The client itself is not left on the list.
  without_live :
      (ids : List ℕ)
      → AllLive ids s.clients.slots
      → (rest : List ℕ) × (without_client c ids s ≡ returns rest s) × (is_listed id rest ≡ false)
  unfolding without_client load same_client
  without_live [] a = ([], refl, refl)
  without_live (i ∷ ids) a =
      let (d, g) = a.0 in
      let (rest, run, gone) = without_live ids a.1 in
      elim (Bool-cases (same_client c d)) [
        | inl hit ↦ (rest, rw (without_client, load, g, run, hit) refl, gone)
        | inr miss ↦ (
          i ∷ rest,
          rw (without_client, load, g, run, miss) refl,
          elim (Bool-cases (i == id)) [
            | inl here ↦
                let same : d ≡ c = ground (arith, f, g) in
                let hit : same_client c d ≡ true = rw same ground arith in ground (arith, hit)
            | inr other ↦ ground (arith, gone)
          ],
        )
      ]

module _ {lib : Parser} {W : Type 0} (id : ℕ) (s : Server lib W) (c : Client lib)
    (f : find_client id s.clients.slots ≡ some c) where
  unlisted :
      (ids : List ℕ)
      → lookup c.request_str s.request_clients_map ≡ some ids
      → AllLive ids s.clients.slots
      → (m : List (Str × List ℕ)) × (rest : List ℕ) × (remove_from_request_clients id s
          ≡ returns tt (record s { request_clients_map = m }))
        × (lookup c.request_str m ≡ some rest)
        × (is_listed id rest ≡ false)
  unfolding remove_from_request_clients load request_clients
  unlisted ids l a =
      let r = c.request_str in
      let listed = record s { request_clients_map = assign r ids s.request_clients_map } in
      let (rest, run, gone) = without_live id listed c f ids a in
      (
        assign r rest listed.request_clients_map,
        rest,
        rw (remove_from_request_clients, load, f, request_clients, l, run) refl,
        lookup-assign_self r rest _,
        gone,
      )

module _ {lib : Parser} {W : Type 0} (sys : Sys W) (id k : ℕ) (e : Entry) where
  -- What has become of `s` when `c` is gone.
  abbrev pub Left : Server lib W → Client lib → Server lib W → Type 0
  Left s c t =
      (e.completed ≡ true)
      × (slot t.clients.slots k ≡ some none)
      × ((j : ℕ) → j ≢ id → find_client j t.clients.slots ≡ find_client j s.clients.slots)
      × ((rest : List ℕ) × (lookup c.request_str t.request_clients_map ≡ some rest)
          × (is_listed id rest ≡ false))
      × Holds t.cache c.request_str (Entry.decrement_use e)

  discarded :
      (s : Server lib W) (c : Client lib) (ids : List ℕ)
      → find_client id s.clients.slots ≡ some c
      → Holds s.cache c.request_str e
      → e.completed ≡ true
      → Placed 0 s.clients.slots
      → c.client_connection.fd ≡ some k
      → is_waiting_response c.state ≡ false
      → lookup c.request_str s.request_clients_map ≡ some ids
      → AllLive ids s.clients.slots
      → (t : Server lib W) × (discard_client sys id s ≡ returns tt t) × Left s c t
  unfolding discard_client load request_clients
  discarded s c ids f held whole p at quiet l a =
      let r = c.request_str in
      let listed = record s { request_clients_map = assign r ids s.request_clients_map } in
      let (m, rest, rem, left, gone) =
        unlisted id listed c f ids (lookup-assign_self r ids s.request_clients_map) a in
      let unlisted_now = record s { request_clients_map = m } in
      let none_waits : (is_waiting_response c.state && has_clients_with_request r unlisted_now)
          ≡ false =
        rw quiet refl in
      let (d, dis, still) = disuse_entry_complete s.cache r e held whole in
      let (h, slots, clr, empty, _, others) =
        cleared sys id (record unlisted_now { cache = d }) c f k p at in
      (
        record unlisted_now { cache = d; clients = record { slots = slots; host = h } },
        rw
            (
              discard_client,
              load,
              f,
              request_clients,
              l,
              rem,
              nothing_passed sys id unlisted_now c f none_waits,
              dis,
              clr,
            )
            refl,
        (whole, empty, others, (rest, left, gone), still),
      )

module _ {lib : Parser} {W : Type 0} (sys : Sys W) (sent : W → Fd → List ℕ)
    (contract : SendContract sys sent) (id k : ℕ) (e : Entry) where
  -- A client has been sent all bytes of its cached entry, stands in the slot of its descriptor, and is
  -- not in the state waiting_response; the clients on the list of its request are alive. Then its next
  -- event returns. If the entry is complete, the slot of the client is empty, no other client has
  -- changed, the client is not on the list of its request, and the cache still holds the entry, with
  -- one user less; if not, only the cache has changed, and the client still has exactly the bytes of
  -- the entry that the cache holds.
  pub send_cached_response_to_client-Drained :
      (s : Server lib W) (c : Client lib) (ids : List ℕ)
      → Synced sent id e s c
      → c.sent_bytes ≡ length e.buffer
      → Placed 0 s.clients.slots
      → c.client_connection.fd ≡ some k
      → is_waiting_response c.state ≡ false
      → lookup c.request_str s.request_clients_map ≡ some ids
      → AllLive ids s.clients.slots
      → (t : Server lib W) × (send_cached_response_to_client sys id s ≡ returns tt t)
        × (Left sys id k e s c t
            ⊎ ((e.completed ≡ false) × (t ≡ record s { cache = t.cache }) × Synced sent id e t c))
  unfolding send_cached_response_to_client load
  send_cached_response_to_client-Drained s c ids y all p at quiet l a =
      let (d, run, y') = found sys sent contract id e s c y in
      let test : ltb c.sent_bytes (length e.buffer) ≡ false = ground arith in
      elim (Bool-cases e.completed) [
        | inl whole ↦
            let (t, gone, left) =
              discarded sys id k e (record s { cache = d }) c ids y'.live y'.cached whole p at quiet
                l a in
            (
              t,
              rw (send_cached_response_to_client, load, y.live, run, test, whole, gone) refl,
              inl left,
            )
        | inr partial ↦ (
          record s { cache = d },
          rw (send_cached_response_to_client, load, y.live, run, test, partial) refl,
          inr (partial, refl, y'),
        )
      ]
