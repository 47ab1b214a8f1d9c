-- ===== src/Server/Mixed.antt =====
-- A client in the middle of one response that `readResponseStatusCodeFromServer` of src/server.cpp
-- switches to another.
mod Tests
use spx.Prelude.{
  ℕ, ◌≡◌, refl, ap, ◌∙◌, ◌<◌, ◌==◌, ltb, true, false, List, ◌++◌, some, take, drop, length, arith,
  take-take, if◌then◌else◌,
}
use spx.Outcome.{returns, ◌>>◌, ◌>>=◌}
use spx.Cache.Entry
use spx.Cache.Entry.{Entry}
use spx.Cache.Methods
use spx.Cache.Holding.{Holds, use_entry-Holds, get_entry-Holds}
use spx.Net.Sys.{Sys, Fd}
use spx.Http.Parser.{Parser}
use spx.Clients.Client.{Client, State, same_client}
use spx.Clients.ClientsList.{find_client}
use spx.Clients.Wire.{SendContract}
use spx.Server.State
use spx.Server.State.{Server}
use spx.Server.Sharing.{set_client_to_get_response_from_cache}
use spx.Server.Response.{share_with}
use spx.Server.Sending.{send_response_to_client, send_cached_response_to_client}
use spx.Server.Fallen.{changed, put_client, store_client-Edited}
use spx.Server.Synced.{next_chunk, chunk_size, advanced, after_chunk, send_cached_chunk_run}

module _ {lib : Parser} where
  -- The client as it is switched to the cache: what it has been sent counts on.
  abbrev pub switched : Client lib → Client lib
  switched d = record d { state = State.got_response; should_read_from_cache = true }

module _ {lib : Parser} {W : Type 0} (sys : Sys W) where
  set_client_to_get_response_from_cache_run :
      (o : ℕ) (e : Entry) (s : Server lib W) (d : Client lib)
      → find_client o s.clients.slots ≡ some d
      → Holds s.cache d.request_str e
      → (t : Server lib W) × (set_client_to_get_response_from_cache o s ≡ returns tt t)
        × (find_client o t.clients.slots ≡ some (switched d))
        × Holds t.cache d.request_str (Entry.increment_use e)
        × (t.clients.host ≡ s.clients.host)
  unfolding set_client_to_get_response_from_cache State.load
  set_client_to_get_response_from_cache_run o e s d f h =
      let d1 = record d { state = State.got_response } in
      let s1 = put_client d1 s in
      let (f1, _) = store_client-Edited o s.clients.slots d d1 f refl in
      let (x, used, held) = use_entry-Holds s.cache d.request_str e h in
      let s2 = record s1 { cache = x } in
      let (f2, _) = store_client-Edited o s1.clients.slots d1 (switched d) f1 refl in
      (
        put_client (switched d) s2,
        rw
            (
              set_client_to_get_response_from_cache,
              changed o (λ c. record c { state = State.got_response }) s d f,
              State.load,
              f1,
              used,
              changed o (λ c. record c { should_read_from_cache = true }) s2 d1 f1,
            )
            refl,
        f2,
        held,
        refl,
      )

  dispatched :
      (o : ℕ) (s : Server lib W) (d : Client lib)
      → find_client o s.clients.slots ≡ some d
      → d.should_read_from_cache ≡ true
      → send_response_to_client sys o s ≡ send_cached_response_to_client sys o s
  unfolding send_response_to_client State.load
  dispatched o s d f cached = rw (send_response_to_client, State.load, f, cached) refl

module _ {lib : Parser} {W : Type 0} (sys : Sys W) (sent : W → Fd → List ℕ)
    (k : SendContract sys sent) where
  -- The next event of a client that reads from the cache.
  send_response_to_client_cached :
      (o n : ℕ) (e : Entry) (s : Server lib W) (d : Client lib)
      → find_client o s.clients.slots ≡ some d
      → d.should_read_from_cache ≡ true
      → Holds s.cache d.request_str e
      → d.sent_bytes < length e.buffer
      → (sys.send d.client_connection.fd (next_chunk e d) s.clients.host.world).0 ≡ some n
      → (t : Server lib W) × (send_response_to_client sys o s ≡ returns tt t)
        × (sent t.clients.host.world d.client_connection.fd
            ≡ sent s.clients.host.world d.client_connection.fd
              ++ take n (drop d.sent_bytes e.buffer))
        × (find_client o t.clients.slots ≡ some (advanced n d))
  unfolding send_cached_response_to_client State.load
  send_response_to_client_cached o n e s d f cached h more r =
      let (x, got, held) = get_entry-Holds s.cache d.request_str e h in
      let s1 = record s { cache = x } in
      let (y, run, _, now, le) =
        send_cached_chunk_run sys sent k o e s1 d n f held (omega arith) r in
      let test : ltb d.sent_bytes (length e.buffer) ≡ true = ground arith in
      (
        after_chunk sys sent k o e s1 d n y,
        dispatched sys o s d f cached
            ∙ rw (send_cached_response_to_client, State.load, f, got, test, run) refl,
        k.logged d.client_connection.fd (next_chunk e d) s.clients.host.world n r
            ∙ ap (λ l. sent s.clients.host.world d.client_connection.fd ++ l)
                (take-take n (chunk_size e d) (drop d.sent_bytes e.buffer) le),
        now,
      )

  -- The response to the client `c` is good, and the cache holds its beginning as the entry `e`, which
  -- has more bytes than another client `d` with the request has been sent, of whatever response. Then
  -- `d` is switched to the cache, and at its next event, of whose bytes send(2) takes `n`, it gets the
  -- bytes of `e` from that number of bytes on, right after those of the other response; the chunks of
  -- the other response that still waited for `d` stay unsent.
  pub share_with_mixed :
      (id o n : ℕ) (e : Entry) (s : Server lib W) (c d : Client lib)
      → find_client id s.clients.slots ≡ some c
      → find_client o s.clients.slots ≡ some d
      → same_client c d ≡ false
      → Holds s.cache d.request_str e
      → d.sent_bytes < length e.buffer
      → (sys.send d.client_connection.fd (next_chunk e d) s.clients.host.world).0 ≡ some n
      → (t : Server lib W) × ((share_with sys id o >> send_response_to_client sys o) s
          ≡ returns tt t)
        × (sent t.clients.host.world d.client_connection.fd
            ≡ sent s.clients.host.world d.client_connection.fd
              ++ take n (drop d.sent_bytes e.buffer))
        × (find_client o t.clients.slots ≡ some (advanced n (switched d)))
  unfolding State.load
  share_with_mixed id o n e s c d f g other h more r =
      let (t, run, live, held, same) = set_client_to_get_response_from_cache_run sys o e s d g h in
      let sends : (sys.send d.client_connection.fd (next_chunk e d) t.clients.host.world).0
          ≡ some n =
        ap (λ z. (sys.send d.client_connection.fd (next_chunk e d) z.world).0) same ∙ r in
      let (u, run', log, now) =
        send_response_to_client_cached o n (Entry.increment_use e) t (switched d) live refl held
          more sends in
      (
        u,
        rw (State.load, f, g, other, run, run') refl,
        log
            ∙ ap (λ z. sent z.world d.client_connection.fd ++ take n (drop d.sent_bytes e.buffer))
                same,
        now,
      )
