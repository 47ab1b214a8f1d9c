-- ===== src/Server/Synced.antt =====
-- A client that reads from the cache, and one step of `sendCachedResponseToClient` of src/server.cpp.
use Prim.Native.Nat.{min}
use native.Mathlib.Nat.{min-le_left}
use spx.Prelude.{
  ℕ, ◌+◌, ◌-◌, ◌≤◌, ◌≡◌, refl, ap, ◌∙◌, List, ◌++◌, some, take, drop, length, arith, length-take-le,
  length-drop, take-take, take-append-drop,
}
use spx.Prelude.Words.{add_size}
use spx.Outcome.{returns, ◌>>=◌}
use spx.Cache.Entry.{Entry}
use spx.Cache.Methods
use spx.Cache.Holding.{Holds, Holds-word, get_entry-Holds, read-Holds}
use spx.Net.Sys.{Sys, Fd}
use spx.Net.ActiveSocket
use spx.Http.Parser.{Parser}
use spx.Clients.Client
use spx.Clients.Client.{Client}
use spx.Clients.ClientsList
use spx.Clients.ClientsList.{find_client, store_client}
use spx.Clients.Wire.{SendContract}
use spx.Server.State.{Server, load, on_cache}
use spx.Server.Connect.{max_chunk_size}
use spx.Server.Sending.{send_cached_chunk}
use spx.Server.Safety.Slots.{find_client-id, find_client-store_client}

-- The client `c`, at the address `id`, has got the first `sent_bytes` bytes of the entry `e`, which
-- the cache holds for its request; `sent` is the log of the bytes that each descriptor has taken.
pub record Synced {lib : Parser} {W : Type 0} (sent : W → Fd → List ℕ) (id : ℕ) (e : Entry)
    (s : Server lib W) (c : Client lib) : Type 0 where
  pub live : find_client id s.clients.slots ≡ some c
  pub cached : Holds s.cache c.request_str e
  pub synced : sent s.clients.host.world c.client_connection.fd ≡ take c.sent_bytes e.buffer
  pub bounded : c.sent_bytes ≤ length e.buffer

module _ {lib : Parser} where
  abbrev pub chunk_size : Entry → Client lib → ℕ
  chunk_size e c = min (length e.buffer - c.sent_bytes) max_chunk_size

  -- The bytes that are offered next.
  abbrev pub next_chunk : Entry → Client lib → List ℕ
  next_chunk e c = take (chunk_size e c) (drop c.sent_bytes e.buffer)

  abbrev pub advanced : ℕ → Client lib → Client lib
  advanced n c = record c { sent_bytes = c.sent_bytes + n }

  pub length-next_chunk : (e : Entry) (c : Client lib) → length (next_chunk e c) ≡ chunk_size e c
  length-next_chunk e c = length-take-le (chunk_size e c) (drop c.sent_bytes e.buffer) (
      omega (
        arith,
        length-drop c.sent_bytes e.buffer,
        min-le_left (length e.buffer - c.sent_bytes) max_chunk_size,
      ))

  -- What has been sent and the beginning of the next chunk.
  take-next_chunk :
      (n : ℕ) (e : Entry) (c : Client lib)
      → n ≤ chunk_size e c
      → take c.sent_bytes e.buffer ++ take n (next_chunk e c) ≡ take (c.sent_bytes + n) e.buffer
  take-next_chunk n e c le =
      ap (λ t. take c.sent_bytes e.buffer ++ t)
        (take-take n (chunk_size e c) (drop c.sent_bytes e.buffer) le)
      ∙ take-append-drop c.sent_bytes n e.buffer

module _ {lib : Parser} {W : Type 0} (sys : Sys W) (sent : W → Fd → List ℕ)
    (k : SendContract sys sent) (id : ℕ) (e : Entry) (s : Server lib W) (c : Client lib) where
  -- The server when `n` bytes of the next chunk have been taken, with the cache `d`.
  abbrev pub after_chunk : ℕ → Methods.Cache → Server lib W
  after_chunk n d = record s {
    cache = d;
    clients = record {
      slots = store_client (advanced n c) s.clients.slots;
      host = record (s.clients.host) {
        world = (sys.send c.client_connection.fd (next_chunk e c) s.clients.host.world).1;
      };
    };
  }

  -- The next chunk goes out, whatever the client has been sent before.
  pub send_cached_chunk_run :
      (n : ℕ)
      → find_client id s.clients.slots ≡ some c
      → Holds s.cache c.request_str e
      → c.sent_bytes ≤ length e.buffer
      → (sys.send c.client_connection.fd (next_chunk e c) s.clients.host.world).0 ≡ some n
      → (d : Methods.Cache) × (send_cached_chunk sys id (length e.buffer) s
          ≡ returns tt (after_chunk n d))
        × Holds d c.request_str e
        × (find_client id (after_chunk n d).clients.slots ≡ some (advanced n c))
        × (n ≤ chunk_size e c)
  unfolding send_cached_chunk load ClientsList.on_client Client.send_to_client ActiveSocket.send
  send_cached_chunk_run n live cached bounded r =
      let fd = c.client_connection.fd in
      let w = s.clients.host.world in
      let le : n ≤ chunk_size e c =
        omega (arith, k.within fd (next_chunk e c) w n r, length-next_chunk e c) in
      let fits : c.sent_bytes + chunk_size e c ≤ length e.buffer =
        omega (arith, bounded, min-le_left (length e.buffer - c.sent_bytes) max_chunk_size) in
      let (d, p, held) =
        read-Holds s.cache c.request_str e cached c.sent_bytes (chunk_size e c) fits in
      let word : add_size c.sent_bytes n ≡ c.sent_bytes + n =
        omega (arith, Holds-word s.cache c.request_str e cached) in
      let same = find_client-id id s.clients.slots c live in
      (
        d,
        rw
            (
              send_cached_chunk, load, live, p, ClientsList.on_client, live, Client.send_to_client,
              ActiveSocket.send, r, word,
            )
            refl,
        held,
        find_client-store_client id s.clients.slots c (advanced n c)
              (ap (λ i. find_client i s.clients.slots) same ∙ live)
            ∙ ground arith,
        le,
      )

  -- The next chunk goes out, and as much of it as is taken counts as sent.
  pub send_cached_chunk-Synced :
      (n : ℕ)
      → Synced sent id e s c
      → (sys.send c.client_connection.fd (next_chunk e c) s.clients.host.world).0 ≡ some n
      → (t : Server lib W) × (send_cached_chunk sys id (length e.buffer) s ≡ returns tt t)
        × Synced sent id e t (advanced n c)
        × (n ≤ chunk_size e c)
  send_cached_chunk-Synced n y r =
      let fd = c.client_connection.fd in
      let w = s.clients.host.world in
      let (d, run, held, now, le) = send_cached_chunk_run n y.live y.cached y.bounded r in
      (
        after_chunk n d,
        run,
        record {
          live = now;
          cached = held;
          synced =
              k.logged fd (next_chunk e c) w n r
              ∙ ap (λ l. l ++ take n (next_chunk e c)) y.synced
              ∙ take-next_chunk n e c le;
          bounded =
              omega
                (arith, le, y.bounded, min-le_left (length e.buffer - c.sent_bytes) max_chunk_size);
        },
        le,
      )

  -- The entry is looked up, which changes only the cache.
  pub found :
      Synced sent id e s c
      → (d : Methods.Cache) × (on_cache (Methods.get_entry c.request_str >>= Methods.load_entry) s
          ≡ returns e (record s { cache = d }))
        × Synced sent id e (record s { cache = d }) c
  found y =
      let (d, p, held) = get_entry-Holds s.cache c.request_str e y.cached in
      (
        d,
        rw p refl,
        record { live = y.live; cached = held; synced = y.synced; bounded = y.bounded },
      )
