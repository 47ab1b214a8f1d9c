-- ===== src/Server/Delivery.antt =====
-- How `sendCachedResponseToClient` of src/server.cpp gets a cached response to a client.
pub mod Tests
use Prim.Native.Nat.{min}
use native.Mathlib.Nat.{min-le_left, le-min}
use spx.Prelude.{
  ℕ, zero, suc, ◌+◌, ◌-◌, ◌≤◌, ◌<◌, ◌≡◌, refl, sym, ap, ◌∙◌, ◌==◌, ltb, true, false, List, ◌++◌,
  some, none, take, drop, length, arith, if◌then◌else◌, Bool-cases, inl, inr, take-length,
  length-take-le, length-drop, take-take, take-append-drop,
}
use spx.Prelude.Words.{add_size, size_mod}
use spx.Outcome.{M, Outcome, returns, throws, fault, pure, ◌>>=◌, ◌>>◌, try_catch}
use spx.Cache.Entry
use spx.Cache.Entry.{Entry}
use spx.Cache.Methods
use spx.Cache.Holding.{Holds, Holds-word, get_entry-Holds, read-Holds}
use spx.Net.Sys.{Sys, Fd}
use spx.Net.ActiveSocket
use spx.Http.Parser.{Parser}
use spx.Clients.Client
use spx.Clients.Client.{Client}
use spx.Clients.ClientsList
use spx.Clients.ClientsList.{find_client, store_client}
use spx.Clients.Wire.{SendContract}
use spx.Server.State.{Server, load, on_client, on_cache}
use spx.Server.Connect.{max_chunk_size}
use spx.Server.Discard.{discard_client}
use spx.Server.Sending.{send_cached_chunk, send_cached_response_to_client, catch_missing_or_error}
use spx.Server.Safety.Slots.{find_client-id, find_client-store_client}
use spx.Server.Synced.{
  Synced, chunk_size, next_chunk, advanced, length-next_chunk, send_cached_chunk-Synced, found,
}

module _ {W : Type 0} (sys : Sys W) where
  -- send(2) takes at least one byte.
  abbrev pub Takes : Type 0
  Takes =
      (fd : Fd) (bytes : List ℕ) (w : W)
      → 1 ≤ length bytes
      → (n : ℕ) × ((sys.send fd bytes w).0 ≡ some n) × (1 ≤ n)

module _ {lib : Parser} {W : Type 0} (sys : Sys W) (sent : W → Fd → List ℕ)
    (k : SendContract sys sent) (id : ℕ) (e : Entry) where
  -- While the client has only a beginning of a cached entry, and send(2), which keeps to its contract,
  -- takes `n` bytes of the next part of it, of at most 1024 bytes, the handler returns, and the client
  -- has exactly the first `sent_bytes` bytes again, with `n` more.
  pub send_cached_response_to_client-Synced :
      (s : Server lib W) (c : Client lib) (n : ℕ)
      → Synced sent id e s c
      → c.sent_bytes < length e.buffer
      → (sys.send c.client_connection.fd (next_chunk e c) s.clients.host.world).0 ≡ some n
      → (t : Server lib W) × (send_cached_response_to_client sys id s ≡ returns tt t)
        × Synced sent id e t (advanced n c)
  unfolding send_cached_response_to_client load
  send_cached_response_to_client-Synced s c n y more r =
      let (d, p, y') = found sys sent k id e s c y in
      let (t, run, z, le) =
        send_cached_chunk-Synced sys sent k id e (record s { cache = d }) c n y' r in
      let test : ltb c.sent_bytes (length e.buffer) ≡ true = ground arith in
      (t, rw (send_cached_response_to_client, load, y.live, p, test, run) refl, z)

  all_sent :
      (s : Server lib W) (c : Client lib)
      → Synced sent id e s c
      → c.sent_bytes ≡ length e.buffer
      → sent s.clients.host.world c.client_connection.fd ≡ e.buffer
  all_sent s c y all = y.synced ∙ ap (λ i. take i e.buffer) all ∙ take-length e.buffer

  -- The handler, so many times.
  abbrev pub rounds : ℕ → M (Server lib W) (Unit {0})
  rounds zero = pure tt
  rounds (suc j) = send_cached_response_to_client sys id >> rounds j

  -- After at most `fuel` rounds the client has the bytes of the entry.
  abbrev pub Delivered : ℕ → Server lib W → Client lib → Type 0
  Delivered fuel s c =
      (j : ℕ) × (t : Server lib W) × (j ≤ fuel)
      × (rounds j s ≡ returns tt t)
      × (sent t.clients.host.world c.client_connection.fd ≡ e.buffer)

  delivered :
      Takes sys
      → (fuel : ℕ) (s : Server lib W) (c : Client lib) → Synced sent id e s c
      → length e.buffer ≤ c.sent_bytes + fuel
      → Delivered fuel s c
  delivered takes zero s c y enough =
      (0, s, omega arith, refl, all_sent s c y (omega (arith, y.bounded)))
  delivered takes (suc fuel) s c y enough = elim (Bool-cases (ltb c.sent_bytes (length e.buffer))) [
    | inr all ↦ (0, s, omega arith, refl, all_sent s c y (ground (arith, y.bounded)))
    | inl more ↦
        let some_left : 1 ≤ length (next_chunk e c) =
          let left : 1 ≤ length e.buffer - c.sent_bytes = ground arith in
          omega (
            arith,
            length-next_chunk e c,
            le-min {k = 1} {a = length e.buffer - c.sent_bytes} {b = max_chunk_size} left
                (omega arith),
          ) in
        let (n, r, one) =
          takes c.client_connection.fd (next_chunk e c) s.clients.host.world some_left in
        let (t, run, z) = send_cached_response_to_client-Synced s c n y (ground arith) r in
        let (j, u, le, rest, got) = delivered takes fuel t (advanced n c) z (omega arith) in
        (suc j, u, omega arith, rw run rest, got)
  ]

  -- When send(2) keeps to its contract and takes at least one byte each time, a client that has got a
  -- beginning of a cached entry has got exactly the bytes of the entry after at most as many of its
  -- events as bytes are left, all of which return.
  pub send_cached_response_to_client-Delivered :
      (s : Server lib W) (c : Client lib)
      → Takes sys
      → Synced sent id e s c
      → Delivered (length e.buffer - c.sent_bytes) s c
  send_cached_response_to_client-Delivered s c takes y =
      delivered takes (length e.buffer - c.sent_bytes) s c y (omega (arith, y.bounded))
