-- ===== src/Server/Sending.antt =====
-- `sendResponseToClient`, `sendUncachedResponseToClient` and `sendCachedResponseToClient` of
-- src/server.cpp.
use Prim.Native.Nat.{min}
use spx.Prelude.{ℕ, ◌-◌, Bool, true, false, List, [], ◌∷◌, if◌then◌else◌, ltb}
use spx.Outcome.{M, Exn, key_not_found, pure, ◌>>=◌, try_catch, catch_exception}
use spx.Cache.Entry
use spx.Cache.Methods
use spx.Net.Sys.{Sys}
use spx.Http.Parser.{Parser}
use spx.Clients.Client
use spx.Clients.Client.{Client, is_got_response}
use spx.Server.State.{Server, on_cache, on_client, load}
use spx.Server.Connect.{max_chunk_size}
use spx.Server.Discard.{discard_client}

abbrev pub is_empty : List (List ℕ) → Bool
is_empty [] = true
is_empty (chunk ∷ rest) = false

module _ {lib : Parser} {W : Type 0} (sys : Sys W) where
  unfoldable pub send_uncached_response_to_client : ℕ → M (Server lib W) (Unit {0})
  send_uncached_response_to_client id =
      try_catch
        (do
          client ← load id
          if is_empty client.chunks
              then (if is_got_response client.state then discard_client sys id else pure tt)
              else on_client id (Client.send_to_client_from_chunks sys))
        (catch_exception (discard_client sys id))

  -- The part of an entry that goes out next.
  unfoldable pub send_cached_chunk : ℕ → ℕ → M (Server lib W) (Unit {0})
  send_cached_chunk id received_bytes = do
    client ← load id
    let chunk_size = min (received_bytes - client.sent_bytes) max_chunk_size
    chunk ← on_cache (Methods.read client.request_str client.sent_bytes chunk_size)
    _ ← on_client id (Client.send_to_client sys chunk)
    pure tt

  -- `catch (const KeyNotFoundException &e)`, then `catch (const Exception &e)`.
  abbrev pub catch_missing_or_error : ℕ → Exn → M (Server lib W) (Unit {0})
  catch_missing_or_error id key_not_found = pure tt
  catch_missing_or_error id e = catch_exception (discard_client sys id) e

  unfoldable pub send_cached_response_to_client : ℕ → M (Server lib W) (Unit {0})
  send_cached_response_to_client id =
      try_catch
        (do
          client ← load id
          entry ← on_cache (Methods.get_entry client.request_str >>= Methods.load_entry)
          let received_bytes = Entry.size entry
          if ltb client.sent_bytes received_bytes
              then send_cached_chunk id received_bytes
              else if entry.completed
              then discard_client sys id
              else pure tt)
        (catch_missing_or_error id)

  unfoldable pub send_response_to_client : ℕ → M (Server lib W) (Unit {0})
  send_response_to_client id = do
    client ← load id
    if client.should_read_from_cache
        then send_cached_response_to_client id
        else send_uncached_response_to_client id
