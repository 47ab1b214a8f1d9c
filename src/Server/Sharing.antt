-- ===== src/Server/Sharing.antt =====
-- The methods of src/server.cpp that bring one response to all clients with its request: through the
-- cache, or through each client's own chunks when the cache has no room.
use spx.Prelude.{ℕ, true, false, List, [], ◌∷◌, ◌++◌, drop, length, ltb, if◌then◌else◌}
use spx.Outcome.{M, Exn, all_in_use, pure, throw, ◌>>=◌, ◌>>◌, try_catch}
use spx.Cache.Methods
use spx.Http.Parser.{Parser}
use spx.Clients.Client.{State}
use spx.Server.State.{Server, on_cache, load, change, request_clients, for_each}

module _ {lib : Parser} {W : Type 0} where
  unfoldable pub write_response_chunk_to_client_buffer : ℕ → List ℕ → M (Server lib W) (Unit {0})
  write_response_chunk_to_client_buffer id chunk =
      change id (λ c. record c { chunks = c.chunks ++ chunk ∷ [] })

  -- The part of the response that the client has not been sent yet.
  abbrev pub catch_up : ℕ → List ℕ → M (Server lib W) (Unit {0})
  catch_up id buffer = do
    c ← load id
    if ltb c.sent_bytes (length buffer)
        then change id (λ c. record c { chunks = c.chunks ++ drop c.sent_bytes buffer ∷ [] })
        else pure tt

  -- The body of the loop of `fallbackToClientBuffer`.
  unfoldable pub fall_back : List ℕ → ℕ → M (Server lib W) (Unit {0})
  fall_back chunk id = do
    change id (λ c. record c {
      should_read_from_cache = false;
      state = State.getting_response_from_another_client;
    })
    client ← load id
    entry ← on_cache (Methods.get_entry client.request_str >>= Methods.load_entry)
    catch_up id entry.buffer
    write_response_chunk_to_client_buffer id chunk
    on_cache (Methods.disuse_entry client.request_str)

  unfoldable pub fallback_to_client_buffer : ℕ → List ℕ → M (Server lib W) (Unit {0})
  fallback_to_client_buffer original chunk = do
    client ← load original
    ids ← request_clients client.request_str
    for_each (fall_back chunk) ids
    change original (λ c. record c {
      should_write_to_cache = false;
      should_write_to_all = true;
      state = State.waiting_response;
    })

  -- `catch (const AllInUseException &e)`.
  abbrev pub catch_all_in_use : M (Server lib W) (Unit {0}) → Exn → M (Server lib W) (Unit {0})
  catch_all_in_use handler all_in_use = handler
  catch_all_in_use handler e = throw e

  unfoldable pub write_response_chunk_to_cache : ℕ → List ℕ → M (Server lib W) (Unit {0})
  write_response_chunk_to_cache id chunk = do
    client ← load id
    try_catch (on_cache (Methods.write client.request_str chunk))
        (catch_all_in_use (fallback_to_client_buffer id chunk))

  unfoldable pub set_client_to_get_response_from_cache : ℕ → M (Server lib W) (Unit {0})
  set_client_to_get_response_from_cache id = do
    change id (λ c. record c { state = State.got_response })
    client ← load id
    on_cache (Methods.use_entry client.request_str)
    change id (λ c. record c { should_read_from_cache = true })
