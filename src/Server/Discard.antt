-- ===== src/Server/Discard.antt =====
-- `acceptClient` and `discardClient` of src/server.cpp.
use spx.Prelude.{ℕ, Bool, true, false, ◌&&◌, List, [], ◌∷◌, Option, none, some, if◌then◌else◌}
use spx.Outcome.{M, pure, ◌>>=◌, ◌>>◌, get}
use spx.Cache.Methods
use spx.Net.Sys.{Sys}
use spx.Net.PassiveSocket
use spx.Http.Parser.{Parser}
use spx.Clients.Client.{State, is_reading_from_cache, obtain_server_connection}
use spx.Clients.ClientsList
use spx.Server.State.{Server, on_cache, on_clients, on_host, load, change, request_clients}
use spx.Server.Requests.{remove_from_request_clients, has_clients_with_request}

unfoldable pub is_waiting_response : State → Bool
is_waiting_response State.waiting_response = true
is_waiting_response _ = false

module _ {lib : Parser} {W : Type 0} where
  -- `std::find_if` by `isReadingFromCache`.
  unfoldable pub find_reading_from_cache : List ℕ → M (Server lib W) (Option ℕ)
  find_reading_from_cache [] = pure none
  find_reading_from_cache (id ∷ ids) = do
    let next = find_reading_from_cache ids
    c ← load id
    if is_reading_from_cache c then pure (some id) else next

  -- `reading_from_cache_client->get().obtainServerConnection(client)`.
  unfoldable pub hand_over_connection : ℕ → ℕ → M (Server lib W) (Unit {0})
  hand_over_connection to from = do
    reader ← load to
    client ← load from
    change to (λ c. (obtain_server_connection c client).0)
    change from (λ c. (obtain_server_connection reader c).1)

  module _ (sys : Sys W) where
    unfoldable pub accept_client : M (Server lib W) (Unit {0})
    accept_client = do
      s ← get
      connection ← on_host (PassiveSocket.accept sys s.server_socket)
      on_clients (ClientsList.accept_client sys connection)

    -- The reader that takes over, if the client was the one that read the response.
    unfoldable pub pass_on_connection : ℕ → M (Server lib W) (Unit {0})
    pass_on_connection id = do
      client ← load id
      s ← get
      if is_waiting_response client.state && has_clients_with_request client.request_str s
          then (do
            ids ← request_clients client.request_str
            found ← find_reading_from_cache ids
            elim found [ none ↦ pure tt | some reader ↦ hand_over_connection reader id ])
          else pure tt

    unfoldable pub discard_client : ℕ → M (Server lib W) (Unit {0})
    discard_client id = do
      client ← load id
      _ ← request_clients client.request_str
      remove_from_request_clients id
      pass_on_connection id
      on_cache (Methods.disuse_entry client.request_str)
      on_clients (ClientsList.discard_client sys id)
