-- ===== src/Server/Requests.antt =====
-- `addToRequestClients`, `removeFromRequestClients`, `hasClientsWithRequest` and
-- `prepareAllWaitingClientsForSending` of src/server.cpp: which clients wait for which request.
use spx.Prelude.{ℕ, Bool, true, false, List, [], ◌∷◌, ◌++◌, Option, none, some, Str, if◌then◌else◌}
use spx.Outcome.{M, pure, ◌>>=◌, get}
use spx.Dict.{lookup}
use spx.Net.Sys.{Sys}
use spx.Http.Parser.{Parser}
use spx.Clients.Client.{Client, State, same_client}
use spx.Server.State.{Server, load, request_clients, set_request_clients, for_each}
use spx.Server.Connect.{prepare_for_sending_request}

abbrev is_nonempty : Option (List ℕ) → Bool
is_nonempty none = false
is_nonempty (some []) = false
is_nonempty (some (id ∷ ids)) = true

unfoldable pub is_waiting_for_response_for_another_client : State → Bool
is_waiting_for_response_for_another_client State.waiting_for_response_for_another_client = true
is_waiting_for_response_for_another_client _ = false

module _ {lib : Parser} {W : Type 0} where
  unfoldable pub add_to_request_clients : ℕ → M (Server lib W) (Unit {0})
  add_to_request_clients id = do
    client ← load id
    s ← get
    elim (lookup client.request_str s.request_clients_map) [
      | none ↦ set_request_clients client.request_str (id ∷ [])
      | some ids ↦ set_request_clients client.request_str (ids ++ id ∷ [])
    ]

  -- `std::remove_if` by `client == c`.
  unfoldable pub without_client : Client lib → List ℕ → M (Server lib W) (List ℕ)
  without_client client [] = pure []
  without_client client (id ∷ ids) = do
    c ← load id
    rest ← without_client client ids
    pure (if same_client client c then rest else id ∷ rest)

  unfoldable pub remove_from_request_clients : ℕ → M (Server lib W) (Unit {0})
  remove_from_request_clients id = do
    client ← load id
    ids ← request_clients client.request_str
    rest ← without_client client ids
    set_request_clients client.request_str rest

  unfoldable pub has_clients_with_request : Str → Server lib W → Bool
  has_clients_with_request request s = is_nonempty (lookup request s.request_clients_map)

  module _ (sys : Sys W) where
    abbrev pub prepare_if_waiting : ℕ → M (Server lib W) (Unit {0})
    prepare_if_waiting id = do
      c ← load id
      if is_waiting_for_response_for_another_client c.state
          then prepare_for_sending_request sys id
          else pure tt

    unfoldable pub prepare_all_waiting_clients_for_sending : Str → M (Server lib W) (Unit {0})
    prepare_all_waiting_clients_for_sending request = do
      ids ← request_clients request
      for_each prepare_if_waiting ids
