-- ===== src/Server/Takeover/Tests.antt =====
-- A client that reads a response goes while another waits and a third reads from the cache.
use spx.Prelude.{ℕ, ◌≡◌, ◌==◌, refl, [], ◌∷◌, none, some, true, false, arith}
use spx.Outcome.{returns}
use spx.Dict.{lookup}
use spx.Clients.Client.{Client, State, is_reading_from_cache, is_got_response}
use spx.Clients.ClientsList.{find_client}
use spx.Server.State.{Server}
use spx.Server.Discard.{pass_on_connection}
use spx.Server.Tests.{no_parser, bringing, page, waiting_client}
use spx.Server.Takeover.{heir, pass_on_connection-heir}

abbrev leaving_client : Client no_parser
leaving_client = record waiting_client { state = State.waiting_response }

abbrev busy_client : Client no_parser
busy_client = record waiting_client {
  id = 8;
  client_connection = record { id = 6; socket = record { fd = some 5 } };
  server_connection = none;
  state = State.waiting_for_response_for_another_client;
}

abbrev cached_client : Client no_parser
cached_client = record waiting_client {
  id = 9;
  client_connection = record { id = 10; socket = record { fd = some 6 } };
  server_connection = none;
  state = State.got_response;
  sent_bytes = 3;
  should_read_from_cache = true;
}

abbrev three_clients : Server no_parser (Unit {0})
three_clients = record {
  server_socket = record { socket = record { fd = some 4 }; port = 8080 };
  cache = record { max_size = 0; current_size = 0; list = []; hash_table = []; next_addr = 0 };
  clients = record {
    slots =
        none
        ∷ none
        ∷ none
        ∷ some leaving_client
        ∷ none
        ∷ some busy_client
        ∷ some cached_client
        ∷ [];
    host = record { world = tt; next_id = 30 };
  };
  request_clients_map = (page, 8 ∷ 9 ∷ []) ∷ [];
  is_running = true;
}

pass_on_connection-heir_example :
    (t : Server no_parser (Unit {0})) × (pass_on_connection (bringing []) 7 three_clients
      ≡ returns tt t)
    × (t.cache ≡ three_clients.cache)
    × (find_client 9 t.clients.slots ≡ some (heir cached_client leaving_client))
    × (find_client 7 t.clients.slots ≡ some (record leaving_client { server_connection = none }))
    × ((j : ℕ) (x : Client no_parser)
        → (9 == j) ≡ false
        → (7 == j) ≡ false
        → find_client j three_clients.clients.slots ≡ some x
        → find_client j t.clients.slots ≡ some x)
unfolding find_client lookup is_reading_from_cache is_got_response
pass_on_connection-heir_example =
    pass_on_connection-heir (bringing []) 7 9 (8 ∷ []) [] three_clients leaving_client cached_client
      refl refl (ground arith) ((busy_client, refl, refl), tt) refl refl refl
