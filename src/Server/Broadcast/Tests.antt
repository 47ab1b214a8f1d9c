-- ===== src/Server/Broadcast/Tests.antt =====
-- A chunk for two clients, of which one reads the response from the server.
use spx.Prelude.{◌≡◌, refl, [], ◌∷◌, none, some, true, arith}
use spx.Outcome.{returns}
use spx.Dict.{lookup}
use spx.Clients.Client.{Client, State}
use spx.Clients.ClientsList.{find_client}
use spx.Server.State.{Server}
use spx.Server.Response.{read_response_from_server}
use spx.Server.Tests.{no_parser, bringing, page, origin, waiting_client}
use spx.Server.Broadcast.{Shared, read_response_from_server-Shared}

abbrev reader : Client no_parser
reader = record waiting_client { state = State.waiting_response; should_write_to_all = true }

abbrev listener : Client no_parser
listener = record waiting_client {
  id = 8;
  client_connection = record { id = 6; socket = record { fd = some 5 } };
  server_connection = none;
  state = State.getting_response_from_another_client;
}

abbrev shared_server : Server no_parser (Unit {0})
shared_server = record {
  server_socket = record { socket = record { fd = some 4 }; port = 8080 };
  cache = record { max_size = 0; current_size = 0; list = []; hash_table = []; next_addr = 0 };
  clients = record {
    slots = none ∷ none ∷ none ∷ some reader ∷ none ∷ some listener ∷ [];
    host = record { world = tt; next_id = 30 };
  };
  request_clients_map = (page, 7 ∷ 8 ∷ []) ∷ [];
  is_running = true;
}

read_response_from_server-Shared_example :
    (t : Server no_parser (Unit {0})) × (read_response_from_server
        (bringing (1 ∷ 2 ∷ []))
        7
        shared_server
      ≡ returns tt t)
    × Shared (1 ∷ 2 ∷ []) (7 ∷ 8 ∷ []) shared_server.clients.slots t.clients.slots
    × (t.cache ≡ shared_server.cache)
unfolding find_client lookup
read_response_from_server-Shared_example =
    read_response_from_server-Shared (bringing (1 ∷ 2 ∷ [])) 7 1 (2 ∷ []) (7 ∷ 8 ∷ []) tt
      shared_server reader origin refl refl refl refl refl (ground arith)
      ((reader, refl), ((listener, refl), tt)) (refl, (refl, tt))
