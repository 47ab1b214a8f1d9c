-- ===== src/Server/Lingering/Tests.antt =====
-- The connection to a host fails, and the host has no address for the client that waits.
use spx.Prelude.{◌≡◌, refl, [], ◌∷◌, none, some, true, false, arith}
use spx.Outcome.{returns}
use spx.Dict.{lookup}
use spx.Cache.Methods
use spx.Net.Sys.{Sys}
use spx.Http.Parser.{Parser}
use spx.Http.HttpRequest
use spx.Clients.Client.{Client, State}
use spx.Clients.ClientsList.{find_client}
use spx.Server.State.{Server}
use spx.Server.Events.{handle_client_socket_events}
use spx.Server.Tests.{no_parser, page, origin, bringing}
use spx.Server.Lingering.{handle_client_socket_events_lingering}

abbrev url_parser : Parser
url_parser = record no_parser { is_valid = λ u. true }

abbrev failing : Sys (Unit {0})
failing = record (bringing []) { recv = λ fd n w. (none, w) }

abbrev asking_client : Client url_parser
asking_client = record {
  id = 7;
  request_str = page;
  request = HttpRequest.empty url_parser;
  client_connection = record { id = 5; socket = record { fd = some 3 } };
  server_connection = some origin;
  state = State.waiting_response_status_code;
  sent_bytes = 0;
  chunks = [];
  should_write_to_cache = false;
  should_read_from_cache = false;
  should_write_to_all = false;
}

abbrev next_client : Client url_parser
next_client = record asking_client {
  id = 8;
  client_connection = record { id = 6; socket = record { fd = some 5 } };
  server_connection = none;
  state = State.waiting_for_response_for_another_client;
}

abbrev failing_server : Server url_parser (Unit {0})
failing_server = record {
  server_socket = record { socket = record { fd = some 4 }; port = 8080 };
  cache = Methods.create 16777216;
  clients = record {
    slots = none ∷ none ∷ none ∷ some asking_client ∷ none ∷ some next_client ∷ [];
    host = record { world = tt; next_id = 30 };
  };
  request_clients_map = (page, 7 ∷ 8 ∷ []) ∷ [];
  is_running = true;
}

handle_client_socket_events_lingering_example :
    (t : Server url_parser (Unit {0})) × (handle_client_socket_events failing 7 1 failing_server
      ≡ returns tt t)
    × (t.clients.slots ≡ failing_server.clients.slots)
    × (lookup page t.request_clients_map ≡ some (7 ∷ 8 ∷ []))
unfolding find_client lookup
handle_client_socket_events_lingering_example =
    handle_client_socket_events_lingering failing 7 8 1 [] tt tt failing_server asking_client
      next_client origin refl refl refl refl refl (ground arith) refl refl refl refl
