-- ===== src/Server/Mixed/Tests.antt =====
-- A client with the first byte of a response of the status 404, when another client's response is good.
use spx.Prelude.{◌≡◌, refl, [], ◌∷◌, List, ℕ, none, some, true, false, arith}
use spx.Outcome.{returns, ◌>>◌}
use spx.Cache.Entry.{Entry}
use spx.Cache.Store.{lookup}
use spx.Cache.Nodes.{total, addr_of}
use spx.Cache.Methods.{Cache}
use spx.Cache.Spec.{find}
use spx.Cache.Holding.{Holds}
use spx.Clients.Client.{Client, State, same_client}
use spx.Clients.ClientsList.{find_client}
use spx.Clients.Tests.{logging, logging-SendContract}
use spx.Server.State.{Server}
use spx.Server.Response.{share_with}
use spx.Server.Sending.{send_response_to_client}
use spx.Server.Tests.{no_parser, page, waiting_client}
use spx.Server.Synced.{advanced}
use spx.Server.Mixed.{switched, share_with_mixed}

abbrev good_response : Entry
good_response = record { buffer = 1 ∷ 2 ∷ 3 ∷ []; completed = false; in_use = 1 }

abbrev sharing_cache : Cache
sharing_cache = record {
  max_size = 16;
  current_size = 3;
  list = record { addr = 0; key = page; entry = good_response } ∷ [];
  hash_table = (page, 0) ∷ [];
  next_addr = 1;
}

sharing_cache-Holds : Holds sharing_cache page good_response
unfolding lookup total addr_of find
sharing_cache-Holds = record {
  valid = record {
    distinct = (tt, tt, tt);
    indexed = λ k. refl;
    sized = refl;
    bounded = omega arith;
    word = omega arith;
    fresh = omega arith;
  };
  present = ground arith;
}

-- It has been sent the byte 9 of its own response, and 8 waits for it.
abbrev private_client : Client no_parser
private_client = record waiting_client {
  id = 8;
  client_connection = record { id = 6; socket = record { fd = some 5 } };
  state = State.waiting_response;
  sent_bytes = 1;
  chunks = (8 ∷ []) ∷ [];
}

abbrev sharing_server : Server no_parser (List ℕ)
sharing_server = record {
  server_socket = record { socket = record { fd = some 4 }; port = 8080 };
  cache = sharing_cache;
  clients = record {
    slots = none ∷ none ∷ none ∷ some waiting_client ∷ none ∷ some private_client ∷ [];
    host = record { world = 9 ∷ []; next_id = 30 };
  };
  request_clients_map = (page, 8 ∷ 7 ∷ []) ∷ [];
  is_running = true;
}

share_with_mixed_example :
    (t : Server no_parser (List ℕ)) × ((share_with logging 7 8 >> send_response_to_client logging 8)
        sharing_server
      ≡ returns tt t)
    × (t.clients.host.world ≡ 9 ∷ 2 ∷ 3 ∷ [])
    × (find_client 8 t.clients.slots ≡ some (advanced 2 (switched private_client)))
unfolding find_client same_client
share_with_mixed_example =
    share_with_mixed logging (λ w fd. w) logging-SendContract 7 8 2 good_response sharing_server
      waiting_client private_client refl refl refl sharing_cache-Holds (omega arith) refl
