-- ===== src/Server/Stranded/Tests.antt =====
-- The first chunk of a response for two clients, while the cache has no room.
use spx.Prelude.{◌≡◌, refl, [], ◌∷◌, none, some, true, arith}
use spx.Outcome.{throws, key_not_found}
use spx.Dict.{lookup}
use spx.Cache.Entry
use spx.Cache.Store
use spx.Cache.Nodes.{total, addr_of}
use spx.Cache.Methods.{Cache}
use spx.Cache.Spec.{find}
use spx.Cache.Holding.{Holds}
use spx.Clients.Client.{Client, State}
use spx.Clients.ClientsList.{find_client}
use spx.Server.State.{Server}
use spx.Server.Sharing.{fallback_to_client_buffer}
use spx.Server.Tests.{no_parser, page, waiting_client}
use spx.Server.Fallen.{fallen, redirected}
use spx.Server.Stranded.{fallback_to_client_buffer_stranded}

abbrev full_cache : Cache
full_cache = record {
  max_size = 0;
  current_size = 0;
  list = record { addr = 0; key = page; entry = Entry.new_entry } ∷ [];
  hash_table = (page, 0) ∷ [];
  next_addr = 1;
}

full_cache-Holds : Holds full_cache page Entry.new_entry
unfolding Store.lookup total addr_of find
full_cache-Holds = record {
  valid = record {
    distinct = (tt, tt, tt);
    indexed = λ k. refl;
    sized = refl;
    bounded = omega arith;
    word = omega arith;
    fresh = omega arith;
  };
  present = ground arith;
}

abbrev second_client : Client no_parser
second_client = record waiting_client {
  id = 8;
  client_connection = record { id = 6; socket = record { fd = some 5 } };
  server_connection = none;
  state = State.waiting_for_response_for_another_client;
}

abbrev full_server : Server no_parser (Unit {0})
full_server = record {
  server_socket = record { socket = record { fd = some 4 }; port = 8080 };
  cache = full_cache;
  clients = record {
    slots = none ∷ none ∷ none ∷ some waiting_client ∷ none ∷ some second_client ∷ [];
    host = record { world = tt; next_id = 30 };
  };
  request_clients_map = (page, 7 ∷ 8 ∷ []) ∷ [];
  is_running = true;
}

fallback_to_client_buffer_stranded_example :
    (t : Server no_parser (Unit {0})) × (fallback_to_client_buffer 7 (1 ∷ []) full_server
      ≡ throws key_not_found t)
    × (find_client 7 t.clients.slots ≡ some (fallen Entry.new_entry (1 ∷ []) waiting_client))
    × (find_client 8 t.clients.slots ≡ some (redirected second_client))
unfolding find_client lookup
fallback_to_client_buffer_stranded_example =
    fallback_to_client_buffer_stranded 7 8 (1 ∷ []) [] Entry.new_entry full_server waiting_client
      second_client refl refl refl refl (ground arith) full_cache-Holds refl refl
