-- ===== src/Server/Response.antt =====
-- `readRequestFromClient`, `sendRequestToServer`, `readResponseStatusCodeFromServer` and
-- `readResponseFromServer` of src/server.cpp.
use spx.Prelude.{ℕ, ◌+◌, Bool, true, false, ◌==◌, List, if◌then◌else◌, leb, length, take, drop}
use spx.Prelude.Int.{ℤ, pos, negsuc, Stoi, stoi}
use spx.Outcome.{
  M, Exn, zero_length_message, invalid_argument, out_of_range, out_of_bounds, pure, throw, fail,
  ◌>>=◌, ◌>>◌, get, try_catch, catch_exception,
}
use spx.Cache.Entry
use spx.Cache.Methods
use spx.Net.Sys.{Sys}
use spx.Net.ActiveSocket
use spx.Http.Parser.{Parser}
use spx.Clients.Client
use spx.Clients.Client.{Client, State, same_client}
use spx.Server.State.{Server, on_cache, on_client, on_host, load, change, request_clients, for_each}
use spx.Server.Connect.{prepare_for_sending_request, server_connection, read_response_chunk}
use spx.Server.Requests.{
  add_to_request_clients, has_clients_with_request, prepare_all_waiting_clients_for_sending,
}
use spx.Server.Discard.{discard_client}
use spx.Server.Sharing.{
  write_response_chunk_to_client_buffer, write_response_chunk_to_cache,
  set_client_to_get_response_from_cache,
}

abbrev pub status_code_offset : ℕ
status_code_offset = 9

abbrev pub status_code_len : ℕ
status_code_len = 3

abbrev pub ok_status_code : ℕ
ok_status_code = 200

-- The comparison of an `int` with a `size_t`: a negative code is no small number.
unfoldable pub is_ok : ℤ → Bool
is_ok (pos n) = n == ok_status_code
is_ok (negsuc n) = false

module _ {ℓ} {S : Type ℓ} where
  abbrev pub converted : Stoi → M S Bool
  converted (Stoi.value n) = pure (is_ok n)
  converted Stoi.no_conversion = throw invalid_argument
  converted Stoi.out_of_int = throw out_of_range

  -- The status code of the first chunk: is it 200?
  unfoldable pub is_ok_status_code : List ℕ → M S Bool
  is_ok_status_code chunk =
      if leb (status_code_offset + status_code_len) (length chunk)
      then converted (stoi (take status_code_len (drop status_code_offset chunk)))
      else fail out_of_bounds

module _ {lib : Parser} {W : Type 0} (sys : Sys W) where
  unfoldable pub read_request_from_client : ℕ → M (Server lib W) (Unit {0})
  read_request_from_client id =
      try_catch
        (do
          on_client id (Client.get_http_request sys)
          client ← load id
          s ← get
          if Methods.contains client.request_str s.cache
              then set_client_to_get_response_from_cache id
              else if has_clients_with_request client.request_str s
              then change id
                  (λ c. record c { state = State.waiting_for_response_for_another_client })
              else prepare_for_sending_request sys id
          add_to_request_clients id)
        (catch_exception (discard_client sys id))

  unfoldable pub send_request_to_server : ℕ → M (Server lib W) (Unit {0})
  send_request_to_server id =
      try_catch
        (do
          client ← load id
          server_conn ← server_connection sys client.server_connection
          _ ← on_host (ActiveSocket.send_string sys server_conn client.request_str)
          on_host (ActiveSocket.shutdown_write sys server_conn)
          change id (λ c. record c { state = State.waiting_response_status_code }))
        (catch_exception (discard_client sys id))

  -- The body of the loop over the clients with the request of a good response.
  abbrev pub share_with : ℕ → ℕ → M (Server lib W) (Unit {0})
  share_with id other = do
    client ← load id
    c ← load other
    if same_client client c then pure tt else set_client_to_get_response_from_cache other

  -- The two branches on the status code.
  unfoldable pub start_sharing : ℕ → List ℕ → M (Server lib W) (Unit {0})
  start_sharing id chunk = do
    change id (λ c. record c { should_write_to_cache = true })
    change id (λ c. record c { should_read_from_cache = true })
    client ← load id
    on_cache (Methods.use_entry client.request_str)
    write_response_chunk_to_cache id chunk
    ids ← request_clients client.request_str
    for_each (share_with id) ids

  unfoldable pub keep_private : ℕ → List ℕ → M (Server lib W) (Unit {0})
  keep_private id chunk = do
    write_response_chunk_to_client_buffer id chunk
    client ← load id
    prepare_all_waiting_clients_for_sending sys client.request_str

  unfoldable pub read_response_status_code_from_server : ℕ → M (Server lib W) (Unit {0})
  read_response_status_code_from_server id =
      try_catch
        (do
          chunk ← read_response_chunk sys id
          ok ← is_ok_status_code chunk
          if ok then start_sharing id chunk else keep_private id chunk
          change id (λ c. record c { state = State.waiting_response }))
        (catch_exception (do
          client ← load id
          prepare_all_waiting_clients_for_sending sys client.request_str
          discard_client sys id))

  -- A further chunk goes to the cache, to all clients with the request, or to this one.
  unfoldable pub deliver : ℕ → List ℕ → M (Server lib W) (Unit {0})
  deliver id chunk = do
    client ← load id
    if client.should_write_to_cache
        then write_response_chunk_to_cache id chunk
        else if client.should_write_to_all
        then (do
          ids ← request_clients client.request_str
          for_each (λ other. write_response_chunk_to_client_buffer other chunk) ids)
        else write_response_chunk_to_client_buffer id chunk

  -- The end of the response.
  unfoldable pub finish_response : ℕ → M (Server lib W) (Unit {0})
  finish_response id = do
    change id (λ c. record c { state = State.got_response })
    client ← load id
    if client.should_write_to_cache
        then on_cache (do
          entry ← Methods.get_entry client.request_str
          Methods.update_entry entry Entry.complete)
        else if client.should_write_to_all
        then (do
          ids ← request_clients client.request_str
          for_each (λ other. change other (λ c. record c { state = State.got_response })) ids)
        else pure tt

  -- The two handlers of `readResponseFromServer`.
  abbrev pub catch_end_or_error : ℕ → Exn → M (Server lib W) (Unit {0})
  catch_end_or_error id zero_length_message = finish_response id
  catch_end_or_error id e = catch_exception (discard_client sys id) e

  unfoldable pub read_response_from_server : ℕ → M (Server lib W) (Unit {0})
  read_response_from_server id =
      try_catch (do chunk ← read_response_chunk sys id; deliver id chunk) (catch_end_or_error id)
